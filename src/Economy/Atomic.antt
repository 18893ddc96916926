-- ===== src/Economy/Atomic.antt =====
-- The operations of the economy where they answer an error.
use spaceempire_back.Prelude.{
  ℕ, ◌≡◌, Option, List, none, some, arith, not, ◌||◌, Bool, true, false, if◌then◌else◌,
}
use spaceempire_back.Prelude.Int.{ℤ, pos, pos_part, leb_ℤ, ltb_ℤ}
use spaceempire_back.Domain.{EntityRef, ref_eq}
use spaceempire_back.Store.Tables.{Db}
use spaceempire_back.Store.Tx.{
  Error, Result, err, refuse, run_tx-err, ◌>>◌, non_positive_quantity, same_owner,
  invalid_station_kind, invalid_quantity, invalid_start_price, invalid_duration, bid_too_low,
}
use spaceempire_back.MarketRepo.{is_station_kind}
use spaceempire_back.Pricing.{Goods}
use spaceempire_back.Cargo
use spaceempire_back.Cargo.{move_by_player, transfer_ends, move_docked, move_in}
use spaceempire_back.Trade.{buy, buy_in, sell, sell_in}
use spaceempire_back.Auction.{
  CreateParams, min_duration, max_duration, create, create_in, bid, bid_in,
}

module _ (db : Db) {e : Error} {db' : Db} where
  -- A guard in front of an operation that is atomic.
  if-err {ℓ} :
      {A : Type ℓ} (t : Bool) (f : Error) (rest : Result A × Db)
      → (rest ≡ (err e, db') → db' ≡ db)
      → (if t then refuse f db else rest) ≡ (err e, db')
      → db' ≡ db
  if-err true f rest k h = ground arith
  if-err false f rest k h = k h

  move_docked-err :
      (actor : ℕ) (ends : Option (ℕ × EntityRef)) (from to : EntityRef) (g q : ℕ)
      → move_docked actor ends from to g q db ≡ (err e, db')
      → db' ≡ db
  unfolding move_docked
  move_docked-err actor none from to g q h = ground arith
  move_docked-err actor (some (ship_id, at)) from to g q h =
      run_tx-err (Cargo.authorize_docked actor ship_id at >> move_in actor from to g q) db h

  pub move_by_player-err :
      (actor : ℕ) (from to : EntityRef) (g : ℕ) (qty : ℤ)
      → move_by_player actor from to g qty db ≡ (err e, db')
      → db' ≡ db
  unfolding move_by_player
  move_by_player-err actor from to g qty h =
      if-err (leb_ℤ qty (pos 0)) non_positive_quantity _
        (if-err (ref_eq from to) same_owner _
          (move_docked-err actor (transfer_ends from to) from to g (pos_part qty)))
        h

  pub buy-err :
      (bal : Option (List Goods)) (player ship_id : ℕ) (at : EntityRef) (g : ℕ) (qty : ℤ)
      → buy bal player ship_id at g qty db ≡ (err e, db')
      → db' ≡ db
  unfolding buy
  buy-err bal player ship_id at g qty h =
      if-err (leb_ℤ qty (pos 0)) non_positive_quantity _
        (if-err (not (is_station_kind at.kind)) invalid_station_kind _
          (run_tx-err (buy_in bal player ship_id at g (pos_part qty)) db))
        h

  pub sell-err :
      (bal : Option (List Goods)) (player ship_id : ℕ) (at : EntityRef) (g : ℕ) (qty : ℤ)
      → sell bal player ship_id at g qty db ≡ (err e, db')
      → db' ≡ db
  unfolding sell
  sell-err bal player ship_id at g qty h =
      if-err (leb_ℤ qty (pos 0)) non_positive_quantity _
        (if-err (not (is_station_kind at.kind)) invalid_station_kind _
          (run_tx-err (sell_in bal player ship_id at g (pos_part qty)) db))
        h

  pub create-err :
      (now stamp : ℕ) (p : CreateParams) → create now stamp p db ≡ (err e, db') → db' ≡ db
  unfolding create
  create-err now stamp p h =
      if-err (leb_ℤ p.quantity (pos 0)) invalid_quantity _
        (if-err (leb_ℤ p.start_price (pos 0)) invalid_start_price _ (
          if-err (ltb_ℤ p.duration (pos min_duration) || ltb_ℤ (pos max_duration) p.duration)
            invalid_duration _ (run_tx-err (create_in now stamp p) db)))
        h

  pub bid-err :
      (now bidder ship_id lot_id : ℕ) (amount : ℤ)
      → bid now bidder ship_id lot_id amount db ≡ (err e, db')
      → db' ≡ db
  unfolding bid
  bid-err now bidder ship_id lot_id amount h =
      if-err (leb_ℤ amount (pos 0)) bid_too_low _
        (run_tx-err (bid_in now bidder ship_id lot_id (pos_part amount)) db) h
