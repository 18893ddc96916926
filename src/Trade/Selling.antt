-- ===== src/Trade/Selling.antt =====
-- internal/trade/service.go, `Sell` as a whole: its checks and its writes.
use spaceempire_back.Prelude.{
  ℕ, ◌+◌, ◌*◌, ◌≤◌, ◌≡◌, ◌≢◌, false, not, ◌&&◌, Option, List, arith, ◌==◌, if◌then◌else◌,
  Bool-cases, inl, inr,
}
use spaceempire_back.Prelude.Int.{ℤ, pos, pos_part, leb_ℤ, max_i64, wrap_i64, wrap_i64_small}
use spaceempire_back.Domain.{EntityRef, ref_eq, ref_eq_refl}
use spaceempire_back.Store.Tables.{Db}
use spaceempire_back.Store.Tx.{done, run_tx, run_tx-done}
use spaceempire_back.CargoRepo.Weights.{total_of, held, goods_weight, hold_weight}
use spaceempire_back.MarketRepo.{is_station_kind}
use spaceempire_back.Pricing.{Goods}
use spaceempire_back.Trade.{Receipt, ship_ref, unit_price, sell_in, sell}
use spaceempire_back.Trade.Deals.{Deal, DealOnly, wallet, shelf, all_stock, settle_sell-Deal}
use spaceempire_back.Trade.Checks.{CanSell, sell_in-CanSell}

record Sold (bal : Option (List Goods)) (player ship_id : ℕ) (at : EntityRef) (g q : ℕ) (db : Db)
    (r : Receipt) (db' : Db) : Type 0 where
  checks : CanSell player ship_id at g q db
  deal : Deal player ship_id at g (wrap_i64 (r.unit_price * q)) (pos q) 0 q db db'
  price :
      r.unit_price
      ≡ unit_price bal at.kind g checks.column checks.entry.stock checks.entry.max_stock

module _ (bal : Option (List Goods)) (player ship_id : ℕ) (at : EntityRef) (g : ℕ) (qty : ℤ)
    (db : Db) {r : Receipt} {db' : Db}
    (sold : sell bal player ship_id at g qty db ≡ (done r, db')) where
  sell-Sold : Sold bal player ship_id at g (pos_part qty) db r db'
  unfolding sell
  sell-Sold = elim (Bool-cases (leb_ℤ qty (pos 0))) [
    | inl bad ↦ ground arith
    | inr positive ↦ elim (Bool-cases (not (is_station_kind at.kind))) [
      | inl other ↦ ground arith
      | inr fits ↦
          let s : run_tx (sell_in bal player ship_id at g (pos_part qty)) db ≡ (done r, db') =
            ground arith in
          let (c, settled) =
            sell_in-CanSell bal player ship_id at g (pos_part qty) db (run_tx-done _ db s) in
          let (deal, unit, total) =
            settle_sell-Deal player ship_id at g (pos_part qty) _ db settled in
          record { checks = c; deal = rw unit deal; price = unit }
    ]
  ]

  -- Only the owner of a ship that is docked to the station sells there, a good that the station
  -- buys, at the station's current price.
  pub sell-CanSell :
      (c : CanSell player ship_id at g (pos_part qty) db) × (r.unit_price
        ≡ unit_price bal at.kind g c.column c.entry.stock c.entry.max_stock)
  sell-CanSell =
      let s : Sold bal player ship_id at g (pos_part qty) db r db' = sell-Sold in
      (s.checks, s.price)

  pub sell-DealOnly : DealOnly db db'
  sell-DealOnly =
      let s : Sold bal player ship_id at g (pos_part qty) db r db' = sell-Sold in s.deal.frame

  -- Selling only moves goods from hold to shelf: of every goods type, what ships and stations hold
  -- and what shelves offer is together what it was.
  pub sell-conserves :
      (h : ℕ)
      → total_of h db'.cargo + all_stock h db'.station_goods
        ≡ total_of h db.cargo + all_stock h db.station_goods
  unfolding total_of all_stock
  sell-conserves h =
      let s : Sold bal player ship_id at g (pos_part qty) db r db' = sell-Sold in
      ground (
        arith,
        s.deal.cargo_sums (goods_weight h),
        s.deal.stock_sums (λ o k. if k == h then 1 else 0),
      )

  -- Where the price of the whole quantity fits an int64, the seller's wallet gains exactly the unit
  -- price times the quantity, the ship's hold loses the quantity and the station's shelf gains it,
  -- and every other wallet, shelf and hold is as it was.
  pub sell_exact :
      r.unit_price * pos_part qty ≤ max_i64
      → (wallet player db'.players ≡ wallet player db.players + r.unit_price * pos_part qty)
        × ((p : ℕ) → p ≢ player → wallet p db'.players ≡ wallet p db.players)
        × (shelf at g db'.station_goods ≡ shelf at g db.station_goods + pos_part qty)
        × ((o : EntityRef) (h : ℕ)
            → (ref_eq at o && g == h) ≡ false
            → shelf o h db'.station_goods ≡ shelf o h db.station_goods)
        × (held (ship_ref ship_id) g db'.cargo + pos_part qty ≡ held (ship_ref ship_id) g db.cargo)
        × ((o : EntityRef) (h : ℕ)
            → (ref_eq (ship_ref ship_id) o && g == h) ≡ false
            → held o h db'.cargo ≡ held o h db.cargo)
        × DealOnly db db'
  unfolding wallet shelf held
  sell_exact small =
      let s : Sold bal player ship_id at g (pos_part qty) db r db' = sell-Sold in
      let paid : wrap_i64 (r.unit_price * pos_part qty) ≡ pos (r.unit_price * pos_part qty) =
        wrap_i64_small _ small in
      (
        ground (arith, paid, s.deal.cash_sums (λ x. if x == player then 1 else 0)),
        λ p ne. ground (arith, s.deal.cash_sums (λ x. if x == p then 1 else 0)),
        ground (
          arith,
          s.deal.stock_sums (λ o h. if ref_eq o at && h == g then 1 else 0),
          ref_eq_refl at,
        ),
        λ o h e. ground (arith, s.deal.stock_sums (λ x y. if ref_eq x o && y == h then 1 else 0)),
        ground (
          arith,
          s.deal.cargo_sums (hold_weight (ship_ref ship_id) g),
          ref_eq_refl (ship_ref ship_id),
        ),
        λ o h e. ground (arith, s.deal.cargo_sums (hold_weight o h)),
        s.deal.frame,
      )
