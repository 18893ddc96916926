-- ===== src/Trade/Buying.antt =====
-- internal/trade/service.go, `Buy` as a whole: its checks and its writes.
use spaceempire_back.Prelude.{
  ℕ, ◌+◌, ◌*◌, ◌≤◌, ◌≡◌, ◌≢◌, false, not, ◌&&◌, Option, List, arith, ◌==◌, if◌then◌else◌,
  Bool-cases, inl, inr,
}
use spaceempire_back.Prelude.Int.{
  ℤ, pos, pos_part, neg, leb_ℤ, max_i64, wrap_i64, wrap_i64_small, neg_i64, neg_i64_pos,
}
use spaceempire_back.Domain.{EntityRef, ref_eq, ref_eq_refl}
use spaceempire_back.Store.Tables.{Db}
use spaceempire_back.Store.Tx.{done, run_tx, run_tx-done}
use spaceempire_back.CargoRepo.Weights.{total_of, held, goods_weight, hold_weight}
use spaceempire_back.MarketRepo.{is_station_kind}
use spaceempire_back.Pricing.{Goods}
use spaceempire_back.Trade.{Receipt, ship_ref, unit_price, buy_in, buy}
use spaceempire_back.Trade.Deals.{Deal, DealOnly, wallet, shelf, all_stock, settle_buy-Deal}
use spaceempire_back.Trade.Checks.{CanBuy, buy_in-CanBuy}

-- A deal that succeeds, from its checks to its writes.
record Bought (bal : Option (List Goods)) (player ship_id : ℕ) (at : EntityRef) (g q : ℕ) (db : Db)
    (r : Receipt) (db' : Db) : Type 0 where
  checks : CanBuy player ship_id at g q db
  deal : Deal player ship_id at g (neg_i64 (wrap_i64 (r.unit_price * q))) (neg q) q 0 db db'
  price :
      r.unit_price
      ≡ unit_price bal at.kind g checks.column checks.entry.stock checks.entry.max_stock
  total : r.total_amount ≡ wrap_i64 (r.unit_price * q)

module _ (bal : Option (List Goods)) (player ship_id : ℕ) (at : EntityRef) (g : ℕ) (qty : ℤ)
    (db : Db) {r : Receipt} {db' : Db}
    (bought : buy bal player ship_id at g qty db ≡ (done r, db')) where
  buy-Bought : (leb_ℤ qty (pos 0) ≡ false) × Bought bal player ship_id at g (pos_part qty) db r db'
  unfolding buy
  buy-Bought = elim (Bool-cases (leb_ℤ qty (pos 0))) [
    | inl bad ↦ ground arith
    | inr positive ↦ elim (Bool-cases (not (is_station_kind at.kind))) [
      | inl other ↦ ground arith
      | inr fits ↦
          let s : run_tx (buy_in bal player ship_id at g (pos_part qty)) db ≡ (done r, db') =
            ground arith in
          let (c, settled) =
            buy_in-CanBuy bal player ship_id at g (pos_part qty) db (run_tx-done _ db s) in
          let (deal, unit, total) =
            settle_buy-Deal player ship_id at g (pos_part qty) _ db settled in
          (
            positive,
            record { checks = c; deal = rw unit deal; price = unit; total = rw unit total },
          )
    ]
  ]

  -- Only the owner of a ship that is docked to the station buys there, a good that the station
  -- sells, at most as much as its shelf holds and as the ship has room for, at the station's
  -- current price.
  pub buy-CanBuy :
      (c : CanBuy player ship_id at g (pos_part qty) db) × (r.unit_price
        ≡ unit_price bal at.kind g c.column c.entry.stock c.entry.max_stock)
  buy-CanBuy = let (_, b) = buy-Bought in (b.checks, b.price)

  pub buy-DealOnly : DealOnly db db'
  buy-DealOnly = let (_, b) = buy-Bought in b.deal.frame

  -- Buying only moves goods from shelf to hold: of every goods type, what ships and stations hold
  -- and what shelves offer is together what it was.
  pub buy-conserves :
      (h : ℕ)
      → total_of h db'.cargo + all_stock h db'.station_goods
        ≡ total_of h db.cargo + all_stock h db.station_goods
  unfolding total_of all_stock
  buy-conserves h =
      let (_, b) = buy-Bought in
      ground (
        arith,
        b.deal.cargo_sums (goods_weight h),
        b.deal.stock_sums (λ o k. if k == h then 1 else 0),
      )

  -- Where the price of the whole quantity fits an int64, the buyer's wallet loses exactly the unit
  -- price times the quantity, the station's shelf loses the quantity and the ship's hold gains it,
  -- and every other wallet, shelf and hold is as it was.
  pub buy_exact :
      r.unit_price * pos_part qty ≤ max_i64
      → (wallet player db'.players + r.unit_price * pos_part qty ≡ wallet player db.players)
        × ((p : ℕ) → p ≢ player → wallet p db'.players ≡ wallet p db.players)
        × (shelf at g db'.station_goods + pos_part qty ≡ shelf at g db.station_goods)
        × ((o : EntityRef) (h : ℕ)
            → (ref_eq at o && g == h) ≡ false
            → shelf o h db'.station_goods ≡ shelf o h db.station_goods)
        × (held (ship_ref ship_id) g db'.cargo ≡ held (ship_ref ship_id) g db.cargo + pos_part qty)
        × ((o : EntityRef) (h : ℕ)
            → (ref_eq (ship_ref ship_id) o && g == h) ≡ false
            → held o h db'.cargo ≡ held o h db.cargo)
        × DealOnly db db'
  unfolding wallet shelf held
  buy_exact small =
      let (_, b) = buy-Bought in
      let paid : neg_i64 (wrap_i64 (r.unit_price * pos_part qty))
          ≡ neg (r.unit_price * pos_part qty) =
        rw (wrap_i64_small _ small) (neg_i64_pos _) in
      (
        ground (arith, paid, b.deal.cash_sums (λ x. if x == player then 1 else 0)),
        λ p ne. ground (arith, b.deal.cash_sums (λ x. if x == p then 1 else 0)),
        ground (
          arith,
          b.deal.stock_sums (λ o h. if ref_eq o at && h == g then 1 else 0),
          ref_eq_refl at,
        ),
        λ o h e. ground (arith, b.deal.stock_sums (λ x y. if ref_eq x o && y == h then 1 else 0)),
        ground (
          arith,
          b.deal.cargo_sums (hold_weight (ship_ref ship_id) g),
          ref_eq_refl (ship_ref ship_id),
        ),
        λ o h e. ground (arith, b.deal.cargo_sums (hold_weight o h)),
        b.deal.frame,
      )
