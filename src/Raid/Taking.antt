-- ===== src/Raid/Taking.antt =====
-- internal/trade/service.go: the shelf and the hacker's hold under `Rob`.
use spaceempire_back.Prelude.{
  ℕ, ◌+◌, ◌*◌, ◌≤◌, ◌≡◌, refl, ap, ◌∙◌, sym, Bool, true, false, not, ◌&&◌, ◌||◌, Option, none, some,
  arith, ◌==◌, ltb, if◌then◌else◌, select,
}
use spaceempire_back.Prelude.Int.{
  pos, neg, ltb_ℤ, max_i64, wrap_i64, wrap_i64_small, neg_i64, neg_i64_pos,
}
use spaceempire_back.Domain.{EntityKind, trade_station, EntityRef, ref_eq, ref_eq_refl}
use spaceempire_back.Store.Tables.{CargoKey, Db}
use spaceempire_back.Store.Tx.{
  Outcome, ok, done, pure, and_then-eq-ok, run_tx-done, too_little_goods, invalid_station_kind,
  unsupported_station_kind, Error, fail, ◌>>=◌, ◌>>◌,
}
use spaceempire_back.Store.Reads.{ReadOnly, read_then, raise_if_then}
use spaceempire_back.CargoRepo
use spaceempire_back.CargoRepo.{unowned_goods, cargo_key}
use spaceempire_back.CargoRepo.Reads.{goods_type-ReadOnly, capacity-ReadOnly, used_space-ReadOnly}
use spaceempire_back.CargoRepo.Weights.{weigh, held, hold_weight}
use spaceempire_back.CargoRepo.Effects.{Gains, add-Gains}
use spaceempire_back.MarketRepo
use spaceempire_back.MarketRepo.Effects.{weigh_stock, Stocks, adjust_stock-Stocks}
use spaceempire_back.MarketRepo.{is_station_kind, order_by_goods}
use spaceempire_back.Trade.{relabel, invalid_kind}
use spaceempire_back.Trade.Deals.{shelf}
use spaceempire_back.Raid.{
  RobOutcome, Target, robbed_units, damaged_units, take_from_shelf, deliver, rob_target,
  rob_richest, rob_in, rob, refs_for, richest_robbable,
}

-- Nothing gained.
Gains-nothing : (k : CargoKey) (db : Db) → Gains k 0 db db
Gains-nothing k db = record { sums = λ w. omega arith; frame = refl }

Stocks-nothing : (at : EntityRef) (g : ℕ) (db : Db) → Stocks at g (neg 0) db db
Stocks-nothing at g db = record { sums = λ w. ground arith; frame = refl }

added-Gains :
    (t : Bool) (hacker : EntityRef) (g q : ℕ) (db : Db) {d : Bool} {db' : Db}
    → (if t then (CargoRepo.add hacker g q unowned_goods >> pure true) else pure false) db
      ≡ ok d db'
    → Gains (cargo_key hacker g unowned_goods) (if d then q else 0) db db'
added-Gains true hacker g q db {d = d} {db' = db'} h =
    let (u, mid, added, rest) = and_then-eq-ok (CargoRepo.add hacker g q unowned_goods db) _ h in
    let is_ : d ≡ true = ground arith in
    let same : db' ≡ mid = cc in rw (is_, same) (add-Gains hacker g q unowned_goods db added)
added-Gains false hacker g q db {d = d} {db' = db'} h =
    let is_ : d ≡ false = ground arith in
    let same : db' ≡ db = cc in rw (is_, same) (Gains-nothing (cargo_key hacker g unowned_goods) db)

taken-Stocks :
    (t : Bool) (at : EntityRef) (g total : ℕ) (db : Db) {u : Unit {0}} {db' : Db}
    → (t ≡ false → total ≡ 0)
    → neg_i64 (wrap_i64 total) ≡ neg total
    → (if t
          then (MarketRepo.adjust_stock at g (neg_i64 (wrap_i64 total)) >>= λ new_stock. pure tt)
          else pure tt)
        db
      ≡ ok u db'
    → Stocks at g (neg total) db db'
taken-Stocks true at g total db {db' = db'} zero_ small h =
    let (n, mid, shifted, rest) =
      and_then-eq-ok (MarketRepo.adjust_stock at g (neg_i64 (wrap_i64 total)) db) _ h in
    let same : db' ≡ mid = cc in
    rw (same, sym small) (adjust_stock-Stocks at g (neg_i64 (wrap_i64 total)) db shifted)
taken-Stocks false at g total db {db' = db'} zero_ small h =
    let same : db' ≡ db = cc in rw (same, zero_ refl) (Stocks-nothing at g db)

read_or-ReadOnly {ℓ} :
    {A : Type ℓ} (t : Bool) (a : Db → A) (e : Error) (db : Db) (b : A) (db' : Db)
    → relabel invalid_kind (λ d. if t then ok (a d) d else fail e d) db ≡ ok b db'
    → db' ≡ db
read_or-ReadOnly true a e db b db' h = cc
read_or-ReadOnly false a e db b db' h = cc

list_market-ReadOnly :
    (at : EntityRef) → ReadOnly (relabel invalid_kind (MarketRepo.list_market at))
unfolding MarketRepo.list_market
list_market-ReadOnly at db rows db' h =
    read_or-ReadOnly (is_station_kind at.kind)
      (λ d. order_by_goods (select (λ e. ref_eq e.owner at) d.station_goods))
      unsupported_station_kind db rows db' h

refs_for-ReadOnly : (k : EntityKind) → ReadOnly (refs_for k)
unfolding refs_for MarketRepo.production_ref_maxes
refs_for-ReadOnly trade_station db refs db' h = cc
refs_for-ReadOnly _ db refs db' h = cc

-- The two tables that a hack may change, and how.
record Taken (at hacker : EntityRef) (g total gain : ℕ) (db db' : Db) : Type 0 where
  stock_sums :
      (w : EntityRef → ℕ → ℕ)
      → weigh_stock w db'.station_goods + w at g * total ≡ weigh_stock w db.station_goods
  cargo_sums :
      (w : CargoKey → ℕ)
      → weigh w db'.cargo ≡ weigh w db.cargo + w (cargo_key hacker g unowned_goods) * gain
  frame : db' ≡ record db { station_goods = db'.station_goods; cargo = db'.cargo }

Taken-both :
    (at hacker : EntityRef) (g total gain : ℕ) (db a b : Db)
    → Stocks at g (neg total) db a
    → Gains (cargo_key hacker g unowned_goods) gain a b
    → Taken at hacker g total gain db b
Taken-both at hacker g total gain db a b lost gained = record {
  stock_sums = λ w.
      let same : b.station_goods ≡ a.station_goods =
        ap (λ (x : Db). x.station_goods) gained.frame in
      ground (arith, lost.sums w, ap (weigh_stock w) same);
  cargo_sums = λ w.
      let same : a.cargo ≡ db.cargo = ap (λ (x : Db). x.cargo) lost.frame in
      omega (arith, gained.sums w, ap (weigh w) same);
  frame =
      let same : b.station_goods ≡ a.station_goods =
        ap (λ (x : Db). x.station_goods) gained.frame in
      gained.frame
      ∙ (ap (λ (x : Db). record x { cargo = b.cargo }) lost.frame
          ∙ ap (λ m. record db { station_goods = m; cargo = b.cargo }) (sym same));
}

outcome_of :
    (g robbed damaged basis : ℕ) (d : Bool) (b : Db) {o : RobOutcome} {db' : Db}
    → ◌≡◌ {A = Outcome RobOutcome}
        (ok
          (record {
            goods_type = g;
            robbed = robbed;
            damaged = damaged;
            delivered = d;
            max_stock = basis;
          })
          b)
        (ok o db')
    → (o.goods_type ≡ g)
      × (o.robbed ≡ robbed)
      × (o.damaged ≡ damaged)
      × (o.delivered ≡ d)
      × (db' ≡ b)
outcome_of g robbed damaged basis d b h =
    (ground arith, ground arith, ground arith, ground arith, cc)

module _ (rob_of damage_of : ℕ → ℕ) (too_little : ℕ → ℕ → Bool) where
  deliver-Gains :
      (hacker : EntityRef) (g q : ℕ) (db : Db) (d : Bool) (db' : Db)
      → deliver rob_of damage_of too_little hacker g q db ≡ ok d db'
      → Gains (cargo_key hacker g unowned_goods) (if d then q else 0) db db'
  unfolding deliver
  deliver-Gains hacker g q db d db' h =
      let (gt, known, h₁) = read_then (CargoRepo.goods_type g) _ db (goods_type-ReadOnly g) h in
      let (c, c_read, h₂) =
        read_then (CargoRepo.capacity hacker) _ db (capacity-ReadOnly hacker) h₁ in
      let (u, u_read, h₃) =
        read_then (CargoRepo.used_space hacker) _ db (used_space-ReadOnly hacker) h₂ in
      added-Gains _ hacker g q db h₃

  delivered-Gains :
      (to_hold : Bool) (hacker : EntityRef) (g q : ℕ) (db : Db) (d : Bool) (db' : Db)
      → (if to_hold then deliver rob_of damage_of too_little hacker g q else pure false) db
        ≡ ok d db'
      → Gains (cargo_key hacker g unowned_goods) (if d then q else 0) db db'
  delivered-Gains true hacker g q db d db' h = deliver-Gains hacker g q db d db' h
  delivered-Gains false hacker g q db d db' h =
      let is_ : d ≡ false = ground arith in
      let same : db' ≡ db = cc in
      rw (is_, same) (Gains-nothing (cargo_key hacker g unowned_goods) db)

  take_from_shelf-Stocks :
      (at : EntityRef) (t : Target) (total : ℕ) (db : Db) {u : Unit {0}} {db' : Db}
      → total
        ≡ robbed_units rob_of damage_of too_little t.entry.stock
          + damaged_units rob_of damage_of too_little t.entry.stock
      → total ≤ max_i64
      → take_from_shelf rob_of damage_of too_little at t db ≡ ok u db'
      → Stocks at t.entry.goods_type (neg total) db db'
  unfolding take_from_shelf
  take_from_shelf-Stocks at t total db {db' = db'} is_ small h =
      let wraps : wrap_i64 total ≡ pos total = wrap_i64_small total small in
      taken-Stocks (ltb_ℤ (pos 0) (wrap_i64 total)) at t.entry.goods_type total db
        (λ none_. ground (arith, wraps)) (rw wraps (neg_i64_pos total)) (rw (sym is_) at h)

  rob_target-Taken :
      (at hacker : EntityRef) (to_hold : Bool) (t : Target) (db : Db) {o : RobOutcome} {db' : Db}
      → o.robbed + o.damaged ≤ max_i64
      → rob_target rob_of damage_of too_little at hacker to_hold t db ≡ ok o db'
      → Taken at hacker o.goods_type
          (o.robbed + o.damaged)
          (if o.delivered then o.robbed else 0)
          db
          db'
  unfolding rob_target
  rob_target-Taken at hacker to_hold t db {o = o} {db' = db'} small h =
      let robbed : ℕ = robbed_units rob_of damage_of too_little t.entry.stock in
      let damaged : ℕ = damaged_units rob_of damage_of too_little t.entry.stock in
      let (enough, h₁) =
        raise_if_then (t.basis == 0 || too_little t.entry.stock t.basis) too_little_goods _ db h in
      let (u, a, taken, h₂) =
        and_then-eq-ok (take_from_shelf rob_of damage_of too_little at t db) _ h₁ in
      let (d, b, put, h₃) =
        and_then-eq-ok
          ((if to_hold && ltb 0 robbed
              then deliver rob_of damage_of too_little hacker t.entry.goods_type robbed
              else pure false)
            a)
          _ h₂ in
      let (goods, some_, lost, handed, same) =
        outcome_of t.entry.goods_type robbed damaged t.basis d b h₃ in
      rw (goods, some_, lost, handed, same)
        (Taken-both at hacker t.entry.goods_type (robbed + damaged) (if d then robbed else 0) db a b
          (take_from_shelf-Stocks at t (robbed + damaged) db refl (rw (some_, lost) at small) taken)
          (delivered-Gains (to_hold && ltb 0 robbed) hacker t.entry.goods_type robbed a d b put))

  rob_richest-Taken :
      (at hacker : EntityRef) (to_hold : Bool) (t : Option Target) (db : Db) {o : RobOutcome}
      {db' : Db}
      → o.robbed + o.damaged ≤ max_i64
      → rob_richest rob_of damage_of too_little at hacker to_hold t db ≡ ok o db'
      → Taken at hacker o.goods_type
          (o.robbed + o.damaged)
          (if o.delivered then o.robbed else 0)
          db
          db'
  unfolding rob_richest
  rob_richest-Taken at hacker to_hold none db small h = cc
  rob_richest-Taken at hacker to_hold (some t) db small h =
      rob_target-Taken at hacker to_hold t db small h

  rob_in-Taken :
      (at hacker : EntityRef) (to_hold : Bool) (db : Db) {o : RobOutcome} {db' : Db}
      → o.robbed + o.damaged ≤ max_i64
      → rob_in rob_of damage_of too_little at hacker to_hold db ≡ ok o db'
      → Taken at hacker o.goods_type
          (o.robbed + o.damaged)
          (if o.delivered then o.robbed else 0)
          db
          db'
  unfolding rob_in
  rob_in-Taken at hacker to_hold db small h =
      let (kind, h₁) = raise_if_then (not (is_station_kind at.kind)) invalid_station_kind _ db h in
      let (entries, listed, h₂) =
        read_then (relabel invalid_kind (MarketRepo.list_market at)) _ db (list_market-ReadOnly at)
          h₁ in
      let (refs, caps, h₃) = read_then (refs_for at.kind) _ db (refs_for-ReadOnly at.kind) h₂ in
      rob_richest-Taken at hacker to_hold (richest_robbable entries at.kind refs) db small h₃

  -- Where what a hack robs and damages together fits an int64, the station's shelf of that good
  -- loses exactly that much, the hacker's hold gains what was robbed if it was delivered and nothing
  -- otherwise, and apart from shelves and holds nothing changes.
  pub rob_exact :
      (at hacker : EntityRef) (to_hold : Bool) (db : Db) {o : RobOutcome} {db' : Db}
      → rob rob_of damage_of too_little at hacker to_hold db ≡ (done o, db')
      → o.robbed + o.damaged ≤ max_i64
      → (shelf at o.goods_type db'.station_goods + (o.robbed + o.damaged)
          ≡ shelf at o.goods_type db.station_goods)
        × (held hacker o.goods_type db'.cargo
            ≡ held hacker o.goods_type db.cargo + (if o.delivered then o.robbed else 0))
        × (db' ≡ record db { station_goods = db'.station_goods; cargo = db'.cargo })
  unfolding rob shelf held
  rob_exact at hacker to_hold db {o = o} {db' = db'} robbed small =
      let t =
        rob_in-Taken at hacker to_hold db small
          (run_tx-done (rob_in rob_of damage_of too_little at hacker to_hold) db robbed) in
      (
        ground (
          arith,
          t.stock_sums (λ x h. if ref_eq x at && h == o.goods_type then 1 else 0),
          ref_eq_refl at,
        ),
        ground (arith, t.cargo_sums (hold_weight hacker o.goods_type), ref_eq_refl hacker),
        t.frame,
      )
