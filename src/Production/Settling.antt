-- ===== src/Production/Settling.antt =====
-- internal/economy/production/service.go: what the transaction of finishCycle does.
use spaceempire_back.Prelude.{
  ℕ, ◌+◌, ◌*◌, ◌≡◌, refl, subst, ap, ◌∙◌, ◌⊎◌, inl, inr, Bool, true, false, none, List, [], ◌∷◌,
  arith, ◌==◌, if◌then◌else◌, Bool-cases, ==→≡,
}
use spaceempire_back.Prelude.Int.{pos_part-neg, neg_part-neg, pos, neg}
use spaceempire_back.Domain.{EntityRef}
use spaceempire_back.Store.Tables.{Db}
use spaceempire_back.Store.Tx.{
  ok, Result, done, err, and_then-eq-ok, run_tx_commit, run_tx_commit-done, run_tx_commit-err, pure,
}
use spaceempire_back.MarketRepo.{adjust_stock, list_market}
use spaceempire_back.MarketRepo.Effects.{weigh_stock, MarketOnly, adjust_stock-Stocks}
use spaceempire_back.StationsRepo.{set_production, update_production}
use spaceempire_back.Production.{
  RecipeLine, Recipe, Station, Market, station_ref, load_market, taken, consume_inputs,
  produce_outputs, can_run, settle_cycle, finish_in, after_finish, finish_cycle, Turn,
}

-- The weight of one amount for each line, on the shelves of one station.
abbrev pub weigh_lines : (EntityRef → ℕ → ℕ) → EntityRef → (RecipeLine → ℕ) → List RecipeLine → ℕ
weigh_lines w ref amount [] = 0
weigh_lines w ref amount (l ∷ ls) = w ref l.goods_type * amount l + weigh_lines w ref amount ls

-- Amounts left the shelves, amounts came, and only shelves changed.
record Flows (ref : EntityRef) (out_lines : List RecipeLine) (out : RecipeLine → ℕ)
    (in_lines : List RecipeLine) (db db' : Db) : Type 0 where
  sums :
      (w : EntityRef → ℕ → ℕ)
      → weigh_stock w db'.station_goods + weigh_lines w ref out out_lines
        ≡ weigh_stock w db.station_goods + weigh_lines w ref (λ l. l.quantity) in_lines
  frame : MarketOnly db db'

MarketOnly-both : (a b c : Db) → MarketOnly a b → MarketOnly b c → MarketOnly a c
MarketOnly-both a b c first second =
    second ∙ ap {A = Db} (λ x. record x { station_goods = c.station_goods }) first

consume_inputs-Flows :
    (free : Bool) (m : Market) (ref : EntityRef) (ls : List RecipeLine) (db : Db) {u : Unit {0}}
    {db' : Db}
    → consume_inputs free m ref ls db ≡ ok u db'
    → Flows ref ls (taken free m) [] db db'
unfolding consume_inputs
consume_inputs-Flows free m ref [] db {db' = db'} h =
    let same : db' ≡ db = ground arith in rw same (record { sums = λ w. refl; frame = refl })
consume_inputs-Flows free m ref (l ∷ ls) db {db' = db'} h =
    elim (Bool-cases (taken free m l == 0)) [
      | inl nothing ↦
          let rest = consume_inputs-Flows free m ref ls db (rw nothing at h) in
          record {
            sums = λ w. rw (==→≡ (taken free m l) 0 nothing) (omega (arith, rest.sums w));
            frame = rest.frame;
          }
      | inr something ↦
          let (n, mid, first, later) =
            and_then-eq-ok (adjust_stock ref l.goods_type (neg (taken free m l)) db) _
              (rw something at h) in
          let one = adjust_stock-Stocks ref l.goods_type (neg (taken free m l)) db first in
          let rest = consume_inputs-Flows free m ref ls mid later in
          record {
            sums = λ w.
                let s = rw (neg_part-neg (taken free m l)) at (one.sums w) in
                let t = rw (pos_part-neg (taken free m l)) at s in omega (arith, t, rest.sums w);
            frame = MarketOnly-both db mid db' one.frame rest.frame;
          }
    ]

produce_outputs-Flows :
    (ref : EntityRef) (ls : List RecipeLine) (db : Db) {u : Unit {0}} {db' : Db}
    → produce_outputs ref ls db ≡ ok u db'
    → Flows ref [] (λ l. l.quantity) ls db db'
unfolding produce_outputs
produce_outputs-Flows ref [] db {db' = db'} h =
    let same : db' ≡ db = ground arith in rw same (record { sums = λ w. refl; frame = refl })
produce_outputs-Flows ref (l ∷ ls) db {db' = db'} h =
    let (n, mid, first, later) =
      and_then-eq-ok (adjust_stock ref l.goods_type (pos l.quantity) db) _ h in
    let one = adjust_stock-Stocks ref l.goods_type (pos l.quantity) db first in
    let rest = produce_outputs-Flows ref ls mid later in
    record {
      sums = λ w. omega (arith, one.sums w, rest.sums w);
      frame = MarketOnly-both db mid db' one.frame rest.frame;
    }

-- A cycle of the recipe was completed for the station: its inputs left the shelves and its outputs
-- came, however shelves are weighed, and else only the row of the station changed.
pub record Settled (st : Station) (recipe : Recipe) (free : Bool) (db db' : Db) : Type 0 where
  pub market : Market
  pub seen : load_market (station_ref st) db ≡ ok market db
  pub could : can_run free market recipe ≡ true
  pub sums :
      (w : EntityRef → ℕ → ℕ)
      → weigh_stock w db'.station_goods
          + weigh_lines w (station_ref st) (taken free market) recipe.inputs
        ≡ weigh_stock w db.station_goods
          + weigh_lines w (station_ref st) (λ l. l.quantity) recipe.outputs
  pub frame : db' ≡ record db {
    station_goods = db'.station_goods;
    stations = set_production st.id false none db.stations;
  }

pub load_market-reads :
    (ref : EntityRef) (db : Db) {m : Market} {db' : Db} → load_market ref db ≡ ok m db' → db' ≡ db
unfolding load_market list_market
load_market-reads ref db h = ground arith

settle_cycle-Settled :
    (st : Station) (recipe : Recipe) (free : Bool) (m : Market) (db : Db) {b : Bool} {db' : Db}
    → load_market (station_ref st) db ≡ ok m db
    → can_run free m recipe ≡ true
    → settle_cycle st recipe free m db ≡ ok b db'
    → (b ≡ true) × Settled st recipe free db db'
unfolding settle_cycle update_production
settle_cycle-Settled st recipe free m db {db' = db'} seen could h =
    let ref = station_ref st in
    let (_, mid, consumed, rest) =
      and_then-eq-ok (consume_inputs free m ref recipe.inputs db) _ h in
    let (_, full, produced, last) =
      and_then-eq-ok (produce_outputs ref recipe.outputs mid) _ rest in
    let after : db' ≡ record full { stations = set_production st.id false none full.stations } =
      ground arith in
    let out = consume_inputs-Flows free m ref recipe.inputs db consumed in
    let in_ = produce_outputs-Flows ref recipe.outputs mid produced in
    let frame = MarketOnly-both db mid full out.frame in_.frame in
    (
      ground arith,
      record {
        market = m;
        seen = seen;
        could = could;
        sums = λ w. rw after (omega (arith, out.sums w, in_.sums w));
        frame = rw after (
            ap {A = Db} (λ x. record x { stations = set_production st.id false none x.stations })
              frame);
      },
    )

-- What was read did not allow the cycle to end.
pub record Stuck (st : Station) (recipe : Recipe) (free : Bool) (db : Db) : Type 0 where
  pub market : Market
  pub seen : load_market (station_ref st) db ≡ ok market db
  pub could_not : can_run free market recipe ≡ false

waits : (db : Db) {b : Bool} {db' : Db} → ok false db ≡ ok b db' → (b ≡ false) × (db' ≡ db)
waits db h = ground arith

finish_in-cases :
    (st : Station) (recipe : Recipe) (free : Bool) (db : Db) {b : Bool} {db' : Db}
    → finish_in st recipe free db ≡ ok b db'
    → ((b ≡ true) × Settled st recipe free db db')
      ⊎ ((b ≡ false) × (db' ≡ db) × Stuck st recipe free db)
unfolding finish_in
finish_in-cases st recipe free db {b} {db'} h =
    let (m, mid, loaded, rest) = and_then-eq-ok (load_market (station_ref st) db) _ h in
    let same = load_market-reads (station_ref st) db loaded in
    let seen = subst (λ x. load_market (station_ref st) db ≡ ok m x) same loaded in
    let then_ =
      subst
        (λ (x : Db).
          (if can_run free m recipe then settle_cycle st recipe free m else pure false) x
          ≡ ok b db')
        same rest in
    elim (Bool-cases (can_run free m recipe)) [
      | inl could ↦ inl (settle_cycle-Settled st recipe free m db seen could (rw could at then_))
      | inr stuck ↦
          let (e, same_) = waits db (rw stuck at then_) in
          inr (e, same_, record { market = m; seen = seen; could_not = stuck })
    ]

module _ (st : Station) (recipe : Recipe) (free commits : Bool) (db : Db) where
  -- A cycle was settled, or nothing has changed.
  abbrev pub SettledOr : Turn → Type 0
  SettledOr t =
      ((t.completed ≡ true)
        × (t.error ≡ none)
        × (t.station ≡ record st { in_progress = false; next_cycle_at = none })
        × Settled st recipe free db t.db)
      ⊎ ((t.completed ≡ false)
          × (t.station ≡ st)
          × (t.db ≡ db)
          × (t.error ≡ none → Stuck st recipe free db))

  after_finish-SettledOr :
      (r : Result Bool) (db' : Db)
      → run_tx_commit commits (finish_in st recipe free) db ≡ (r, db')
      → SettledOr (after_finish st (r, db'))
  unfolding after_finish
  after_finish-SettledOr (err e) db' h =
      inr (refl, refl, run_tx_commit-err (finish_in st recipe free) db commits h, λ e. cc)
  after_finish-SettledOr (done true) db' h =
      elim (finish_in-cases st recipe free db
        (run_tx_commit-done (finish_in st recipe free) db commits h).1) [
          | inl (_, settled) ↦ inl (refl, refl, refl, settled)
          | inr (never, _, _) ↦ cc
        ]
  after_finish-SettledOr (done false) db' h =
      elim (finish_in-cases st recipe free db
        (run_tx_commit-done (finish_in st recipe free) db commits h).1) [
          | inl (never, _) ↦ cc
          | inr (_, same, stuck) ↦ inr (refl, refl, same, λ _. stuck)
        ]

  pub finish_cycle-SettledOr : SettledOr (finish_cycle st recipe free commits db)
  unfolding finish_cycle
  finish_cycle-SettledOr =
      after_finish-SettledOr (run_tx_commit commits (finish_in st recipe free) db).0
        (run_tx_commit commits (finish_in st recipe free) db).1 refl
