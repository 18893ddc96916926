-- ===== src/Production/Cycle.antt =====
-- internal/economy/production/service.go: what finishCycle does to the shelves of a station.
use spaceempire_back.Prelude.{
  ℕ, ◌+◌, ◌≤◌, ◌<◌, ◌≡◌, Any, ◌≢◌, refl, sym, ap, ◌∙◌, ◌⊎◌, inl, inr, Bool, true, false, not, ◌&&◌,
  none, arith, ltb, Bool-cases, All,
}
use spaceempire_back.Domain.{EntityRef}
use spaceempire_back.Store.Tables.{Db}
use spaceempire_back.MarketRepo.Effects.{weigh_stock}
use spaceempire_back.Production.{
  RecipeLine, Recipe, Station, Market, station_ref, stock_in, has_inputs, has_output_room, taken,
  can_run, finish_cycle, Turn,
}
use spaceempire_back.Production.Shelves.{
  HasStock, HasRoom, market-HasStock, has_output_room-HasRoom, has_inputs-All, has_inputs-Any,
  LacksRoom, has_output_room-LacksRoom,
}
use spaceempire_back.Production.Settling.{weigh_lines, Settled, Stuck, finish_cycle-SettledOr}
use spaceempire_back.Production.Rows.{row_of, as_idle, set_production-idle, set_production_other}

-- A cycle of the recipe was completed for the station.
pub record Completed (st : Station) (recipe : Recipe) (free : Bool) (db db' : Db) : Type 0 where
  pub stock : ℕ → ℕ
  pub stocks : (g : ℕ) → HasStock (station_ref st) db.station_goods g (stock g)
  pub room : All (HasRoom (station_ref st) db.station_goods) recipe.outputs
  pub supplied : free ≡ false → All (λ l. l.quantity ≤ stock l.goods_type) recipe.inputs
  pub used : RecipeLine → ℕ
  pub whole : free ≡ false → (l : RecipeLine) → used l ≡ l.quantity
  pub present :
      free ≡ true
      → (l : RecipeLine)
      → (used l ≤ stock l.goods_type)
        × (used l ≤ l.quantity)
        × ((used l ≡ stock l.goods_type) ⊎ (used l ≡ l.quantity))
  pub sums :
      (w : EntityRef → ℕ → ℕ)
      → weigh_stock w db'.station_goods + weigh_lines w (station_ref st) used recipe.inputs
        ≡ weigh_stock w db.station_goods
          + weigh_lines w (station_ref st) (λ l. l.quantity) recipe.outputs
  pub row : row_of st.id db'.stations ≡ as_idle (row_of st.id db.stations)
  pub others : (j : ℕ) → j ≢ st.id → row_of j db'.stations ≡ row_of j db.stations
  pub frame : db' ≡ record db { station_goods = db'.station_goods; stations = db'.stations }

-- An input that is not free is short, or an output has no room.
pub record Waiting (st : Station) (recipe : Recipe) (free : Bool) (db : Db) : Type 0 where
  pub stock : ℕ → ℕ
  pub stocks : (g : ℕ) → HasStock (station_ref st) db.station_goods g (stock g)
  pub blocked :
      ((free ≡ false) × Any (λ l. stock l.goods_type < l.quantity) recipe.inputs)
      ⊎ Any (LacksRoom (station_ref st) db.station_goods) recipe.outputs

can_run-cases :
    (free : Bool) (m : Market) (recipe : Recipe)
    → can_run free m recipe ≡ true
    → (free ≡ false → has_inputs m recipe.inputs ≡ true) × (has_output_room m recipe.outputs ≡ true)
unfolding can_run
can_run-cases free m recipe h = elim (Bool-cases (not free && not (has_inputs m recipe.inputs))) [
  | inl short ↦ ground (arith, rw short at h)
  | inr enough ↦ ((λ e. ground arith), rw enough at h)
]

blocked-cases :
    (free : Bool) (m : Market) (recipe : Recipe)
    → can_run free m recipe ≡ false
    → ((free ≡ false) × (has_inputs m recipe.inputs ≡ false))
      ⊎ (has_output_room m recipe.outputs ≡ false)
unfolding can_run
blocked-cases free m recipe h = elim (Bool-cases (not free && not (has_inputs m recipe.inputs))) [
  | inl short ↦ inl (ground arith, ground arith)
  | inr enough ↦ inr (rw enough at h)
]

Stuck-Waiting :
    (st : Station) (recipe : Recipe) (free : Bool) (db : Db)
    → Stuck st recipe free db
    → Waiting st recipe free db
Stuck-Waiting st recipe free db s = record {
  stock = stock_in s.market;
  stocks = market-HasStock (station_ref st) db s.seen;
  blocked = elim (blocked-cases free s.market recipe s.could_not) [
    | inl (paid, short) ↦ inl (paid, has_inputs-Any s.market recipe.inputs short)
    | inr full ↦ inr (has_output_room-LacksRoom (station_ref st) db s.seen recipe.outputs full)
  ];
}

taken_free :
    (m : Market) (l : RecipeLine)
    → (taken true m l ≤ stock_in m l.goods_type)
      × (taken true m l ≤ l.quantity)
      × ((taken true m l ≡ stock_in m l.goods_type) ⊎ (taken true m l ≡ l.quantity))
unfolding taken
taken_free m l = elim (Bool-cases (ltb (stock_in m l.goods_type) l.quantity)) [
  | inl less ↦ (ground arith, ground arith, ground arith)
  | inr enough ↦ (ground arith, ground arith, ground arith)
]

taken_whole : (m : Market) (l : RecipeLine) → taken false m l ≡ l.quantity
unfolding taken
taken_whole m l = refl

Settled-Completed :
    (st : Station) (recipe : Recipe) (free : Bool) (db db' : Db)
    → Settled st recipe free db db'
    → Completed st recipe free db db'
Settled-Completed st recipe free db db' s =
    let (inputs, outputs) = can_run-cases free s.market recipe s.could in
    let rows = ap {A = Db} (λ x. x.stations) s.frame in
    record {
      stock = stock_in s.market;
      stocks = market-HasStock (station_ref st) db s.seen;
      room = has_output_room-HasRoom (station_ref st) db s.seen recipe.outputs outputs;
      supplied = λ e. has_inputs-All s.market recipe.inputs (inputs e);
      used = taken free s.market;
      whole = λ e l. rw e (taken_whole s.market l);
      present = λ e l. rw e (taken_free s.market l);
      sums = s.sums;
      row = ap (row_of st.id) rows ∙ set_production-idle st.id db.stations;
      others =
          λ j away. ap (row_of j) rows ∙ set_production_other st.id j false none db.stations away;
      frame =
          s.frame
          ∙ ap {A = Db}
              (λ x. record db { station_goods = db'.station_goods; stations = x.stations })
              (sym s.frame);
    }

module _ (st : Station) (recipe : Recipe) (free commits : Bool) (db : Db) where
  -- A cycle was completed, or nothing has changed; without an error, it was blocked.
  abbrev pub Finished : Turn → Type 0
  Finished t =
      ((t.completed ≡ true)
        × (t.error ≡ none)
        × (t.station ≡ record st { in_progress = false; next_cycle_at = none })
        × Completed st recipe free db t.db)
      ⊎ ((t.completed ≡ false)
          × (t.station ≡ st)
          × (t.db ≡ db)
          × (t.error ≡ none → Waiting st recipe free db))

  -- Finishing a cycle either completes it or changes nothing, in memory or in the database,
  -- whether its commit succeeds or not. Without an error it waits only where an input that is not
  -- free is short or an output has no row or one without room (as far as the sum is an int64),
  -- and it completes only where each output has a row with room and, unless the inputs are free,
  -- the shelf holds each input whole; it takes each input whole, a free one as far as the shelf
  -- holds it. Then, however the shelves of all stations are weighed, what was taken has left them
  -- and what the outputs weigh has come, the station is idle in memory and in its row, and no
  -- other row or table has changed.
  pub finish_cycle_exact : Finished (finish_cycle st recipe free commits db)
  finish_cycle_exact = elim (finish_cycle-SettledOr st recipe free commits db) [
    | inl (done, fine, memory, settled) ↦
        inl (done, fine, memory, Settled-Completed st recipe free db _ settled)
    | inr (no_, memory, same, stuck) ↦
        inr (no_, memory, same, λ e. Stuck-Waiting st recipe free db (stuck e))
  ]
