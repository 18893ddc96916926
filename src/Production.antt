-- ===== src/Production.antt =====
-- internal/economy/production/service.go: the production cycles of stations. A station of the
-- sector's memory is a record of its own beside the row in the table. The catalogue refuses
-- quantities that are not positive, so they are numbers; the zero time is none.
pub mod Index
pub mod Shelves
pub mod Settling
pub mod Rows
pub mod Cycle
pub mod Turns
pub mod Ticks
use spaceempire_back.Prelude.{
  ℕ, suc, ◌+◌, Bool, true, false, not, ◌&&◌, Option, none, some, List, [], ◌∷◌, ltb, leb, ◌==◌,
  if◌then◌else◌, find_row, lookup, put,
}
use spaceempire_back.Prelude.Int.{pos, neg, ltb_ℤ, wrap_i64}
use spaceempire_back.Domain.{EntityKind, station, EntityRef}
use spaceempire_back.Store.Tables.{MarketEntry, Db}
use spaceempire_back.Store.Tx.{
  Tx, Result, done, err, Error, pure, run_tx_commit, Outcome, ok, ◌>>=◌, ◌>>◌,
}
use spaceempire_back.MarketRepo.{list_market, adjust_stock}
use spaceempire_back.StationsRepo.{update_production}

pub record RecipeLine : Type 0 where
  pub goods_type : ℕ
  pub quantity : ℕ

pub record Recipe : Type 0 where
  pub station_type : ℕ
  pub inputs : List RecipeLine
  pub outputs : List RecipeLine
  pub cycle_time : ℕ

pub record Station : Type 0 where
  pub id : ℕ
  pub station_type : ℕ
  pub owner_id : Option ℕ
  pub built : Bool
  pub in_progress : Bool
  pub next_cycle_at : Option ℕ

abbrev pub Market : Type 0
Market = List (ℕ × MarketEntry)

abbrev pub station_ref : Station → EntityRef
station_ref st = record { kind = station; id = st.id }

unfoldable pub find_recipe : ℕ → List Recipe → Option Recipe
find_recipe t = find_row (λ r. r.station_type == t)

-- Battery cells.
abbrev pub energy_goods : ℕ
energy_goods = 1

unfoldable pub makes_energy : List RecipeLine → Bool
makes_energy [] = false
makes_energy (l ∷ ls) =
    let rest = makes_energy ls in if l.goods_type == energy_goods then true else rest

unfoldable pub free_input_production : Station → Recipe → Bool
free_input_production st recipe = elim st.owner_id [
  | some _ ↦ false
  | none ↦ makes_energy recipe.outputs
]

unfoldable pub index_market : List MarketEntry → Market → Market
index_market [] m = m
index_market (e ∷ es) m = index_market es (put e.goods_type e m)

unfoldable pub load_market : EntityRef → Tx Market
load_market owner = do entries ← list_market owner; pure (index_market entries [])

-- The stock of the zero entry is 0.
unfoldable pub stock_in : Market → ℕ → ℕ
stock_in m g = elim (lookup g m) [ none ↦ 0 | some e ↦ e.stock ]

unfoldable pub has_inputs : Market → List RecipeLine → Bool
has_inputs m [] = true
has_inputs m (l ∷ ls) =
    let rest = has_inputs m ls in if ltb (stock_in m l.goods_type) l.quantity then false else rest

unfoldable pub has_output_room : Market → List RecipeLine → Bool
has_output_room m [] = true
has_output_room m (l ∷ ls) =
    let rest = has_output_room m ls in
    elim (lookup l.goods_type m) [
      | none ↦ false
      | some e ↦ if ltb_ℤ (pos e.max_stock) (wrap_i64 (e.stock + l.quantity)) then false else rest
    ]

abbrev pub min : ℕ → ℕ → ℕ
min a b = if ltb a b then a else b

unfoldable pub taken : Bool → Market → RecipeLine → ℕ
taken free m l = if free then min (stock_in m l.goods_type) l.quantity else l.quantity

unfoldable pub consume_inputs : Bool → Market → EntityRef → List RecipeLine → Tx (Unit {0})
consume_inputs free m ref [] = pure tt
consume_inputs free m ref (l ∷ ls) =
    let rest = consume_inputs free m ref ls in
    if taken free m l == 0
    then rest
    else adjust_stock ref l.goods_type (neg (taken free m l)) >>= λ _. rest

unfoldable pub produce_outputs : EntityRef → List RecipeLine → Tx (Unit {0})
produce_outputs ref [] = pure tt
produce_outputs ref (l ∷ ls) =
    adjust_stock ref l.goods_type (pos l.quantity) >>= λ _. produce_outputs ref ls

-- Whether the inputs and the room for the outputs let a cycle start or end.
unfoldable pub can_run : Bool → Market → Recipe → Bool
can_run free m recipe =
    if not free && not (has_inputs m recipe.inputs) then false else has_output_room m recipe.outputs

unfoldable pub settle_cycle : Station → Recipe → Bool → Market → Tx Bool
settle_cycle st recipe free m = do
  consume_inputs free m (station_ref st) recipe.inputs
  produce_outputs (station_ref st) recipe.outputs
  update_production st.id false none
  pure true

unfoldable pub finish_in : Station → Recipe → Bool → Tx Bool
finish_in st recipe free = do
  m ← load_market (station_ref st)
  if can_run free m recipe then settle_cycle st recipe free m else pure false

unfoldable pub settle_start : Station → ℕ → Tx Bool
settle_start st next = update_production st.id true (some next) >> pure true

unfoldable pub start_in : Station → Recipe → ℕ → Bool → Tx Bool
start_in st recipe now free = do
  m ← load_market (station_ref st)
  if can_run free m recipe then settle_start st (now + recipe.cycle_time) else pure false

-- What a tick leaves of one station: its state in memory, the database, whether a cycle was
-- completed, and the error.
pub record Turn : Type 0 where
  pub station : Station
  pub db : Db
  pub completed : Bool
  pub error : Option Error

unfoldable pub after_finish : Station → Result Bool × Db → Turn
after_finish st (done true, db) = record {
  station = record st { in_progress = false; next_cycle_at = none };
  db = db;
  completed = true;
  error = none;
}
after_finish st (done false, db) = record { station = st; db = db; completed = false; error = none }
after_finish st (err e, db) = record { station = st; db = db; completed = false; error = some e }

-- The Boolean says whether the commit succeeds.
unfoldable pub finish_cycle : Station → Recipe → Bool → Bool → Db → Turn
finish_cycle st recipe free commits db =
    after_finish st (run_tx_commit commits (finish_in st recipe free) db)

-- The fields in memory are set inside the transaction, before it commits.
unfoldable pub set_in_memory : Station → ℕ → Outcome Bool → Station
set_in_memory st next (ok true db) = record st { in_progress = true; next_cycle_at = some next }
set_in_memory st next _ = st

unfoldable pub after_start : Station → Result Bool × Db → Turn
after_start st (done b, db) = record { station = st; db = db; completed = false; error = none }
after_start st (err e, db) = record { station = st; db = db; completed = false; error = some e }

unfoldable pub maybe_start_cycle : Station → Recipe → ℕ → Bool → Bool → Db → Turn
maybe_start_cycle st recipe now free commits db =
    after_start (set_in_memory st (now + recipe.cycle_time) (start_in st recipe now free db))
      (run_tx_commit commits (start_in st recipe now free) db)

-- `!now.Before(next)`
unfoldable pub is_due : ℕ → Option ℕ → Bool
is_due now none = true
is_due now (some next) = leb next now

abbrev pub idle : Station → Db → Turn
idle st db = record { station = st; db = db; completed = false; error = none }

-- The switch of Tick, for a station with the recipe of its type.
unfoldable pub run_recipe : ℕ → Bool → Station → Db → Option Recipe → Turn
run_recipe now commits st db none = idle st db
run_recipe now commits st db (some recipe) =
    if st.in_progress && is_due now st.next_cycle_at
    then finish_cycle st recipe (free_input_production st recipe) commits db
    else if not st.in_progress
    then maybe_start_cycle st recipe now (free_input_production st recipe) commits db
    else idle st db

unfoldable pub turn : List Recipe → ℕ → Bool → Station → Db → Turn
turn recipes now commits st db =
    if not st.built
    then idle st db
    else run_recipe now commits st db (find_recipe st.station_type recipes)

pub record Ticked : Type 0 where
  pub stations : List Station
  pub db : Db
  pub cycles : ℕ
  pub errors : List (ℕ × Error)

abbrev pub add_error : ℕ → Option Error → List (ℕ × Error) → List (ℕ × Error)
add_error i none es = es
add_error i (some e) es = (i, e) ∷ es

-- The second argument says of each station whether the commit of its transaction succeeds.
unfoldable pub tick : List Recipe → (ℕ → Bool) → ℕ → List Station → Db → Ticked
tick recipes commits now [] db = record { stations = []; db = db; cycles = 0; errors = [] }
tick recipes commits now (st ∷ sts) db =
    let one = turn recipes now (commits st.id) st db in
    let rest = tick recipes commits now sts one.db in
    record {
      stations = one.station ∷ rest.stations;
      db = rest.db;
      cycles = (if one.completed then suc rest.cycles else rest.cycles);
      errors = add_error st.id one.error rest.errors;
    }
