-- ===== src/Production/Turns.antt =====
-- internal/economy/production/service.go: what the turn of one station does in Tick.
use spaceempire_back.Prelude.{
  ℕ, ◌+◌, ◌≡◌, refl, ap, ◌⊎◌, inl, inr, Bool, true, false, not, ◌&&◌, Option, none, some, List,
  arith, if◌then◌else◌, Bool-cases,
}
use spaceempire_back.Store.Tables.{Db}
use spaceempire_back.Store.Tx.{
  ok, fail, aborted, Tx, Outcome, Result, run_tx, run_tx_commit, and_then-eq-ok,
}
use spaceempire_back.StationsRepo.{set_production, update_production}
use spaceempire_back.Production.{
  Recipe, Station, Turn, station_ref, load_market, settle_start, start_in, set_in_memory,
  after_start, maybe_start_cycle, finish_cycle, free_input_production, find_recipe, is_due,
  run_recipe, turn,
}
use spaceempire_back.Production.Settling.{finish_cycle-SettledOr, load_market-reads}

-- What a turn does to the table and to the memory of its station.
pub record Turned (st : Station) (db : Db) (t : Turn) (p : Bool) (n : Option ℕ) : Type 0 where
  pub rows : t.db.stations ≡ set_production st.id p n db.stations
  pub memory : t.station ≡ record st { in_progress = p; next_cycle_at = n }

-- The commit of a start failed after memory was set.
pub record Drifted (st : Station) (db : Db) (commits : Bool) (t : Turn) : Type 0 where
  pub failed : commits ≡ false
  pub next : ℕ
  pub memory : t.station ≡ record st { in_progress = true; next_cycle_at = some next }
  pub kept : t.db ≡ db

abbrev pub TurnDone : Station → Db → Bool → Turn → Type 0
TurnDone st db commits t =
    ((t.station ≡ st) × (t.db ≡ db))
    ⊎ (((p : Bool) × (n : Option ℕ) × Turned st db t p n) ⊎ Drifted st db commits t)

module _ (st : Station) (recipe : Recipe) (commits : Bool) (db : Db) where
  finish_cycle-TurnDone :
      (free : Bool) → TurnDone st db commits (finish_cycle st recipe free commits db)
  finish_cycle-TurnDone free = elim (finish_cycle-SettledOr st recipe free commits db) [
    | inl (_, _, memory, c) ↦ inr (
        inl (false, none, record { rows = ap {A = Db} (λ x. x.stations) c.frame; memory = memory }))
    | inr (_, memory, same, _) ↦ inl (memory, same)
  ]

  start_in-cases :
      (now : ℕ) (free : Bool) {b : Bool} {db' : Db}
      → start_in st recipe now free db ≡ ok b db'
      → ((b ≡ true)
          × (db' ≡ record db {
            stations = set_production st.id true (some (now + recipe.cycle_time)) db.stations;
          }))
        ⊎ ((b ≡ false) × (db' ≡ db))
  unfolding start_in settle_start update_production
  start_in-cases now free {b} {db'} h =
      let (m, mid, loaded, rest) = and_then-eq-ok (load_market (station_ref st) db) _ h in
      let same = load_market-reads (station_ref st) db loaded in ground arith

  module _ (now : ℕ) (free : Bool) where
    abbrev tx : Tx Bool
    tx = start_in st recipe now free

    abbrev started : Outcome Bool → Result Bool × Db → Turn
    started o r = after_start (set_in_memory st (now + recipe.cycle_time) o) r

    started-ok :
        (b : Bool) (mid : Db)
        → tx db ≡ ok b mid
        → (commits : Bool)
        → TurnDone st db commits (started (ok b mid) (run_tx_commit commits tx db))
    unfolding set_in_memory after_start run_tx_commit run_tx
    started-ok true mid e true = elim (start_in-cases now free e) [
      | inl (_, after) ↦ inr (
          inl (
            true,
            some (now + recipe.cycle_time),
            record { rows = rw e (ap {A = Db} (λ x. x.stations) after); memory = rw e refl },
          ))
      | inr (never, _) ↦ cc
    ]
    started-ok false mid e true = elim (start_in-cases now free e) [
      | inl (never, _) ↦ cc
      | inr (_, same) ↦ inl (rw e refl, rw e same)
    ]
    started-ok true mid e false = inr (
        inr (record {
          failed = refl;
          next = now + recipe.cycle_time;
          memory = rw e refl;
          kept = rw e refl;
        }))
    started-ok false mid e false = inl (rw e refl, rw e refl)

    started-TurnDone :
        (o : Outcome Bool)
        → tx db ≡ o
        → TurnDone st db commits (started o (run_tx_commit commits tx db))
    unfolding set_in_memory after_start run_tx_commit run_tx
    started-TurnDone (ok b mid) e = started-ok b mid e commits
    started-TurnDone (fail x mid) e = elim (Bool-cases commits) [
      | inl yes_ ↦ inl (rw (yes_, e) refl, rw (yes_, e) refl)
      | inr no_ ↦ inl (rw (no_, e) refl, rw (no_, e) refl)
    ]
    started-TurnDone aborted e = elim (Bool-cases commits) [
      | inl yes_ ↦ inl (rw (yes_, e) refl, rw (yes_, e) refl)
      | inr no_ ↦ inl (rw (no_, e) refl, rw (no_, e) refl)
    ]

    maybe_start_cycle-TurnDone :
        TurnDone st db commits (maybe_start_cycle st recipe now free commits db)
    unfolding maybe_start_cycle
    maybe_start_cycle-TurnDone = started-TurnDone (tx db) refl

if-keeps {ℓ κ} :
    {A : Type ℓ} (P : A → Type κ) (b : Bool) {x y : A} → P x → P y → P (if b then x else y)
if-keeps P true hx hy = hx
if-keeps P false hx hy = hy

run_recipe-TurnDone :
    (now : ℕ) (commits : Bool) (st : Station) (db : Db) (o : Option Recipe)
    → TurnDone st db commits (run_recipe now commits st db o)
unfolding run_recipe
run_recipe-TurnDone now commits st db none = inl (refl, refl)
run_recipe-TurnDone now commits st db (some recipe) =
    if-keeps (TurnDone st db commits) (st.in_progress && is_due now st.next_cycle_at)
      (finish_cycle-TurnDone st recipe commits db (free_input_production st recipe))
      (if-keeps (TurnDone st db commits) (not st.in_progress)
        (maybe_start_cycle-TurnDone st recipe commits db now (free_input_production st recipe))
        (inl (refl, refl)))

pub turn-TurnDone :
    (recipes : List Recipe) (now : ℕ) (commits : Bool) (st : Station) (db : Db)
    → TurnDone st db commits (turn recipes now commits st db)
unfolding turn
turn-TurnDone recipes now commits st db =
    if-keeps (TurnDone st db commits) (not st.built) (inl (refl, refl))
      (run_recipe-TurnDone now commits st db (find_recipe st.station_type recipes))
