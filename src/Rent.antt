-- ===== src/Rent.antt =====
-- internal/economy/rent/service.go and closer.go: the owner of a station pays for it every period.
-- The events that a billing pass publishes are its answer.
pub mod Billing
pub mod Passes
pub mod Claiming
pub mod Answers
pub mod Ensuring
pub mod Reconciling
use spaceempire_back.Prelude.{
  ℕ, suc, ◌+◌, Bool, true, false, not, Option, none, some, List, [], ◌∷◌, leb, if◌then◌else◌,
}
use spaceempire_back.Prelude.Int.{ℤ, pos, neg, pos_part, leb_ℤ}
use spaceempire_back.Domain.{station, EntityRef}
use spaceempire_back.Store.Tables.{Rent, Db}
use spaceempire_back.Store.Tx.{
  Tx, Outcome, ok, fail, aborted, Result, done, err, Error, pure, raise, run_tx, ◌>>=◌, ◌>>◌,
  insufficient_cash, insufficient_funds, station_owned,
}
use spaceempire_back.PlayersRepo.{adjust_cash}
use spaceempire_back.StationsRepo.{OwnedStatic, claim_unowned, clear_owner, player_owned}
use spaceempire_back.RentsRepo.{due, mark_paid, mark_unpaid, delete_rent, ensure}
use spaceempire_back.Trade.{relabel}

-- All four are positive after `New`, which replaces what is not.
pub record Config : Type 0 where
  pub period : ℕ
  pub max_unpaid : ℕ
  pub default_amount : ℕ
  pub claim_price : ℕ

abbrev positive_or : ℕ → ℤ → ℕ
positive_or d n = if leb_ℤ n (pos 0) then d else pos_part n

-- The configuration that `New` keeps; a day is in nanoseconds.
unfoldable pub new_config : ℤ → ℤ → ℤ → ℤ → Config
new_config period max_unpaid amount price = record {
  period = positive_or 86400000000000 period;
  max_unpaid = positive_or 3 max_unpaid;
  default_amount = positive_or 5000 amount;
  claim_price = positive_or 100000 price;
}

pub record OverdueEvent : Type 0 where
  pub rent_id : ℕ
  pub payer : ℕ
  pub station : EntityRef
  pub amount_per_period : ℕ
  pub unpaid_periods : ℕ
  pub confiscated : Bool

abbrev pub overdue : Rent → Bool → OverdueEvent
overdue r confiscated = record {
  rent_id = r.id;
  payer = r.payer;
  station = r.station;
  amount_per_period = r.amount_per_period;
  unpaid_periods = suc r.unpaid_periods;
  confiscated = confiscated;
}

unfoldable pub confiscate : Rent → Tx (List OverdueEvent)
confiscate r = do clear_owner r.station; delete_rent r.id; pure (overdue r true ∷ [])

unfoldable pub put_off : ℕ → Rent → Tx (List OverdueEvent)
put_off next r = do mark_unpaid r.id (suc r.unpaid_periods) next; pure (overdue r false ∷ [])

-- The payer could not pay.
unfoldable pub miss : Config → ℕ → Rent → Tx (List OverdueEvent)
miss cfg next r = if leb cfg.max_unpaid (suc r.unpaid_periods) then confiscate r else put_off next r

-- `errors.Is(e, ErrInsufficientCash)`
abbrev pub lacks_cash : Error → Bool
lacks_cash insufficient_cash = true
lacks_cash _ = false

-- The switch on what AdjustCash answered.
unfoldable pub after_charge : Config → ℕ → ℕ → Rent → Outcome ℕ → Outcome (List OverdueEvent)
after_charge cfg now next r (ok _ db) = (mark_paid r.id now next >>= λ _. pure []) db
after_charge cfg now next r (fail e db) = if lacks_cash e then miss cfg next r db else fail e db
after_charge cfg now next r aborted = aborted

unfoldable pub charge : Config → ℕ → Rent → Tx (List OverdueEvent)
charge cfg now r db =
    after_charge cfg now (now + cfg.period) r (adjust_cash r.payer (neg r.amount_per_period) db)

abbrev pub joined : List OverdueEvent → List OverdueEvent → List OverdueEvent
joined [] ys = ys
joined (x ∷ xs) ys = x ∷ joined xs ys

unfoldable pub charge_all : Config → ℕ → List Rent → Tx (List OverdueEvent)
charge_all cfg now [] = pure []
charge_all cfg now (r ∷ rs) = do
  first ← charge cfg now r
  rest ← charge_all cfg now rs
  pure (joined first rest)

unfoldable pub process_due_in : Config → ℕ → ℕ → Tx (List OverdueEvent)
process_due_in cfg now limit = do rents ← due now limit; charge_all cfg now rents

unfoldable pub process_due : Config → ℕ → ℕ → Db → Result (List OverdueEvent) × Db
process_due cfg now limit = run_tx (process_due_in cfg now limit)

-- One Ensure for each object, each on its own; an error ends the loop.
unfoldable pub ensure_all : Config → ℕ → List OwnedStatic → Db → Result (Unit {0}) × Db
ensure_all cfg next [] db = (done tt, db)
ensure_all cfg next (o ∷ os) db =
    let one = run_tx (ensure o.owner o.ref cfg.default_amount next) db in
    let rest = ensure_all cfg next os one.1 in elim one.0 [ err e ↦ (err e, one.1) | done _ ↦ rest ]

unfoldable pub reconcile : Config → ℕ → Db → Result (Unit {0}) × Db
reconcile cfg now db = elim (player_owned db) [
  | ok owned db' ↦ ensure_all cfg (now + cfg.period) owned db'
  | fail e db' ↦ (err e, db)
  | aborted ↦ (err Error.internal, db)
]

abbrev pub closer_batch : ℕ
closer_batch = 200

-- Both errors are logged only.
unfoldable pub tick : Config → ℕ → Db → Result (List OverdueEvent) × Db
tick cfg now db = process_due cfg now closer_batch (reconcile cfg now db).1

abbrev no_funds : Error → Error
no_funds insufficient_cash = insufficient_funds
no_funds e = e

abbrev pub station_ref : ℕ → EntityRef
station_ref i = record { kind = station; id = i }

unfoldable pub claim_in : Config → ℕ → ℕ → ℕ → Tx (Unit {0})
claim_in cfg player i now = do
  claimed ← claim_unowned (station_ref i) player
  if not claimed then raise station_owned else pure tt
  _ ← relabel no_funds (adjust_cash player (neg cfg.claim_price))
  ensure player (station_ref i) cfg.default_amount (now + cfg.period)

unfoldable pub claim : Config → ℕ → ℕ → ℕ → Db → Result (Unit {0}) × Db
claim cfg player i now = run_tx (claim_in cfg player i now)
