-- ===== src/Insurance.antt =====
-- internal/economy/insurance/service.go: a player insures a docked ship, and a kill pays out.
pub mod Terms
pub mod Purchases
pub mod Unique
pub mod Payout
use spaceempire_back.Prelude.{
  ℕ, ◌+◌, ◌-◌, ◌*◌, Bool, true, false, not, ◌||◌, Option, none, some, ◌==◌, if◌then◌else◌,
}
use spaceempire_back.Prelude.Int.{ℤ, pos, pos_part, neg_part, ltb_ℤ, leb_ℤ, wrap_i64, neg_i64}
use spaceempire_back.Store.Tables.{Policy, Db}
use spaceempire_back.Store.Tx.{
  Tx, Result, Outcome, ok, fail, aborted, Error, pure, raise, raise_if, refuse, run_tx, ◌>>=◌, ◌>>◌,
  and_then, invalid_input, not_owner, not_docked, insufficient_cash, insufficient_funds,
}
use spaceempire_back.PlayersRepo.{adjust_cash}
use spaceempire_back.InsuranceRepo.{
  NewPolicy, Ownership, expire_active_for_ship, create_policy, active_for_ship, claim,
  ship_ownership,
}
use spaceempire_back.Trade.{relabel}

-- Both are positive after `New`, which replaces what is not.
pub record Config : Type 0 where
  pub coverage_multiplier : ℕ
  pub max_duration_days : ℕ

abbrev positive_or : ℕ → ℤ → ℕ
positive_or d n = if leb_ℤ n (pos 0) then d else pos_part n

-- The configuration that `New` keeps.
unfoldable pub new_config : ℤ → ℤ → Config
new_config multiplier days = record {
  coverage_multiplier = positive_or 10 multiplier;
  max_duration_days = positive_or 90 days;
}

-- 24 * time.Hour
abbrev pub day : ℕ
day = 86400000000000

-- `now.Add(d)`
abbrev add_duration : ℕ → ℤ → ℕ
add_duration now d = now + pos_part d - neg_part d

unfoldable pub capped_days : Config → ℤ → ℕ
capped_days cfg days =
    if ltb_ℤ (pos cfg.max_duration_days) days then cfg.max_duration_days else pos_part days

unfoldable pub policy_for : Config → ℕ → ℕ → ℤ → ℤ → ℕ → NewPolicy
policy_for cfg player ship premium days now = record {
  ship_id = ship;
  player_id = player;
  premium_paid = premium;
  coverage = wrap_i64 (pos_part premium * cfg.coverage_multiplier);
  expires_at = add_duration now (wrap_i64 (capped_days cfg days * day));
}

abbrev no_funds : Error → Error
no_funds insufficient_cash = insufficient_funds
no_funds e = e

unfoldable pub buy_in : Config → ℕ → ℕ → ℤ → ℤ → ℕ → Tx ℕ
buy_in cfg player ship premium days now = do
  expire_active_for_ship ship now
  _ ← relabel no_funds (adjust_cash player (neg_i64 premium))
  create_policy (policy_for cfg player ship premium days now)

unfoldable pub check_owner : Ownership → ℕ → Tx (Unit {0})
check_owner o player =
    if not (o.player_id == player)
    then raise not_owner
    else elim o.docked [ none ↦ raise not_docked | some _ ↦ pure tt ]

-- The ship is read before the transaction; no other statement comes between in this model.
unfoldable pub buy_checked : Config → ℕ → ℕ → ℤ → ℤ → ℕ → Tx ℕ
buy_checked cfg player ship premium days now = do
  o ← ship_ownership ship
  check_owner o player
  buy_in cfg player ship premium days now

unfoldable pub buy : Config → ℕ → ℕ → ℤ → ℤ → ℕ → Db → Result ℕ × Db
buy cfg player ship premium days now db =
    if leb_ℤ premium (pos 0) || leb_ℤ days (pos 0)
    then refuse invalid_input db
    else run_tx (buy_checked cfg player ship premium days now) db

unfoldable pub pay_out : ℕ → Option Policy → Tx (Unit {0})
pay_out now none = pure tt
pay_out now (some p) = do _ ← adjust_cash p.player_id (pos p.coverage); claim p.id now

unfoldable pub on_kill_in : ℕ → ℕ → Tx (Unit {0})
on_kill_in ship now = do found ← active_for_ship ship now; pay_out now found

unfoldable pub on_kill : ℕ → ℕ → Db → Result (Unit {0}) × Db
on_kill ship now = run_tx (on_kill_in ship now)
