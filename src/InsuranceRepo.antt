-- ===== src/InsuranceRepo.antt =====
-- internal/persistence/insurance/repo.go: the policies, and who owns a ship and whether it is docked.
pub mod Coverage
use spaceempire_back.Prelude.{
  ℕ, suc, ◌+◌, Bool, true, false, not, ◌&&◌, ◌||◌, Option, none, some, List, [], ◌∷◌, ltb, leb,
  ◌==◌, if◌then◌else◌, find_row,
}
use spaceempire_back.Prelude.Int.{ℤ, pos, pos_part, ltb_ℤ}
use spaceempire_back.Domain.{EntityRef}
use spaceempire_back.Store.Tables.{
  Ship, Policy, PolicyStatus, policy_active, policy_claimed, policy_expired, Db,
}
use spaceempire_back.Store.Tx.{Tx, ok, fail, aborted, or_raise, ship_not_found, already_insured}
use spaceempire_back.CargoRepo.{find_ship}
use spaceempire_back.PlayersRepo.{find_player}
use spaceempire_back.AuctionRepo.{has_player}

abbrev pub is_live : PolicyStatus → Bool
is_live policy_active = true
is_live _ = false

-- The rows of the partial unique index that name the ship.
abbrev pub covers : ℕ → Policy → Bool
covers ship p = is_live p.status && p.ship_id == ship

-- `SET status = 'expired' WHERE ship_id = $1 AND status = 'active' AND expires_at <= $2`.
unfoldable pub expire_rows : ℕ → ℕ → List Policy → List Policy
expire_rows ship now [] = []
expire_rows ship now (p ∷ ps) =
    let rest = expire_rows ship now ps in
    if covers ship p && leb p.expires_at now
    then record p { status = policy_expired } ∷ rest
    else p ∷ rest

unfoldable pub expire_active_for_ship : ℕ → ℕ → Tx (Unit {0})
expire_active_for_ship ship now db =
    ok tt (record db { insurance_policies = expire_rows ship now db.insurance_policies })

unfoldable pub is_covered : ℕ → List Policy → Bool
is_covered ship [] = false
is_covered ship (p ∷ ps) = let rest = is_covered ship ps in if covers ship p then true else rest

pub record NewPolicy : Type 0 where
  pub ship_id : ℕ
  pub player_id : ℕ
  pub premium_paid : ℤ
  pub coverage : ℤ
  pub expires_at : ℕ

abbrev pub policy_row : ℕ → NewPolicy → Policy
policy_row id n = record {
  id = id;
  ship_id = n.ship_id;
  player_id = n.player_id;
  premium_paid = pos_part n.premium_paid;
  coverage = pos_part n.coverage;
  status = policy_active;
  expires_at = n.expires_at;
  claimed_at = none;
}

-- The CHECKs are tested first, then the unique index, and the foreign key last.
unfoldable pub create_policy : NewPolicy → Tx ℕ
create_policy n db =
    if not (ltb_ℤ (pos 0) n.premium_paid && ltb_ℤ (pos 0) n.coverage)
    then aborted
    else if is_covered n.ship_id db.insurance_policies
    then fail already_insured db
    else if has_player (find_player n.player_id db.players)
    then ok db.next_policy_id (record db {
      insurance_policies = policy_row db.next_policy_id n ∷ db.insurance_policies;
      next_policy_id = suc db.next_policy_id;
    })
    else aborted

unfoldable pub active_policy : ℕ → ℕ → List Policy → Option Policy
active_policy ship now = find_row (λ p. covers ship p && ltb now p.expires_at)

unfoldable pub active_for_ship : ℕ → ℕ → Tx (Option Policy)
active_for_ship ship now db = ok (active_policy ship now db.insurance_policies) db

-- `SET status = 'claimed', claimed_at = $2 WHERE id = $1 AND status = 'active'`.
unfoldable pub claim_rows : ℕ → ℕ → List Policy → List Policy
claim_rows id now [] = []
claim_rows id now (p ∷ ps) =
    let rest = claim_rows id now ps in
    if p.id == id && is_live p.status
    then record p { status = policy_claimed; claimed_at = some now } ∷ rest
    else p ∷ rest

unfoldable pub claim : ℕ → ℕ → Tx (Unit {0})
claim id now db = ok tt (record db { insurance_policies = claim_rows id now db.insurance_policies })

pub record Ownership : Type 0 where
  pub player_id : ℕ
  pub docked : Option EntityRef

abbrev ownership_of : Option Ship → Option Ownership
ownership_of none = none
ownership_of (some s) = some (record { player_id = s.player_id; docked = s.docked })

unfoldable pub ship_ownership : ℕ → Tx Ownership
ship_ownership ship db = or_raise (ownership_of (find_ship ship db.ships)) ship_not_found db
