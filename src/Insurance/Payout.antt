-- ===== src/Insurance/Payout.antt =====
-- internal/economy/insurance/service.go: OnKill.
use spaceempire_back.Prelude.{
  ℕ, ◌≡◌, subst, ap, ◌∙◌, ◌⊎◌, inl, inr, none, some, arith, Option-cases,
}
use spaceempire_back.Prelude.Int.{pos}
use spaceempire_back.Store.Tables.{Policy, Db}
use spaceempire_back.Store.Tx.{ok, done, and_then-eq-ok, run_tx-done}
use spaceempire_back.PlayersRepo.{adjust_cash}
use spaceempire_back.PlayersRepo.Effects.{Pays, adjust_cash-Pays}
use spaceempire_back.InsuranceRepo.{active_policy, active_for_ship, claim_rows, claim}
use spaceempire_back.Insurance.{pay_out, on_kill_in, on_kill}

module _ (ship now : ℕ) (db : Db) where
  -- The holder of the policy in force has its coverage, and the policy is claimed.
  pub record PaidOut (p : Policy) (db' : Db) : Type 0 where
    pub paid : Db
    pub pays : Pays p.player_id (pos p.coverage) db paid
    pub claimed : db' ≡ record db {
      players = paid.players;
      insurance_policies = claim_rows p.id now db.insurance_policies;
    }

  pay_out-PaidOut :
      (p : Policy) {u : Unit {0}} {db' : Db} → pay_out now (some p) db ≡ ok u db' → PaidOut p db'
  unfolding pay_out claim
  pay_out-PaidOut p {db' = db'} h =
      let (_, paid, first, last) =
        and_then-eq-ok (adjust_cash p.player_id (pos p.coverage) db) _ h in
      let pays = adjust_cash-Pays p.player_id (pos p.coverage) db first in
      let after : db'
          ≡ record paid { insurance_policies = claim_rows p.id now paid.insurance_policies } =
        ground arith in
      record {
        paid = paid;
        pays = pays;
        claimed =
            after
            ∙ ap {A = Db}
                (λ x. record x { insurance_policies = claim_rows p.id now x.insurance_policies })
                pays.frame;
      }

  nothing_out : {u : Unit {0}} {db' : Db} → pay_out now none db ≡ ok u db' → db' ≡ db
  unfolding pay_out
  nothing_out h = ground arith

  -- What a kill does, and that it is done once: no later kill of the ship finds a policy.
  abbrev pub Killed : Db → Type 0
  Killed db' =
      ((active_policy ship now db.insurance_policies ≡ none) × (db' ≡ db))
      ⊎ ((p : Policy) × (active_policy ship now db.insurance_policies ≡ some p) × PaidOut p db')

  pub on_kill-Killed : {u : Unit {0}} {db' : Db} → on_kill ship now db ≡ (done u, db') → Killed db'
  unfolding on_kill on_kill_in active_for_ship
  on_kill-Killed {u} {db'} h =
      let run = run_tx-done (on_kill_in ship now) db h in
      elim (Option-cases (active_policy ship now db.insurance_policies)) [
        | inl e ↦ inl (e, nothing_out (subst (λ o. pay_out now o db ≡ ok u db') e run))
        | inr (p, e) ↦
            inr (p, e, pay_out-PaidOut p (subst (λ o. pay_out now o db ≡ ok u db') e run))
      ]
