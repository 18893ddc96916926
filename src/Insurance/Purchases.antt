-- ===== src/Insurance/Purchases.antt =====
-- internal/economy/insurance/service.go: what the steps of Buy saw and did.
use spaceempire_back.Prelude.{
  ℕ, suc, ◌+◌, ◌*◌, ◌≡◌, subst, ap, ◌∙◌, inl, inr, false, ◌||◌, some, List, ◌∷◌, arith, Bool-cases,
  Option-cases,
}
use spaceempire_back.Prelude.Int.{ℤ, pos, pos_part, neg_part, leb_ℤ, neg_i64}
use spaceempire_back.Store.Tables.{Player, Db}
use spaceempire_back.Store.Tx.{ok, done, and_then-eq-ok, run_tx-done}
use spaceempire_back.Domain.{EntityRef}
use spaceempire_back.PlayersRepo.{adjust_cash}
use spaceempire_back.PlayersRepo.Effects.{weigh_cash, adjust_cash-Pays}
use spaceempire_back.InsuranceRepo.{
  NewPolicy, Ownership, policy_row, expire_rows, expire_active_for_ship, is_covered, create_policy,
  ship_ownership,
}
use spaceempire_back.Insurance.{Config, policy_for, no_funds, buy_in, check_owner, buy_checked, buy}
use spaceempire_back.Trade.{relabel}
use spaceempire_back.Trade.Deals.{relabel-ok}

create_policy-added :
    (n : NewPolicy) (db : Db) {id : ℕ} {db' : Db}
    → create_policy n db ≡ ok id db'
    → (is_covered n.ship_id db.insurance_policies ≡ false)
      × (db' ≡ record db {
        insurance_policies = policy_row db.next_policy_id n ∷ db.insurance_policies;
        next_policy_id = suc db.next_policy_id;
      })
unfolding create_policy
create_policy-added n db h = ground arith

module _ (cfg : Config) (player ship : ℕ) (premium days : ℤ) (now : ℕ) where
  -- The premium was paid, lapsed cover of the ship has expired, and a policy was added for a ship
  -- without cover.
  pub record Insured (db db' : Db) : Type 0 where
    pub wallets : List Player
    pub charged :
        (w : ℕ → ℕ)
        → weigh_cash w wallets + w player * neg_part (neg_i64 premium)
          ≡ weigh_cash w db.players + w player * pos_part (neg_i64 premium)
    pub uncovered : is_covered ship (expire_rows ship now db.insurance_policies) ≡ false
    pub added : db' ≡ record db {
      players = wallets;
      insurance_policies =
          policy_row db.next_policy_id (policy_for cfg player ship premium days now)
          ∷ expire_rows ship now db.insurance_policies;
      next_policy_id = suc db.next_policy_id;
    }

  buy_in-Insured :
      (db : Db) {id : ℕ} {db' : Db}
      → buy_in cfg player ship premium days now db ≡ ok id db'
      → Insured db db'
  unfolding buy_in expire_active_for_ship policy_for
  buy_in-Insured db {db' = db'} h =
      let lapsed = record db { insurance_policies = expire_rows ship now db.insurance_policies } in
      let (_, paid, charged, last) =
        and_then-eq-ok (relabel no_funds (adjust_cash player (neg_i64 premium)) lapsed) _ h in
      let pays =
        adjust_cash-Pays player (neg_i64 premium) lapsed
          (relabel-ok no_funds (adjust_cash player (neg_i64 premium)) lapsed charged) in
      let (free, added) =
        create_policy-added (policy_for cfg player ship premium days now) paid last in
      record {
        wallets = paid.players;
        charged = pays.sums;
        uncovered =
            subst (λ x. is_covered ship x ≡ false)
              (ap {A = Db} (λ x. x.insurance_policies) pays.frame) free;
        added =
            added
            ∙ ap {A = Db}
                (λ x. record x {
                  insurance_policies =
                      policy_row x.next_policy_id (policy_for cfg player ship premium days now)
                      ∷ x.insurance_policies;
                  next_policy_id = suc x.next_policy_id;
                })
                pays.frame;
      }

  check_owner-reads :
      (o : Ownership) (db : Db) {u : Unit {0}} {db' : Db}
      → check_owner o player db ≡ ok u db'
      → (o.player_id ≡ player) × ((d : EntityRef) × (o.docked ≡ some d)) × (db' ≡ db)
  unfolding check_owner
  check_owner-reads o db h = elim (Option-cases o.docked) [
    | inl e ↦ ground arith
    | inr (d, e) ↦ (ground arith, (d, e), ground arith)
  ]

  -- What the steps of a purchase saw and did.
  pub record Purchase (db db' : Db) : Type 0 where
    pub owner : Ownership
    pub dock : EntityRef
    pub read : ship_ownership ship db ≡ ok owner db
    pub own : owner.player_id ≡ player
    pub docked : owner.docked ≡ some dock
    pub valid : (leb_ℤ premium (pos 0) || leb_ℤ days (pos 0)) ≡ false
    pub insured : Insured db db'

  ship_ownership-reads :
      (db : Db) {o : Ownership} {db' : Db} → ship_ownership ship db ≡ ok o db' → db' ≡ db
  unfolding ship_ownership
  ship_ownership-reads db h = ground arith

  buy_checked-Purchase :
      (db : Db) {id : ℕ} {db' : Db}
      → (leb_ℤ premium (pos 0) || leb_ℤ days (pos 0)) ≡ false
      → buy_checked cfg player ship premium days now db ≡ ok id db'
      → Purchase db db'
  unfolding buy_checked
  buy_checked-Purchase db {id} {db'} fine h =
      let (o, a, read, h₁) = and_then-eq-ok (ship_ownership ship db) _ h in
      let (_, b, checked, h₂) = and_then-eq-ok (check_owner o player a) _ h₁ in
      let (own, (d, at), kept) = check_owner-reads o a checked in
      let same = ship_ownership-reads db read in
      record {
        owner = o;
        dock = d;
        read = subst (λ x. ship_ownership ship db ≡ ok o x) same read;
        own = own;
        docked = at;
        valid = fine;
        insured =
            buy_in-Insured db
              (subst (λ x. buy_in cfg player ship premium days now x ≡ ok id db') (kept ∙ same) h₂);
      }

  pub buy-Purchase :
      (db : Db) {id : ℕ} {db' : Db}
      → buy cfg player ship premium days now db ≡ (done id, db')
      → Purchase db db'
  unfolding buy
  buy-Purchase db {id} {db'} h = elim (Bool-cases (leb_ℤ premium (pos 0) || leb_ℤ days (pos 0))) [
    | inl bad ↦ ground arith
    | inr fine ↦
        buy_checked-Purchase db fine
          (run_tx-done (buy_checked cfg player ship premium days now) db (rw fine at h))
  ]
