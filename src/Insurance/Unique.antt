-- ===== src/Insurance/Unique.antt =====
-- internal/economy/insurance/service.go: the policies under purchases and kills.
use spaceempire_back.Prelude.{
  ◌<◌, ◌≢◌, All, Rowwise, ℕ, suc, ◌+◌, ◌*◌, ◌≡◌, refl, ap, ◌∙◌, inl, inr, false, ◌||◌, some, List,
  ◌∷◌, arith, Bool-cases, Option-cases,
}
use spaceempire_back.Prelude.Int.{
  pos_part-neg, neg_part-neg, ℤ, pos, negsuc, pos_part, neg_part, leb_ℤ, neg_i64,
}
use spaceempire_back.Store.Tables.{Player, Ship, Policy, policy_active, Db}
use spaceempire_back.Store.Tx.{ok, Result, done, err, Error, run_tx-err}
use spaceempire_back.Domain.{EntityRef}
use spaceempire_back.PlayersRepo.Effects.{weigh_cash}
use spaceempire_back.InsuranceRepo.{Ownership, policy_row, expire_rows, ship_ownership}
use spaceempire_back.InsuranceRepo.Coverage.{OneActive, OneActive-expire, OneActive-claim}
use spaceempire_back.Insurance.{Config, policy_for, buy_checked, buy, on_kill, on_kill_in}
use spaceempire_back.CargoRepo.{find_ship}
use spaceempire_back.Insurance.Terms.{
  Lapse, Terms, expire_rows-Lapse, is_covered-All, policy_row-Terms,
}
use spaceempire_back.Insurance.Payout.{on_kill-Killed}
use spaceempire_back.Insurance.Purchases.{Insured, buy-Purchase}

both_positive :
    (a b : ℤ) → (leb_ℤ a (pos 0) || leb_ℤ b (pos 0)) ≡ false → (0 < pos_part a) × (0 < pos_part b)
both_positive a b h = (ground arith, ground arith)

charge_of :
    (premium : ℤ) (player : ℕ) (w : ℕ → ℕ) (after before : List Player)
    → 0 < pos_part premium
    → weigh_cash w after + w player * neg_part (neg_i64 premium)
      ≡ weigh_cash w before + w player * pos_part (neg_i64 premium)
    → weigh_cash w after + w player * pos_part premium ≡ weigh_cash w before
unfolding neg_i64
charge_of (pos n) player w after before h e =
    let s = rw (neg_part-neg n) at e in let t = rw (pos_part-neg n) at s in omega (arith, t)
charge_of (negsuc n) player w after before h e = absurd (omega (arith, h))

module _ (cfg : Config) (player ship : ℕ) (premium days : ℤ) (now : ℕ) where
  -- The owner of a docked ship paid a positive premium for a policy on it, and no other is active.
  pub record Bought (db db' : Db) : Type 0 where
    pub vessel : Ship
    pub dock : EntityRef
    pub found : find_ship ship db.ships ≡ some vessel
    pub own : vessel.player_id ≡ player
    pub docked : vessel.docked ≡ some dock
    pub positive : (0 < pos_part premium) × (0 < pos_part days)
    pub wallets : List Player
    pub policies : List Policy
    pub sold : Policy
    pub charged :
        (w : ℕ → ℕ) → weigh_cash w wallets + w player * pos_part premium ≡ weigh_cash w db.players
    pub lapses : Rowwise (Lapse ship now) db.insurance_policies policies
    pub uncovered : All (λ q. q.status ≡ policy_active → q.ship_id ≢ ship) policies
    pub terms : Terms cfg player ship premium days now db.next_policy_id sold
    pub frame : db' ≡ record db {
      players = wallets;
      insurance_policies = sold ∷ policies;
      next_policy_id = suc db.next_policy_id;
    }

  ownership-vessel :
      (db : Db) {o : Ownership}
      → ship_ownership ship db ≡ ok o db
      → (v : Ship) × (find_ship ship db.ships ≡ some v)
        × (v.player_id ≡ o.player_id)
        × (v.docked ≡ o.docked)
  unfolding ship_ownership
  ownership-vessel db {o} h = elim (Option-cases (find_ship ship db.ships)) [
    | inl missing ↦ ground arith
    | inr (v, there) ↦ (v, there, ground arith, ground arith)
  ]

  -- Insurance is sold only for a positive premium and duration to the owner of a docked ship, who
  -- pays exactly the premium while every other wallet is as it was. Active cover of that ship
  -- whose end has come is expired, other policies are as they were, and none of that ship is
  -- active; on top of them stands the new policy, active, for the premium times the multiplier
  -- and for the days asked, at most the maximum (both as far as they fit an int64). Nothing else
  -- changes but the sequence of policy ids.
  pub buy_insures :
      (db : Db) {id : ℕ} {db' : Db}
      → buy cfg player ship premium days now db ≡ (done id, db')
      → Bought db db'
  buy_insures db {id} {db'} h =
      let p = buy-Purchase cfg player ship premium days now db h in
      let (v, there, owner, dock) = ownership-vessel db p.read in
      let positive = both_positive premium days p.valid in
      record {
        vessel = v;
        dock = p.dock;
        found = there;
        own = owner ∙ p.own;
        docked = dock ∙ p.docked;
        positive = positive;
        wallets = p.insured.wallets;
        policies = expire_rows ship now db.insurance_policies;
        sold = policy_row db.next_policy_id (policy_for cfg player ship premium days now);
        charged = λ w.
            charge_of premium player w p.insured.wallets db.players positive.0
              (p.insured.charged w);
        lapses = expire_rows-Lapse ship now db.insurance_policies;
        uncovered =
            is_covered-All ship (expire_rows ship now db.insurance_policies) p.insured.uncovered;
        terms = policy_row-Terms cfg player ship premium days now db.next_policy_id positive.1;
        frame = p.insured.added;
      }

  Insured-OneActive :
      (db db' : Db)
      → OneActive db.insurance_policies
      → Insured cfg player ship premium days now db db'
      → OneActive db'.insurance_policies
  unfolding policy_for
  Insured-OneActive db db' one i =
      rw (ap {A = Db} (λ x. x.insurance_policies) i.added)
        ((λ _. i.uncovered), OneActive-expire ship now db.insurance_policies one)

  buy-err :
      (db : Db) {e : Error} {db' : Db}
      → buy cfg player ship premium days now db ≡ (err e, db')
      → db' ≡ db
  unfolding buy
  buy-err db h = elim (Bool-cases (leb_ℤ premium (pos 0) || leb_ℤ days (pos 0))) [
    | inl bad ↦ ground arith
    | inr fine ↦ run_tx-err (buy_checked cfg player ship premium days now) db (rw fine at h)
  ]

on_kill-err :
    (ship now : ℕ) (db : Db) {e : Error} {db' : Db} → on_kill ship now db ≡ (err e, db') → db' ≡ db
unfolding on_kill
on_kill-err ship now db h = run_tx-err (on_kill_in ship now) db h

-- What the service does to the policies, and what others do elsewhere.
pub data Step (db : Db) : Db → Type 0 where
  bought :
      (cfg : Config) (player ship : ℕ) (premium days : ℤ) (now : ℕ)
      → Step db (buy cfg player ship premium days now db).1
  killed : (ship now : ℕ) → Step db (on_kill ship now db).1
  elsewhere : (db' : Db) → db'.insurance_policies ≡ db.insurance_policies → Step db db'

pub data Steps (db : Db) : Db → Type 0 where
  start : Steps db db
  further : {db' db'' : Db} → Steps db db' → Step db' db'' → Steps db db''

module _ (db : Db) (one : OneActive db.insurance_policies) where
  bought-OneActive :
      (cfg : Config) (player ship : ℕ) (premium days : ℤ) (now : ℕ) (r : Result ℕ) (db' : Db)
      → buy cfg player ship premium days now db ≡ (r, db')
      → OneActive db'.insurance_policies
  bought-OneActive cfg player ship premium days now (done id) db' h =
      Insured-OneActive cfg player ship premium days now db db' one
        (buy-Purchase cfg player ship premium days now db h).insured
  bought-OneActive cfg player ship premium days now (err e) db' h =
      rw (buy-err cfg player ship premium days now db h) one

  killed-OneActive :
      (ship now : ℕ) (r : Result (Unit {0})) (db' : Db)
      → on_kill ship now db ≡ (r, db')
      → OneActive db'.insurance_policies
  killed-OneActive ship now (done u) db' h = elim (on_kill-Killed ship now db h) [
    | inl (e, same) ↦ rw same one
    | inr (p, e, out) ↦
        rw (ap {A = Db} (λ x. x.insurance_policies) out.claimed)
          (OneActive-claim p.id now db.insurance_policies one)
  ]
  killed-OneActive ship now (err e) db' h = rw (on_kill-err ship now db h) one

Step-OneActive :
    {db db' : Db} → Step db db' → OneActive db.insurance_policies → OneActive db'.insurance_policies
Step-OneActive {db} (bought cfg player ship premium days now) one =
    bought-OneActive db one cfg player ship premium days now
      (buy cfg player ship premium days now db).0 (buy cfg player ship premium days now db).1 refl
Step-OneActive {db} (killed ship now) one =
    killed-OneActive db one ship now (on_kill ship now db).0 (on_kill ship now db).1 refl
Step-OneActive (elsewhere db' same) one = rw same one

-- Whatever is insured, killed or changed in other tables, in any order, with any answer, no ship
-- has two active policies if none had before.
pub OneActive-Steps :
    {db : Db}
    → OneActive db.insurance_policies
    → {db' : Db} → Steps db db'
    → OneActive db'.insurance_policies
OneActive-Steps one start = one
OneActive-Steps one (further before last) = Step-OneActive last (OneActive-Steps one before)
