-- ===== src/Rent/Ensuring.antt =====
-- internal/economy/rent/service.go: the loop of Reconcile.
use spaceempire_back.Prelude.{
  ℕ, suc, ◌≡◌, refl, ap, subst, sym, ◌∙◌, true, List, [], ◌∷◌, ◌++◌, arith, Bool-cases, inl, inr,
  All,
}
use spaceempire_back.Domain.{EntityRef}
use spaceempire_back.Store.Tables.{Rent, Db}
use spaceempire_back.Store.Tx.{
  Outcome, ok, fail, aborted, Result, done, err, finish, run_tx, run_tx_of_ok,
}
use spaceempire_back.StationsRepo.{OwnedStatic}
use spaceempire_back.RentsRepo.{has_rent, new_rent, ensure}
use spaceempire_back.Rent.{Config, ensure_all}
use spaceempire_back.Rent.Claiming.{Owes, ensure-Owes}

-- A rent of every object is owed.
abbrev pub Covered : List OwnedStatic → List Rent → Type 0
Covered os rs = All (λ o. has_rent o.ref rs ≡ true) os

-- Rows were put in front, and no other table changed.
pub record Adds (db db' : Db) : Type 0 where
  pub news : List Rent
  pub rents : db'.rents ≡ news ++ db.rents
  pub frame : db' ≡ record db { rents = db'.rents; next_rent_id = db'.next_rent_id }

has_rent-append :
    (ref : EntityRef) (news rs : List Rent)
    → has_rent ref rs ≡ true
    → has_rent ref (news ++ rs) ≡ true
unfolding has_rent
has_rent-append ref [] rs h = h
has_rent-append ref (r ∷ news) rs h = ground (arith, has_rent-append ref news rs h)

append_assoc : (a b c : List Rent) → a ++ (b ++ c) ≡ (a ++ b) ++ c
append_assoc [] b c = refl
append_assoc (x ∷ a) b c = ap (λ l. x ∷ l) (append_assoc a b c)

Adds-Adds : {a b c : Db} → Adds a b → Adds b c → Adds a c
Adds-Adds {a} {b} {c} first last = record {
  news = last.news ++ first.news;
  rents =
      last.rents ∙ ap (λ l. last.news ++ l) first.rents ∙ append_assoc last.news first.news a.rents;
  frame =
      last.frame
      ∙ ap {A = Db} (λ x. record x { rents = c.rents; next_rent_id = c.next_rent_id }) first.frame;
}

Owes-Adds :
    {payer : ℕ} {ref : EntityRef} {amount next : ℕ} {db db' : Db}
    → Owes payer ref amount next db db'
    → Adds db db'
Owes-Adds {payer} {ref} {amount} {next} {db} {db'} o = elim (Bool-cases (has_rent ref db.rents)) [
  | inl there ↦ record { news = []; rents = table ∙ o.kept there; frame = frame }
  | inr absent ↦ record {
    news = new_rent db.next_rent_id payer ref amount next ∷ [];
    rents = table ∙ o.fresh absent;
    frame = frame;
  }
]
  where
    table : db'.rents ≡ o.rents
    table = ap {A = Db} (λ x. x.rents) o.written

    frame : db' ≡ record db { rents = db'.rents; next_rent_id = db'.next_rent_id }
    frame =
        subst (λ x. x ≡ record db { rents = x.rents; next_rent_id = x.next_rent_id })
          (sym o.written) refl

module _ (cfg : Config) (next : ℕ) where
  -- The rest of the loop after one Ensure.
  abbrev after_one : List OwnedStatic → Result (Unit {0}) × Db → Result (Unit {0}) × Db
  after_one os r = elim r.0 [ err e ↦ (err e, r.1) | done _ ↦ ensure_all cfg next os r.1 ]

  ensure_all_step :
      (o : OwnedStatic) (os : List OwnedStatic) (db : Db) {u : Unit {0}} {db' : Db}
      → ensure_all cfg next (o ∷ os) db ≡ (done u, db')
      → (mid : Db) × (ensure o.owner o.ref cfg.default_amount next db ≡ ok tt mid)
        × (ensure_all cfg next os mid ≡ (done u, db'))
  unfolding ensure_all run_tx
  ensure_all_step o os db {u} {db'} h = go (ensure o.owner o.ref cfg.default_amount next db) refl
    where
      go :
          (out : Outcome (Unit {0}))
          → ensure o.owner o.ref cfg.default_amount next db ≡ out
          → (mid : Db) × (ensure o.owner o.ref cfg.default_amount next db ≡ ok tt mid)
            × (ensure_all cfg next os mid ≡ (done u, db'))
      go (ok v mid) e = (mid, e, subst (λ x. after_one os (finish db x) ≡ (done u, db')) e h)
      go (fail x mid) e =
          ground (arith, subst (λ x. after_one os (finish db x) ≡ (done u, db')) e h)
      go aborted e = ground (arith, subst (λ x. after_one os (finish db x) ≡ (done u, db')) e h)

  pub ensure_all-Covered :
      (os : List OwnedStatic) (db : Db) {u : Unit {0}} {db' : Db}
      → ensure_all cfg next os db ≡ (done u, db')
      → Adds db db' × Covered os db'.rents
  unfolding ensure_all
  ensure_all-Covered [] db {db' = db'} h =
      (subst (Adds db) (ap (λ x. x.1) h) (record { news = []; rents = refl; frame = refl }), tt)
  ensure_all-Covered (o ∷ os) db {db' = db'} h =
      let (mid, one, rest) = ensure_all_step o os db h in
      let owes = ensure-Owes o.owner o.ref cfg.default_amount next db one in
      let (adds, covered) = ensure_all-Covered os mid rest in
      let now_owed = ap {A = Db} (λ x. has_rent o.ref x.rents) owes.written ∙ owes.owed in
      (
        Adds-Adds (Owes-Adds owes) adds,
        (
          ap (has_rent o.ref) adds.rents ∙ has_rent-append o.ref adds.news mid.rents now_owed,
          covered,
        ),
      )

  -- Where all is covered, nothing is added.
  pub ensure_all_again :
      (os : List OwnedStatic) (db : Db)
      → Covered os db.rents
      → (db' : Db) × (ensure_all cfg next os db ≡ (done tt, db')) × (db'.rents ≡ db.rents)
  unfolding ensure_all ensure
  ensure_all_again [] db h = (db, refl, refl)
  ensure_all_again (o ∷ os) db (there, h) =
      let (db', run, same) =
        ensure_all_again os (record db { next_rent_id = suc db.next_rent_id }) h in
      let one : ensure o.owner o.ref cfg.default_amount next db
          ≡ ok tt (record db { next_rent_id = suc db.next_rent_id }) =
        rw (there, ensure) refl in
      (
        db',
        ap (after_one os) (run_tx_of_ok (ensure o.owner o.ref cfg.default_amount next) db one)
            ∙ run,
        same,
      )
