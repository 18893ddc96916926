-- ===== src/Rent/Billing.antt =====
-- internal/economy/rent/service.go: ProcessDue.
use spaceempire_back.Prelude.{
  ℕ, suc, ◌+◌, ◌≤◌, ◌<◌, ◌≡◌, refl, subst, ap, inl, inr, List, [], ◌∷◌, arith, leb, ◌==◌,
  Bool-cases, All, ◌∈◌,
}
use spaceempire_back.Prelude.Int.{ℤ, neg}
use spaceempire_back.Store.Tables.{Rent, Db}
use spaceempire_back.Store.Tx.{Outcome, ok, fail, aborted, Error, and_then-eq-ok}
use spaceempire_back.Domain.{EntityRef}
use spaceempire_back.PlayersRepo.{adjust_cash}
use spaceempire_back.PlayersRepo.Effects.{adjust_cash-Pays}
use spaceempire_back.StationsRepo.{clear_owner}
use spaceempire_back.RentsRepo.{
  paid_rows, mark_paid, unpaid_rows, mark_unpaid, without, delete_rent,
}
use spaceempire_back.Rent.{
  Config, OverdueEvent, confiscate, put_off, miss, lacks_cash, after_charge, charge, charge_all,
}

-- Every rent that is due at the moment is one of these.
abbrev pub DueAmong : ℕ → List ℕ → List Rent → Type 0
DueAmong now ids rs = All (λ r. (r.next_due_at ≤ now) → r.id ∈ ids) rs

module _ (now : ℕ) where
  paid-DueAmong :
      (i paid next : ℕ) (ids : List ℕ) (rs : List Rent)
      → now < next
      → DueAmong now (i ∷ ids) rs
      → DueAmong now ids (paid_rows i paid next rs)
  unfolding paid_rows
  paid-DueAmong i paid next ids [] later h = tt
  paid-DueAmong i paid next ids (r ∷ rs) later (first, h) = elim (Bool-cases (r.id == i)) [
    | inl hit ↦
        rw (paid_rows, hit)
          ((λ d. absurd (omega (arith, d, later))), paid-DueAmong i paid next ids rs later h)
    | inr miss_ ↦
        rw (paid_rows, miss_)
          ((λ d. ground (arith, first d)), paid-DueAmong i paid next ids rs later h)
  ]

  unpaid-DueAmong :
      (i periods next : ℕ) (ids : List ℕ) (rs : List Rent)
      → now < next
      → DueAmong now (i ∷ ids) rs
      → DueAmong now ids (unpaid_rows i periods next rs)
  unfolding unpaid_rows
  unpaid-DueAmong i periods next ids [] later h = tt
  unpaid-DueAmong i periods next ids (r ∷ rs) later (first, h) = elim (Bool-cases (r.id == i)) [
    | inl hit ↦
        rw (unpaid_rows, hit)
          ((λ d. absurd (omega (arith, d, later))), unpaid-DueAmong i periods next ids rs later h)
    | inr miss_ ↦
        rw (unpaid_rows, miss_)
          ((λ d. ground (arith, first d)), unpaid-DueAmong i periods next ids rs later h)
  ]

  without-DueAmong :
      (i : ℕ) (ids : List ℕ) (rs : List Rent)
      → DueAmong now (i ∷ ids) rs
      → DueAmong now ids (without i rs)
  unfolding without
  without-DueAmong i ids [] h = tt
  without-DueAmong i ids (r ∷ rs) (first, h) = elim (Bool-cases (r.id == i)) [
    | inl hit ↦ rw (without, hit) (without-DueAmong i ids rs h)
    | inr miss_ ↦ rw (without, miss_) ((λ d. ground (arith, first d)), without-DueAmong i ids rs h)
  ]

not_ok :
    {P : Type 0} {e : Error} {d d' : Db} {es : List OverdueEvent}
    → ◌≡◌ {A = Outcome (List OverdueEvent)} (fail e d) (ok es d')
    → P
not_ok h = cc

-- Only owners differ.
clear_owner-rents :
    (ref : EntityRef) (db : Db) {u : Unit {0}} {db' : Db}
    → clear_owner ref db ≡ ok u db'
    → db'.rents ≡ db.rents
unfolding clear_owner
clear_owner-rents ref db h = ground arith

module _ (cfg : Config) (now : ℕ) (positive : 0 < cfg.period) (ids : List ℕ) (r : Rent) where
  confiscate-DueAmong :
      (db : Db) {es : List OverdueEvent} {db' : Db}
      → confiscate r db ≡ ok es db'
      → DueAmong now (r.id ∷ ids) db.rents
      → DueAmong now ids db'.rents
  unfolding confiscate delete_rent
  confiscate-DueAmong db {db' = db'} h due_ =
      let (_, mid, first, last) = and_then-eq-ok (clear_owner r.station db) _ h in
      let after : db' ≡ record mid { rents = without r.id mid.rents } = ground arith in
      rw (after, clear_owner-rents r.station db first) (without-DueAmong now r.id ids db.rents due_)

  put_off-DueAmong :
      (db : Db) {es : List OverdueEvent} {db' : Db}
      → put_off (now + cfg.period) r db ≡ ok es db'
      → DueAmong now (r.id ∷ ids) db.rents
      → DueAmong now ids db'.rents
  unfolding put_off mark_unpaid
  put_off-DueAmong db {db' = db'} h due_ =
      let after : db' ≡ record db {
        rents = unpaid_rows r.id (suc r.unpaid_periods) (now + cfg.period) db.rents;
      } =
        ground arith in
      rw after (
        unpaid-DueAmong now r.id (suc r.unpaid_periods) (now + cfg.period) ids db.rents
          (omega arith) due_)

  miss-DueAmong :
      (db : Db) {es : List OverdueEvent} {db' : Db}
      → miss cfg (now + cfg.period) r db ≡ ok es db'
      → DueAmong now (r.id ∷ ids) db.rents
      → DueAmong now ids db'.rents
  unfolding miss
  miss-DueAmong db h due_ = elim (Bool-cases (leb cfg.max_unpaid (suc r.unpaid_periods))) [
    | inl last ↦ confiscate-DueAmong db (rw last at h) due_
    | inr more ↦ put_off-DueAmong db (rw more at h) due_
  ]

  after_charge-DueAmong :
      (db : Db) (o : Outcome ℕ) {es : List OverdueEvent} {db' : Db}
      → ((n : ℕ) (d : Db) → o ≡ ok n d → d.rents ≡ db.rents)
      → ((e : Error) (d : Db) → o ≡ fail e d → d ≡ db)
      → after_charge cfg now (now + cfg.period) r o ≡ ok es db'
      → DueAmong now (r.id ∷ ids) db.rents
      → DueAmong now ids db'.rents
  unfolding after_charge mark_paid
  after_charge-DueAmong db (ok n d) {db' = db'} kept same h due_ =
      let after : db' ≡ record d { rents = paid_rows r.id now (now + cfg.period) d.rents } =
        ground arith in
      rw (after, kept n d refl)
        (paid-DueAmong now r.id now (now + cfg.period) ids db.rents (omega arith) due_)
  after_charge-DueAmong db (fail e d) {es} {db'} kept same h due_ =
      elim (Bool-cases (lacks_cash e)) [
        | inl poor ↦
            miss-DueAmong db
              (subst (λ x. miss cfg (now + cfg.period) r x ≡ ok es db') (same e d refl)
                (rw poor at h))
              due_
        | inr other ↦ not_ok (rw other at h)
      ]
  after_charge-DueAmong db aborted kept same h due_ = cc

  adjust_cash-fails :
      (id : ℕ) (delta : ℤ) (db : Db) {e : Error} {d : Db}
      → adjust_cash id delta db ≡ fail e d
      → d ≡ db
  unfolding adjust_cash
  adjust_cash-fails id delta db h = ground arith

  charge-DueAmong :
      (db : Db) {es : List OverdueEvent} {db' : Db}
      → charge cfg now r db ≡ ok es db'
      → DueAmong now (r.id ∷ ids) db.rents
      → DueAmong now ids db'.rents
  unfolding charge
  charge-DueAmong db h due_ =
      after_charge-DueAmong db (adjust_cash r.payer (neg r.amount_per_period) db)
        (λ n d e.
          ap {A = Db} (λ x. x.rents)
            (adjust_cash-Pays r.payer (neg r.amount_per_period) db e).frame)
        (λ e d f. adjust_cash-fails r.payer (neg r.amount_per_period) db f) h due_

abbrev pub ids_of : List Rent → List ℕ
ids_of [] = []
ids_of (r ∷ rs) = r.id ∷ ids_of rs

module _ (cfg : Config) (now : ℕ) (positive : 0 < cfg.period) where
  pub charge_all-DueAmong :
      (rs : List Rent) (db : Db) {es : List OverdueEvent} {db' : Db}
      → charge_all cfg now rs db ≡ ok es db'
      → DueAmong now (ids_of rs) db.rents
      → DueAmong now [] db'.rents
  unfolding charge_all
  charge_all-DueAmong [] db {db' = db'} h due_ = let same : db' ≡ db = ground arith in rw same due_
  charge_all-DueAmong (r ∷ rs) db {db' = db'} h due_ =
      let (first, mid, one, h₁) = and_then-eq-ok (charge cfg now r db) _ h in
      let (rest, after, all, h₂) = and_then-eq-ok (charge_all cfg now rs mid) _ h₁ in
      let same : db' ≡ after = ground arith in
      rw same (
        charge_all-DueAmong rs mid all (charge-DueAmong cfg now positive (ids_of rs) r db one due_))
