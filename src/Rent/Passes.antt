-- ===== src/Rent/Passes.antt =====
-- internal/economy/rent/service.go: what a billing pass leaves for the next one.
use spaceempire_back.Prelude.{
  ℕ, zero, suc, ◌≤◌, ◌<◌, ◌≡◌, refl, subst, sym, ap, inl, inr, List, [], ◌∷◌, arith, leb,
  Bool-cases, leb→le, leb→lt, ◌∈◌, length, select,
}
use spaceempire_back.Store.Tables.{Rent, Db}
use spaceempire_back.Store.Tx.{ok, done, run_tx-done, run_tx_of_ok}
use spaceempire_back.RentsRepo.{insert_by_due, order_by_due, limited, due_rows, due}
use spaceempire_back.Rent.{Config, OverdueEvent, charge_all, process_due_in, process_due}
use spaceempire_back.Rent.Billing.{DueAmong, ids_of, charge_all-DueAmong}

insert-ids :
    (a : ℕ) (r : Rent) (xs : List Rent) → a ∈ ids_of (r ∷ xs) → a ∈ ids_of (insert_by_due r xs)
unfolding insert_by_due
insert-ids a r [] h = h
insert-ids a r (x ∷ xs) h = ground (arith, insert-ids a r xs)

order-ids : (a : ℕ) (rs : List Rent) → a ∈ ids_of rs → a ∈ ids_of (order_by_due rs)
unfolding order_by_due
order-ids a [] h = h
order-ids a (r ∷ rs) (inl e) = insert-ids a r (order_by_due rs) (inl e)
order-ids a (r ∷ rs) (inr m) = insert-ids a r (order_by_due rs) (inr (order-ids a rs m))

module _ (now : ℕ) where
  DueAmong-widen :
      (ids wide : List ℕ)
      → ((a : ℕ) → a ∈ ids → a ∈ wide)
      → (rs : List Rent) → DueAmong now ids rs
      → DueAmong now wide rs
  DueAmong-widen ids wide f [] h = tt
  DueAmong-widen ids wide f (r ∷ rs) (first, h) =
      ((λ d. f r.id (first d)), DueAmong-widen ids wide f rs h)

  abbrev due_of : List Rent → List Rent
  due_of = select (λ r. leb r.next_due_at now)

  select-DueAmong : (rs : List Rent) → DueAmong now (ids_of (due_of rs)) rs
  select-DueAmong [] = tt
  select-DueAmong (r ∷ rs) = elim (Bool-cases (leb r.next_due_at now)) [
    | inl owed ↦
        let e : due_of (r ∷ rs) ≡ r ∷ due_of rs = rw owed refl in
        subst (λ l. DueAmong now (ids_of l) (r ∷ rs)) (sym e)
          (
            (λ _. inl refl),
            DueAmong-widen (ids_of (due_of rs)) (r.id ∷ ids_of (due_of rs)) (λ a m. inr m) rs
                (select-DueAmong rs),
          )
    | inr later ↦
        let e : due_of (r ∷ rs) ≡ due_of rs = rw later refl in
        subst (λ l. DueAmong now (ids_of l) (r ∷ rs)) (sym e)
          ((λ d. absurd (omega (arith, leb→lt r.next_due_at now later, d))), select-DueAmong rs)
  ]

  due_rows-DueAmong : (rs : List Rent) → DueAmong now (ids_of (due_rows now rs)) rs
  unfolding due_rows
  due_rows-DueAmong rs =
      DueAmong-widen (ids_of (due_of rs)) _ (λ a m. order-ids a (due_of rs) m) rs
        (select-DueAmong rs)

  due_rows-nil : (rs : List Rent) → DueAmong now [] rs → due_rows now rs ≡ []
  unfolding due_rows order_by_due
  due_rows-nil rs h = ap order_by_due (nothing rs h)
    where
      nothing : (rs : List Rent) → DueAmong now [] rs → due_of rs ≡ []
      nothing [] h = refl
      nothing (r ∷ rs) (first, h) = elim (Bool-cases (leb r.next_due_at now)) [
        | inl owed ↦ absurd (first (leb→le r.next_due_at now owed))
        | inr later ↦ rw later (nothing rs h)
      ]

limited-all : (n : ℕ) (rs : List Rent) → length rs ≤ n → limited n rs ≡ rs
unfolding limited
limited-all n [] h = refl
limited-all zero (r ∷ rs) h = absurd (omega (arith, h))
limited-all (suc n) (r ∷ rs) h = ap (λ xs. r ∷ xs) (limited-all n rs (omega (arith, h)))

module _ (cfg : Config) (now : ℕ) (db : Db) where
  idle_pass :
      due_rows now db.rents ≡ [] → (limit : ℕ) → process_due cfg now limit db ≡ (done [], db)
  unfolding process_due process_due_in due charge_all limited
  idle_pass h limit =
      run_tx_of_ok (process_due_in cfg now limit) db
        (ap (λ rs. charge_all cfg now (limited limit rs) db) h)

module _ (cfg : Config) (now : ℕ) (db : Db) where
  -- Where the billing period is positive and a batch has room for every rent that is due, a
  -- billing pass that succeeds leaves no rent due at that moment, so another pass at that moment,
  -- of any size, charges nobody, has no events and changes nothing.
  pub process_due_once :
      (limit : ℕ) {es : List OverdueEvent} {db' : Db}
      → 0 < cfg.period
      → length (due_rows now db.rents) ≤ limit
      → process_due cfg now limit db ≡ (done es, db')
      → (due_rows now db'.rents ≡ []) × ((n : ℕ) → process_due cfg now n db' ≡ (done [], db'))
  unfolding process_due process_due_in due
  process_due_once limit {es} {db'} positive fits h =
      let run = run_tx-done (process_due_in cfg now limit) db h in
      let all =
        subst (λ rs. charge_all cfg now rs db ≡ ok es db')
          (limited-all limit (due_rows now db.rents) fits) run in
      let nothing = due_rows-nil now db'.rents (
        charge_all-DueAmong cfg now positive (due_rows now db.rents) db all
          (due_rows-DueAmong now db.rents)) in
      (nothing, λ n. idle_pass cfg now db' nothing n)
