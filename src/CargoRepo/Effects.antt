-- ===== src/CargoRepo/Effects.antt =====
-- What `Add` and `Subtract` do to the database, as one weighted sum and a frame.
use spaceempire_back.Prelude.{
  ℕ, ◌+◌, ◌-◌, ◌*◌, ◌≤◌, ◌<◌, none, some, [], ◌∷◌, Bool-cases, ◌≡◌, refl, ap, ◌∙◌, arith, inl, inr,
  List, Option-cases, ◌==◌, if◌then◌else◌,
}
use spaceempire_back.Domain.{EntityRef}
use spaceempire_back.Store.Tables.{CargoKey, CargoRow, Db, key_eq}
use spaceempire_back.Store.Tx.{ok, fail, insufficient_quantity}
use spaceempire_back.CargoRepo.{
  cargo_key, add_stack, add, stack, take_stack, delete_empty, subtract, is_known, find_goods_type,
}
use spaceempire_back.CargoRepo.Weights.{
  weigh, weigh-add_stack, weigh-take_stack, weigh-delete_empty,
}

-- Only the table `cargo` differs.
abbrev pub CargoOnly : Db → Db → Type 0
CargoOnly db db' = db' ≡ record db { cargo = db'.cargo }

pub CargoOnly-trans : (a b c : Db) → CargoOnly a b → CargoOnly b c → CargoOnly a c
CargoOnly-trans a b c p q = q ∙ ap (λ (x : Db). record x { cargo = c.cargo }) p

-- `q` units came to the stack `k`, and nothing else changed.
pub record Gains (k : CargoKey) (q : ℕ) (db db' : Db) : Type 0 where
  pub sums : (w : CargoKey → ℕ) → weigh w db'.cargo ≡ weigh w db.cargo + w k * q
  pub frame : CargoOnly db db'

-- `q` units left the stack `k`, and nothing else changed.
pub record Loses (k : CargoKey) (q : ℕ) (db db' : Db) : Type 0 where
  pub sums : (w : CargoKey → ℕ) → weigh w db'.cargo + w k * q ≡ weigh w db.cargo
  pub frame : CargoOnly db db'

-- `Subtract` succeeds exactly when the stack holds enough.
take_stack-enough :
    (k : CargoKey) (q : ℕ) (rows : List CargoRow)
    → 0 < q
    → q ≤ stack k rows
    → (rows' : List CargoRow) × (take_stack k q rows ≡ some (stack k rows - q, rows'))
unfolding take_stack stack
take_stack-enough k q [] p h = absurd (omega arith)
take_stack-enough k q (r ∷ rs) p h = elim (Bool-cases (key_eq r.key k)) [
  | inl here ↦ (record r { quantity = r.quantity - q } ∷ rs, ground arith)
  | inr later ↦
      let (rest, e) = take_stack-enough k q rs p (ground arith) in (r ∷ rest, ground arith)
]

take_stack-short :
    (k : CargoKey) (q : ℕ) (rows : List CargoRow) → stack k rows < q → take_stack k q rows ≡ none
unfolding take_stack stack
take_stack-short k q [] h = refl
take_stack-short k q (r ∷ rs) h = ground (arith, take_stack-short k q rs)

module _ (owner : EntityRef) (g q depositor : ℕ) (db : Db) where
  pub add-Gains :
      {u : Unit {0}} {db' : Db}
      → add owner g q depositor db ≡ ok u db'
      → Gains (cargo_key owner g depositor) q db db'
  unfolding add
  add-Gains {db' = db'} h =
      elim (Option-cases (
        add_stack (is_known (find_goods_type g db.goods_types)) (cargo_key owner g depositor) q
          db.cargo)) [
            | inl e ↦ ground arith
            | inr (rows, e) ↦
                let after : db' ≡ record db { cargo = rows } = ground arith in
                rw after (record { sums = λ w. weigh-add_stack w _ _ q db.cargo e; frame = refl })
          ]

  pub subtract-Loses :
      {u : Unit {0}} {db' : Db}
      → subtract owner g q depositor db ≡ ok u db'
      → Loses (cargo_key owner g depositor) q db db'
  unfolding subtract
  subtract-Loses {db' = db'} h =
      elim (Option-cases (take_stack (cargo_key owner g depositor) q db.cargo)) [
        | inl e ↦ ground arith
        | inr ((n, rows), e) ↦
            let k : CargoKey = cargo_key owner g depositor in
            let rest : List CargoRow = if n == 0 then delete_empty k rows else rows in
            let after : db' ≡ record db { cargo = rest } = ground arith in
            rw after (record {
              sums = λ w.
                  ground (arith, weigh-take_stack w k q db.cargo e, weigh-delete_empty w k rows);
              frame = refl;
            })
      ]

  -- Of a stack that holds enough, any positive quantity is taken.
  pub subtract-enough :
      0 < q
      → q ≤ stack (cargo_key owner g depositor) db.cargo
      → (after : Db) × (subtract owner g q depositor db ≡ ok tt after)
  unfolding subtract
  subtract-enough p h =
      let k : CargoKey = cargo_key owner g depositor in
      let (rows, e) = take_stack-enough k q db.cargo p h in
      (
        record db { cargo = if (stack k db.cargo - q) == 0 then delete_empty k rows else rows },
        rw (e, subtract),
      )

  pub subtract-short :
      stack (cargo_key owner g depositor) db.cargo < q
      → subtract owner g q depositor db ≡ fail insufficient_quantity db
  unfolding subtract
  subtract-short h = rw (take_stack-short (cargo_key owner g depositor) q db.cargo h, subtract)
