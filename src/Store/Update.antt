-- ===== src/Store/Update.antt =====
-- A conditional UPDATE of the one row that a key names.
use spaceempire_back.Prelude.{ℕ, ◌≡◌, refl, ◌⊎◌, inl, inr, List, ◌∷◌}

-- No row fitted, Postgres refused the new value, or a column has a new value in a new table.
pub data Update {ℓ} (Row : Type ℓ) : Type ℓ where
  no_row : Update Row
  refused : Update Row
  updated : ℕ → List Row → Update Row

abbrev pub cons_update {ℓ} : {Row : Type ℓ} → Row → Update Row → Update Row
cons_update r no_row = no_row
cons_update r refused = refused
cons_update r (updated n rs) = updated n (r ∷ rs)

pub Update-cases {ℓ} :
    {Row : Type ℓ} (o : Update Row)
    → (o ≡ no_row) ⊎ ((o ≡ refused) ⊎ ((n : ℕ) × (rs : List Row) × (o ≡ updated n rs)))
Update-cases no_row = inl refl
Update-cases refused = inr (inl refl)
Update-cases (updated n rs) = inr (inr (n, rs, refl))
