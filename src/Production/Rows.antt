-- ===== src/Production/Rows.antt =====
-- internal/persistence/stations/repo.go: the row of a station after UpdateProduction.
use spaceempire_back.Prelude.{
  ℕ, ◌≡◌, ◌≢◌, refl, Bool, false, Option, none, some, List, [], ◌∷◌, arith, ◌==◌, Bool-cases, inl,
  inr, find_row,
}
use spaceempire_back.Store.Tables.{Db}
use spaceempire_back.Store.Tables
use spaceempire_back.StationsRepo.{set_production, stored_next}
use spaceempire_back.Production.{Station}

abbrev pub row_of : ℕ → List Tables.Station → Option Tables.Station
row_of i = find_row (λ s. s.id == i)

-- The row of a station, if it has one, says what its memory says.
abbrev pub RowAgrees : Station → Option Tables.Station → Type 0
RowAgrees st none = Unit
RowAgrees st (some row) =
    (row.in_progress ≡ st.in_progress) × (row.next_cycle_at ≡ stored_next st.next_cycle_at)

pub set_production_self :
    (st : Station) (p : Bool) (n : Option ℕ) (rows : List Tables.Station)
    → RowAgrees
        (record st { in_progress = p; next_cycle_at = n })
        (row_of st.id (set_production st.id p n rows))
unfolding set_production
set_production_self st p n [] = tt
set_production_self st p n (r ∷ rs) = elim (Bool-cases (r.id == st.id)) [
  | inl hit ↦ rw (hit, hit) (refl, refl)
  | inr miss ↦ rw (miss, miss) (set_production_self st p n rs)
]

pub set_production_other :
    (i j : ℕ) (p : Bool) (n : Option ℕ) (rows : List Tables.Station)
    → j ≢ i
    → row_of j (set_production i p n rows) ≡ row_of j rows
unfolding set_production
set_production_other i j p n [] h = refl
set_production_other i j p n (r ∷ rs) h = ground (arith, set_production_other i j p n rs h)

-- A row with its cycle at an end.
abbrev pub as_idle : Option Tables.Station → Option Tables.Station
as_idle none = none
as_idle (some row) = some (record row { in_progress = false; next_cycle_at = none })

pub set_production-idle :
    (i : ℕ) (rows : List Tables.Station)
    → row_of i (set_production i false none rows) ≡ as_idle (row_of i rows)
unfolding set_production
set_production-idle i [] = refl
set_production-idle i (r ∷ rs) = elim (Bool-cases (r.id == i)) [
  | inl hit ↦ rw (set_production, hit, hit) refl
  | inr miss ↦ rw (set_production, miss, miss) (set_production-idle i rs)
]
