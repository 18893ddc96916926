-- ===== src/Relations/Text.antt =====
-- internal/social/relations/repository.go, parseStatus, and Relation.String.
use Prim.Native.String.{String}
use text.Mathlib.Text.{◌==◌ as text_eq}
use text.Mathlib.TextEquality.{eq_iff}
use spaceempire_back.Prelude.{◌≡◌, ◌≢◌, refl, some, arith, Bool-cases, inl, inr, ◌↔◌}
use spaceempire_back.Relations.{
  Relation, friend, neutral, hostile, at_war, relation_text, parse_status,
}

read_back : (v : Relation) → v ≢ neutral → parse_status (relation_text v) ≡ some v
unfolding parse_status relation_text
read_back friend h = refl
read_back neutral h = absurd (h refl)
read_back hostile h = refl
read_back at_war h = refl

read_from :
    (s : String) (v : Relation) → parse_status s ≡ some v → (s ≡ relation_text v) × (v ≢ neutral)
unfolding parse_status relation_text
read_from s v h = elim (Bool-cases (text_eq s "friend")) [
  | inl e ↦ ground (arith, (eq_iff s "friend").0)
  | inr f ↦ elim (Bool-cases (text_eq s "hostile")) [
    | inl e ↦ ground (arith, (eq_iff s "hostile").0)
    | inr g ↦ elim (Bool-cases (text_eq s "at_war")) [
      | inl e ↦ ground (arith, (eq_iff s "at_war").0)
      | inr k ↦ ground arith
    ]
  ]
]

-- A text is read as a relation exactly if the relation is written so and is not neutral.
pub parse_status-relation_text :
    (s : String) (v : Relation)
    → (parse_status s ≡ some v) ↔ ((s ≡ relation_text v) × (v ≢ neutral))
parse_status-relation_text s v = (read_from s v, λ (e, n). rw e (read_back v n))
