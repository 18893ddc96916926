-- ===== src/Relations/Table.antt =====
-- internal/social/relations: one pair in the table and in the map of the service.
use spaceempire_back.Prelude.{
  ◌≡◌, ◌≢◌, refl, ◌∙◌, Bool, true, false, ◌&&◌, Option, none, some, List, [], ◌∷◌, arith,
  if◌then◌else◌, Bool-cases, inl, inr, &&_true,
}
use spaceempire_back.Domain.{EntityRef, ref_eq, ref_eq_sym, ref_eq→≡}
use spaceempire_back.Relations.{
  Relation, neutral, StatusRow, Row, row_is, entry_is, relation_text, parse_status, upsert_rows,
  delete_rows, undeclare, declare, declared_status,
}
use spaceempire_back.Relations.Text.{parse_status-relation_text}

abbrev pub pair_is : EntityRef → EntityRef → EntityRef → EntityRef → Bool
pair_is x y a b = ref_eq x a && ref_eq y b

pub pair_is_same :
    (x y a b c d : EntityRef) → pair_is x y a b ≡ true → pair_is x y c d ≡ pair_is a b c d
pair_is_same x y a b c d h = let (e, f) = &&_true _ _ h in rw (ref_eq→≡ x a e, ref_eq→≡ y b f) refl

pub pair_is_sym : (a b c d : EntityRef) → pair_is a b c d ≡ pair_is c d a b
pair_is_sym a b c d = ground (arith, ref_eq_sym a c, ref_eq_sym b d)

-- What the table says of a pair.
abbrev pub stored : EntityRef → EntityRef → List StatusRow → Option Relation
stored a b [] = none
stored a b (r ∷ rs) =
    let rest = stored a b rs in if row_is a b r then parse_status r.status else rest

pub stored-ne-neutral : (a b : EntityRef) (rs : List StatusRow) → stored a b rs ≢ some neutral
stored-ne-neutral a b [] e = cc
stored-ne-neutral a b (r ∷ rs) e =
    ground (arith, stored-ne-neutral a b rs, parse_status-relation_text r.status neutral)

module _ (a b c d : EntityRef) where
  differs :
      (x y : EntityRef) → pair_is x y a b ≡ false → pair_is x y c d ≡ true → pair_is a b c d ≡ false
  differs x y miss other =
      ground (arith, pair_is_same x y c d a b other, ref_eq_sym a c, ref_eq_sym b d)

  pub stored-upsert :
      (v : Relation) (rs : List StatusRow)
      → v ≢ neutral
      → stored c d (upsert_rows a b v rs) ≡ (if pair_is a b c d then some v else stored c d rs)
  unfolding upsert_rows
  stored-upsert v [] n =
      ground (arith, (parse_status-relation_text (relation_text v) v).1 (refl, n))
  stored-upsert v (r ∷ rs) n = elim (Bool-cases (row_is a b r)) [
    | inl hit ↦ rw hit (
        ground (
          arith,
          pair_is_same r.from r.to a b c d hit,
          (parse_status-relation_text (relation_text v) v).1 (refl, n),
        ))
    | inr miss ↦ elim (Bool-cases (row_is c d r)) [
      | inl other ↦ rw (miss, other, differs r.from r.to miss other) refl
      | inr away ↦ rw (miss, away) (stored-upsert v rs n)
    ]
  ]

  pub stored-delete :
      (rs : List StatusRow)
      → stored c d (delete_rows a b rs) ≡ (if pair_is a b c d then none else stored c d rs)
  unfolding delete_rows
  stored-delete [] = ground arith
  stored-delete (r ∷ rs) = elim (Bool-cases (row_is a b r)) [
    | inl hit ↦ rw hit (stored-delete rs ∙ ground (arith, pair_is_same r.from r.to a b c d hit))
    | inr miss ↦ elim (Bool-cases (row_is c d r)) [
      | inl other ↦ rw (miss, other, differs r.from r.to miss other) refl
      | inr away ↦ rw (miss, away) (stored-delete rs)
    ]
  ]

  pub declared-undeclare :
      (rs : List Row)
      → declared_status c d (undeclare a b rs)
        ≡ (if pair_is a b c d then none else declared_status c d rs)
  unfolding undeclare declared_status
  declared-undeclare [] = ground arith
  declared-undeclare (r ∷ rs) = elim (Bool-cases (entry_is a b r)) [
    | inl hit ↦
        rw hit (declared-undeclare rs ∙ ground (arith, pair_is_same r.from r.to a b c d hit))
    | inr miss ↦ elim (Bool-cases (entry_is c d r)) [
      | inl other ↦ rw (miss, other, differs r.from r.to miss other) refl
      | inr away ↦ rw (miss, away) (declared-undeclare rs)
    ]
  ]

  pub declared-declare :
      (v : Relation) (rs : List Row)
      → declared_status c d (declare a b v rs)
        ≡ (if pair_is a b c d then some v else declared_status c d rs)
  unfolding declare declared_status
  declared-declare v rs = ground (arith, declared-undeclare rs)
