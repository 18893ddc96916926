-- ===== src/CargoRepo/Weights.antt =====
-- A weighted sum over the rows of `cargo`: the goods of one type, the space that a hold uses and
-- the size of one stack are all such sums, so each statement's effect is stated once.
use spaceempire_back.Prelude.{
  ℕ, ◌+◌, ◌*◌, ◌≡◌, refl, Bool, true, ◌&&◌, some, List, [], ◌∷◌, arith, inl, inr, Option-cases,
  ◌==◌, if◌then◌else◌, mul_sub_add,
}
use spaceempire_back.Domain.{EntityRef, ref_eq}
use spaceempire_back.Store.Tables.{GoodsType, CargoKey, CargoRow, key_eq, key_eq→≡}
use spaceempire_back.CargoRepo.{
  add_stack, take_stack, delete_empty, space_of, used_by, find_goods_type,
}

abbrev pub weigh : (CargoKey → ℕ) → List CargoRow → ℕ
weigh w [] = 0
weigh w (r ∷ rs) = w r.key * r.quantity + weigh w rs

module _ (w : CargoKey → ℕ) (k : CargoKey) where
  at_key : (r : CargoRow) → key_eq r.key k ≡ true → w r.key ≡ w k
  at_key r h = rw (key_eq→≡ r.key k h)

  pub weigh-add_stack :
      (known : Bool) (q : ℕ) (rows : List CargoRow) {rows' : List CargoRow}
      → add_stack known k q rows ≡ some rows'
      → weigh w rows' ≡ weigh w rows + w k * q
  unfolding add_stack
  weigh-add_stack known q [] h = ground arith
  weigh-add_stack known q (r ∷ rs) h = elim (Option-cases (add_stack known k q rs)) [
    | inl e ↦ ground (arith, at_key r)
    | inr (rs', e) ↦ ground (arith, at_key r, weigh-add_stack known q rs e)
  ]

  pub weigh-take_stack :
      (q : ℕ) (rows : List CargoRow) {n : ℕ} {rows' : List CargoRow}
      → take_stack k q rows ≡ some (n, rows')
      → weigh w rows' + w k * q ≡ weigh w rows
  unfolding take_stack
  weigh-take_stack q [] h = cc
  weigh-take_stack q (r ∷ rs) h = elim (Option-cases (take_stack k q rs)) [
    | inl e ↦ ground (arith, at_key r, mul_sub_add (w k) r.quantity q)
    | inr ((m, rs'), e) ↦
        ground (arith, at_key r, mul_sub_add (w k) r.quantity q, weigh-take_stack q rs e)
  ]

  pub weigh-delete_empty : (rows : List CargoRow) → weigh w (delete_empty k rows) ≡ weigh w rows
  unfolding delete_empty
  weigh-delete_empty [] = refl
  weigh-delete_empty (r ∷ rs) = ground (arith, weigh-delete_empty rs)

-- The space that one unit of a stack takes in a hold.
abbrev pub space_weight : List GoodsType → EntityRef → CargoKey → ℕ
space_weight types owner k = if ref_eq k.owner owner then space_of types k.goods_type else 0

pub used_by-weigh :
    (types : List GoodsType) (owner : EntityRef) (rows : List CargoRow)
    → used_by types owner rows ≡ weigh (space_weight types owner) rows
unfolding used_by
used_by-weigh types owner [] = refl
used_by-weigh types owner (r ∷ rs) = ground (arith, used_by-weigh types owner rs)

pub space_of_known :
    (types : List GoodsType) (g : ℕ) (gt : GoodsType)
    → find_goods_type g types ≡ some gt
    → space_of types g ≡ gt.space
unfolding space_of
space_of_known types g gt h = rw h

-- One unit of a goods type, wherever it is.
abbrev pub goods_weight : ℕ → CargoKey → ℕ
goods_weight g k = if k.goods_type == g then 1 else 0

-- One unit of a goods type in one hold.
abbrev pub hold_weight : EntityRef → ℕ → CargoKey → ℕ
hold_weight owner g k = if ref_eq k.owner owner && k.goods_type == g then 1 else 0

-- One unit of one stack.
abbrev pub stack_weight : CargoKey → CargoKey → ℕ
stack_weight k j = if key_eq j k then 1 else 0

-- All the goods of one type.
unfoldable pub total_of : ℕ → List CargoRow → ℕ
total_of g = weigh (goods_weight g)

-- The goods of one type in one hold, whoever deposited them.
unfoldable pub held : EntityRef → ℕ → List CargoRow → ℕ
held owner g = weigh (hold_weight owner g)

-- The goods under one key of `cargo`.
unfoldable pub deposit : CargoKey → List CargoRow → ℕ
deposit k = weigh (stack_weight k)
