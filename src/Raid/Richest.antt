-- ===== src/Raid/Richest.antt =====
-- internal/trade/service.go: the choice of a hack's target.
use spaceempire_back.Prelude.{
  ℕ, ◌≤◌, ◌≡◌, refl, Option, none, some, List, [], ◌∷◌, arith, All, ◌⊎◌, inl, inr, Bool-cases,
}
use mathlib.Core.List.{Memᴰ}
use spaceempire_back.Domain.{EntityKind}
use spaceempire_back.Store.Tables.{MarketEntry}
use spaceempire_back.Raid.{Target, hack_basis, is_better, better, richest_from, richest_robbable}

-- `t` is at least as good a target as `e`: a fuller shelf, or one as full of a lower goods type.
abbrev pub AtLeast : MarketEntry → MarketEntry → Type 0
AtLeast t e = (e.stock ≤ t.stock) × ((e.stock ≡ t.stock) → t.goods_type ≤ e.goods_type)

-- What may be robbed is no better than `t`.
abbrev pub Beats : EntityKind → List (ℕ × ℕ) → MarketEntry → MarketEntry → Type 0
Beats kind refs t e = (b : ℕ) → hack_basis e kind refs ≡ some b → AtLeast t e

-- An entry that may be robbed, and its basis.
abbrev pub Candidate : EntityKind → List (ℕ × ℕ) → List MarketEntry → Target → Type 0
Candidate kind refs es t = Memᴰ t.entry es × (hack_basis t.entry kind refs ≡ some t.basis)

better-cases :
    (e : MarketEntry) (o : Option ℕ) (best : Option Target) (t : Target)
    → better e o best ≡ some t
    → (best ≡ some t) ⊎ ((t.entry ≡ e) × (o ≡ some t.basis))
better-cases e none best t h = inl h
better-cases e (some basis) best t h = elim (Bool-cases (is_better e best)) [
  | inl up ↦ inr (ground arith, ground arith)
  | inr down ↦ inl (rw down at h)
]

AtLeast-trans : (a b c : MarketEntry) → AtLeast a b → AtLeast b c → AtLeast a c
AtLeast-trans a b c (p, q) (r, s) =
    (omega arith, λ e. omega (arith, q (omega arith), s (omega arith)))

AtLeast-refl : (a : MarketEntry) → AtLeast a a
AtLeast-refl a = (omega arith, λ e. omega arith)

-- The better one of two is at least as good as both.
better-AtLeast :
    (e : MarketEntry) (o : Option ℕ) (best : Target)
    → (r : Target) × (better e o (some best) ≡ some r)
      × AtLeast r.entry best.entry
      × ((b : ℕ) → o ≡ some b → AtLeast r.entry e)
better-AtLeast e none best = (best, refl, AtLeast-refl best.entry, λ b h. absurd (ground arith))
better-AtLeast e (some basis) best = elim (Bool-cases (is_better e (some best))) [
  | inl up ↦ (
    record { entry = e; basis = basis },
    rw up refl,
    (ground arith, λ h. ground arith),
    λ b h. AtLeast-refl e,
  )
  | inr down ↦
      (best, rw down refl, AtLeast-refl best.entry, λ b h. (ground arith, λ same. ground arith))
]

module _ (kind : EntityKind) (refs : List (ℕ × ℕ)) where
  richest_from-AtLeast :
      (es : List MarketEntry) (best t : Target)
      → richest_from (some best) es kind refs ≡ some t
      → AtLeast t.entry best.entry
  unfolding richest_from
  richest_from-AtLeast [] best t h =
      let same : best ≡ t = ground arith in rw same (AtLeast-refl t.entry)
  richest_from-AtLeast (e ∷ es) best t h =
      let (r, e_is, old, new) = better-AtLeast e (hack_basis e kind refs) best in
      AtLeast-trans t.entry r.entry best.entry (richest_from-AtLeast es r t (rw e_is at h)) old

  first-Beats :
      (e : MarketEntry) (es : List MarketEntry) (best : Option Target) (t : Target)
      → richest_from (better e (hack_basis e kind refs) best) es kind refs ≡ some t
      → Beats kind refs t.entry e
  first-Beats e es none t h b robbable =
      richest_from-AtLeast es (record { entry = e; basis = b }) t (rw robbable at h)
  first-Beats e es (some best) t h b robbable =
      let (r, e_is, old, new) = better-AtLeast e (hack_basis e kind refs) best in
      AtLeast-trans t.entry r.entry e (richest_from-AtLeast es r t (rw e_is at h)) (new b robbable)

  richest_from-Beats :
      (es : List MarketEntry) (best : Option Target) (t : Target)
      → richest_from best es kind refs ≡ some t
      → All (Beats kind refs t.entry) es
  unfolding richest_from
  richest_from-Beats [] best t h = tt
  richest_from-Beats (e ∷ es) best t h = (
    first-Beats e es best t h,
    richest_from-Beats es (better e (hack_basis e kind refs) best) t h,
  )

  some-Candidate :
      (es : List MarketEntry) (t : Target)
      → (◌≡◌ {A = Option Target} none (some t)) ⊎ Candidate kind refs es t
      → Candidate kind refs es t
  some-Candidate es t (inl h) = cc
  some-Candidate es t (inr c) = c

  richest_from-Candidate :
      (es : List MarketEntry) (best : Option Target) (t : Target)
      → richest_from best es kind refs ≡ some t
      → (best ≡ some t) ⊎ Candidate kind refs es t
  unfolding richest_from
  richest_from-Candidate [] best t h = inl h
  richest_from-Candidate (e ∷ es) best t h =
      elim (richest_from-Candidate es (better e (hack_basis e kind refs) best) t h) [
        | inl kept ↦ elim (better-cases e (hack_basis e kind refs) best t kept) [
          | inl old ↦ inl old
          | inr (same, basis) ↦ inr (Memᴰ.head same, rw same basis)
        ]
        | inr (mem, basis) ↦ inr (Memᴰ.tail mem, basis)
      ]

  -- The target of a hack is an entry of the market that may be robbed, with its basis. Of all such
  -- entries it has the highest stock, and among those of its stock the lowest goods type.
  pub richest_robbable_lem :
      (es : List MarketEntry) {t : Target}
      → richest_robbable es kind refs ≡ some t
      → Candidate kind refs es t × All (Beats kind refs t.entry) es
  unfolding richest_robbable
  richest_robbable_lem es {t = t} h =
      (some-Candidate es t (richest_from-Candidate es none t h), richest_from-Beats es none t h)
