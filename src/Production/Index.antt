-- ===== src/Production/Index.antt =====
-- internal/economy/production/service.go: what loadMarket finds for a good, against the query.
use spaceempire_back.Prelude.{
  ℕ, ◌≡◌, ◌≢◌, sym, ◌∙◌, subst, ◌⊎◌, inl, inr, true, none, some, List, [], ◌∷◌, arith, leb, ◌==◌,
  ==→≡, Bool-cases, All, Any, select, lookup, put, lookup-put_self, lookup-put_ne,
}
use spaceempire_back.Domain.{EntityRef, ref_eq, ref_eq→≡, ref_eq_refl}
use spaceempire_back.Store.Tables.{MarketEntry}
use spaceempire_back.MarketRepo.{insert_by_goods, order_by_goods}
use spaceempire_back.Production.{Market, index_market}

abbrev pub of_ref : EntityRef → List MarketEntry → List MarketEntry
of_ref ref = select (λ e. ref_eq e.owner ref)

module _ (P : MarketEntry → Type 0) where
  Any-insert :
      (e : MarketEntry) (es : List MarketEntry) → Any P (insert_by_goods e es) → P e ⊎ Any P es
  Any-insert e [] h = h
  Any-insert e (f ∷ fs) h = elim (Bool-cases (leb e.goods_type f.goods_type)) [
    | inl before ↦ rw before at h
    | inr after ↦ elim (rw after at h) [
      | inl here ↦ inr (inl here)
      | inr later ↦ elim (Any-insert e fs later) [ inl x ↦ inl x | inr y ↦ inr (inr y) ]
    ]
  ]

  pub Any-order : (es : List MarketEntry) → Any P (order_by_goods es) → Any P es
  unfolding order_by_goods
  Any-order [] h = h
  Any-order (e ∷ es) h = elim (Any-insert e (order_by_goods es) h) [
    | inl x ↦ inl x
    | inr y ↦ inr (Any-order es y)
  ]

  All-insert :
      (e : MarketEntry) (es : List MarketEntry) → All P (insert_by_goods e es) → P e × All P es
  All-insert e [] h = h
  All-insert e (f ∷ fs) h = elim (Bool-cases (leb e.goods_type f.goods_type)) [
    | inl before ↦ rw before at h
    | inr after ↦
        let (first, rest) = rw after at h in let (x, y) = All-insert e fs rest in (x, (first, y))
  ]

  pub All-order : (es : List MarketEntry) → All P (order_by_goods es) → All P es
  unfolding order_by_goods
  All-order [] h = tt
  All-order (e ∷ es) h = let (x, y) = All-insert e (order_by_goods es) h in (x, All-order es y)

  pub Any-of_ref :
      (ref : EntityRef) (es : List MarketEntry)
      → Any P (of_ref ref es)
      → Any (λ e. (e.owner ≡ ref) × P e) es
  Any-of_ref ref [] h = h
  Any-of_ref ref (e ∷ es) h = elim (Bool-cases (ref_eq e.owner ref)) [
    | inl own ↦ elim (rw own at h) [
      | inl x ↦ inl (ref_eq→≡ e.owner ref own, x)
      | inr y ↦ inr (Any-of_ref ref es y)
    ]
    | inr other ↦ inr (Any-of_ref ref es (rw other at h))
  ]

  pub All-of_ref :
      (ref : EntityRef) (es : List MarketEntry)
      → All P (of_ref ref es)
      → All (λ e. e.owner ≡ ref → P e) es
  All-of_ref ref [] h = tt
  All-of_ref ref (e ∷ es) h = elim (Bool-cases (ref_eq e.owner ref)) [
    | inl own ↦ let (x, y) = rw own at h in ((λ _. x), All-of_ref ref es y)
    | inr other ↦ (
      (λ same. let hit = subst (λ x. ref_eq e.owner x ≡ true) same (ref_eq_refl e.owner) in cc),
      All-of_ref ref es (rw other at h),
    )
  ]

module _ (g : ℕ) where
  pub lookup-index :
      (es : List MarketEntry) (m : Market) {e : MarketEntry}
      → lookup g (index_market es m) ≡ some e
      → Any (λ x. (x.goods_type ≡ g) × (x ≡ e)) es ⊎ (lookup g m ≡ some e)
  unfolding index_market
  lookup-index [] m h = inr h
  lookup-index (x ∷ es) m h = elim (lookup-index es (put x.goods_type x m) h) [
    | inl later ↦ inl (inr later)
    | inr now ↦ elim (Bool-cases (x.goods_type == g)) [
      | inl hit ↦
          let same = ==→≡ x.goods_type g hit in
          let put_ =
            subst (λ k. lookup k (put x.goods_type x m) ≡ some x) same
              (lookup-put_self x.goods_type x m) in
          inl (inl (same, cc))
      | inr miss ↦ inr (sym (lookup-put_ne x.goods_type g x m (λ e. ground arith)) ∙ now)
    ]
  ]

  pub lookup-index_none :
      (es : List MarketEntry) (m : Market)
      → lookup g (index_market es m) ≡ none
      → All (λ x. x.goods_type ≢ g) es × (lookup g m ≡ none)
  unfolding index_market
  lookup-index_none [] m h = (tt, h)
  lookup-index_none (x ∷ es) m h =
      let (rest, now) = lookup-index_none es (put x.goods_type x m) h in
      elim (Bool-cases (x.goods_type == g)) [
        | inl hit ↦
            let same = ==→≡ x.goods_type g hit in
            let put_ =
              subst (λ k. lookup k (put x.goods_type x m) ≡ some x) same
                (lookup-put_self x.goods_type x m) in
            cc
        | inr miss ↦ (
          ((λ e. ground arith), rest),
          sym (lookup-put_ne x.goods_type g x m (λ e. ground arith)) ∙ now,
        )
      ]

pub Any-map :
    (P Q : MarketEntry → Type 0)
    → ((e : MarketEntry) → P e → Q e)
    → (es : List MarketEntry) → Any P es
    → Any Q es
Any-map P Q f [] h = h
Any-map P Q f (e ∷ es) (inl x) = inl (f e x)
Any-map P Q f (e ∷ es) (inr y) = inr (Any-map P Q f es y)

All-map :
    (P Q : MarketEntry → Type 0)
    → ((e : MarketEntry) → P e → Q e)
    → (es : List MarketEntry) → All P es
    → All Q es
All-map P Q f [] h = tt
All-map P Q f (e ∷ es) (x, y) = (f e x, All-map P Q f es y)
