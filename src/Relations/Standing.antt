-- ===== src/Relations/Standing.antt =====
-- internal/social/relations/service.go: what Get answers, against the worst of four declarations.
use spaceempire_back.Prelude.{
  ℕ, ◌≡◌, ◌≢◌, refl, sym, ◌∙◌, ◌||◌, Option, none, some, List, [], ◌∷◌, arith, if◌then◌else◌, ltb,
}
use spaceempire_back.Domain.{EntityRef, ref_eq, ref_eq_sym}
use spaceempire_back.Relations.{
  Relation, friend, neutral, hostile, at_war, Service, worse, declared_status, declared_between,
  clan_ref_of, consider, no_relation, conclude, same_clan, between_clans, get,
}

-- How much a status weighs: nothing said, friendship, hostility, war.
abbrev pub severity : Relation → ℕ
severity neutral = 0
severity friend = 1
severity hostile = 2
severity at_war = 3

abbrev pub heavier : Option Relation → Relation → Relation
heavier none r = r
heavier (some v) r = if ltb (severity r) (severity v) then v else r

-- The heaviest of the statuses, and neutral for none.
abbrev pub heaviest : List (Option Relation) → Relation
heaviest [] = neutral
heaviest (o ∷ os) = heavier o (heaviest os)

worse_sym : (o p : Option Relation) → worse o p ≡ worse p o
unfolding worse
worse_sym o p = ground arith

conclude-heaviest :
    (o p q r : Option Relation)
    → o ≢ some neutral
    → p ≢ some neutral
    → q ≢ some neutral
    → r ≢ some neutral
    → conclude (consider (worse q r) (consider (worse o p) no_relation))
      ≡ heaviest (o ∷ p ∷ q ∷ r ∷ [])
unfolding worse conclude consider
conclude-heaviest o p q r ho hp hq hr = ground arith

heaviest_sym :
    (o p q r : Option Relation) → heaviest (o ∷ p ∷ q ∷ r ∷ []) ≡ heaviest (p ∷ o ∷ r ∷ q ∷ [])
heaviest_sym o p q r = ground arith

abbrev pub said_of_clans :
    (EntityRef → EntityRef → Option Relation)
    → Option EntityRef
    → Option EntityRef
    → Option Relation
said_of_clans said (some c) (some d) = said c d
said_of_clans said _ _ = none

-- What two entities are to each other, from what is said and from their clans: friends if they are
-- one or in one clan, and else the heaviest that either side or either clan has said.
abbrev pub standing :
    (EntityRef → EntityRef → Option Relation)
    → (EntityRef → Option EntityRef)
    → EntityRef
    → EntityRef
    → Relation
standing said clan_of a b =
    if ref_eq a b || same_clan (clan_of a) (clan_of b)
    then friend
    else heaviest (
        said a b
        ∷ said b a
        ∷ said_of_clans said (clan_of a) (clan_of b)
        ∷ said_of_clans said (clan_of b) (clan_of a)
        ∷ [])

module _ (s : Service) where
  abbrev pub declared_in : EntityRef → EntityRef → Option Relation
  declared_in x y = declared_status x y s.declared

  same_clan_sym : (c d : Option EntityRef) → same_clan c d ≡ same_clan d c
  unfolding same_clan
  same_clan_sym none none = refl
  same_clan_sym none (some d) = refl
  same_clan_sym (some c) none = refl
  same_clan_sym (some c) (some d) = ref_eq_sym c d

  between_clans-worse :
      (c d : Option EntityRef)
      → between_clans c d s ≡ worse (said_of_clans declared_in c d) (said_of_clans declared_in d c)
  unfolding between_clans declared_between worse
  between_clans-worse none none = refl
  between_clans-worse none (some d) = refl
  between_clans-worse (some c) none = refl
  between_clans-worse (some c) (some d) = refl

  between_clans_sym : (c d : Option EntityRef) → between_clans c d s ≡ between_clans d c s
  between_clans_sym c d = between_clans-worse c d ∙ worse_sym _ _ ∙ sym (between_clans-worse d c)

  declared_between_sym : (x y : EntityRef) → declared_between x y s ≡ declared_between y x s
  unfolding declared_between
  declared_between_sym x y = worse_sym _ _

  pub get_sym : (a b : EntityRef) → get a b s ≡ get b a s
  unfolding get
  get_sym a b = ground (
    arith,
    ref_eq_sym a b,
    same_clan_sym (clan_ref_of a s) (clan_ref_of b s),
    between_clans_sym (clan_ref_of a s) (clan_ref_of b s),
    declared_between_sym a b,
  )

  module _ (kept : (x y : EntityRef) → declared_in x y ≢ some neutral) where
    said_of_clans-kept : (c d : Option EntityRef) → said_of_clans declared_in c d ≢ some neutral
    said_of_clans-kept none none e = cc
    said_of_clans-kept none (some d) e = cc
    said_of_clans-kept (some c) none e = cc
    said_of_clans-kept (some c) (some d) e = kept c d e

    pub get-standing :
        (a b : EntityRef) → get a b s ≡ standing declared_in (λ x. clan_ref_of x s) a b
    unfolding get declared_between
    get-standing a b =
        let c = clan_ref_of a s in
        let d = clan_ref_of b s in
        ground (
          arith,
          between_clans-worse c d,
          conclude-heaviest (declared_in a b) (declared_in b a) (said_of_clans declared_in c d)
              (said_of_clans declared_in d c) (kept a b) (kept b a) (said_of_clans-kept c d)
              (said_of_clans-kept d c),
        )
