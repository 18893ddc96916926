-- ===== src/InsuranceRepo/Coverage.antt =====
-- internal/persistence/insurance/repo.go: the unique index under the statements.
use spaceempire_back.Prelude.{
  ℕ, ◌≤◌, ◌≡◌, refl, subst, true, false, ◌&&◌, inl, inr, none, some, List, [], ◌∷◌, arith, ltb, leb,
  ◌==◌, Bool-cases, &&_true,
}
use spaceempire_back.Store.Tables.{Policy}
use spaceempire_back.InsuranceRepo.{
  is_live, covers, expire_rows, is_covered, claim_rows, active_policy,
}

-- The unique index: no ship has two active policies. The primary key: no two share an id.
abbrev pub OneActive : List Policy → Type 0
OneActive [] = Unit
OneActive (p ∷ ps) = (is_live p.status ≡ true → is_covered p.ship_id ps ≡ false) × OneActive ps

covered-expire :
    (s ship now : ℕ) (ps : List Policy)
    → is_covered s ps ≡ false
    → is_covered s (expire_rows ship now ps) ≡ false
unfolding is_covered expire_rows
covered-expire s ship now [] h = refl
covered-expire s ship now (p ∷ ps) h = ground (arith, covered-expire s ship now ps)

covered-claim :
    (s id now : ℕ) (ps : List Policy)
    → is_covered s ps ≡ false
    → is_covered s (claim_rows id now ps) ≡ false
unfolding is_covered claim_rows
covered-claim s id now [] h = refl
covered-claim s id now (p ∷ ps) h = ground (arith, covered-claim s id now ps)

pub OneActive-expire :
    (ship now : ℕ) (ps : List Policy) → OneActive ps → OneActive (expire_rows ship now ps)
unfolding expire_rows
OneActive-expire ship now [] h = tt
OneActive-expire ship now (p ∷ ps) (only, h) =
    elim (Bool-cases (covers ship p && leb p.expires_at now)) [
      | inl lapsed ↦ rw (expire_rows, lapsed) (λ e. cc, OneActive-expire ship now ps h)
      | inr stays ↦
          rw (expire_rows, stays)
            (λ e. covered-expire p.ship_id ship now ps (only e), OneActive-expire ship now ps h)
    ]

pub OneActive-claim :
    (id now : ℕ) (ps : List Policy) → OneActive ps → OneActive (claim_rows id now ps)
unfolding claim_rows
OneActive-claim id now [] h = tt
OneActive-claim id now (p ∷ ps) (only, h) = elim (Bool-cases (p.id == id && is_live p.status)) [
  | inl hit ↦ rw (claim_rows, hit) (λ e. cc, OneActive-claim id now ps h)
  | inr stays ↦
      rw (claim_rows, stays)
        (λ e. covered-claim p.ship_id id now ps (only e), OneActive-claim id now ps h)
]

-- Without cover there is nothing to find.
pub active_policy_of_uncovered :
    (ship now : ℕ) (ps : List Policy)
    → is_covered ship ps ≡ false
    → active_policy ship now ps ≡ none
unfolding is_covered active_policy
active_policy_of_uncovered ship now [] h = refl
active_policy_of_uncovered ship now (p ∷ ps) h =
    ground (arith, active_policy_of_uncovered ship now ps)

covers_parts :
    (ship : ℕ) (q : Policy) → covers ship q ≡ true → (is_live q.status ≡ true) × (q.ship_id ≡ ship)
covers_parts ship q h = ground arith

-- A claim of the policy found leaves the ship without cover.
pub claim_uncovers :
    (ship now : ℕ) (ps : List Policy) (p : Policy)
    → OneActive ps
    → active_policy ship now ps ≡ some p
    → is_covered ship (claim_rows p.id now ps) ≡ false
unfolding is_covered claim_rows active_policy
claim_uncovers ship now [] p h e = cc
claim_uncovers ship now (q ∷ qs) p (only, h) e =
    elim (Bool-cases (covers ship q && ltb now q.expires_at)) [
      | inl hit ↦
          let same : p.id ≡ q.id = ground arith in
          let (live, its) = covers_parts ship q (&&_true _ _ hit).0 in
          let rest =
            covered-claim ship p.id now qs (subst (λ x. is_covered x qs ≡ false) its (only live)) in
          ground arith
      | inr miss ↦ elim (Bool-cases (covers ship q)) [
        | inl lapsed ↦
            let (live, its) = covers_parts ship q lapsed in
            let nothing =
              active_policy_of_uncovered ship now qs
                (subst (λ x. is_covered x qs ≡ false) its (only live)) in
            ground arith
        | inr other ↦ ground (arith, claim_uncovers ship now qs p h)
      ]
    ]

-- What no policy covers now none covers later.
pub active_policy_later :
    (ship now later : ℕ) (ps : List Policy)
    → now ≤ later
    → active_policy ship now ps ≡ none
    → active_policy ship later ps ≡ none
unfolding active_policy
active_policy_later ship now later [] le h = refl
active_policy_later ship now later (p ∷ ps) le h =
    ground (arith, active_policy_later ship now later ps le)
