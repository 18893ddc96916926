-- ===== src/World/Topology/Destroying.antt =====
-- internal/world/topology.go: DestroyGate.
use spaceempire_back.Prelude.{
  ℕ, ◌≡◌, ◌≢◌, ◌⊎◌, inl, inr, subst, refl, false, none, some, List, [], ◌∷◌, arith, ◌==◌,
  Bool-cases, Option-cases, find_row, All,
}
use spaceempire_back.World.Topology.{Gate, Topology, find_gate, remove_gate, destroy_gate}

module _ {V : Type 0} where
  abbrev pub LacksId : ℕ → List (Gate V) → Type 0
  LacksId i gs = All (λ g. g.id ≢ i) gs

  -- No two gates share an id, which is the key of their table.
  abbrev pub DistinctIds : List (Gate V) → Type 0
  DistinctIds [] = Unit
  DistinctIds (g ∷ gs) = LacksId g.id gs × DistinctIds gs

  find_lacks : (i : ℕ) (gs : List (Gate V)) → LacksId i gs → find_row (λ g. g.id == i) gs ≡ none
  find_lacks i [] h = refl
  find_lacks i (g ∷ gs) (away, h) = ground (arith, find_lacks i gs h)

  remove_lacks : (i : ℕ) (gs : List (Gate V)) → LacksId i gs → remove_gate i gs ≡ none
  unfolding remove_gate
  remove_lacks i [] h = refl
  remove_lacks i (g ∷ gs) (away, h) = ground (arith, remove_lacks i gs h)

  lacks_of_remove : (i : ℕ) (gs : List (Gate V)) → remove_gate i gs ≡ none → LacksId i gs
  unfolding remove_gate
  lacks_of_remove i [] e = tt
  lacks_of_remove i (g ∷ gs) e = elim (Bool-cases (g.id == i)) [
    | inl hit ↦ ground arith
    | inr miss ↦ elim (Option-cases (remove_gate i gs)) [
      | inl absent ↦ (ground arith, lacks_of_remove i gs absent)
      | inr (rest, there) ↦ ground arith
    ]
  ]

  module _ (i : ℕ) where
    remove_gate-cases :
        (g : Gate V) (gs kept : List (Gate V))
        → remove_gate i (g ∷ gs) ≡ some kept
        → ((g.id ≡ i) × (kept ≡ gs))
          ⊎ ((g.id ≢ i)
              × ((rest : List (Gate V)) × (remove_gate i gs ≡ some rest) × (kept ≡ g ∷ rest)))
    unfolding remove_gate
    remove_gate-cases g gs kept e = elim (Bool-cases (g.id == i)) [
      | inl hit ↦ ground arith
      | inr miss ↦ elim (Option-cases (remove_gate i gs)) [
        | inl absent ↦ ground arith
        | inr (rest, there) ↦ inr (ground arith, (rest, there, ground arith))
      ]
    ]

    remove_gate-nil : (kept : List (Gate V)) → ¬ (remove_gate i [] ≡ some kept)
    unfolding remove_gate
    remove_gate-nil kept e = cc

    LacksId-remove :
        (k : ℕ) (gs kept : List (Gate V))
        → remove_gate i gs ≡ some kept
        → LacksId k gs
        → LacksId k kept
    LacksId-remove k [] kept e h = absurd (remove_gate-nil kept e)
    LacksId-remove k (g ∷ gs) kept e (away, h) = elim (remove_gate-cases g gs kept e) [
      | inl (hit, rest_is) ↦ rw rest_is h
      | inr (miss, (rest, there, kept_is)) ↦ rw kept_is (away, LacksId-remove k gs rest there h)
    ]

    lacks_removed :
        (gs kept : List (Gate V))
        → DistinctIds gs
        → remove_gate i gs ≡ some kept
        → LacksId i kept × DistinctIds kept
    lacks_removed [] kept distinct e = absurd (remove_gate-nil kept e)
    lacks_removed (g ∷ gs) kept (first, later) e = elim (remove_gate-cases g gs kept e) [
      | inl (hit, rest_is) ↦ rw rest_is (subst (λ k. LacksId k gs) hit first, later)
      | inr (miss, (rest, there, kept_is)) ↦
          let (gone, still) = lacks_removed gs rest later there in
          rw kept_is ((miss, gone), (LacksId-remove g.id gs rest there first, still))
    ]

    find_others :
        (k : ℕ) (gs kept : List (Gate V))
        → k ≢ i
        → remove_gate i gs ≡ some kept
        → find_row (λ g. g.id == k) kept ≡ find_row (λ g. g.id == k) gs
    find_others k [] kept away e = absurd (remove_gate-nil kept e)
    find_others k (g ∷ gs) kept away e = elim (remove_gate-cases g gs kept e) [
      | inl (hit, rest_is) ↦ ground arith
      | inr (miss, (rest, there, kept_is)) ↦ ground (arith, find_others k gs rest)
    ]

    -- The graph without the gate.
    pub record Destroyed (t t' : Topology V) : Type 0 where
      pub gone : find_gate t' i ≡ none
      pub others : (k : ℕ) → k ≢ i → find_gate t' k ≡ find_gate t k
      pub distinct : DistinctIds t'.gates
      pub again : destroy_gate t' i ≡ (t', false)

    again_lem : (t : Topology V) → LacksId i t.gates → destroy_gate t i ≡ (t, false)
    unfolding destroy_gate
    again_lem t h = rw (destroy_gate, remove_lacks i t.gates h) refl

    -- Where no two gates share an id, after DestroyGate the gate is not found, every other gate
    -- is found as before, no two gates share an id, and destroying it again reports that there
    -- was nothing to remove and changes nothing.
    pub destroy_gate_removes :
        (t : Topology V) → DistinctIds t.gates → Destroyed t (destroy_gate t i).0
    unfolding destroy_gate find_gate
    destroy_gate_removes t distinct = elim (Option-cases (remove_gate i t.gates)) [
      | inl absent ↦
          let h = lacks_of_remove i t.gates absent in
          rw (destroy_gate, absent)
            (record {
              gone = find_lacks i t.gates h;
              others = λ k away. refl;
              distinct = distinct;
              again = again_lem t h;
            })
      | inr (kept, there) ↦
          let (h, still) = lacks_removed t.gates kept distinct there in
          rw (destroy_gate, there)
            (record {
              gone = find_lacks i kept h;
              others = λ k away. find_others k t.gates kept away there;
              distinct = still;
              again = again_lem _ h;
            })
    ]
