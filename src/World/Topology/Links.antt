-- ===== src/World/Topology/Links.antt =====
-- internal/world/topology.go: the index of neighbours against the list of gates.
use spaceempire_back.Prelude.{
  ℕ, ◌+◌, ◌*◌, ◌%◌, ◌^◌, ◌≡◌, ◌≢◌, refl, sym, ap, ◌∙◌, ◌↔◌, ◌||◌, ◌&&◌, inl, inr, Bool, true,
  Option, none, some, List, [], ◌∷◌, arith, Bool-cases, Option-cases, ◌==◌, if◌then◌else◌, ==→≡,
  ==_refl, lookup, put, keys, lookup-put_self, lookup-put_ne, keys_of_lookup, lookup_of_keys, ◌∈◌,
  length,
}
use spaceempire_back.World.Topology.{
  Sector, Gate, Adjacency, Topology, links_of, link, link_both, link_all, rebuild_adjacency, new,
  gate_between, remove_gate, destroy_gate,
}

module _ {V : Type 0} where
  -- The entry of the index for a pair.
  abbrev pub entry : Adjacency V → ℕ → ℕ → Option (Gate V)
  entry adj a b = lookup b (links_of a adj)

  pub gate_between-entry : (t : Topology V) (a b : ℕ) → gate_between t a b ≡ entry t.adjacency a b
  unfolding gate_between links_of
  gate_between-entry t a b = ground (arith, Option-cases (lookup a t.adjacency))

  links_of-put_self :
      (a : ℕ) (m : List (ℕ × Gate V)) (adj : Adjacency V) → links_of a (put a m adj) ≡ m
  unfolding links_of
  links_of-put_self a m adj = rw (links_of, lookup-put_self a m adj) refl

  links_of-put_ne :
      (a c : ℕ) (m : List (ℕ × Gate V)) (adj : Adjacency V)
      → c ≢ a
      → links_of c (put a m adj) ≡ links_of c adj
  unfolding links_of
  links_of-put_ne a c m adj h = rw (links_of, lookup-put_ne a c m adj h) refl

  entry-link :
      (a b c d : ℕ) (g : Gate V) (adj : Adjacency V)
      → entry (link a b g adj) c d ≡ (if (c == a) && (d == b) then some g else entry adj c d)
  unfolding link
  entry-link a b c d g adj = elim (Bool-cases (c == a)) [
    | inl row ↦ elim (Bool-cases (d == b)) [
      | inl column ↦
          rw
            (
              ==→≡ c a row,
              ==→≡ d b column,
              links_of-put_self a (put b g (links_of a adj)) adj,
              lookup-put_self b g (links_of a adj),
              ==_refl a,
              ==_refl b,
            )
            refl
      | inr column ↦
          rw
            (
              ==→≡ c a row,
              column,
              links_of-put_self a (put b g (links_of a adj)) adj,
              lookup-put_ne b d g (links_of a adj) (ground arith),
              ==_refl a,
            )
            refl
    ]
    | inr row ↦ rw (row, links_of-put_ne a c (put b g (links_of a adj)) adj (ground arith)) refl
  ]

  -- The gate has the two sectors as its ends, in either direction.
  abbrev pub joins : ℕ → ℕ → Gate V → Bool
  joins a b g = ((a == g.sector_a) && (b == g.sector_b)) || ((a == g.sector_b) && (b == g.sector_a))

  -- The last gate of the list between the two sectors.
  abbrev pub last_joining : ℕ → ℕ → List (Gate V) → Option (Gate V)
  last_joining a b [] = none
  last_joining a b (g ∷ gs) = elim (last_joining a b gs) [
    | some later ↦ some later
    | none ↦ if joins a b g then some g else none
  ]

  entry-link_both :
      (a b : ℕ) (g : Gate V) (adj : Adjacency V)
      → entry (link_both g adj) a b ≡ (if joins a b g then some g else entry adj a b)
  unfolding link_both
  entry-link_both a b g adj = ground (
    arith,
    entry-link g.sector_b g.sector_a a b g (link g.sector_a g.sector_b g adj),
    entry-link g.sector_a g.sector_b a b g adj,
  )

  entry-link_all :
      (a b : ℕ) (gs : List (Gate V)) (adj : Adjacency V)
      → entry (link_all gs adj) a b
        ≡ elim (last_joining a b gs) [ some g ↦ some g | none ↦ entry adj a b ]
  unfolding link_all
  entry-link_all a b [] adj = refl
  entry-link_all a b (g ∷ gs) adj =
      entry-link_all a b gs (link_both g adj) ∙ ground (arith, entry-link_both a b g adj)

  entry-rebuild :
      (a b : ℕ) (gs : List (Gate V)) → entry (rebuild_adjacency gs) a b ≡ last_joining a b gs
  unfolding rebuild_adjacency links_of
  entry-rebuild a b gs =
      entry-link_all a b gs []
      ∙ elim (Option-cases (last_joining a b gs)) [ inl e ↦ rw e refl | inr (g, e) ↦ rw e refl ]

  -- The index is that of the gates.
  unfoldable pub IsIndexed : Topology V → Type 0
  IsIndexed t = t.adjacency ≡ rebuild_adjacency t.gates

  -- Where the index of neighbours is that of the gates, the gate between two sectors is the last
  -- of the list that has both as its ends, in either direction.
  pub gate_between-last :
      (t : Topology V) (a b : ℕ) → IsIndexed t → gate_between t a b ≡ last_joining a b t.gates
  unfolding IsIndexed
  gate_between-last t a b h =
      gate_between-entry t a b ∙ ap (λ adj. entry adj a b) h ∙ entry-rebuild a b t.gates

  last_joining_sym : (a b : ℕ) (gs : List (Gate V)) → last_joining a b gs ≡ last_joining b a gs
  last_joining_sym a b [] = refl
  last_joining_sym a b (g ∷ gs) = ground (arith, last_joining_sym a b gs)

  pub gate_between_sym :
      (t : Topology V) (a b : ℕ) → IsIndexed t → gate_between t a b ≡ gate_between t b a
  gate_between_sym t a b h =
      gate_between-last t a b h ∙ last_joining_sym a b t.gates ∙ sym (gate_between-last t b a h)

  pub new-IsIndexed : (ss : List Sector) (gs : List (Gate V)) → IsIndexed (new ss gs)
  unfolding new IsIndexed
  new-IsIndexed ss gs = refl

  pub rebuilt-IsIndexed :
      (t : Topology V) (kept : List (Gate V)) (v : ℕ)
      → IsIndexed (record t { gates = kept; adjacency = rebuild_adjacency kept; version = v })
  unfolding IsIndexed
  rebuilt-IsIndexed t kept v = refl

  pub destroy_gate-IsIndexed :
      (t : Topology V) (i : ℕ) → IsIndexed t → IsIndexed (destroy_gate t i).0
  unfolding destroy_gate
  destroy_gate-IsIndexed t i h = elim (Option-cases (remove_gate i t.gates)) [
    | inl absent ↦ rw (destroy_gate, absent) h
    | inr (kept, there) ↦
        rw (destroy_gate, there) (rebuilt-IsIndexed t kept ((t.version + 1) % 2 ^ 64))
  ]

  pub endpoints : List (Gate V) → List ℕ
  endpoints [] = []
  endpoints (g ∷ gs) = g.sector_a ∷ g.sector_b ∷ endpoints gs

  pub length-endpoints : (gs : List (Gate V)) → length (endpoints gs) ≡ 2 * length gs
  unfolding endpoints
  length-endpoints [] = refl
  length-endpoints (g ∷ gs) = omega (arith, length-endpoints gs)

  last_joining-endpoint :
      (a b : ℕ) (g : Gate V) (gs : List (Gate V)) → last_joining a b gs ≡ some g → b ∈ endpoints gs
  unfolding endpoints
  last_joining-endpoint a b g [] h = cc
  last_joining-endpoint a b g (x ∷ gs) h =
      ground (arith, last_joining-endpoint a b g gs, Option-cases (last_joining a b gs))

  -- What a jump can reach: the sectors that a gate joins to this one.
  pub mem-keys_links :
      (t : Topology V) (a b : ℕ)
      → (b ∈ keys (links_of a t.adjacency)) ↔ ((g : Gate V) × (gate_between t a b ≡ some g))
  mem-keys_links t a b = (
    λ m.
        let (g, e) = lookup_of_keys b (links_of a t.adjacency) m in
        (g, gate_between-entry t a b ∙ e),
    λ (g, e). keys_of_lookup b g (links_of a t.adjacency) (sym (gate_between-entry t a b) ∙ e),
  )

  pub gate_between-endpoint :
      (t : Topology V) (a b : ℕ) (g : Gate V)
      → IsIndexed t
      → gate_between t a b ≡ some g
      → b ∈ endpoints t.gates
  gate_between-endpoint t a b g ix e =
      last_joining-endpoint a b g t.gates (sym (gate_between-last t a b ix) ∙ e)

  last_joining-joins :
      (a b : ℕ) (g : Gate V) (gs : List (Gate V))
      → last_joining a b gs ≡ some g
      → joins a b g ≡ true
  last_joining-joins a b g [] h = cc
  last_joining-joins a b g (x ∷ gs) h =
      ground (arith, last_joining-joins a b g gs, Option-cases (last_joining a b gs))

  pub gate_between-joins :
      (t : Topology V) (a b : ℕ) (g : Gate V)
      → IsIndexed t
      → gate_between t a b ≡ some g
      → joins a b g ≡ true
  gate_between-joins t a b g ix e =
      last_joining-joins a b g t.gates (sym (gate_between-last t a b ix) ∙ e)
