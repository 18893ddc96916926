-- ===== src/World/Router/Sides.antt =====
-- internal/world/router.go: GateSidePos, against Gate.EndpointPos of internal/domain/gate.go.
use spaceempire_back.Prelude.{
  ℕ, ◌≡◌, ◌⊎◌, sym, ◌∙◌, none, some, true, arith, Option-cases, inl, inr, ◌==◌, if◌then◌else◌,
}
use spaceempire_back.World.Topology.{Gate, Topology, endpoint_pos, gate_between}
use spaceempire_back.World.Topology.Links.{IsIndexed, joins, gate_between-joins, gate_between_sym}
use spaceempire_back.World.Router.{gate_side_pos}

module _ {V : Type 0} where
  side_of :
      (g : Gate V) (a b : ℕ)
      → joins a b g ≡ true
      → (if g.sector_a == a then some g.pos_a else some g.pos_b) ≡ endpoint_pos g a
  unfolding endpoint_pos
  side_of g a b h = ground arith

  -- Where the index of neighbours is that of the gates, either no gate links two sectors and
  -- GateSidePos answers none from both sides, or one gate does and GateSidePos answers from each
  -- side what EndpointPos of that gate answers for the sector.
  pub gate_side_pos-endpoint_pos :
      (t : Topology V) (a b : ℕ)
      → IsIndexed t
      → ((gate_between t a b ≡ none) × (gate_side_pos t a b ≡ none) × (gate_side_pos t b a ≡ none))
        ⊎ ((g : Gate V) × (gate_between t a b ≡ some g)
            × (gate_side_pos t a b ≡ endpoint_pos g a)
            × (gate_side_pos t b a ≡ endpoint_pos g b))
  unfolding gate_side_pos
  gate_side_pos-endpoint_pos t a b ix = elim (Option-cases (gate_between t a b)) [
    | inl e ↦ let back = sym (gate_between_sym t a b ix) ∙ e in inl (e, ground arith, ground arith)
    | inr (g, e) ↦
        let back = sym (gate_between_sym t a b ix) ∙ e in
        inr (
          g,
          e,
          rw (gate_side_pos, e) (side_of g a b (gate_between-joins t a b g ix e)),
          rw (gate_side_pos, back) (side_of g b a (gate_between-joins t b a g ix back)),
        )
  ]
