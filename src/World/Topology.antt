-- ===== src/World/Topology.antt =====
-- internal/world/topology.go: the sectors and the gates, with the index of neighbours that
-- DestroyGate rebuilds. A position is a value of any type V, since no operation looks into it, and
-- the combat fields of a gate are left out: the workers of the sectors keep those.
-- A pointer to a gate is the gate, since a slice of gates is replaced and never written to.
pub mod Links
pub mod Destroying
use spaceempire_back.Prelude.{
  ℕ, ◌+◌, ◌%◌, ◌^◌, Bool, true, false, ◌||◌, Option, none, some, List, [], ◌∷◌, ◌==◌, if◌then◌else◌,
  find_row, select, lookup, put, keys,
}

pub record Sector : Type 0 where
  pub id : ℕ

pub record Gate (V : Type 0) : Type 0 where
  pub id : ℕ
  pub sector_a : ℕ
  pub pos_a : V
  pub sector_b : ℕ
  pub pos_b : V

abbrev pub Adjacency : Type 0 → Type 0
Adjacency V = List (ℕ × List (ℕ × Gate V))

pub record Topology (V : Type 0) : Type 0 where
  pub sectors : List Sector
  pub gates : List (Gate V)
  pub adjacency : Adjacency V
  pub version : ℕ

module _ {V : Type 0} where
  -- The position of a gate inside a sector that it touches.
  unfoldable pub endpoint_pos : Gate V → ℕ → Option V
  endpoint_pos g s =
      if s == g.sector_a then some g.pos_a else if s == g.sector_b then some g.pos_b else none

  -- The inner map, which is empty where the code finds nil.
  unfoldable pub links_of : ℕ → Adjacency V → List (ℕ × Gate V)
  links_of s adj = elim (lookup s adj) [ none ↦ [] | some m ↦ m ]

  -- `adj[a][b] = g`, after the inner map is made where it is missing.
  unfoldable pub link : ℕ → ℕ → Gate V → Adjacency V → Adjacency V
  link a b g adj = put a (put b g (links_of a adj)) adj

  unfoldable pub link_both : Gate V → Adjacency V → Adjacency V
  link_both g adj = link g.sector_b g.sector_a g (link g.sector_a g.sector_b g adj)

  -- The loop of rebuildAdjacency from an index that is begun.
  unfoldable pub link_all : List (Gate V) → Adjacency V → Adjacency V
  link_all [] adj = adj
  link_all (g ∷ gs) adj = link_all gs (link_both g adj)

  unfoldable pub rebuild_adjacency : List (Gate V) → Adjacency V
  rebuild_adjacency gs = link_all gs []

  unfoldable pub new : List Sector → List (Gate V) → Topology V
  new sectors gates = record {
    sectors = sectors;
    gates = gates;
    adjacency = rebuild_adjacency gates;
    version = 0;
  }

  unfoldable pub find_gate : Topology V → ℕ → Option (Gate V)
  find_gate t i = find_row (λ g. g.id == i) t.gates

  unfoldable pub gates_in_sector : Topology V → ℕ → List (Gate V)
  gates_in_sector t s = select (λ g. (g.sector_a == s) || g.sector_b == s) t.gates

  unfoldable pub gate_between : Topology V → ℕ → ℕ → Option (Gate V)
  gate_between t a b = elim (lookup a t.adjacency) [ none ↦ none | some m ↦ lookup b m ]

  -- The gates without the first that has the id; none where there is no such gate.
  unfoldable pub remove_gate : ℕ → List (Gate V) → Option (List (Gate V))
  remove_gate i [] = none
  remove_gate i (g ∷ gs) =
      let rest = remove_gate i gs in
      if g.id == i then some gs else elim rest [ none ↦ none | some kept ↦ some (g ∷ kept) ]

  -- The version is a uint64.
  unfoldable pub destroy_gate : Topology V → ℕ → Topology V × Bool
  destroy_gate t i = elim (remove_gate i t.gates) [
    | none ↦ (t, false)
    | some kept ↦ (
      record t {
        gates = kept;
        adjacency = rebuild_adjacency kept;
        version = (t.version + 1) % 2 ^ 64;
      },
      true,
    )
  ]

  -- The keys of the inner map, in the order in which Go's `range` happens to visit them for this
  -- sector: `visit` is that order.
  unfoldable pub neighbours : (ℕ → List ℕ → List ℕ) → Topology V → ℕ → List ℕ
  neighbours visit t s = visit s (keys (links_of s t.adjacency))
