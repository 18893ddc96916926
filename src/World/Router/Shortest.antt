-- ===== src/World/Router/Shortest.antt =====
-- internal/world/router.go: the distances of a finished search, and the hop that is read off them.
use spaceempire_back.Prelude.{
  ℕ, suc, zero, ◌+◌, ◌≤◌, ◌≡◌, ◌≢◌, ap, inl, inr, some, List, [], ◌∷◌, arith, ◌∈◌, lookup,
  Bool-cases, ==→≡, ◌==◌, subst,
}
use spaceempire_back.World.Router.{BfsResult, Search, bfs_start, bfs_loop, walk_back, hop_in}
use spaceempire_back.World.Router.Walks.{Hop, Walk, Walk-map, here, step}
use spaceempire_back.World.Router.Scan.{Inv, Found}
use spaceempire_back.World.Router.Loop.{bfs_loop-Inv, bfs_start-Inv, bfs_loop-empties, unseen}

-- A map of distances with its parents: each distance is that of a walk, no walk is shorter, and
-- a parent is one hop nearer.
pub record IsShortest (R : ℕ → ℕ → Type 0) (source : ℕ) (r : BfsResult) : Type 0 where
  pub origin : lookup source r.dist ≡ some 0
  pub walked : (v d : ℕ) → lookup v r.dist ≡ some d → Walk R source d v
  pub least : (v n : ℕ) → Walk R source n v → (d : ℕ) × (lookup v r.dist ≡ some d) × (d ≤ n)
  pub found : (v d : ℕ) → lookup v r.dist ≡ some d → Found R source r v d

pub IsShortest-map :
    (R S : ℕ → ℕ → Type 0)
    → ((a b : ℕ) → R a b → S a b)
    → ((a b : ℕ) → S a b → R a b)
    → (source : ℕ) (r : BfsResult) → IsShortest R source r
    → IsShortest S source r
IsShortest-map R S f g source r i = record {
  origin = i.origin;
  walked = λ v d h. Walk-map f (i.walked v d h);
  least = λ v n w. i.least v n (Walk-map g w);
  found = λ v d h. elim (i.found v d h) [
    | inl start ↦ inl start
    | inr (p, k, up, at, level, hop) ↦ inr (p, k, up, at, level, f p v hop)
  ];
}

module _ (next : ℕ → List ℕ) (excluded : List ℕ) (source : ℕ) where
  Inv-least :
      {low cur : ℕ} {s : Search}
      → Inv next excluded source low cur [] s
      → s.queue ≡ []
      → (v n : ℕ) → Walk (Hop next excluded) source n v
      → (d : ℕ) × (lookup v s.found.dist ≡ some d) × (d ≤ n)
  Inv-least i empty v zero here = (0, i.origin, omega arith)
  Inv-least i empty v (suc n) (step {b = u} w hop) =
      let (d, at, le) = Inv-least i empty u n w in
      elim (i.closed u d v at hop) [
        | inl queued ↦ absurd (subst (λ q. u ∈ q) empty queued)
        | inr (inl (_, nowhere)) ↦ absurd nowhere
        | inr (inr (e, there, near)) ↦ (e, there, omega arith)
      ]

  pub bfs_loop-IsShortest :
      (all : List ℕ) (fuel : ℕ)
      → ((a b : ℕ) → b ∈ next a → b ∈ all)
      → unseen ((source, 0) ∷ []) all + 1 ≤ fuel
      → IsShortest (Hop next excluded) source (bfs_loop next excluded fuel (bfs_start source)).found
  unfolding bfs_start
  bfs_loop-IsShortest all fuel ends enough =
      let (low, cur, i) =
        bfs_loop-Inv next excluded source fuel 0 source (bfs_start source)
          (bfs_start-Inv next excluded source) in
      let empty = bfs_loop-empties next excluded all ends fuel (bfs_start source) enough in
      record { origin = i.origin; walked = i.walked; least = Inv-least i empty; found = i.found }

module _ (R : ℕ → ℕ → Type 0) (source : ℕ) (r : BfsResult) (i : IsShortest R source r) where
  -- The first hop of a shortest walk.
  walk_back_lem :
      (d cur : ℕ)
      → lookup cur r.dist ≡ some d
      → cur ≢ source
      → (h k : ℕ) × (walk_back d r.parent source cur ≡ some h)
        × R source h
        × (d ≡ suc k)
        × Walk R h k cur
  unfolding walk_back
  walk_back_lem zero cur at away = elim (i.found cur 0 at) [
    | inl (same, _) ↦ absurd (away same)
    | inr (p, k, up, at_p, level, hop) ↦ absurd (omega arith)
  ]
  walk_back_lem (suc d) cur at away = elim (i.found cur (suc d) at) [
    | inl (same, _) ↦ absurd (away same)
    | inr (p, k, up, at_p, level, hop) ↦ elim (Bool-cases (p == source)) [
      | inl first ↦
          let e = ==→≡ p source first in
          (
            cur,
            0,
            ground arith,
            subst (λ w. R w cur) e hop,
            ground (arith, i.origin, ap (λ w. lookup w r.dist) e),
            here,
          )
      | inr further ↦
          let (h, j, back, first, less, w) = walk_back_lem d p (ground arith) (ground arith) in
          (h, suc j, ground arith, first, ap suc less, step w hop)
    ]
  ]

  pub hop_in_lem :
      (to d : ℕ)
      → lookup to r.dist ≡ some d
      → to ≢ source
      → (h k : ℕ) × (hop_in r source to ≡ some h) × R source h × (d ≡ suc k) × Walk R h k to
  unfolding hop_in
  hop_in_lem to d at away = rw (hop_in, at) (walk_back_lem d to at away)
