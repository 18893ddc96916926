-- ===== src/World/Router/Routes.antt =====
-- internal/world/router.go: Hops and NextSector against walks through gates.
use spaceempire_back.Prelude.{
  ℕ, suc, ◌≤◌, ◌≡◌, ◌≢◌, refl, sym, ◌⊎◌, inl, inr, true, false, Option, none, some, List, arith,
  lookup, Bool-cases, Option-cases, ==→≡, ◌==◌, subst, ◌||◌,
}
use spaceempire_back.World.Topology.{Topology}
use spaceempire_back.World.Topology.Links.{IsIndexed}
use spaceempire_back.World.Router.{
  BfsResult, Router, is_excluded, bfs_from, hops, next_sector, hop_in,
}
use spaceempire_back.World.Router.Walks.{Walk, Walk-map, here, step}
use spaceempire_back.World.Router.Shortest.{IsShortest, hop_in_lem}
use spaceempire_back.World.Router.Cache.{IsOrder, IsFresh, Jump, Finds, bfs_from-Finds}

module _ {V : Type 0} (t : Topology V) (excluded : List ℕ) where
  -- A jump through a gate between two sectors that are not excluded.
  abbrev pub Leg : ℕ → ℕ → Type 0
  Leg a b = (is_excluded excluded a ≡ false) × Jump t excluded a b

  abbrev pub Route : ℕ → ℕ → ℕ → Type 0
  Route = Walk Leg

  -- The number of jumps of a shortest route, or none where there is no route.
  abbrev pub IsHops : ℕ → ℕ → Option ℕ → Type 0
  IsHops from to none = (n : ℕ) → ¬ Route from n to
  IsHops from to (some d) = Route from d to × ((n : ℕ) → Route from n to → d ≤ n)

  -- The first sector of a shortest route, or none where there is no route. For a route that goes
  -- nowhere it is the sector itself.
  abbrev pub IsFirstHop : ℕ → ℕ → Option ℕ → Type 0
  IsFirstHop from to none = (n : ℕ) → ¬ Route from n to
  IsFirstHop from to (some h) =
      ((from ≡ to) × (h ≡ from))
      ⊎ ((from ≢ to)
          × ((k : ℕ) × Leg from h × Route h k to × ((n : ℕ) → Route from n to → suc k ≤ n)))

  Route-of_Walk :
      {a n b : ℕ}
      → is_excluded excluded a ≡ false
      → Walk (Jump t excluded) a n b
      → Route a n b × (is_excluded excluded b ≡ false)
  Route-of_Walk clear here = (here, clear)
  Route-of_Walk clear (step w jump) =
      let (r, at) = Route-of_Walk clear w in (step r (at, jump), jump.1)

  Walk-of_Route : {a n b : ℕ} → Route a n b → Walk (Jump t excluded) a n b
  Walk-of_Route = Walk-map (λ a b leg. leg.1)

  Route-clear :
      {a n b : ℕ}
      → Route a n b
      → a ≢ b
      → (is_excluded excluded a ≡ false) × (is_excluded excluded b ≡ false)
  Route-clear here away = absurd (away refl)
  Route-clear {a} (step {b = u} w (clear, jump)) away = elim (Bool-cases (a == u)) [
    | inl same ↦ (rw (==→≡ a u same) clear, jump.1)
    | inr other ↦ ((Route-clear w (ground arith)).0, jump.1)
  ]

  blocked :
      {from to : ℕ}
      → from ≢ to
      → (is_excluded excluded from || is_excluded excluded to) ≡ true
      → (n : ℕ) → ¬ Route from n to
  blocked away e n r = let (a, b) = Route-clear r away in ground arith

  module _ (from to : ℕ) (away : from ≢ to) (clear : is_excluded excluded from ≡ false)
      (res : BfsResult) (i : IsShortest (Jump t excluded) from res) where
    lookup-IsHops : IsHops from to (lookup to res.dist)
    lookup-IsHops = elim (Option-cases (lookup to res.dist)) [
      | inl e ↦ rw e (λ n r. let (d, at, _) = i.least to n (Walk-of_Route r) in cc)
      | inr (d, e) ↦ rw e (
        (Route-of_Walk clear (i.walked to d e)).0,
        λ n r. let (k, at, le) = i.least to n (Walk-of_Route r) in ground arith,
      )
    ]

    hop_in-IsFirstHop : IsFirstHop from to (hop_in res from to)
    unfolding hop_in
    hop_in-IsFirstHop = elim (Option-cases (lookup to res.dist)) [
      | inl e ↦ rw (hop_in, e) (λ n r. let (d, at, _) = i.least to n (Walk-of_Route r) in cc)
      | inr (d, e) ↦
          let (h, k, at, jump, level, w) =
            hop_in_lem (Jump t excluded) from res i to d e (λ s. away (sym s)) in
          rw at (
            inr (
              away,
              (
                k,
                (clear, jump),
                (Route-of_Walk jump.1 w).0,
                λ n r. let (j, there, le) = i.least to n (Walk-of_Route r) in ground arith,
              ),
            ))
    ]

module _ {V : Type 0} (visit : ℕ → List ℕ → List ℕ) (order : IsOrder visit) (t : Topology V)
    (ix : IsIndexed t) (r : Router) (fresh : IsFresh t r) (from to : ℕ) where
  abbrev pub Settled : Router → Type 0
  Settled r' =
      IsFresh t r'
      × (r'.excluded ≡ r.excluded)
      × ((r'.version ≡ r.version) ⊎ (r'.version ≡ t.version))

  found : Finds visit order t from r (bfs_from visit t from r)
  found = bfs_from-Finds visit order t ix from r fresh

  after : Settled (bfs_from visit t from r).1
  after = (found.fresh, found.same, inr found.seen)

  pub hops_shortest :
      IsHops t r.excluded from to (hops visit t r from to).0 × Settled (hops visit t r from to).1
  unfolding hops
  hops_shortest = elim (Bool-cases (from == to)) [
    | inl same ↦ rw same (
      (subst (λ w. Route t r.excluded from 0 w) (==→≡ from to same) here, λ n _. omega arith),
      (fresh, refl, inl refl),
    )
    | inr other ↦ elim (Bool-cases (is_excluded r.excluded from || is_excluded r.excluded to)) [
      | inl out ↦ rw (other, out) (blocked t r.excluded (ground arith) out, (fresh, refl, inl refl))
      | inr clear ↦
          rw (other, clear)
            (
              lookup-IsHops t r.excluded from to (ground arith) (ground arith)
                  (bfs_from visit t from r).0 found.right,
              after,
            )
    ]
  ]

  pub next_sector_nearer :
      IsFirstHop t r.excluded from to (next_sector visit t r from to).0
      × Settled (next_sector visit t r from to).1
  unfolding next_sector
  next_sector_nearer = elim (Bool-cases (from == to)) [
    | inl same ↦ rw same (inl (==→≡ from to same, refl), (fresh, refl, inl refl))
    | inr other ↦ elim (Bool-cases (is_excluded r.excluded from || is_excluded r.excluded to)) [
      | inl out ↦ rw (other, out) (blocked t r.excluded (ground arith) out, (fresh, refl, inl refl))
      | inr clear ↦
          rw (other, clear)
            (
              hop_in-IsFirstHop t r.excluded from to (ground arith) (ground arith)
                  (bfs_from visit t from r).0 found.right,
              after,
            )
    ]
  ]
