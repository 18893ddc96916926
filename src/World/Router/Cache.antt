-- ===== src/World/Router/Cache.antt =====
-- internal/world/router.go: the search over the topology, and the cache of its results.
use spaceempire_back.Prelude.{
  ℕ, ◌+◌, ◌≤◌, ◌<◌, ◌≡◌, refl, sym, ◌∙◌, ◌↔◌, inl, inr, false, some, List, [], ◌∷◌, arith, ◌∈◌,
  lookup, put, Bool-cases, Option-cases, ==→≡, ◌==◌, subst, keys, length, lookup-put_self,
  lookup-put_ne,
}
use spaceempire_back.World.Topology.{Gate, Topology, neighbours, links_of, gate_between}
use spaceempire_back.World.Topology.Links.{
  IsIndexed, mem-keys_links, gate_between-endpoint, endpoints, length-endpoints,
}
use spaceempire_back.World.Router.{
  BfsResult, Router, new_path_router, is_excluded, bfs_start, run_bfs, bfs_fuel, fresh_cache,
  search_from, bfs_from,
}
use spaceempire_back.World.Router.Walks.{Hop}
use spaceempire_back.World.Router.Loop.{bfs_loop-empties, unseen}
use spaceempire_back.World.Router.Shortest.{IsShortest, IsShortest-map, bfs_loop-IsShortest}

-- Go's `range` over a map visits its keys, in an order that it does not promise.
unfoldable pub IsOrder : (ℕ → List ℕ → List ℕ) → Type 0
IsOrder visit = (s : ℕ) (xs : List ℕ) (x : ℕ) → (x ∈ visit s xs) ↔ (x ∈ xs)

unseen-le : (dist : List (ℕ × ℕ)) (xs : List ℕ) → unseen dist xs ≤ length xs
unseen-le dist [] = omega arith
unseen-le dist (x ∷ xs) = ground (arith, unseen-le dist xs, Option-cases (lookup x dist))

module _ {V : Type 0} where
  -- A jump through a gate to a sector that is not excluded.
  abbrev pub Jump : Topology V → List ℕ → ℕ → ℕ → Type 0
  Jump t excluded a b =
      ((g : Gate V) × (gate_between t a b ≡ some g)) × (is_excluded excluded b ≡ false)

  -- Every cached result is right for the graph that the router has seen last.
  pub IsFresh : Topology V → Router → Type 0
  IsFresh t r =
      r.version ≡ t.version
      → (source : ℕ) (res : BfsResult) → lookup source r.cache ≡ some res
      → IsShortest (Jump t r.excluded) source res

  pub IsFresh-of_behind : (t : Topology V) (r : Router) → r.version < t.version → IsFresh t r
  unfolding IsFresh
  IsFresh-of_behind t r h same source res e = absurd (omega arith)

  pub new-IsFresh : (t : Topology V) (excluded : List ℕ) → IsFresh t (new_path_router t excluded)
  unfolding IsFresh new_path_router
  new-IsFresh t excluded same source res e = cc

  module _ (visit : ℕ → List ℕ → List ℕ) (order : IsOrder visit) (t : Topology V) where
    mem-neighbours :
        (a b : ℕ) → (b ∈ neighbours visit t a) ↔ ((g : Gate V) × (gate_between t a b ≡ some g))
    unfolding neighbours IsOrder
    mem-neighbours a b = (
      λ m. (mem-keys_links t a b).0 ((order a (keys (links_of a t.adjacency)) b).0 m),
      λ w. (order a (keys (links_of a t.adjacency)) b).1 ((mem-keys_links t a b).1 w),
    )

    module _ (ix : IsIndexed t) (excluded : List ℕ) (source : ℕ) where
      neighbour-endpoint : (a b : ℕ) → b ∈ neighbours visit t a → b ∈ endpoints t.gates
      neighbour-endpoint a b m =
          let (g, e) = (mem-neighbours a b).0 m in gate_between-endpoint t a b g ix e

      enough : unseen ((source, 0) ∷ []) (endpoints t.gates) + 1 ≤ bfs_fuel t
      enough =
          omega (arith, unseen-le ((source, 0) ∷ []) (endpoints t.gates), length-endpoints t.gates)

      -- Where the index of neighbours is that of the gates, in whatever order neighbours are
      -- visited, the fuel of a search is enough: it ends with an empty queue.
      pub run_bfs_ends : (run_bfs visit t excluded source).queue ≡ []
      unfolding run_bfs bfs_start
      run_bfs_ends =
          bfs_loop-empties (neighbours visit t) excluded (endpoints t.gates) neighbour-endpoint
            (bfs_fuel t) (bfs_start source) enough

      pub run_bfs-IsShortest :
          IsShortest (Jump t excluded) source (run_bfs visit t excluded source).found
      unfolding run_bfs
      run_bfs-IsShortest =
          IsShortest-map (Hop (neighbours visit t) excluded) (Jump t excluded)
            (λ a b (m, clear). ((mem-neighbours a b).0 m, clear))
            (λ a b (w, clear). ((mem-neighbours a b).1 w, clear)) source _
            (bfs_loop-IsShortest (neighbours visit t) excluded source (endpoints t.gates)
              (bfs_fuel t) neighbour-endpoint enough)

    pub record Finds (source : ℕ) (r : Router) (out : BfsResult × Router) : Type 0 where
      pub right : IsShortest (Jump t r.excluded) source out.0
      pub fresh : IsFresh t out.1
      pub same : out.1.excluded ≡ r.excluded
      pub seen : out.1.version ≡ t.version

    empty-IsFresh : (r : Router) → IsFresh t (record r { cache = []; version = t.version })
    unfolding IsFresh
    empty-IsFresh r _ source res e = cc

    fresh_cache-IsFresh :
        (r : Router)
        → IsFresh t r
        → IsFresh t (fresh_cache t r)
          × ((fresh_cache t r).excluded ≡ r.excluded)
          × ((fresh_cache t r).version ≡ t.version)
    unfolding fresh_cache
    fresh_cache-IsFresh r h = elim (Bool-cases (r.version == t.version)) [
      | inl current ↦ rw current (h, refl, ==→≡ r.version t.version current)
      | inr stale ↦ rw stale (empty-IsFresh r, refl, refl)
    ]

    the_new :
        (source : ℕ) (r : Router) (s : ℕ) (res : BfsResult)
        → s ≡ source
        → lookup s (put source (run_bfs visit t r.excluded source).found r.cache) ≡ some res
        → res ≡ (run_bfs visit t r.excluded source).found
    the_new source r s res at e =
        ground (arith, lookup-put_self source (run_bfs visit t r.excluded source).found r.cache)

    cached :
        IsIndexed t
        → (source : ℕ) (r : Router) (s : ℕ) (res : BfsResult)
        → (lookup s r.cache ≡ some res → IsShortest (Jump t r.excluded) s res)
        → lookup s (put source (run_bfs visit t r.excluded source).found r.cache) ≡ some res
        → IsShortest (Jump t r.excluded) s res
    cached ix source r s res old e = elim (Bool-cases (s == source)) [
      | inl same ↦
          let at = ==→≡ s source same in
          let fresh = the_new source r s res at e in
          rw (fresh, at) (run_bfs-IsShortest ix r.excluded source)
      | inr other ↦ old (
          sym (
            lookup-put_ne source s (run_bfs visit t r.excluded source).found r.cache (ground arith))
          ∙ e)
    ]

    search_from-Finds :
        IsIndexed t
        → (source : ℕ) (r : Router) → IsFresh t r
        → r.version ≡ t.version
        → Finds source r (search_from visit t source r)
    unfolding search_from IsFresh
    search_from-Finds ix source r h current = elim (Option-cases (lookup source r.cache)) [
      | inl new ↦
          rw (search_from, new)
            (record {
              right = run_bfs-IsShortest ix r.excluded source;
              fresh = λ _ s res e. cached ix source r s res (h current s res) e;
              same = refl;
              seen = current;
            })
      | inr (res, old) ↦
          rw (search_from, old)
            (record { right = h current source res old; fresh = h; same = refl; seen = current })
    ]

    pub bfs_from-Finds :
        IsIndexed t
        → (source : ℕ) (r : Router) → IsFresh t r
        → Finds source r (bfs_from visit t source r)
    unfolding bfs_from
    bfs_from-Finds ix source r h =
        let (fresh, same, current) = fresh_cache-IsFresh r h in
        let found = search_from-Finds ix source (fresh_cache t r) fresh current in
        record {
          right =
              subst (λ x. IsShortest (Jump t x) source (bfs_from visit t source r).0) same
                found.right;
          fresh = found.fresh;
          same = found.same ∙ same;
          seen = found.seen;
        }
