-- ===== src/World/Router.antt =====
-- internal/world/router.go: breadth-first routes over the gates, cached by their source. A Router is
-- the state that PathRouter keeps besides the topology, which is an argument since the router only
-- reads it. The locks are left out: a lookup is one step.
pub mod Walks
pub mod Scan
pub mod Loop
pub mod Shortest
pub mod Cache
pub mod Routes
pub mod History
pub mod Sides
use spaceempire_back.Prelude.{
  ℕ, zero, suc, ◌+◌, ◌*◌, Bool, true, false, ◌||◌, ◌&&◌, Option, none, some, List, [], ◌∷◌, ◌++◌,
  ◌==◌, if◌then◌else◌, map, length, has_key, lookup, put, keys,
}
use spaceempire_back.World.Topology.{Gate, Topology, neighbours, gate_between}

pub record BfsResult : Type 0 where
  pub dist : List (ℕ × ℕ)
  pub parent : List (ℕ × ℕ)

pub record Search : Type 0 where
  pub found : BfsResult
  pub queue : List ℕ

pub record Router : Type 0 where
  pub excluded : List ℕ
  pub cache : List (ℕ × BfsResult)
  pub version : ℕ

-- What a map of ids holds, and 0 where the key is missing.
abbrev pub read : ℕ → List (ℕ × ℕ) → ℕ
read k m = elim (lookup k m) [ none ↦ 0 | some v ↦ v ]

unfoldable pub is_excluded : List ℕ → ℕ → Bool
is_excluded excluded s = has_key excluded s

unfoldable pub discover : ℕ → ℕ → Search → Search
discover cur n s = record {
  found = record {
    dist = put n (read cur s.found.dist + 1) s.found.dist;
    parent = put n cur s.found.parent;
  };
  queue = s.queue ++ n ∷ [];
}

-- The body of the inner loop of runBFS.
unfoldable pub offer : List ℕ → ℕ → ℕ → Search → Search
offer excluded cur n s =
    if is_excluded excluded n
    then s
    else elim (lookup n s.found.dist) [ some _ ↦ s | none ↦ discover cur n s ]

unfoldable pub offer_all : List ℕ → ℕ → List ℕ → Search → Search
offer_all excluded cur [] s = s
offer_all excluded cur (n ∷ ns) s = offer_all excluded cur ns (offer excluded cur n s)

-- The outer loop, which stops early only where the fuel is spent.
unfoldable pub bfs_loop : (ℕ → List ℕ) → List ℕ → ℕ → Search → Search
bfs_loop next excluded zero s = s
bfs_loop next excluded (suc fuel) s = elim s.queue [
  | [] ↦ s
  | cur ∷ rest ↦
      bfs_loop next excluded fuel (offer_all excluded cur (next cur) (record s { queue = rest }))
]

unfoldable pub bfs_start : ℕ → Search
bfs_start source = record {
  found = record { dist = (source, 0) ∷ []; parent = (source, source) ∷ [] };
  queue = source ∷ [];
}

-- The walk over the parents from `cur` back to the source.
unfoldable pub walk_back : ℕ → List (ℕ × ℕ) → ℕ → ℕ → Option ℕ
walk_back zero parent from cur = none
walk_back (suc fuel) parent from cur =
    let prev = read cur parent in
    let earlier = walk_back fuel parent from prev in if prev == from then some cur else earlier

unfoldable pub hop_in : BfsResult → ℕ → ℕ → Option ℕ
hop_in res from to = elim (lookup to res.dist) [
  | none ↦ none
  | some d ↦ walk_back d res.parent from to
]

module _ {V : Type 0} where
  unfoldable pub new_path_router : Topology V → List ℕ → Router
  new_path_router t excluded = record { excluded = excluded; cache = []; version = t.version }

  -- A sector is queued once, and only the source and the two ends of every gate can be.
  abbrev pub bfs_fuel : Topology V → ℕ
  bfs_fuel t = suc (2 * length t.gates)

  -- The cache after a change of the graph was noticed.
  unfoldable pub fresh_cache : Topology V → Router → Router
  fresh_cache t r =
      if r.version == t.version then r else record r { cache = []; version = t.version }

  module _ (visit : ℕ → List ℕ → List ℕ) where
    unfoldable pub run_bfs : Topology V → List ℕ → ℕ → Search
    run_bfs t excluded source =
        bfs_loop (neighbours visit t) excluded (bfs_fuel t) (bfs_start source)

    unfoldable pub search_from : Topology V → ℕ → Router → BfsResult × Router
    search_from t source r = elim (lookup source r.cache) [
      | some res ↦ (res, r)
      | none ↦
          let res = (run_bfs t r.excluded source).found in
          (res, record r { cache = put source res r.cache })
    ]

    unfoldable pub bfs_from : Topology V → ℕ → Router → BfsResult × Router
    bfs_from t source r = search_from t source (fresh_cache t r)

    unfoldable pub next_sector : Topology V → Router → ℕ → ℕ → Option ℕ × Router
    next_sector t r from to =
        if from == to
        then (some from, r)
        else if is_excluded r.excluded from || is_excluded r.excluded to
        then (none, r)
        else (hop_in (bfs_from t from r).0 from to, (bfs_from t from r).1)

    unfoldable pub hops : Topology V → Router → ℕ → ℕ → Option ℕ × Router
    hops t r from to =
        if from == to
        then (some 0, r)
        else if is_excluded r.excluded from || is_excluded r.excluded to
        then (none, r)
        else (lookup to (bfs_from t from r).0.dist, (bfs_from t from r).1)

  unfoldable pub gate_side_pos : Topology V → ℕ → ℕ → Option V
  gate_side_pos t from to = elim (gate_between t from to) [
    | none ↦ none
    | some g ↦ if g.sector_a == from then some g.pos_a else some g.pos_b
  ]
