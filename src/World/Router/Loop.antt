-- ===== src/World/Router/Loop.antt =====
-- internal/world/router.go: the loop of runBFS as a whole, and the fuel that it needs.
use spaceempire_back.Prelude.{
  ℕ, suc, zero, ◌+◌, ◌≤◌, ◌≡◌, refl, ap, inl, inr, none, some, List, [], ◌∷◌, ◌++◌, arith, ◌∈◌,
  lookup, put, lookup-put_ne, Bool-cases, Option-cases, ◌==◌, length, List-cases, ==_refl, subst,
}
use spaceempire_back.World.Router.{
  Search, read, is_excluded, discover, offer, offer_all, bfs_start, bfs_loop,
}
use spaceempire_back.World.Router.Walks.{here}
use spaceempire_back.World.Router.Scan.{Inv, Rising, offer_all-Inv}

pub length-snoc : (xs : List ℕ) (x : ℕ) → length (xs ++ x ∷ []) ≡ suc (length xs)
length-snoc [] x = refl
length-snoc (y ∷ xs) x = ap suc (length-snoc xs x)

-- How many entries of the list have no distance yet.
abbrev pub unseen : List (ℕ × ℕ) → List ℕ → ℕ
unseen dist [] = 0
unseen dist (x ∷ xs) = elim (lookup x dist) [
  | none ↦ suc (unseen dist xs)
  | some _ ↦ unseen dist xs
]

unseen-put_le :
    (v d : ℕ) (dist : List (ℕ × ℕ)) (xs : List ℕ) → unseen (put v d dist) xs ≤ unseen dist xs
unseen-put_le v d dist [] = omega arith
unseen-put_le v d dist (x ∷ xs) = elim (Bool-cases (x == v)) [
  | inl same ↦ ground (arith, unseen-put_le v d dist xs)
  | inr other ↦ ground (arith, unseen-put_le v d dist xs, lookup-put_ne v x d dist)
]

unseen-put :
    (v d : ℕ) (dist : List (ℕ × ℕ)) (xs : List ℕ)
    → lookup v dist ≡ none
    → v ∈ xs
    → suc (unseen (put v d dist) xs) ≤ unseen dist xs
unseen-put v d dist [] new m = absurd m
unseen-put v d dist (x ∷ xs) new m = elim (Bool-cases (x == v)) [
  | inl same ↦ ground (arith, unseen-put_le v d dist xs)
  | inr other ↦ ground (arith, unseen-put v d dist xs, lookup-put_ne v x d dist)
]

module _ (next : ℕ → List ℕ) (excluded all : List ℕ) where
  abbrev work : Search → ℕ
  work s = unseen s.found.dist all + length s.queue

  offer-work : (cur n : ℕ) (s : Search) → n ∈ all → work (offer excluded cur n s) ≤ work s
  unfolding offer discover
  offer-work cur n s m = ground (
    arith,
    Bool-cases (is_excluded excluded n),
    Option-cases (lookup n s.found.dist),
    unseen-put n (read cur s.found.dist + 1) s.found.dist all,
    length-snoc s.queue n,
  )

  offer_all-work :
      (cur : ℕ) (ns : List ℕ) (s : Search)
      → ((n : ℕ) → n ∈ ns → n ∈ all)
      → work (offer_all excluded cur ns s) ≤ work s
  unfolding offer_all
  offer_all-work cur [] s m = omega arith
  offer_all-work cur (n ∷ ns) s m = omega (
    arith,
    offer-work cur n s (m n (inl refl)),
    offer_all-work cur ns (offer excluded cur n s) (λ k mem. m k (inr mem)),
  )

  pub bfs_loop-empties :
      ((a b : ℕ) → b ∈ next a → b ∈ all)
      → (fuel : ℕ) (s : Search) → work s ≤ fuel
      → (bfs_loop next excluded fuel s).queue ≡ []
  unfolding bfs_loop
  bfs_loop-empties ends zero s h = elim (List-cases s.queue) [
    | inl empty ↦ empty
    | inr (u, rest, e) ↦ absurd (omega (arith, ap length e))
  ]
  bfs_loop-empties ends (suc fuel) s h = elim (List-cases s.queue) [
    | inl empty ↦ rw (bfs_loop, empty) empty
    | inr (u, rest, e) ↦
        rw (bfs_loop, e)
          (bfs_loop-empties ends fuel (offer_all excluded u (next u) (record s { queue = rest })) (
            omega
              (arith, ap length e, offer_all-work u (next u) (record s { queue = rest }) (ends u))))
  ]

module _ (next : ℕ → List ℕ) (excluded : List ℕ) (source : ℕ) where
  Inv-pop :
      (low cur u : ℕ) (rest : List ℕ) (s : Search)
      → s.queue ≡ u ∷ rest
      → Inv next excluded source low cur [] s
      → (d : ℕ) × (lookup u s.found.dist ≡ some d)
        × Inv next excluded source d u (next u) (record s { queue = rest })
  Inv-pop low cur u rest s e i =
      let (d, at, le, later) = subst (Rising s.found.dist low) e i.rising in
      (
        d,
        at,
        record {
          origin = i.origin;
          rising = later;
          near = λ v k h. omega (arith, i.near v k h);
          found = i.found;
          walked = i.walked;
          closed = λ x k v h hop. elim (i.closed x k v h hop) [
            | inl queued ↦ elim (subst (λ q. x ∈ q) e queued) [
              | inl same ↦ inr (inl (same, subst (λ w. v ∈ next w) same hop.0))
              | inr waits ↦ inl waits
            ]
            | inr (inl (_, nowhere)) ↦ absurd nowhere
            | inr (inr done) ↦ inr (inr done)
          ];
        },
      )

  pub bfs_loop-Inv :
      (fuel low cur : ℕ) (s : Search)
      → Inv next excluded source low cur [] s
      → (low' : ℕ) × (cur' : ℕ) × Inv next excluded source low' cur' []
          (bfs_loop next excluded fuel s)
  unfolding bfs_loop
  bfs_loop-Inv zero low cur s i = (low, cur, i)
  bfs_loop-Inv (suc fuel) low cur s i = elim (List-cases s.queue) [
    | inl empty ↦ rw (bfs_loop, empty) (low, cur, i)
    | inr (u, rest, e) ↦
        let (d, at, popped) = Inv-pop low cur u rest s e i in
        rw (bfs_loop, e)
          (bfs_loop-Inv fuel d u (offer_all excluded u (next u) (record s { queue = rest })) (
            offer_all-Inv next excluded source d u (next u) (record s { queue = rest }) at
              (λ n m. m) popped))
  ]

  only_source : (v d : ℕ) → lookup v ((source, 0) ∷ []) ≡ some d → (v ≡ source) × (d ≡ 0)
  only_source v d h = ground arith

  pub bfs_start-Inv : Inv next excluded source 0 source [] (bfs_start source)
  unfolding bfs_start
  bfs_start-Inv = record {
    origin = rw (==_refl source) refl;
    rising = (0, rw (==_refl source) refl, omega arith, tt);
    near = λ v d h. ground arith;
    found = λ v d h. ground arith;
    walked = λ v d h. let (same, zeroth) = only_source v d h in rw (same, zeroth) here;
    closed = λ u d v h hop. inl (inl (ground arith));
  }
