-- ===== src/World/Router/Scan.antt =====
-- internal/world/router.go: one round of runBFS, which keeps what the search relies on.
use spaceempire_back.Prelude.{
  ℕ, suc, ◌+◌, ◌≤◌, ◌≡◌, refl, sym, ap, ◌∙◌, ◌⊎◌, inl, inr, true, none, some, List, [], ◌∷◌, ◌++◌,
  arith, ◌∈◌, ∈-append, lookup, put, lookup-put_self, lookup-put_ne, Bool-cases, Option-cases, ==→≡,
  ◌==◌,
}
use spaceempire_back.World.Router.{BfsResult, Search, is_excluded, read, discover, offer, offer_all}
use spaceempire_back.World.Router.Walks.{Hop, Walk, step}

-- The distances along the queue do not fall, and begin at `low` or above.
abbrev pub Rising : List (ℕ × ℕ) → ℕ → List ℕ → Type 0
Rising dist low [] = Unit
Rising dist low (q ∷ qs) = (d : ℕ) × (lookup q dist ≡ some d) × (low ≤ d) × Rising dist d qs

-- A map that keeps every value of another one.
abbrev pub Extends : List (ℕ × ℕ) → List (ℕ × ℕ) → Type 0
Extends m m' = (v d : ℕ) → lookup v m ≡ some d → lookup v m' ≡ some d

pub Extends-put : (v d : ℕ) (m : List (ℕ × ℕ)) → lookup v m ≡ none → Extends m (put v d m)
Extends-put v d m new w e old = lookup-put_ne v w d m (λ same. cc) ∙ old

Rising-append :
    (m m' : List (ℕ × ℕ)) (low top v : ℕ) (qs : List ℕ)
    → Extends m m'
    → lookup v m' ≡ some top
    → low ≤ top
    → ((w d : ℕ) → lookup w m ≡ some d → d ≤ top)
    → Rising m low qs
    → Rising m' low (qs ++ v ∷ [])
Rising-append m m' low top v [] keep at le all r = (top, at, le, tt)
Rising-append m m' low top v (q ∷ qs) keep at le all (d, e, h, r) =
    (d, keep q d e, h, Rising-append m m' d top v qs keep at (all q d e) all r)

-- How a sector was found: it is the source, or a hop leads to it from its parent, which is nearer.
abbrev pub Found : (ℕ → ℕ → Type 0) → ℕ → BfsResult → ℕ → ℕ → Type 0
Found R source r v d =
    ((v ≡ source) × (d ≡ 0))
    ⊎ ((p k : ℕ) × (lookup v r.parent ≡ some p) × (lookup p r.dist ≡ some k) × (d ≡ suc k) × R p v)

module _ (next : ℕ → List ℕ) (excluded : List ℕ) (source : ℕ) where
  abbrev pub Near : Search → ℕ → ℕ → Type 0
  Near s v k = (e : ℕ) × (lookup v s.found.dist ≡ some e) × (e ≤ k)

  -- The state while the neighbours `waiting` of `cur`, which is at distance `low`, are still to be
  -- offered. Between rounds none is.
  pub record Inv (low cur : ℕ) (waiting : List ℕ) (s : Search) : Type 0 where
    pub origin : lookup source s.found.dist ≡ some 0
    pub rising : Rising s.found.dist low s.queue
    pub near : (v d : ℕ) → lookup v s.found.dist ≡ some d → d ≤ suc low
    pub found :
        (v d : ℕ) → lookup v s.found.dist ≡ some d → Found (Hop next excluded) source s.found v d
    pub walked : (v d : ℕ) → lookup v s.found.dist ≡ some d → Walk (Hop next excluded) source d v
    pub closed :
        (u d v : ℕ)
        → lookup u s.found.dist ≡ some d
        → Hop next excluded u v
        → (u ∈ s.queue) ⊎ ((u ≡ cur) × (v ∈ waiting)) ⊎ Near s v (suc d)

  module _ (low cur n : ℕ) (ns : List ℕ) (s : Search) (at : lookup cur s.found.dist ≡ some low)
      (i : Inv low cur (n ∷ ns) s) where
    open i use {origin, rising, near, found, walked, closed}

    Inv-excluded : is_excluded excluded n ≡ true → Inv low cur ns s
    Inv-excluded out = record {
      origin = origin;
      rising = rising;
      near = near;
      found = found;
      walked = walked;
      closed = λ u d v e hop. ground (arith, closed u d v e hop);
    }

    Inv-seen : (d : ℕ) → lookup n s.found.dist ≡ some d → Inv low cur ns s
    Inv-seen k seen = record {
      origin = origin;
      rising = rising;
      near = near;
      found = found;
      walked = walked;
      closed = λ u d v e hop. elim (closed u d v e hop) [
        | inl queued ↦ inl queued
        | inr (inl (same, inl first)) ↦ inr (
            inr (
              k,
              rw first seen,
              ground (arith, near n k seen, ap (λ w. lookup w s.found.dist) same),
            ))
        | inr (inl (same, inr later)) ↦ inr (inl (same, later))
        | inr (inr done) ↦ inr (inr done)
      ];
    }

    module _ (new : lookup n s.found.dist ≡ none) (hop : Hop next excluded cur n) where
      abbrev after : Search
      after = discover cur n s

      keeps : Extends s.found.dist after.found.dist
      unfolding discover
      keeps = Extends-put n (read cur s.found.dist + 1) s.found.dist new

      reads : lookup n after.found.dist ≡ some (suc low)
      unfolding discover
      reads = lookup-put_self n (read cur s.found.dist + 1) s.found.dist ∙ ground (arith, at)

      -- A sector of the new map is the new one or was there.
      split :
          (v d : ℕ)
          → lookup v after.found.dist ≡ some d
          → ((v ≡ n) × (d ≡ suc low)) ⊎ (lookup v s.found.dist ≡ some d)
      unfolding discover
      split v d e = elim (Bool-cases (v == n)) [
        | inl same ↦ inl (==→≡ v n same, ground (arith, ==→≡ v n same, reads))
        | inr other ↦
            inr
              (sym (lookup-put_ne n v (read cur s.found.dist + 1) s.found.dist (ground arith)) ∙ e)
      ]

      parents :
          (v d p : ℕ)
          → lookup v s.found.dist ≡ some d
          → lookup v s.found.parent ≡ some p
          → lookup v after.found.parent ≡ some p
      unfolding discover
      parents v d p e old = lookup-put_ne n v cur s.found.parent (λ same. cc) ∙ old

      parent_new : lookup n after.found.parent ≡ some cur
      unfolding discover
      parent_new = lookup-put_self n cur s.found.parent

      queue_after : after.queue ≡ s.queue ++ n ∷ []
      unfolding discover
      queue_after = refl

      Found-keeps :
          (v d : ℕ)
          → lookup v s.found.dist ≡ some d
          → Found (Hop next excluded) source s.found v d
          → Found (Hop next excluded) source after.found v d
      Found-keeps v d e (inl start) = inl start
      Found-keeps v d e (inr (p, k, up, at_p, level, hop)) =
          inr (p, k, parents v d p e up, keeps p k at_p, level, hop)

      Inv-discover : Inv low cur ns after
      Inv-discover = record {
        origin = keeps source 0 origin;
        rising = rw queue_after (
            Rising-append s.found.dist after.found.dist low (suc low) n s.queue keeps reads
              (omega arith) near rising);
        near =
            λ v d e. elim (split v d e) [ inl (_, level) ↦ omega arith | inr old ↦ near v d old ];
        found = λ v d e. elim (split v d e) [
          | inl (same, level) ↦
              inr (cur, low, rw same parent_new, keeps cur low at, level, rw same hop)
          | inr old ↦ Found-keeps v d old (found v d old)
        ];
        walked = λ v d e. elim (split v d e) [
          | inl (same, level) ↦ rw (same, level) (step (walked cur low at) hop)
          | inr old ↦ walked v d old
        ];
        closed = λ u d v e edge. elim (split u d e) [
          | inl (same, _) ↦
              inl (rw (queue_after, same) ((∈-append n s.queue (n ∷ [])).1 (inr (inl refl))))
          | inr old ↦ elim (closed u d v old edge) [
            | inl queued ↦ inl (rw queue_after ((∈-append u s.queue (n ∷ [])).1 (inl queued)))
            | inr (inl (same, inl first)) ↦ inr (
                inr (
                  suc low,
                  rw first reads,
                  ground (arith, at, ap (λ w. lookup w s.found.dist) same),
                ))
            | inr (inl (same, inr later)) ↦ inr (inl (same, later))
            | inr (inr (k, there, le)) ↦ inr (inr (k, keeps v k there, le))
          ]
        ];
      }

  -- One neighbour, and then all of them.
  offer-Inv :
      (low cur n : ℕ) (ns : List ℕ) (s : Search)
      → lookup cur s.found.dist ≡ some low
      → n ∈ next cur
      → Inv low cur (n ∷ ns) s
      → Inv low cur ns (offer excluded cur n s)
        × (lookup cur (offer excluded cur n s).found.dist ≡ some low)
  unfolding offer
  offer-Inv low cur n ns s at mem i = elim (Bool-cases (is_excluded excluded n)) [
    | inl out ↦ rw out (Inv-excluded low cur n ns s at i out, at)
    | inr open_sector ↦ elim (Option-cases (lookup n s.found.dist)) [
      | inl new ↦
          rw (open_sector, new)
            (
              Inv-discover low cur n ns s at i new (mem, open_sector),
              keeps low cur n ns s at i new (mem, open_sector) cur low at,
            )
      | inr (k, seen) ↦ rw (open_sector, seen) (Inv-seen low cur n ns s at i k seen, at)
    ]
  ]

  pub offer_all-Inv :
      (low cur : ℕ) (ns : List ℕ) (s : Search)
      → lookup cur s.found.dist ≡ some low
      → ((n : ℕ) → n ∈ ns → n ∈ next cur)
      → Inv low cur ns s
      → Inv low cur [] (offer_all excluded cur ns s)
  unfolding offer_all
  offer_all-Inv low cur [] s at within i = i
  offer_all-Inv low cur (n ∷ ns) s at within i =
      let (j, still) = offer-Inv low cur n ns s at (within n (inl refl)) i in
      offer_all-Inv low cur ns (offer excluded cur n s) still (λ m mem. within m (inr mem)) j
