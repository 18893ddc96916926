-- ===== src/World/Router/History.antt =====
-- internal/world: lookups of the router and destroyed gates in any order.
use spaceempire_back.Prelude.{
  ℕ, suc, ◌+◌, ◌%◌, ◌^◌, ◌≤◌, ◌<◌, ◌≡◌, refl, ◌∙◌, inl, inr, some, List, [], ◌∷◌, arith, subst,
  Bool-cases, Option-cases, length, ◌==◌,
}
use spaceempire_back.World.Topology.{Gate, Sector, Topology, new, remove_gate, destroy_gate}
use spaceempire_back.World.Topology.Links.{IsIndexed, new-IsIndexed, rebuilt-IsIndexed}
use spaceempire_back.World.Router.{Router, new_path_router, hops, next_sector}
use spaceempire_back.World.Router.Cache.{IsOrder, IsFresh, IsFresh-of_behind, new-IsFresh}
use spaceempire_back.World.Router.Routes.{
  IsHops, IsFirstHop, Settled, hops_shortest, next_sector_nearer,
}

module _ {V : Type 0} where
  -- What can happen to the graph and its router. Every search has its own order of neighbours.
  pub data Step (t : Topology V) (r : Router) : Topology V → Router → Type 0 where
    ask_hops :
        (visit : ℕ → List ℕ → List ℕ)
        → IsOrder visit
        → (from to : ℕ) → Step t r t (hops visit t r from to).1
    ask_next :
        (visit : ℕ → List ℕ → List ℕ)
        → IsOrder visit
        → (from to : ℕ) → Step t r t (next_sector visit t r from to).1
    destroy : (i : ℕ) → Step t r (destroy_gate t i).0 r

  pub data Steps (t : Topology V) (r : Router) : Topology V → Router → Type 0 where
    done : Steps t r t r
    further :
        {t' t'' : Topology V} {r' r'' : Router}
        → Steps t r t' r'
        → Step t' r' t'' r''
        → Steps t r t'' r''

  -- The version cannot wrap, since each of its steps takes a gate away.
  pub record Routing (excluded : List ℕ) (t : Topology V) (r : Router) : Type 0 where
    pub indexed : IsIndexed t
    pub fresh : IsFresh t r
    excludes : r.excluded ≡ excluded
    behind : r.version ≤ t.version
    room : t.version + length t.gates < 2 ^ 64

  remove_gate-length :
      (i : ℕ) (gs kept : List (Gate V))
      → remove_gate i gs ≡ some kept
      → suc (length kept) ≡ length gs
  unfolding remove_gate
  remove_gate-length i [] kept e = cc
  remove_gate-length i (g ∷ gs) kept e = elim (Bool-cases (g.id == i)) [
    | inl hit ↦ ground arith
    | inr miss ↦ elim (Option-cases (remove_gate i gs)) [
      | inl absent ↦ ground arith
      | inr (rest, there) ↦ ground (arith, remove_gate-length i gs rest there)
    ]
  ]

  module _ (excluded : List ℕ) (t : Topology V) (r : Router) (h : Routing excluded t r) where
    asked :
        (visit : ℕ → List ℕ → List ℕ) (order : IsOrder visit) (from to : ℕ) (r' : Router)
        → Settled visit order t h.indexed r h.fresh from to r'
        → Routing excluded t r'
    asked visit order from to r' (fresh, same, version) = record {
      indexed = h.indexed;
      fresh = fresh;
      excludes = same ∙ h.excludes;
      behind = ground (arith, h.behind);
      room = h.room;
    }

    destroyed : (i : ℕ) → Routing excluded (destroy_gate t i).0 r
    unfolding destroy_gate
    destroyed i = elim (Option-cases (remove_gate i t.gates)) [
      | inl absent ↦ rw (destroy_gate, absent) h
      | inr (kept, there) ↦
          let fewer = remove_gate-length i t.gates kept there in
          rw (destroy_gate, there)
            (record {
              indexed = rebuilt-IsIndexed t kept ((t.version + 1) % 2 ^ 64);
              fresh = IsFresh-of_behind _ r (omega (arith, h.behind, h.room));
              excludes = h.excludes;
              behind = omega (arith, h.behind, h.room);
              room = omega (arith, h.behind, h.room);
            })
    ]

    pub Step-Routing : {t' : Topology V} {r' : Router} → Step t r t' r' → Routing excluded t' r'
    Step-Routing (ask_hops visit order from to) =
        asked visit order from to (hops visit t r from to).1
          (hops_shortest visit order t h.indexed r h.fresh from to).1
    Step-Routing (ask_next visit order from to) =
        asked visit order from to (next_sector visit t r from to).1
          (next_sector_nearer visit order t h.indexed r h.fresh from to).1
    Step-Routing (destroy i) = destroyed i

  new-Routing :
      (excluded : List ℕ) (sectors : List Sector) (gates : List (Gate V))
      → length gates < 2 ^ 64
      → Routing excluded (new sectors gates) (new_path_router (new sectors gates) excluded)
  unfolding new new_path_router
  new-Routing excluded sectors gates few = record {
    indexed = new-IsIndexed sectors gates;
    fresh = new-IsFresh (new sectors gates) excluded;
    excludes = refl;
    behind = omega arith;
    room = omega (arith, few);
  }

  Steps-Routing :
      (excluded : List ℕ) {t : Topology V} {r : Router}
      → Routing excluded t r
      → {t' : Topology V} {r' : Router} → Steps t r t' r'
      → Routing excluded t' r'
  Steps-Routing excluded h done = h
  Steps-Routing excluded h (further {t'} {r'} before last) =
      Step-Routing excluded t' r' (Steps-Routing excluded h before) last

  -- For a map of fewer than 2 ^ 64 gates and a router made for it, whatever routes are asked for
  -- and whatever gates are destroyed, in any order, a lookup answers for the graph as it then is,
  -- in any order of neighbours: Hops the length of a shortest route between sectors that are not
  -- excluded, NextSector the first sector of one (the sector itself where there is nowhere to
  -- go), and none exactly where there is no route.
  pub routes-Steps :
      (sectors : List Sector) (gates : List (Gate V)) (excluded : List ℕ)
      → length gates < 2 ^ 64
      → (t : Topology V) (r : Router)
      → Steps (new sectors gates) (new_path_router (new sectors gates) excluded) t r
      → (visit : ℕ → List ℕ → List ℕ) → IsOrder visit
      → (from to : ℕ)
      → IsHops t excluded from to (hops visit t r from to).0
        × IsFirstHop t excluded from to (next_sector visit t r from to).0
  routes-Steps sectors gates excluded few t r steps visit order from to =
      let h = Steps-Routing excluded (new-Routing excluded sectors gates few) steps in
      let (right, _) = hops_shortest visit order t h.indexed r h.fresh from to in
      let (nearer, _) = next_sector_nearer visit order t h.indexed r h.fresh from to in
      (
        subst (λ x. IsHops t x from to (hops visit t r from to).0) h.excludes right,
        subst (λ x. IsFirstHop t x from to (next_sector visit t r from to).0) h.excludes nearer,
      )
