-- ===== src/Examples/Routes.antt =====
-- A square of four sectors, and the routes in it before and after a gate is destroyed.
use spaceempire_back.Prelude.{ℕ, ◌+◌, ◌*◌, ◌≡◌, ◌⊎◌, refl, none, some, List, [], ◌∷◌, arith}
use spaceempire_back.World.Topology.{
  Sector, Gate, Topology, new, destroy_gate, gate_between, endpoint_pos, rebuild_adjacency,
  link_all, link_both, link, links_of, neighbours, remove_gate,
}
use spaceempire_back.World.Topology.Links.{new-IsIndexed, last_joining, gate_between-last}
use spaceempire_back.World.Topology.Destroying.{DistinctIds, Destroyed, destroy_gate_removes}
use spaceempire_back.World.Router.{
  Router, new_path_router, run_bfs, hops, next_sector, gate_side_pos, bfs_from, search_from,
  fresh_cache, hop_in, walk_back, bfs_loop, bfs_start, offer, offer_all, discover, is_excluded,
}
use spaceempire_back.World.Router.Cache.{IsOrder, run_bfs_ends}
use spaceempire_back.World.Router.Routes.{IsHops, IsFirstHop}
use spaceempire_back.World.Router.History.{Steps, ask_hops, destroy, done, further, routes-Steps}
use spaceempire_back.World.Router.Sides.{gate_side_pos-endpoint_pos}

abbrev sectors : List Sector
sectors = record { id = 1 } ∷ record { id = 2 } ∷ record { id = 3 } ∷ record { id = 4 } ∷ []

-- A position is a label here.
abbrev gate : ℕ → ℕ → ℕ → Gate ℕ
gate i a b = record { id = i; sector_a = a; pos_a = 10 * i + 1; sector_b = b; pos_b = 10 * i + 2 }

abbrev gates : List (Gate ℕ)
gates = gate 1 1 2 ∷ gate 2 2 3 ∷ gate 3 3 4 ∷ gate 4 4 1 ∷ []

abbrev square : Topology ℕ
square = new sectors gates

abbrev severed : Topology ℕ
severed = (destroy_gate square 2).0

abbrev visit : ℕ → List ℕ → List ℕ
visit s xs = xs

visit-IsOrder : IsOrder visit
unfolding IsOrder
visit-IsOrder s xs x = (λ m. m, λ m. m)

abbrev idle : Router
idle = new_path_router square (9 ∷ [])

abbrev warm : Router
warm = (hops visit square idle 2 3).1

-- A search, and then the gate between 2 and 3 is destroyed.
history : Steps square idle severed warm
history = further (further done (ask_hops visit visit-IsOrder 2 3)) (destroy 2)

routes-Steps_example :
    IsHops severed (9 ∷ []) 2 3 (hops visit severed warm 2 3).0
    × IsFirstHop severed (9 ∷ []) 2 3 (next_sector visit severed warm 2 3).0
routes-Steps_example =
    routes-Steps sectors gates (9 ∷ []) (omega arith) severed warm history visit visit-IsOrder 2 3

hops_before : (hops visit square idle 2 3).0 ≡ some 1
unfolding hops is_excluded new_path_router bfs_from search_from fresh_cache new run_bfs bfs_loop
    bfs_start offer_all neighbours links_of rebuild_adjacency link_all link_both link offer discover
hops_before = refl

hops_after :
    ((hops visit severed warm 2 3).0 ≡ some 3)
    × ((next_sector visit severed warm 2 3).0 ≡ some 1)
    × ((hops visit severed warm 2 9).0 ≡ none)
unfolding hops is_excluded new_path_router bfs_from search_from fresh_cache new run_bfs bfs_loop
    bfs_start offer_all neighbours links_of rebuild_adjacency link_all link_both link offer discover
    destroy_gate remove_gate next_sector hop_in walk_back
hops_after = (refl, refl, refl)

run_bfs_ends_example : (run_bfs visit square (9 ∷ []) 1).queue ≡ []
run_bfs_ends_example =
    run_bfs_ends visit visit-IsOrder square (new-IsIndexed sectors gates) (9 ∷ []) 1

gate_between-last_example : gate_between square 3 2 ≡ last_joining 3 2 square.gates
gate_between-last_example = gate_between-last square 3 2 (new-IsIndexed sectors gates)

gate_side_pos-endpoint_pos_example :
    ((gate_between square 2 3 ≡ none)
      × (gate_side_pos square 2 3 ≡ none)
      × (gate_side_pos square 3 2 ≡ none))
    ⊎ ((g : Gate ℕ) × (gate_between square 2 3 ≡ some g)
        × (gate_side_pos square 2 3 ≡ endpoint_pos g 2)
        × (gate_side_pos square 3 2 ≡ endpoint_pos g 3))
gate_side_pos-endpoint_pos_example =
    gate_side_pos-endpoint_pos square 2 3 (new-IsIndexed sectors gates)

square-DistinctIds : DistinctIds square.gates
unfolding new
square-DistinctIds = ground arith

destroy_gate_removes_example : Destroyed 2 square severed
destroy_gate_removes_example = destroy_gate_removes 2 square square-DistinctIds
