-- ===== src/World/Router/Walks.antt =====
-- internal/world/router.go: walks from sector to sector, and the hops that the search takes.
use spaceempire_back.Prelude.{ℕ, suc, ◌≡◌, false, List, ◌∈◌}
use spaceempire_back.World.Router.{is_excluded}

-- The walks of n hops.
pub data Walk (Hop : ℕ → ℕ → Type 0) (a : ℕ) : ℕ → ℕ → Type 0 where
  here : Walk Hop a 0 a
  step : {n b c : ℕ} → Walk Hop a n b → Hop b c → Walk Hop a (suc n) c

-- A hop to a neighbour that is not excluded.
abbrev pub Hop : (ℕ → List ℕ) → List ℕ → ℕ → ℕ → Type 0
Hop next excluded a b = (b ∈ next a) × (is_excluded excluded b ≡ false)

pub Walk-map :
    {R S : ℕ → ℕ → Type 0} → ((a b : ℕ) → R a b → S a b) → {a n b : ℕ} → Walk R a n b → Walk S a n b
Walk-map f here = here
Walk-map f (step {b = u} {c} w h) = step (Walk-map f w) (f u c h)
