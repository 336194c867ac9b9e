-- ===== src/Route/Composite.antt =====
-- route/composite: the instances that the lane leaves go through the router.
pub mod Within
mod Tests
use tsf_go.Base.{ℕ, String, List, [], ◌∷◌, Option, none, some, Bool, true, false, ◌≡◌, refl, ◌>>=◌}
use tsf_go.Meta.{Context}
use tsf_go.Naming.{Service, Instance}
use tsf_go.Route.Lane.{Lane}
use tsf_go.Route.Lane
use tsf_go.Route.Router.{Candidates, Services}
use tsf_go.Route.Router

-- Behind the lane: no instance stays none, and else the router chooses.
unfoldable pub route :
    (ℕ → ℕ → ℕ)
    → (ℕ → Candidates → Candidates)
    → (String → String → Bool)
    → Context
    → String
    → Option Services
    → Service
    → List Instance
    → Lane
    → Option (List Instance × Lane)
unfolding Router.select
route random arrange matches ctx own services svc [] l = some ([], l)
route random arrange matches ctx own services svc (node ∷ rest) l =
    Router.select random arrange matches ctx own services svc (node ∷ rest) >>= λ chosen.
    some (chosen, l)

-- Composite.Select: the instances and the lane afterwards, or a panic of the router.
unfoldable pub select :
    (ℕ → ℕ → ℕ)
    → (ℕ → Candidates → Candidates)
    → (String → String → Bool)
    → Context
    → String
    → Lane
    → Option Services
    → Service
    → List Instance
    → Option (List Instance × Lane)
unfolding Lane.select route
select random arrange matches ctx own l services svc nodes =
    let res = Lane.select l ctx svc nodes in
    route random arrange matches ctx own services svc res.0 res.1
