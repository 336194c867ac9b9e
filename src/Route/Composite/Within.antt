-- ===== src/Route/Composite/Within.antt =====
-- The composite router stays inside what the lane leaves.
use tsf_go.Base.{ℕ, String, List, [], ◌∷◌, Option, some, Bool, ◌≡◌, refl}
use tsf_go.Meta.{Context}
use tsf_go.Naming.{Service, Instance}
use tsf_go.Route.Lane.{Lane}
use tsf_go.Route.Lane
use tsf_go.Route.Router.{Candidates, Services}
use tsf_go.Route.Router.Match.{Fair, Orders}
use tsf_go.Route.Router.Within.{OneWeights, Within, select-Within}
use tsf_go.Route.Composite.{select, route}

module _ (random : ℕ → ℕ → ℕ) (arrange : ℕ → Candidates → Candidates)
    (matches : String → String → Bool) (ctx : Context) (own : String) (services : Option Services)
    (svc : Service) (fair : Fair random) (orders : Orders arrange)
    (weights : OneWeights services) where
  route-Within :
      (res : List Instance) (l : Lane)
      → (chosen : List Instance) × (route random arrange matches ctx own services svc res l
          ≡ some (chosen, l))
        × Within res chosen
  unfolding route
  route-Within [] l = ([], refl, tt)
  route-Within (node ∷ rest) l =
      let routed =
        select-Within random arrange matches ctx own services svc (node ∷ rest) fair orders
          weights in
      (routed.0, rw (route, routed.1) refl, routed.2)

  -- Select of the composite router does not panic under the conditions of the router's own: each
  -- instance that it gives is one that the lane leaves, and the lane's cache is as the lane's Select
  -- left it.
  pub composite-Within :
      (l : Lane) (nodes : List Instance)
      → (chosen : List Instance) × (select random arrange matches ctx own l services svc nodes
          ≡ some (chosen, (Lane.select l ctx svc nodes).1))
        × Within (Lane.select l ctx svc nodes).0 chosen
  unfolding select
  composite-Within l nodes =
      route-Within (Lane.select l ctx svc nodes).0 (Lane.select l ctx svc nodes).1
