-- ===== src/Route/Composite/Tests.antt =====
-- A lane without groups, and no routes.
use tsf_go.Base.{ℕ, String, List, [], ◌∷◌, none, some, Bool, ◌≡◌, ◌==◌, text_comparable, Permᴰ_self}
use tsf_go.Meta.{Context}
use tsf_go.Naming.{Service, Instance}
use tsf_go.Route.Lane.{Lane}
use tsf_go.Route.Lane
use tsf_go.Route.Router.{Candidates}
use tsf_go.Route.Router.Match.{Fair, Orders}
use tsf_go.Route.Router.Within.{Within, select-Within}
use tsf_go.Route.Router
use tsf_go.Route.Composite.{select}
use tsf_go.Route.Composite.Within.{composite-Within}

abbrev literal : String → String → Bool
literal pattern s = pattern == s

abbrev least : ℕ → ℕ → ℕ
least k n = 0

abbrev as_stored : ℕ → Candidates → Candidates
as_stored k m = m

least-Fair : Fair least
least-Fair k n h = h

as_stored-Orders : Orders as_stored
as_stored-Orders k m = Permᴰ_self m

abbrev shop : Service
shop = record { namespace = "n"; name = "shop" }

abbrev at_port : ℕ → Instance
at_port port = record {
  service = shop;
  id = "";
  region = "";
  host = "h";
  port = port;
  metadata = [];
  status = 0;
  tags = [];
}

abbrev no_lanes : Lane
no_lanes = record {
  all_rules = [];
  all_lanes = [];
  namespaces = [];
  groups = [];
  rules = [];
  lanes = [];
  services = [];
}

abbrev plain : Context
plain = record { sys_meta = none; user_meta = none }

select-Within_example :
    (res : List Instance) × (Router.select least as_stored literal plain "n"
        (some [])
        shop
        (at_port 1 ∷ at_port 2 ∷ [])
      ≡ some res)
    × Within (at_port 1 ∷ at_port 2 ∷ []) res
select-Within_example =
    select-Within least as_stored literal plain "n" (some []) shop (at_port 1 ∷ at_port 2 ∷ [])
      least-Fair as_stored-Orders tt

composite-Within_example :
    (chosen : List Instance) × (select least as_stored literal plain "n" no_lanes none shop
        (at_port 1 ∷ at_port 2 ∷ [])
      ≡ some (chosen, (Lane.select no_lanes plain shop (at_port 1 ∷ at_port 2 ∷ [])).1))
    × Within (Lane.select no_lanes plain shop (at_port 1 ∷ at_port 2 ∷ [])).0 chosen
composite-Within_example =
    composite-Within least as_stored literal plain "n" none shop least-Fair as_stored-Orders tt
      no_lanes (at_port 1 ∷ at_port 2 ∷ [])
