-- ===== src/Route/Router/Tests.antt =====
-- Two instances of a service, of which a rule sends all calls to the one of version 2.
use tsf_go.Route.Router.Refresh.{refresh, specs}
use tsf_go.Route.Router.Watch.{last_group, GivesNone, LastFails, refresh_lem}
use tsf_go.Base.{
  ℕ, String, [], ◌∷◌, Bool, true, false, some, none, ◌≡◌, refl, ◌==◌, text_comparable, lookup, ◌⊎◌,
}
use tsf_go.Meta.{Context, text}
use tsf_go.Naming.{Instance, Service, service_comparable, same_service}
use tsf_go.Route.Router.{Candidates, Dest, Rule, RuleGroup, Services, select}

abbrev literal : String → String → Bool
literal pattern s = pattern == s

-- The least of the draws
abbrev least : ℕ → ℕ → ℕ
least k n = 0

abbrev as_stored : ℕ → Candidates → Candidates
as_stored k m = m

abbrev shop : Service
shop = record { namespace = "n"; name = "shop" }

abbrev version : String → String → Instance
version id v = record {
  service = shop;
  id = id;
  region = "";
  host = "10.0.0.1";
  port = 80;
  metadata = ("TSF_PROG_VERSION", v) ∷ [];
  status = 0;
  tags = [];
}

abbrev to_version : String → ℕ → String → Dest
to_version id weight v = record {
  dest_id = id;
  dest_weight = weight;
  dest_item_list = record { dest_item_field = "TSF_PROG_VERSION"; dest_item_value = v } ∷ [];
}

abbrev canary : Rule
canary = record {
  route_rule_id = "r";
  tag_list =
      record {
        tag_type = "S";
        tag_field = "source.service.name";
        tag_operator = "EQUAL";
        tag_value = "cart";
      }
      ∷ [];
  dest_list = to_version "one" 0 "1" ∷ to_version "two" 100 "2" ∷ [];
}

abbrev group : RuleGroup
group = record {
  rule_list = canary ∷ [];
  namespace_id = "n";
  microservice_name = "shop";
  fallback_status = true;
}

abbrev services : Services
services = (shop, group) ∷ []

abbrev call : Context
call = record { sys_meta = some (("service.name", text "cart") ∷ []); user_meta = none }

chosen :
    select least as_stored literal call "n"
      (some services)
      shop
      (version "a" "1" ∷ version "b" "2" ∷ [])
    ≡ some (version "b" "2" ∷ [])
unfolding select same_service
chosen = refl

abbrev weight_of : String → ℕ
weight_of id = elim (id == "two") [ true ↦ 100 | false ↦ 0 ]

refresh_lem_example :
    ((GivesNone (some (group ∷ []) ∷ none ∷ []) × LastFails (some (group ∷ []) ∷ none ∷ []))
      × (refresh "n" (specs (some (group ∷ []) ∷ none ∷ [])) none ≡ (none, true))
      × ((svc : Service) → last_group "n" svc (some (group ∷ []) ∷ none ∷ []) none ≡ none))
    ⊎ ((¬ (GivesNone (some (group ∷ []) ∷ none ∷ []) × LastFails (some (group ∷ []) ∷ none ∷ [])))
        × ((new : Services) × (refresh "n" (specs (some (group ∷ []) ∷ none ∷ [])) none
              ≡ (some new, true))
            × ((svc : Service)
                → lookup svc new ≡ last_group "n" svc (some (group ∷ []) ∷ none ∷ []) none)))
refresh_lem_example = refresh_lem "n" (some (group ∷ []) ∷ none ∷ []) none
