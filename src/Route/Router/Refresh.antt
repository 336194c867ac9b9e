-- ===== src/Route/Router/Refresh.antt =====
-- route/router: one round of the watcher of the rules.
use tsf_go.Base.{
  String, List, [], ◌∷◌, Option, none, some, Bool, true, false, not, ◌==◌, text_comparable,
  if◌then◌else◌, ◌&&◌, insert, is_empty,
}
use tsf_go.Naming.{new_service, ns_global, service_comparable}
use tsf_go.Route.Router.{RuleGroup, Services}

-- What Watch returns: the specs, each as what unmarshalling makes of it, an error that ends the loop,
-- or another error.
pub data Watched : Type 0 where
  specs : List (Option (List RuleGroup)) → Watched
  closed : Watched
  failed : Watched

-- What one group puts into the new map.
unfoldable pub store_group : String → RuleGroup → Services → Services
unfolding new_service insert
store_group own group services =
    let at_home =
      insert (new_service own group.namespace_id group.microservice_name) group services in
    if not (group.namespace_id == "") && not (group.namespace_id == own)
    then insert (new_service own ns_global group.microservice_name) group at_home
    else at_home

-- The loop over the specs, over `services` and whether `err` is set.
unfoldable pub read_specs :
    String → List (Option (List RuleGroup)) → Services → Bool → Services × Bool
unfolding store_group
read_specs own [] services err = (services, err)
read_specs own (none ∷ rest) services err = read_specs own rest services true
read_specs own (some [] ∷ rest) services err = read_specs own rest services false
read_specs own (some (group ∷ groups) ∷ rest) services err =
    read_specs own rest (store_group own group services) false

-- One round of refresh: the new value of `services`, and whether the loop goes on.
unfoldable pub refresh : String → Watched → Option Services → Option Services × Bool
unfolding read_specs
refresh own closed old = (old, false)
refresh own failed old = (old, true)
refresh own (specs ss) old =
    let read = read_specs own ss [] false in
    if is_empty read.0 && read.1 then (old, true) else (some read.0, true)
