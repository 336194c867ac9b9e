-- ===== src/Route/Lane/Select.antt =====
-- Lane.Select against the lanes themselves, and what its cache remembers.
use tsf_go.Base.{
  String, List, [], ◌∷◌, Option, none, some, Bool, true, false, not, ◌≡◌, refl, sym, ap, ◌∙◌, ◌==◌,
  text_comparable, if◌then◌else◌, ◌&&◌, ◌||◌, Bool-cases, Option-cases, arith, lookup, insert,
  has_key, lookup-insert_self, is_empty, values, filterb, inl, inr,
}
use tsf_go.Meta
use tsf_go.Meta.{Context, sys}
use tsf_go.Naming.{
  Service, Instance, get, service_comparable, group_id, application_id, namespace_id,
}
use tsf_go.Route.Lane.{
  Lane, LaneInfo, LaneGroup, has_group, Ids, Lanes, ids_of, select, select_known, select_cached,
  select_normal, select_color, without_color, choose, serves, hits_of, lane_of,
}
use tsf_go.Route.Lane.Refresh.{refresh_lanes}
use tsf_go.Route.Lane.Index.{
  in_group, in_namespace, some_lane, some_lane_of, Refreshed, refresh_lanes-Refreshed,
}

-- The instances whose group belongs to a lane of this id.
abbrev pub coloured : List LaneInfo → String → List Instance → List Instance
coloured lanes id nodes =
    filterb (λ (n : Instance). some_lane_of id (in_group (get group_id n.metadata)) lanes) nodes

-- The instances that stay for other calls: all of them where no lane has a group that is no entrance
-- in the namespace, and else those whose group belongs to no lane.
abbrev pub uncoloured : List LaneInfo → String → List Instance → List Instance
uncoloured lanes namespace nodes =
    if some_lane (in_namespace namespace) lanes
    then filterb
        (λ (n : Instance).
          get group_id n.metadata == ""
          || not (some_lane (in_group (get group_id n.metadata)) lanes))
        nodes
    else nodes

-- Whether an instance runs the application of a lane's group in the group's namespace.
abbrev pub runs : LaneGroup → Instance → Bool
runs group node =
    group.application_id == get application_id node.metadata
    && group.namespace_id == get namespace_id node.metadata

abbrev pub some_runs : LaneGroup → List Instance → Bool
some_runs group [] = false
some_runs group (node ∷ nodes) = runs group node || some_runs group nodes

-- Whether some group of the lane has an instance of its application in its namespace.
abbrev pub reaches : List LaneGroup → List Instance → Bool
reaches [] nodes = false
reaches (group ∷ groups) nodes = some_runs group nodes || reaches groups nodes

reaches_node :
    (node : Instance) (nodes : List Instance) (groups : List LaneGroup)
    → reaches groups (node ∷ nodes) ≡ (has_group node groups || reaches groups nodes)
unfolding has_group
reaches_node node nodes [] = refl
reaches_node node nodes (group ∷ groups) =
    let later = reaches_node node nodes groups in ground (arith, later)

serves_lem :
    (nodes : List Instance) (lane : LaneInfo) → serves nodes lane ≡ reaches lane.group_list nodes
unfolding serves
serves_lem [] lane = sym (reaches_none lane.group_list)
  where
    reaches_none : (groups : List LaneGroup) → reaches groups [] ≡ false
    reaches_none [] = refl
    reaches_none (group ∷ groups) = reaches_none groups
serves_lem (node ∷ nodes) lane =
    let later = serves_lem nodes lane in
    let here = reaches_node node nodes lane.group_list in ground (arith, later, here)

abbrev pub choice_in : List LaneInfo → String → List Instance → Option LaneInfo → List Instance
choice_in lanes namespace nodes none = nodes
choice_in lanes namespace nodes (some lane) =
    if reaches lane.group_list nodes
    then coloured lanes lane.id nodes
    else uncoloured lanes namespace nodes

-- The choice read off the lanes, with no index and no cache.
abbrev pub choice : Lanes → String → String → List Instance → List Instance
choice lanes id namespace [] = []
choice lanes id namespace (node ∷ nodes) =
    if id == ""
    then uncoloured (values lanes) namespace (node ∷ nodes)
    else choice_in (values lanes) namespace (node ∷ nodes) (lookup id lanes)

has_key_nonempty :
    (id : String) (ids : Ids) → (not (is_empty ids) && has_key id ids) ≡ has_key id ids
unfolding has_key
has_key_nonempty id [] = refl
has_key_nonempty id (entry ∷ ids) = refl

module _ (l : Lane) (fresh : Refreshed l) where
  select_color_lem :
      (lane : LaneInfo) (nodes : List Instance)
      → select_color l.groups lane nodes ≡ coloured (values l.all_lanes) lane.id nodes
  unfolding select_color
  select_color_lem lane [] = refl
  select_color_lem lane (n ∷ nodes) =
      rw
        (
          select_color,
          has_key_nonempty lane.id (ids_of (lookup (get group_id n.metadata) l.groups)),
          fresh.0 (get group_id n.metadata) lane.id,
          select_color_lem lane nodes,
        )
        refl

  without_color_lem :
      (nodes : List Instance)
      → without_color l.groups nodes
        ≡ filterb
            (λ (n : Instance).
              get group_id n.metadata == ""
              || not (some_lane (in_group (get group_id n.metadata)) (values l.all_lanes)))
            nodes
  unfolding without_color
  without_color_lem [] = refl
  without_color_lem (n ∷ nodes) =
      rw (without_color, fresh.1 (get group_id n.metadata), without_color_lem nodes) (ground arith)

  select_normal_lem :
      (svc : Service) (nodes : List Instance)
      → select_normal l svc nodes ≡ uncoloured (values l.all_lanes) svc.namespace nodes
  unfolding select_normal
  select_normal_lem svc nodes =
      let known = fresh.2 svc.namespace in
      elim (Bool-cases (is_empty (ids_of (lookup svc.namespace l.namespaces)))) [
        | inl e ↦
            let nowhere : some_lane (in_namespace svc.namespace) (values l.all_lanes) ≡ false =
              sym known ∙ ap not e in
            rw (select_normal, e, nowhere) refl
        | inr e ↦
            let somewhere : some_lane (in_namespace svc.namespace) (values l.all_lanes) ≡ true =
              sym known ∙ ap not e in
            rw (select_normal, e, somewhere) (without_color_lem nodes)
      ]

  choose_lem :
      (svc : Service) (nodes : List Instance) (lane : LaneInfo) (hit : Bool)
      → choose l svc nodes lane hit ≡ (
          if hit
          then coloured (values l.all_lanes) lane.id nodes
          else uncoloured (values l.all_lanes) svc.namespace nodes)
  unfolding choose
  choose_lem svc nodes lane true = select_color_lem lane nodes
  choose_lem svc nodes lane false = select_normal_lem svc nodes

  known_lem :
      (svc : Service) (nodes : List Instance) (id : String) (found : Option LaneInfo)
      → l.services ≡ []
      → (select_known l svc nodes id found).0
        ≡ choice_in (values l.all_lanes) svc.namespace nodes found
  unfolding select_known select_cached lookup
  known_lem svc nodes id none e = refl
  known_lem svc nodes id (some lane) e =
      rw (select_known, e)
        (choose_lem svc nodes lane (serves nodes lane)
          ∙ ap
              (λ hit.
                if hit
                then coloured (values l.all_lanes) lane.id nodes
                else uncoloured (values l.all_lanes) svc.namespace nodes)
              (serves_lem nodes lane))

  select_fresh :
      (ctx : Context) (svc : Service) (nodes : List Instance)
      → l.services ≡ []
      → (select l ctx svc nodes).0
        ≡ choice l.all_lanes (lane_of (sys ctx Meta.lane_id)) svc.namespace nodes
  unfolding select
  select_fresh ctx svc [] e = refl
  select_fresh ctx svc (n ∷ nodes) e = elim (Bool-cases (lane_of (sys ctx Meta.lane_id) == "")) [
    | inl h ↦ rw (select, h, if◌then◌else◌) (select_normal_lem svc (n ∷ nodes))
    | inr h ↦
        rw (select, h, if◌then◌else◌)
          (known_lem svc (n ∷ nodes) (lane_of (sys ctx Meta.lane_id))
            (lookup (lane_of (sys ctx Meta.lane_id)) l.all_lanes) e)
  ]

-- The first Select after refreshLanes chooses as the lanes say: for a call in a known lane
-- of which some group has an instance of its application in its namespace, the instances whose group
-- belongs to the lane; for a call in an unknown
-- lane all the instances; and for any other call those whose group belongs to no lane, or all of them
-- if no lane has a group in the namespace of the service beside entrances.
pub select-refresh_lanes :
    (own : String) (l : Lane) (ctx : Context) (svc : Service) (nodes : List Instance)
    → (select (refresh_lanes own l) ctx svc nodes).0
      ≡ choice l.all_lanes (lane_of (sys ctx Meta.lane_id)) svc.namespace nodes
unfolding refresh_lanes
select-refresh_lanes own l ctx svc nodes =
    select_fresh (refresh_lanes own l) (refresh_lanes-Refreshed own l) ctx svc nodes refl

choose_cache :
    (l : Lane) (cache : List (String × List (Service × Bool))) (svc : Service)
    (nodes : List Instance) (lane : LaneInfo) (hit : Bool)
    → choose (record l { services = cache }) svc nodes lane hit ≡ choose l svc nodes lane hit
unfolding choose select_normal
choose_cache l cache svc nodes lane true = refl
choose_cache l cache svc nodes lane false = refl

abbrev hits_after :
    Lane → Service → String → LaneInfo → List Instance → List (String × List (Service × Bool))
hits_after l svc id lane ns =
    insert id (insert svc (serves ns lane) (hits_of (lookup id l.services))) l.services

known_first :
    (l : Lane) (svc : Service) (id : String) (lane : LaneInfo) (ns : List Instance)
    → lookup svc (hits_of (lookup id l.services)) ≡ none
    → (select_known l svc ns id (some lane)).1 ≡ record l { services = hits_after l svc id lane ns }
unfolding select_known select_cached
known_first l svc id lane ns new = rw (select_known, new, select_cached) refl

remembered :
    (l : Lane) (svc : Service) (id : String) (lane : LaneInfo) (ns : List Instance)
    → lookup svc (hits_of (lookup id (hits_after l svc id lane ns))) ≡ some (serves ns lane)
remembered l svc id lane ns =
    rw
      (lookup-insert_self id (insert svc (serves ns lane) (hits_of (lookup id l.services)))
        l.services)
      (lookup-insert_self svc (serves ns lane) (hits_of (lookup id l.services)))

known_again :
    (l : Lane) (svc : Service) (id : String) (lane : LaneInfo) (ns ms : List Instance)
    → lookup svc (hits_of (lookup id l.services)) ≡ none
    → (select_known (select_known l svc ns id (some lane)).1 svc ms id (some lane)).0
      ≡ choose l svc ms lane (serves ns lane)
unfolding select_known select_cached
known_again l svc id lane ns ms new =
    ap (λ (k : Lane). (select_known k svc ms id (some lane)).0) (known_first l svc id lane ns new)
    ∙ ap
        (λ (o : Option Bool).
          (select_cached (record l { services = hits_after l svc id lane ns }) svc ms id lane o).0)
        (remembered l svc id lane ns)
    ∙ choose_cache l (hits_after l svc id lane ns) svc ms lane (serves ns lane)

known_lanes :
    (l : Lane) (svc : Service) (id : String) (lane : LaneInfo) (ns : List Instance)
    → (select_known l svc ns id (some lane)).1.all_lanes ≡ l.all_lanes
unfolding select_known select_cached
known_lanes l svc id lane ns = elim (Option-cases (lookup svc (hits_of (lookup id l.services)))) [
  | inl e ↦ rw (select_known, e, select_cached) refl
  | inr (hit, e) ↦ rw (select_known, e, select_cached) refl
]

-- Select remembers for a lane and a service whether the lane serves it: after a first Select with some
-- instances, the next one with other instances, still served or not, chooses by what the first found.
pub select_again :
    (l : Lane) (ctx : Context) (svc : Service) (lane : LaneInfo) (n m : Instance)
    (ns ms : List Instance)
    → (lane_of (sys ctx Meta.lane_id) == "") ≡ false
    → lookup (lane_of (sys ctx Meta.lane_id)) l.all_lanes ≡ some lane
    → lookup svc (hits_of (lookup (lane_of (sys ctx Meta.lane_id)) l.services)) ≡ none
    → (select (select l ctx svc (n ∷ ns)).1 ctx svc (m ∷ ms)).0
      ≡ choose l svc (m ∷ ms) lane (serves (n ∷ ns) lane)
unfolding select
select_again l ctx svc lane n m ns ms named known new =
    let id = lane_of (sys ctx Meta.lane_id) in
    rw (select, named, if◌then◌else◌, known, known_lanes l svc id lane (n ∷ ns), known)
      (known_again l svc id lane (n ∷ ns) (m ∷ ms) new)
