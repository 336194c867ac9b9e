-- ===== src/Route/Lane.antt =====
-- route/lane: lanes colour the instances of their groups; a call in a lane goes to its instances
-- where a service has some, and any other call stays away from coloured instances. The maps
-- `namespaces` and `groups` are indexes over the lanes, `services` is a cache. Each method is one
-- step: the calls that interleave with a refresh between two of its locks are left out.
pub mod Refresh
pub mod Index
pub mod Select
pub mod Rules
mod Tests
use tsf_go.Base.{
  ℕ, String, List, [], ◌∷◌, ◌++◌, Option, none, some, Bool, true, false, not, ◌==◌, text_comparable,
  if◌then◌else◌, ◌&&◌, ◌||◌, ltb, nat_eqb, lookup, insert, has_key, values, ◌+◌, is_empty, ℤ, ltb_ℤ,
  pos_part, neg_part, sort,
}
use tsf_go.Meta
use tsf_go.Meta.{Context, Any, text, other, sys}
use tsf_go.Naming.{
  Service, Instance, get, service_comparable, application_id, namespace_id, group_id,
}
use tsf_go.Tag
use tsf_go.Tag.{Tag, type_user, relation_and, relation_or, rule_hit}

pub record TagRule : Type 0 where
  pub id : String
  pub name : String
  pub operator : String
  pub value : String

pub record LaneRule : Type 0 where
  pub id : String
  pub name : String
  pub enable : Bool
  pub lane_id : String
  pub priority : ℤ
  pub tag_list : List TagRule
  pub relationship : String
  pub create_time : ℕ

pub record LaneGroup : Type 0 where
  pub application_id : String
  pub entrance : Bool
  pub group_id : String
  pub namespace_id : String

pub record LaneInfo : Type 0 where
  pub id : String
  pub name : String
  pub group_list : List LaneGroup
  pub create_time : ℕ

-- map[string]struct{}
abbrev pub Ids : Type 0
Ids = List (String × Unit {0})

abbrev pub Lanes : Type 0
Lanes = List (String × LaneInfo)

pub record Lane : Type 0 where
  pub all_rules : List LaneRule
  pub all_lanes : Lanes
  pub namespaces : List (String × Ids)
  pub groups : List (String × Ids)
  pub rules : List LaneRule
  pub lanes : Lanes
  pub services : List (String × List (Service × Bool))

unfoldable pub user_tags : List TagRule → List Tag
user_tags [] = []
user_tags (t ∷ rest) =
    record { type = type_user; field = t.name; operator = t.operator; value = t.value }
    ∷ user_tags rest

-- LaneRule.toCommonTagRule
unfoldable pub to_common_tag_rule : LaneRule → Tag.Rule
unfolding user_tags
to_common_tag_rule rule = record {
  id = rule.id;
  name = "";
  tags = user_tags rule.tag_list;
  expression = if rule.relationship == "RELEATION_OR" then relation_or else relation_and;
}

-- The loop of GetLaneID over the rules
unfoldable pub find_lane : (String → String → Bool) → Context → Lanes → List LaneRule → String
unfolding rule_hit to_common_tag_rule lookup
find_lane matches ctx lanes [] = ""
find_lane matches ctx lanes (rule ∷ rest) =
    let later = find_lane matches ctx lanes rest in
    elim (lookup rule.lane_id lanes) [
      | none ↦ later
      | some lane ↦ if rule_hit matches ctx (to_common_tag_rule rule) then lane.id else later
    ]

-- Lane.GetLaneID
unfoldable pub get_lane_id : (String → String → Bool) → Lane → Context → String
unfolding find_lane
get_lane_id matches l ctx = find_lane matches ctx l.all_lanes l.rules

abbrev pub ids_of : Option Ids → Ids
ids_of none = []
ids_of (some ids) = ids

-- Lane.selectColor
unfoldable pub select_color : List (String × Ids) → LaneInfo → List Instance → List Instance
unfolding lookup has_key get
select_color groups lane [] = []
select_color groups lane (node ∷ nodes) =
    let ids = ids_of (lookup (get group_id node.metadata) groups) in
    let rest = select_color groups lane nodes in
    if not (is_empty ids) && has_key lane.id ids then node ∷ rest else rest

-- The loop of selectNormal; only the instances without colour are returned.
unfoldable pub without_color : List (String × Ids) → List Instance → List Instance
unfolding lookup get
without_color groups [] = []
without_color groups (node ∷ nodes) =
    let gid = get group_id node.metadata in
    let rest = without_color groups nodes in
    if not (gid == "") && not (is_empty (ids_of (lookup gid groups))) then rest else node ∷ rest

-- Lane.selectNormal
unfoldable pub select_normal : Lane → Service → List Instance → List Instance
unfolding without_color lookup
select_normal l svc nodes =
    if is_empty (ids_of (lookup svc.namespace l.namespaces))
    then nodes
    else without_color l.groups nodes

-- Whether one of the lane's groups has the application and the namespace of the instance.
unfoldable pub has_group : Instance → List LaneGroup → Bool
unfolding get
has_group node [] = false
has_group node (group ∷ rest) =
    if group.application_id == get application_id node.metadata
      && group.namespace_id == get namespace_id node.metadata
    then true
    else has_group node rest

-- The loop of Select that finds `hit`
unfoldable pub serves : List Instance → LaneInfo → Bool
unfolding has_group
serves [] lane = false
serves (node ∷ rest) lane = if has_group node lane.group_list then true else serves rest lane

unfoldable pub choose : Lane → Service → List Instance → LaneInfo → Bool → List Instance
unfolding select_color select_normal
choose l svc nodes lane true = select_color l.groups lane nodes
choose l svc nodes lane false = select_normal l svc nodes

abbrev pub hits_of : Option (List (Service × Bool)) → List (Service × Bool)
hits_of none = []
hits_of (some hits) = hits

-- Select in a lane that is known, by what the cache has for the service.
unfoldable pub select_cached :
    Lane → Service → List Instance → String → LaneInfo → Option Bool → List Instance × Lane
unfolding choose serves insert lookup
select_cached l svc nodes id lane (some hit) = (choose l svc nodes lane hit, l)
select_cached l svc nodes id lane none =
    let hit = serves nodes lane in
    let hits = insert svc hit (hits_of (lookup id l.services)) in
    (choose l svc nodes lane hit, record l { services = insert id hits l.services })

unfoldable pub select_known :
    Lane → Service → List Instance → String → Option LaneInfo → List Instance × Lane
unfolding select_cached lookup
select_known l svc nodes id none = (nodes, l)
select_known l svc nodes id (some lane) =
    select_cached l svc nodes id lane (lookup svc (hits_of (lookup id l.services)))

-- The lane of the call, or the empty text.
unfoldable pub lane_of : Option Any → String
lane_of none = ""
lane_of (some (other n)) = ""
lane_of (some (text id)) = id

-- Lane.Select: the instances, and the lane with its cache afterwards.
unfoldable pub select : Lane → Context → Service → List Instance → List Instance × Lane
unfolding select_known select_normal lane_of sys lookup
select l ctx svc [] = ([], l)
select l ctx svc (node ∷ nodes) =
    let id = lane_of (sys ctx Meta.lane_id) in
    if id == ""
    then (select_normal l svc (node ∷ nodes), l)
    else select_known l svc (node ∷ nodes) id (lookup id l.all_lanes)
