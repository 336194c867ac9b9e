-- ===== src/Route/Lane/Refresh.antt =====
-- route/lane: the indexes that refreshLanes builds, the rules that refreshRules keeps, and the rounds
-- of the two watchers.
use tsf_go.Base.{
  String, List, [], ◌∷◌, ◌++◌, Option, none, some, Bool, true, false, not, ◌==◌, text_comparable,
  if◌then◌else◌, ◌&&◌, ltb, nat_eqb, lookup, insert, values, ◌+◌, is_empty, ltb_ℤ, pos_part,
  neg_part, sort,
}
use tsf_go.Route.Lane.{Lane, LaneRule, LaneInfo, LaneGroup, Ids, Lanes, ids_of}

-- `sets := m[key]; …; sets[id] = struct{}{}; m[key] = sets`
unfoldable pub add_id : String → String → List (String × Ids) → List (String × Ids)
unfolding insert lookup
add_id key id m = insert key (insert id tt (ids_of (lookup key m))) m

-- The three maps that refreshLanes builds.
pub record Indexes : Type 0 where
  pub effective : Lanes
  pub by_namespace : List (String × Ids)
  pub by_group : List (String × Ids)

unfoldable pub index_group : String → LaneInfo → LaneGroup → Indexes → Indexes
unfolding add_id insert
index_group own lane group found = record {
  effective =
      if group.group_id == own && group.entrance
      then insert lane.id lane found.effective
      else found.effective;
  by_namespace =
      if not group.entrance
      then add_id group.namespace_id lane.id found.by_namespace
      else found.by_namespace;
  by_group = add_id group.group_id lane.id found.by_group;
}

unfoldable pub index_groups : String → LaneInfo → List LaneGroup → Indexes → Indexes
unfolding index_group
index_groups own lane [] found = found
index_groups own lane (group ∷ rest) found =
    index_groups own lane rest (index_group own lane group found)

unfoldable pub index_lanes : String → List LaneInfo → Indexes → Indexes
unfolding index_groups
index_lanes own [] found = found
index_lanes own (lane ∷ rest) found =
    index_lanes own rest (index_groups own lane lane.group_list found)

-- Lane.refreshLanes; `own` is env.GroupID().
unfoldable pub refresh_lanes : String → Lane → Lane
unfolding index_lanes
refresh_lanes own l =
    let found =
      index_lanes own (values l.all_lanes)
        (record { effective = []; by_namespace = []; by_group = [] }) in
    record l {
      lanes = found.effective;
      namespaces = found.by_namespace;
      groups = found.by_group;
      services = [];
    }

-- The comparison of sort.Slice
unfoldable pub less : LaneRule → LaneRule → Bool
less a b =
    if nat_eqb (pos_part a.priority + neg_part b.priority)
      (pos_part b.priority + neg_part a.priority)
    then ltb a.create_time b.create_time
    else ltb_ℤ a.priority b.priority

-- sort.Slice leaves rules that compare equal in any order, this one in the order of the loops.
abbrev pub not_after : LaneRule → LaneRule → Bool
not_after a b = not (less b a)

unfoldable pub rules_of : LaneInfo → List LaneRule → List LaneRule
rules_of lane [] = []
rules_of lane (rule ∷ rest) =
    let later = rules_of lane rest in if rule.lane_id == lane.id then rule ∷ later else later

unfoldable pub effective_rules : List LaneInfo → List LaneRule → List LaneRule
unfolding rules_of
effective_rules [] rules = []
effective_rules (lane ∷ rest) rules = rules_of lane rules ++ effective_rules rest rules

-- Lane.refreshRules
unfoldable pub refresh_rules : Lane → Lane
unfolding effective_rules less sort
refresh_rules l = record l { rules = sort not_after (effective_rules (values l.lanes) l.all_rules) }

-- What a Watch returns: the specs, each as what unmarshalling makes of it, an error that ends the
-- loop, or another error.
pub data Watched : Type 0 where
  rule_specs : List (Option LaneRule) → Watched
  lane_specs : List (Option LaneInfo) → Watched
  closed : Watched
  failed : Watched

-- The loops over the specs; the flag is whether the last one failed.
unfoldable pub read_rules : List (Option LaneRule) → List LaneRule → Bool → List LaneRule × Bool
read_rules [] rules err = (rules, err)
read_rules (none ∷ rest) rules err = read_rules rest rules true
read_rules (some rule ∷ rest) rules err = read_rules rest (rules ++ (rule ∷ [])) false

unfoldable pub read_lanes : List (Option LaneInfo) → Lanes → Bool → Lanes × Bool
unfolding insert
read_lanes [] lanes err = (lanes, err)
read_lanes (none ∷ rest) lanes err = read_lanes rest lanes true
read_lanes (some lane ∷ rest) lanes err = read_lanes rest (insert lane.id lane lanes) false

-- One round of refreshAllRule or of refreshAllLane
unfoldable pub refresh : String → Watched → Lane → Lane
unfolding read_rules read_lanes refresh_lanes refresh_rules
refresh own closed l = l
refresh own failed l = l
refresh own (rule_specs specs) l =
    let read = read_rules specs [] false in
    if is_empty read.0 && read.1 then l else refresh_rules (record l { all_rules = read.0 })
refresh own (lane_specs specs) l =
    let read = read_lanes specs [] false in
    if is_empty read.0 && read.1
    then l
    else refresh_rules (refresh_lanes own (record l { all_lanes = read.0 }))
