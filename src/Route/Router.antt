-- ===== src/Route/Router.antt =====
-- route/router: the rules of a service, each with weighted destinations, and the choice of the
-- instances that a call may go to. The random source and the order in which a map is ranged over
-- are parameters: both are given the number of the call of matchByRule.
-- Weights are natural numbers: negative ones, which make rand.Int63n panic, are left out.
pub mod Refresh
pub mod Watch
pub mod Pick
pub mod Candidates
pub mod Cover
pub mod Match
pub mod Select
pub mod Within
mod Tests
use tsf_go.Base.{
  ℕ, String, List, [], ◌∷◌, ◌++◌, Option, none, some, Bool, true, false, not, ◌==◌, text_comparable,
  if◌then◌else◌, ◌&&◌, ◌||◌, leb, nat_eqb, lookup, insert, split_slash, ◌+◌, ◌-◌, is_empty, suc,
}
use tsf_go.Meta
use tsf_go.Meta.{Context}
use tsf_go.Naming.{
  Service, Instance, get, own_namespace, new_service, ns_global, service_comparable,
}
use tsf_go.Tag
use tsf_go.Tag.{Tag, type_sys, type_user, relation_and, rule_hit}
use tsf_go.Auth.{split_tags, namespace_service}

pub record DestItem : Type 0 where
  pub dest_item_field : String
  pub dest_item_value : String

pub record Dest : Type 0 where
  pub dest_id : String
  pub dest_weight : ℕ
  pub dest_item_list : List DestItem

pub record TagRule : Type 0 where
  pub tag_type : String
  pub tag_field : String
  pub tag_operator : String
  pub tag_value : String

pub record Rule : Type 0 where
  pub route_rule_id : String
  pub tag_list : List TagRule
  pub dest_list : List Dest

pub record RuleGroup : Type 0 where
  pub rule_list : List Rule
  pub namespace_id : String
  pub microservice_name : String
  pub fallback_status : Bool

-- The switch over the fields of system tags.
unfoldable pub sys_field : String → String
sys_field field =
    if field == "source.application.id"
    then Meta.application_id
    else if field == "source.group.id"
    then Meta.group_id
    else if field == "source.connection.ip"
    then Meta.connection_ip
    else if field == "source.application.version"
    then Meta.application_version
    else if field == "source.service.name"
    then Meta.service_name
    else field

unfoldable pub common_tags : TagRule → List Tag
unfolding sys_field split_tags split_slash
common_tags t =
    if t.tag_type == "U"
    then record {
      type = type_user;
      field = t.tag_field;
      operator = t.tag_operator;
      value = t.tag_value;
    }
      ∷ []
    else if t.tag_field == namespace_service
    then split_tags t.tag_operator (split_slash t.tag_value)
    else record {
      type = type_sys;
      field = sys_field t.tag_field;
      operator = t.tag_operator;
      value = t.tag_value;
    }
      ∷ []

unfoldable pub all_common_tags : List TagRule → List Tag
unfolding common_tags
all_common_tags [] = []
all_common_tags (t ∷ rest) = common_tags t ++ all_common_tags rest

-- Rule.toCommonTagRule
unfoldable pub to_common_tag_rule : Rule → Tag.Rule
unfolding all_common_tags
to_common_tag_rule rule = record {
  id = "";
  name = "";
  tags = all_common_tags rule.tag_list;
  expression = relation_and;
}

-- The instances that match a destination, and its weight.
pub record Candidate : Type 0 where
  pub inss : List Instance
  pub weight : ℕ

abbrev pub Candidates : Type 0
Candidates = List (String × Candidate)

-- The loop over a destination's items, over `match`.
unfoldable pub match_items : Instance → List DestItem → Bool → Bool
unfolding get
match_items node [] matched = matched
match_items node (item ∷ rest) matched = match_items node rest (
    if not (get item.dest_item_field node.metadata == item.dest_item_value) then false else matched)

abbrev pub instances_of : Option Candidate → List Instance
instances_of none = []
instances_of (some c) = c.inss

abbrev pub added_weight : Option Candidate → ℕ → ℕ
added_weight none weight = weight
added_weight (some c) weight = 0

-- The body of `if match`, over `sum` and `candidates`.
unfoldable pub add_candidate : Instance → Dest → ℕ × Candidates → ℕ × Candidates
unfolding lookup insert
add_candidate node dest (sum, candidates) =
    let old = lookup dest.dest_id candidates in
    (
      sum + added_weight old dest.dest_weight,
      insert dest.dest_id
          (record { inss = instances_of old ++ (node ∷ []); weight = dest.dest_weight }) candidates,
    )

unfoldable pub visit_dests : Instance → List Dest → ℕ × Candidates → ℕ × Candidates
unfolding match_items add_candidate
visit_dests node [] found = found
visit_dests node (dest ∷ rest) found =
    visit_dests node rest
      (if match_items node dest.dest_item_list true then add_candidate node dest found else found)

unfoldable pub visit_nodes : List Instance → List Dest → ℕ × Candidates → ℕ × Candidates
unfolding visit_dests
visit_nodes [] dests found = found
visit_nodes (node ∷ rest) dests found = visit_nodes rest dests (visit_dests node dests found)

-- The loop that finds the candidate of a draw; `none` is the panic behind it. Where the source's
-- `sum` would go below 0 it returns at once, as this one does at 0.
unfoldable pub pick : ℕ → ℕ → Candidates → Option (List Instance)
pick sum cur [] = none
pick sum cur (entry ∷ rest) =
    let later = pick (sum - entry.1.weight) cur rest in
    if leb (sum - entry.1.weight) cur then some entry.1.inss else later

-- What stands behind the loop over the rules.
unfoldable pub settle : RuleGroup → List Instance → Bool × List Instance → List Instance
settle group nodes (hit, selects) =
    if not hit then nodes else if is_empty selects && group.fallback_status then nodes else selects

module _ (random : ℕ → ℕ → ℕ) (arrange : ℕ → Candidates → Candidates) where
  unfoldable pub pick_one : ℕ → ℕ → Candidates → Option (List Instance)
  unfolding pick
  pick_one k sum candidates =
      if nat_eqb sum 0 then some [] else pick sum (random k sum) (arrange k candidates)

  -- Router.matchByRule, its k-th call
  unfoldable pub match_by_rule : ℕ → Rule → List Instance → Option (List Instance)
  unfolding pick_one visit_nodes
  match_by_rule k rule nodes =
      let found = visit_nodes nodes rule.dest_list (0, []) in pick_one k found.0 found.1

  module _ (matches : String → String → Bool) where
    -- The loop over the rules, over `hit` and `selects`.
    unfoldable pub select_loop :
        Context
        → List Instance
        → ℕ
        → List Rule
        → Bool
        → List Instance
        → Option (Bool × List Instance)
    unfolding to_common_tag_rule rule_hit match_by_rule
    select_loop ctx nodes k [] hit selects = some (hit, selects)
    select_loop ctx nodes k (rule ∷ rest) hit selects =
        elim (rule_hit matches ctx (to_common_tag_rule rule)) [
          | false ↦ select_loop ctx nodes k rest hit selects
          | true ↦ elim (match_by_rule k rule nodes) [
            | none ↦ none
            | some [] ↦ select_loop ctx nodes (suc k) rest true []
            | some (ins ∷ others) ↦ some (true, ins ∷ others)
          ]
        ]

    unfoldable pub select_in : Context → List Instance → Option RuleGroup → Option (List Instance)
    unfolding select_loop settle
    select_in ctx nodes none = some nodes
    select_in ctx nodes (some group) =
        if is_empty group.rule_list
        then some nodes
        else elim (select_loop ctx nodes 0 group.rule_list false []) [
          | none ↦ none
          | some found ↦ some (settle group nodes found)
        ]

    -- Router.Select, over the environment's namespace and what `services` holds: nothing before the
    -- first refresh.
    unfoldable pub select :
        Context
        → String
        → Option (List (Service × RuleGroup))
        → Service
        → List Instance
        → Option (List Instance)
    unfolding select_in own_namespace lookup
    select ctx own services svc [] = some []
    select ctx own none svc (node ∷ nodes) = some (node ∷ nodes)
    select ctx own (some services) svc (node ∷ nodes) =
        let key : Service = record {
          namespace = own_namespace own svc.namespace;
          name = svc.name;
        } in
        select_in ctx (node ∷ nodes) (lookup key services)

abbrev pub Services : Type 0
Services = List (Service × RuleGroup)
