-- ===== src/Route/Lane/Tests.antt =====
-- A lane with one entrance and one coloured group.
use tsf_go.Base.{
  ℕ, String, [], ◌∷◌, none, some, true, false, ◌≡◌, refl, ◌↔◌, text_comparable, lookup, pos, Memᴰ,
  values,
}
use tsf_go.Meta
use tsf_go.Meta.{Context, text, sys}
use tsf_go.Naming.{Service, Instance, service_comparable}
use tsf_go.Route.Lane.{Lane, LaneInfo, LaneGroup, LaneRule, select, choose, serves, lane_of}
use tsf_go.Route.Lane.Refresh.{refresh_lanes, refresh_rules}
use tsf_go.Route.Lane.Index.{Refreshed, refresh_lanes-Refreshed}
use tsf_go.Route.Lane.Select.{choice, select-refresh_lanes, select_again}
use tsf_go.Route.Lane.Rules.{has_lane, InOrder, refresh_rules-InOrder}

abbrev entrance : LaneGroup
entrance = record { application_id = "gate"; entrance = true; group_id = "g0"; namespace_id = "n" }

abbrev blue_group : LaneGroup
blue_group = record {
  application_id = "shop";
  entrance = false;
  group_id = "g1";
  namespace_id = "n";
}

abbrev blue : LaneInfo
blue = record {
  id = "blue";
  name = "blue";
  group_list = entrance ∷ blue_group ∷ [];
  create_time = 0;
}

abbrev rule_at : ℕ → LaneRule
rule_at priority = record {
  id = "r";
  name = "r";
  enable = true;
  lane_id = "blue";
  priority = pos priority;
  tag_list = [];
  relationship = "RELEATION_AND";
  create_time = 0;
}

abbrev start : Lane
start = record {
  all_rules = rule_at 2 ∷ rule_at 1 ∷ [];
  all_lanes = ("blue", blue) ∷ [];
  namespaces = [];
  groups = [];
  rules = [];
  lanes = ("blue", blue) ∷ [];
  services = [];
}

abbrev shop : Service
shop = record { namespace = "n"; name = "shop" }

abbrev of_group : String → Instance
of_group group = record {
  service = shop;
  id = group;
  region = "";
  host = "h";
  port = 80;
  metadata =
      ("TSF_GROUP_ID", group) ∷ ("TSF_APPLICATION_ID", "shop") ∷ ("TSF_NAMESPACE_ID", "n") ∷ [];
  status = 0;
  tags = [];
}

abbrev in_blue : Context
in_blue = record { sys_meta = some (("lane.id", text "blue") ∷ []); user_meta = none }

coloured_only :
    (select (refresh_lanes "g0" start) in_blue shop (of_group "g1" ∷ of_group "g2" ∷ [])).0
    ≡ of_group "g1" ∷ []
unfolding select refresh_lanes
coloured_only = refl

refresh_lanes-Refreshed_example : Refreshed (refresh_lanes "g0" start)
refresh_lanes-Refreshed_example = refresh_lanes-Refreshed "g0" start

select-refresh_lanes_example :
    (select (refresh_lanes "g0" start) in_blue shop (of_group "g1" ∷ of_group "g2" ∷ [])).0
    ≡ choice start.all_lanes
        (lane_of (sys in_blue Meta.lane_id))
        shop.namespace
        (of_group "g1" ∷ of_group "g2" ∷ [])
select-refresh_lanes_example =
    select-refresh_lanes "g0" start in_blue shop (of_group "g1" ∷ of_group "g2" ∷ [])

select_again_example :
    (select (select start in_blue shop (of_group "g1" ∷ [])).1 in_blue shop (of_group "g2" ∷ [])).0
    ≡ choose start shop (of_group "g2" ∷ []) blue (serves (of_group "g1" ∷ []) blue)
unfolding lookup lane_of sys
select_again_example =
    select_again start in_blue shop blue (of_group "g1") (of_group "g2") [] [] refl refl refl

refresh_rules-InOrder_example :
    InOrder (refresh_rules start).rules
    × ((r : LaneRule)
        → Memᴰ r (refresh_rules start).rules
          ↔ (Memᴰ r start.all_rules × (has_lane r.lane_id (values start.lanes) ≡ true)))
refresh_rules-InOrder_example = refresh_rules-InOrder start
