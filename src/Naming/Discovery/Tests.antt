-- ===== src/Naming/Discovery/Tests.antt =====
-- Runs of the discovery.
use tsf_go.Base.{
  ℕ, String, List, [], ◌∷◌, none, some, true, false, ◌≡◌, refl, pos, lookup, get_elem?, modify,
  text_comparable, int_comparable, Memᴰ, length, ◌↔◌,
}
use tsf_go.Http.{Reply}
use tsf_go.Hub.{held, new_hub, closing, leave, depart}
use tsf_go.Naming.{service_comparable, same_service}
use tsf_go.Naming.Discovery.{
  Discovery, SvcInfo, Node, first, next, begin_stop, end_stop, round, instances, watch, named,
  compare_nodes, health_service, health_url, get_service, not_found,
}
use tsf_go.Naming.Discovery.Compare.{compare_nodes_iff, Within}
use tsf_go.Naming.Discovery.Reached.{
  Reaches, here, steps, watches, rounds, cancels, leaves, Reaches-Settled, Settled,
}
use tsf_go.Naming.Discovery.Clients.{round-compare_nodes}

url_test :
    health_url
      (record { token = "t"; app_id = ""; namespace_id = "ns" })
      "ns"
      "host:8500"
      (record { namespace = "global"; name = "app" })
      (pos 3)
    ≡ "http://host:8500/v1/health/service/app?token=t&passing&wait=55s&index=3&nsType=GLOBAL"
unfolding health_url
url_test = refl

abbrev node : String → ℕ → Node
node id port = record { id = id; service = "app"; address = "10.0.0.1"; meta = []; port = port }

-- A node twice is equal to it and another one.
twice_test : compare_nodes (node "a" 1 ∷ node "b" 2 ∷ []) (node "a" 1 ∷ node "a" 1 ∷ []) ≡ true
unfolding compare_nodes
twice_test = refl

compare_nodes_iff_example : (compare_nodes (node "a" 1 ∷ []) (node "b" 1 ∷ []) ≡ true) ↔ (
    (length (node "a" 1 ∷ []) ≡ length (node "b" 1 ∷ []))
    × ((n : Node) → Memᴰ n (node "b" 1 ∷ []) → Within n (node "a" 1 ∷ [])))
compare_nodes_iff_example = compare_nodes_iff (node "a" 1 ∷ []) (node "b" 1 ∷ [])

abbrev show_tags : List String → String
show_tags tags = "null"

abbrev reply : List Node → Reply (List Node)
reply nodes = record {
  header = some (("X-Consul-Index", "12") ∷ []);
  content = some nodes;
  err = none;
}

abbrev watched : Discovery
unfolding watch
watched = (watch "app" new_hub).1

abbrev started : SvcInfo
started = record {
  path = named "app";
  spec = none;
  cancelled = false;
  watcher = (0, tt) ∷ [];
  loop = first;
}

abbrev found : Discovery
unfolding round health_service
found = round "ns" show_tags 0 (health_service (reply (node "a" 1 ∷ []))) first watched

reached : Reaches "ns" show_tags new_hub found
unfolding watch round health_service
reached =
    steps new_hub watched found
      (steps new_hub new_hub watched (here new_hub) (watches "app" new_hub))
      (rounds (reply (node "a" 1 ∷ [])) 0 started watched refl)

-- Stop cancels the watcher, another one joins, and then the Stop gets the lock.
abbrev stopping : Discovery
stopping = record found { watchers = record { topic = 0; event = true; phase = closing } ∷ [] }

abbrev rejoined : Discovery
unfolding watch
rejoined = (watch "app" stopping).1

abbrev joined_svc : SvcInfo
joined_svc = record started {
  spec = some (instances "ns" show_tags (node "a" 1 ∷ []));
  watcher = (0, tt) ∷ (1, tt) ∷ [];
  loop = next (node "a" 1 ∷ []) (pos 12) 0;
}

abbrev parted : Discovery
unfolding leave
parted = leave 0 0 joined_svc (record rejoined { watchers = modify rejoined.watchers 0 depart })

reached_parted : Reaches "ns" show_tags new_hub parted
unfolding begin_stop end_stop found watched rejoined parted same_service
reached_parted =
    steps new_hub rejoined parted
      (steps new_hub stopping rejoined
        (steps new_hub found stopping reached (cancels 0 found stopping refl))
        (watches "app" stopping))
      (leaves 0 rejoined parted refl)

Reaches-Settled_example : Settled "ns" show_tags parted
Reaches-Settled_example = Reaches-Settled "ns" show_tags parted reached_parted

abbrev found_svc : SvcInfo
found_svc = record {
  path = named "app";
  spec = some (instances "ns" show_tags (node "a" 1 ∷ []));
  cancelled = false;
  watcher = (0, tt) ∷ [];
  loop = next (node "a" 1 ∷ []) (pos 12) 0;
}

round-compare_nodes_example :
    (nodes : List Node) × (compare_nodes nodes (node "a" 1 ∷ node "b" 2 ∷ []) ≡ true)
    × (held (
          get_elem?
            (round "ns" show_tags 0
              (health_service (reply (node "a" 1 ∷ node "b" 2 ∷ [])))
              found_svc.loop
              found).topics
            0)
        ≡ some (instances "ns" show_tags nodes))
unfolding found watched health_service
round-compare_nodes_example =
    round-compare_nodes "ns" show_tags 0 (health_service (reply (node "a" 1 ∷ node "b" 2 ∷ [])))
      (node "a" 1 ∷ []) (pos 12) 0 found_svc found refl
      ((Reaches-Settled "ns" show_tags found reached).looping 0 found_svc refl) refl
      (λ e. absurd (cc)) refl refl

-- GetService of a service that it has only just started says that there is none.
get_service_test : (get_service "app" watched).0 ≡ not_found
unfolding get_service watched lookup same_service
get_service_test = refl
