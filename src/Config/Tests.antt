-- ===== src/Config/Tests.antt =====
-- Runs of the configuration source.
use tsf_go.Base.{
  ℕ, String, List, [], ◌∷◌, Option, none, some, Bool, true, false, ◌≡◌, refl, pos, negsuc, lookup,
  modify, get_elem?, text_comparable, int_comparable, if◌then◌else◌, parse_int,
}
use tsf_go.Http.{Response, Reply, do_request}
use tsf_go.Hub.{begin_close, end_close, leave, held, notified, watching, closing, depart}
use tsf_go.Config.Fetch.{Conf, Item, Spec, fetch, fetch_url}
use tsf_go.Config.Source.{
  Consul, ConfigTopic, new_consul, subscribe, round, watch, first, next, get_specs,
}
use tsf_go.Config.Reached.{
  Reaches, here, steps, subscribes, rounds, cancels, leaves, Reaches-Sound, Sound,
}
use tsf_go.Config.Clients.{watch-subscribe}
use tsf_go.Config.Fetches.{fetch-do_request, found, taken}

abbrev conf : Conf
conf = record { address = "host:8500"; token = "t"; app_id = ""; namespace_id = "ns" }

url_test :
    fetch_url conf "config/app/" (pos 7)
    ≡ "http://host:8500/v1/kv/config/app/?token=t&wait=55s&nsType=DEF_AND_GLOBAL&index=7&recurse&nid=ns"
unfolding fetch_url
url_test = refl

index_test : parse_int "-9223372036854775809" ≡ (negsuc 9223372036854775807, true)
unfolding parse_int
index_test = refl

-- A decoder that knows no text but "good".
abbrev decode : String → Option String
decode s = if text_comparable.same s "good" then some "body" else none

abbrev json : String → Option (List Item) × Bool
json s =
    (some (record { key = "k"; value = "good" } ∷ record { key = "l"; value = "bad" } ∷ []), false)

abbrev response : ℕ → Response
response status = record {
  status = status;
  header = ("X-Consul-Index", "12") ∷ [];
  body = some "...";
}

abbrev reply : Reply (List Item)
unfolding do_request
reply = do_request json true true (some (response 200))

abbrev spec : Spec
spec = record { key = "k"; raw = "body" }

fetch-do_request_example :
    fetch decode (do_request json true true (some (response 200)))
    ≡ taken decode (response 200) (found json (response 200))
fetch-do_request_example = fetch-do_request decode json (response 200)

fetch_test : fetch decode reply ≡ record { res = spec ∷ []; index = pos 12; err = false }
unfolding fetch reply
fetch_test = refl

-- One watcher subscribes, its topic's goroutine runs a round, and a second one joins.
abbrev one : Consul
unfolding subscribe
one = (subscribe "app" new_consul).1

abbrev one_topic : ConfigTopic
one_topic = record {
  path = "app";
  spec = none;
  cancelled = false;
  watcher = (0, tt) ∷ [];
  loop = first;
}

abbrev fetched : Consul
unfolding round fetch
fetched = round 0 (fetch decode reply) first one

abbrev two : Consul
unfolding subscribe
two = (subscribe "app" fetched).1

abbrev two_topic : ConfigTopic
two_topic = record {
  path = "app";
  spec = some (spec ∷ []);
  cancelled = false;
  watcher = (0, tt) ∷ (1, tt) ∷ [];
  loop = next (spec ∷ []) (pos 12);
}

reached : Reaches new_consul two
unfolding subscribe round lookup fetch
reached =
    steps new_consul fetched two
      (steps new_consul one fetched
        (steps new_consul new_consul one (here new_consul) (subscribes "app" new_consul))
        (rounds decode reply 0 one_topic one refl))
      (subscribes "app" fetched)

-- The first watcher's Close cancels it, a third one joins, and then the Close gets the lock.
abbrev cancelled_first : Consul
cancelled_first = record two {
  watchers =
      record { topic = 0; event = true; phase = closing }
      ∷ record { topic = 0; event = false; phase = watching }
      ∷ [];
}

abbrev joined : Consul
unfolding subscribe
joined = (subscribe "app" cancelled_first).1

abbrev left_at : ConfigTopic
left_at = record two_topic { watcher = (0, tt) ∷ (1, tt) ∷ (2, tt) ∷ [] }

abbrev parted : Consul
unfolding leave
parted = leave 0 0 left_at (record joined { watchers = modify joined.watchers 0 depart })

reached_parted : Reaches new_consul parted
unfolding begin_close end_close two fetched reply one joined parted
reached_parted =
    steps new_consul joined parted
      (steps new_consul cancelled_first joined
        (steps new_consul two cancelled_first reached (cancels 0 two cancelled_first refl))
        (subscribes "app" cancelled_first))
      (leaves 0 joined parted refl)

Reaches-Sound_example : Sound parted
Reaches-Sound_example = Reaches-Sound parted reached_parted

watch-subscribe_example :
    (watch notified (subscribe "app" fetched).0 (subscribe "app" fetched).1 ≡ none)
    × (held (get_elem? (subscribe "app" fetched).1.topics 0) ≡ some (spec ∷ []))
unfolding lookup fetched reply one
watch-subscribe_example =
    watch-subscribe "app" 0
      (record {
        path = "app";
        spec = some (spec ∷ []);
        cancelled = false;
        watcher = (0, tt) ∷ [];
        loop = next (spec ∷ []) (pos 12);
      })
      (spec ∷ []) fetched refl refl refl

-- Two Closes of one watcher that both passed the test: the second one to get the lock takes a topic out
-- of the map that others have subscribed to in between, and does not cancel it.
abbrev closed_once : Consul
unfolding leave
closed_once = leave 0 0 one_topic one

abbrev again_open : Consul
unfolding subscribe
again_open = (subscribe "app" closed_once).1

abbrev closed_twice : Consul
unfolding leave
closed_twice = leave 0 0 (record one_topic { watcher = []; cancelled = true }) again_open

raced_test :
    (lookup "app" again_open.topic ≡ some 1)
    × (lookup "app" closed_twice.topic ≡ none)
    × (get_elem? closed_twice.topics 1 ≡ some (record one_topic { watcher = (1, tt) ∷ [] }))
unfolding lookup closed_twice again_open closed_once one
raced_test = (refl, refl, refl)

-- Get returns nothing of the specs that the topic has.
get_test : (get_specs "app" fetched ≡ []) × (held (get_elem? fetched.topics 0) ≡ some (spec ∷ []))
unfolding get_specs lookup fetched reply one
get_test = (refl, refl)
