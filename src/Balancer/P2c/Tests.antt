-- ===== src/Balancer/P2c/Tests.antt =====
-- Runs of the p2c balancer.
use tsf_go.Base.{
  ℕ, suc, ◌+◌, ◌*◌, ◌<◌, ◌≤◌, String, List, [], ◌∷◌, none, some, ◌≡◌, refl, ◌⊎◌, lookup, length,
  max, pos, whole, arith,
}
use tsf_go.Naming.{Instance}
use tsf_go.Balancer.P2c.{
  SubConn, Picker, Callback, new_picker, new_sub_conn, pick, choose, load, load_of,
}
use tsf_go.Balancer.P2c.Conns.{Valid, Bounded}
use tsf_go.Balancer.P2c.Picks.{Picked, pick-Picked}
use tsf_go.Balancer.P2c.Outstanding.{count}
use tsf_go.Balancer.P2c.Runs.{Reaches, here, steps, picks, inflight-Reaches, load_of-Reaches}
use tsf_go.Balancer.P2c.Choice.{choose_lem}

abbrev node : String → ℕ → Instance
node id port = record {
  service = record { namespace = "ns"; name = "app" };
  id = id;
  region = "";
  host = "h";
  port = port;
  metadata = [];
  status = 0;
  tags = [];
}

abbrev nodes : List Instance
nodes = node "a" 1 ∷ node "b" 2 ∷ []

-- Draws that always give 0.
abbrev intn : ℕ → ℕ → ℕ
intn i n = 0

intn-Bounded : Bounded intn
intn-Bounded i n positive = positive

empty-Valid : Valid new_picker
unfolding lookup
empty-Valid key c e = absurd (cc)

pick-Picked_example :
    ((nodes ≡ []) × (pick intn 5 nodes new_picker ≡ some none))
    ⊎ ((got : Instance × Callback × Picker) × (pick intn 5 nodes new_picker ≡ some (some got))
        × Picked nodes got)
pick-Picked_example = pick-Picked intn 5 nodes new_picker intn-Bounded empty-Valid

abbrev callback : Callback
callback = record { conn = 0; element = 0; start = 5 }

abbrev first_node : SubConn
first_node = record (new_sub_conn (node "a" 1)) {
  inflight = pos 2;
  inflights = record { element = 0; started = 5 } ∷ [];
  pick = 5;
  reqs = 1;
}

abbrev picked : Picker
picked = record {
  sub_conns = ("h:1", 0) ∷ ("h:2", 1) ∷ [];
  heap = first_node ∷ new_sub_conn (node "b" 2) ∷ [];
  log_ts = 0;
  elements = 1;
}

pick_test : pick intn 5 nodes new_picker ≡ some (some (node "a" 1, callback, picked))
unfolding pick
pick_test = refl

reached : Reaches whole (λ x. x) new_picker picked
reached =
    steps new_picker new_picker picked (here new_picker)
      (picks intn 5 nodes new_picker (node "a" 1, callback, picked) pick_test)

inflight-Reaches_example :
    (first_node.inflight ≡ pos (suc (length first_node.inflights)))
    × ((e : ℕ) → count e first_node.inflights ≤ 1)
inflight-Reaches_example = inflight-Reaches whole (λ x. x) picked 0 first_node reached refl

load_of-Reaches_example : load_of first_node ≡ max (first_node.lag + 1) first_node.predict * 2
load_of-Reaches_example =
    load_of-Reaches whole (λ x. x) picked 0 first_node reached refl (omega arith)

choose_lem_example :
    (q : Picker) × (((choose 5 0 1 picked ≡ some (0, 1, q))
        × ((load 5 first_node).0 * 1000 ≤ (load 5 (new_sub_conn (node "b" 2))).0 * 1000))
      ⊎ ((choose 5 0 1 picked ≡ some (1, 0, q))
          × ((load 5 (new_sub_conn (node "b" 2))).0 * 1000 < (load 5 first_node).0 * 1000)))
unfolding load
choose_lem_example =
    choose_lem 5 0 1 first_node (new_sub_conn (node "b" 2)) picked (λ e. omega arith) refl refl
      (omega arith) (omega arith)
