-- ===== src/Balancer/P2c.antt =====
-- balancer/p2c/p2c.go: of two nodes that are drawn, the one with less load. The statistics of the nodes
-- stand on a heap, since the callbacks of Pick keep pointers to them. Clocks and draws are arguments;
-- times are nanoseconds from a start that lies before every reading. `lags`, which nothing reads, is
-- left out. A panic is `none`.
pub mod Choice
pub mod Conns
pub mod Picks
pub mod Outstanding
pub mod Keeping
pub mod Runs
mod Tests
use tsf_go.Base.{
  ℕ, suc, zero, ◌+◌, ◌-◌, ◌*◌, ◌/◌, ◌%◌, ◌^◌, String, List, [], ◌∷◌, ◌++◌, Option, none, some, Bool,
  true, false, not, if◌then◌else◌, ◌||◌, lookup, insert, text_comparable, ◌==◌, length, get_elem?,
  modify, ltb, leb, nat_eqb, ◌>>=◌, ℤ, pos, negsuc, Float, filterb, int_comparable,
}
use tsf_go.Naming.{Instance}
use tsf_go.Balancer.Hash.{addr}

-- tau, penalty and forceGap, in nanoseconds.
abbrev pub tau : ℕ
tau = 600000000

abbrev pub penalty : ℕ
penalty = 20000000000

abbrev pub force_gap : ℕ
force_gap = 3000000000

-- A call that has not come back: the element of the list, and when it started.
pub record Inflight : Type 0 where
  pub element : ℕ
  pub started : ℕ

pub record SubConn : Type 0 where
  pub node : Instance
  pub lag : ℕ
  pub success : ℕ
  pub inflight : ℤ
  pub inflights : List Inflight
  pub stamp : ℕ
  pub pick : ℕ
  pub reqs : ℕ
  pub predict_ts : ℕ
  pub predict : ℕ

-- newSubConn
abbrev pub new_sub_conn : Instance → SubConn
new_sub_conn node = record {
  node = node;
  lag = 0;
  success = 1000;
  inflight = pos 1;
  inflights = [];
  stamp = 0;
  pick = 0;
  reqs = 0;
  predict_ts = 0;
  predict = 0;
}

-- subConn.valid
abbrev pub valid : SubConn → Bool
valid sc = leb 500 sc.success

abbrev pub add_one : ℤ → ℤ
add_one (pos n) = pos (suc n)
add_one (negsuc zero) = pos 0
add_one (negsuc (suc n)) = negsuc n

abbrev pub sub_one : ℤ → ℤ
sub_one (pos zero) = negsuc 0
sub_one (pos (suc n)) = pos n
sub_one (negsuc n) = negsuc (suc n)

-- uint64 of an int64
abbrev pub to_word : ℤ → ℕ
to_word (pos n) = n % 2 ^ 64
to_word (negsuc n) = 2 ^ 64 - 1 - n % 2 ^ 64

-- A product of two words.
abbrev pub times_word : ℕ → ℕ → ℕ
times_word a b = a * b % 2 ^ 64

-- The loop over the calls: how many have taken longer than the lag, and how long in all.
unfoldable pub slow_calls : ℕ → ℕ → List Inflight → ℕ × ℕ
slow_calls now avg_lag [] = (0, 0)
slow_calls now avg_lag (first ∷ rest) =
    let later = slow_calls now avg_lag rest in
    if ltb avg_lag (now - first.started)
    then (suc later.0, now - first.started + later.1)
    else later

unfoldable pub predicted : ℕ → ℕ → List Inflight → ℕ
unfolding slow_calls
predicted now avg_lag calls =
    let slow = slow_calls now avg_lag calls in
    if ltb (length calls / 2) slow.0 then slow.1 / slow.0 else 0

-- The prediction is made again when it is older than 10 milliseconds.
unfoldable pub refresh_predict : ℕ → SubConn → SubConn
unfolding predicted
refresh_predict now sc =
    if ltb 10000000 (now - sc.predict_ts)
    then record sc { predict_ts = now; predict = predicted now (sc.lag + 1) sc.inflights }
    else sc

-- The load of the statistics with their prediction.
unfoldable pub load_of : SubConn → ℕ
load_of sc =
    let avg_lag = if ltb (sc.lag + 1) sc.predict then sc.predict else sc.lag + 1 in
    let load = times_word (avg_lag % 2 ^ 64) (to_word sc.inflight) in
    if nat_eqb load 0 then times_word penalty (to_word sc.inflight) else load

-- subConn.load
unfoldable pub load : ℕ → SubConn → ℕ × SubConn
unfolding refresh_predict load_of
load now sc = let fresh = refresh_predict now sc in (load_of fresh, fresh)

-- P2cPicker, with the heap of all statistics, and the number of the next element of a list.
pub record Picker : Type 0 where
  pub sub_conns : List (String × ℕ)
  pub heap : List SubConn
  pub log_ts : ℕ
  pub elements : ℕ

-- New
abbrev pub new_picker : Picker
new_picker = record { sub_conns = []; heap = []; log_ts = 0; elements = 0 }

-- The statistics of a node, made if the map had none.
unfoldable pub conn_of : Instance → Option ℕ → Picker → ℕ × Picker
unfolding insert addr
conn_of node (some c) p = (c, p)
conn_of node none p = (
  length p.heap,
  record p {
    sub_conns = insert (addr node) (length p.heap) p.sub_conns;
    heap = p.heap ++ (new_sub_conn node ∷ []);
  },
)

-- Both nodes are looked up before one is made.
unfoldable pub conns_of : Instance → Instance → Picker → ℕ × ℕ × Picker
unfolding conn_of lookup
conns_of a b p =
    let in_a = lookup (addr a) p.sub_conns in
    let in_b = lookup (addr b) p.sub_conns in
    let got_a = conn_of a in_a p in
    let got_b = conn_of b in_b got_a.1 in (got_a.0, got_b.0, got_b.1)

-- The second index leaves out the first.
abbrev pub other_index : ℕ → ℕ → ℕ
other_index a b = if leb a b then b + 1 else b

-- A round of prePick; `intn i n` is the i-th draw, below n.
unfoldable pub draw_two : (ℕ → ℕ → ℕ) → ℕ → List Instance → Picker → Option (ℕ × ℕ × Picker)
unfolding conns_of
draw_two intn i nodes p =
    let a = intn i (length nodes) in
    let b = other_index a (intn (i + 1) (length nodes - 1)) in
    get_elem? nodes a >>= λ node_a. get_elem? nodes b >>= λ node_b. some (conns_of node_a node_b p)

unfoldable pub is_valid : ℕ → Picker → Bool
is_valid c p = elim (get_elem? p.heap c) [ none ↦ false | some sc ↦ valid sc ]

-- prePick: a second round if both are invalid.
unfoldable pub pre_pick : (ℕ → ℕ → ℕ) → List Instance → Picker → Option (ℕ × ℕ × Picker)
unfolding draw_two is_valid
pre_pick intn nodes p = draw_two intn 0 nodes p >>= λ got.
    if is_valid got.0 got.2 || is_valid got.1 got.2 then some got else draw_two intn 2 nodes got.2

abbrev pub put : ℕ → SubConn → Picker → Picker
put c sc p = record p { heap = modify p.heap c (λ _. sc) }

-- The load of the one node, then that of the other, and the chosen one before the other.
unfoldable pub choose : ℕ → ℕ → ℕ → Picker → Option (ℕ × ℕ × Picker)
unfolding load
choose start a b p = get_elem? p.heap a >>= λ conn_a.
    let load_a = load start conn_a in
    let p₁ = put a load_a.1 p in
    get_elem? p₁.heap b >>= λ conn_b.
    let load_b = load start conn_b in
    let p₂ = put b load_b.1 p₁ in
    if ltb (times_word load_b.0 conn_a.success) (times_word load_a.0 conn_b.success)
    then some (b, a, p₂)
    else some (a, b, p₂)

abbrev pub set_pick : ℕ → SubConn → SubConn
set_pick start sc = record sc { pick = start }

-- The other node is taken if it was not picked for a while: whether it is, and the picker.
unfoldable pub force : ℕ → ℕ → Picker → Option (Bool × Picker)
force start upc p = get_elem? p.heap upc >>= λ sc.
    if ltb force_gap (start - sc.pick)
    then some (true, record p { heap = modify p.heap upc (set_pick start) })
    else some (false, p)

-- What the callback keeps.
pub record Callback : Type 0 where
  pub conn : ℕ
  pub element : ℕ
  pub start : ℕ

abbrev pub begin_call : ℕ → ℕ → SubConn → SubConn
begin_call e start sc = record sc {
  inflight = add_one sc.inflight;
  reqs = sc.reqs + 1;
  inflights = sc.inflights ++ (record { element = e; started = start } ∷ []);
}

-- `pc != upc` sets the time of the pick.
unfoldable pub mark_pick : ℕ → ℕ → Bool → Picker → Picker
mark_pick start pc true p = p
mark_pick start pc false p = record p { heap = modify p.heap pc (set_pick start) }

-- The end of Pick, of the picked statistics, and whether they are the other node's.
unfoldable pub begin : ℕ → ℕ → Bool → Picker → Option (Instance × Callback × Picker)
unfolding mark_pick
begin start pc switched p =
    let picked = mark_pick start pc switched p in
    get_elem? picked.heap pc >>= λ sc. some (
      sc.node,
      record { conn = pc; element = p.elements; start = start },
      record picked {
        heap = modify picked.heap pc (begin_call p.elements start);
        elements = p.elements + 1;
      },
    )

-- What is picked of at least two nodes; `pc` is the other node when it is forced.
unfoldable pub pick_of_two :
    (ℕ → ℕ → ℕ) → ℕ → List Instance → Picker → Option (Instance × Callback × Picker)
unfolding pre_pick choose force begin
pick_of_two intn start nodes p = pre_pick intn nodes p >>= λ got.
    choose start got.0 got.1 got.2 >>= λ chosen. force start chosen.1 chosen.2 >>= λ forced.
    if forced.0
    then begin start chosen.1 true forced.1
    else begin start chosen.0 (chosen.0 == chosen.1) forced.1

-- P2cPicker.Pick: `some none` is the nil instance.
unfoldable pub pick :
    (ℕ → ℕ → ℕ) → ℕ → List Instance → Picker → Option (Option (Instance × Callback × Picker))
unfolding pick_of_two conn_of begin lookup
pick intn start [] p = some none
pick intn start (node ∷ []) p =
    let got = conn_of node (lookup (addr node) p.sub_conns) p in
    begin start got.0 false got.1 >>= λ picked. some (some picked)
pick intn start (a ∷ b ∷ rest) p =
    pick_of_two intn start (a ∷ b ∷ rest) p >>= λ picked. some (some picked)

-- An error of a call, as the callback looks at it.
pub record CallError : Type 0 where
  pub deadline_exceeded : Bool
  pub canceled : Bool
  pub code : ℕ

-- Whether the call counts as failed.
unfoldable pub call_failed : Option (CallError → Bool) → Option CallError → Bool
call_failed handler none = false
call_failed (some handler) (some err) = handler err
call_failed none (some err) = err.deadline_exceeded || err.canceled || leb 500 err.code

abbrev pub without : ℕ → List Inflight → List Inflight
without e calls = filterb (λ call. not (call.element == e)) calls

module _ (fl : Float) (exp : fl.F → fl.F) where
  open fl use {F, plus, minus, times, over, of_int, to_int}

  -- The weight of what was there before.
  abbrev pub weight : ℕ → ℕ → F
  weight td old_lag =
      if nat_eqb old_lag 0 then of_int 0 else exp (over (minus (of_int 0) (of_int td)) (of_int tau))

  abbrev pub averaged : F → ℕ → ℕ → ℕ
  averaged w old new =
      to_int (plus (times (of_int old) w) (times (of_int new) (minus (of_int 1) w)))

  -- The statistics after a call.
  unfoldable pub end_call : ℕ → ℕ → ℕ → Bool → SubConn → SubConn
  end_call now start e failed sc =
      let w = weight (now - sc.stamp) sc.lag in
      record sc {
        inflights = without e sc.inflights;
        inflight = sub_one sc.inflight;
        stamp = now;
        lag = averaged w sc.lag (now - start);
        success = averaged w sc.success (if failed then 0 else 1000);
      }

  abbrev pub set_reqs : SubConn → SubConn
  set_reqs sc = record sc { reqs = 0 }

  -- The loop of PrintStats, which counts the requests anew and reads the loads.
  unfoldable pub reset_stats : ℕ → List (String × ℕ) → List SubConn → List SubConn
  unfolding refresh_predict
  reset_stats now [] heap = heap
  reset_stats now (entry ∷ rest) heap =
      reset_stats now rest (modify heap entry.1 (λ sc. refresh_predict now (set_reqs sc)))

  unfoldable pub print_stats : ℕ → Picker → Picker
  unfolding reset_stats
  print_stats now p = record p { heap = reset_stats now p.sub_conns p.heap }

  -- The callback of Pick.
  unfoldable pub done :
      Option (CallError → Bool) → ℕ → Option CallError → Callback → Picker → Picker
  unfolding end_call call_failed print_stats
  done handler now err cb p =
      let ended = record p {
        heap = modify p.heap cb.conn (end_call now cb.start cb.element (call_failed handler err));
      } in
      if ltb 3000000000 (now - p.log_ts)
      then print_stats now (record ended { log_ts = now })
      else ended
