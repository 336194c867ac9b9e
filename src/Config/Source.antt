-- ===== src/Config/Source.antt =====
-- pkg/config/consul/consul.go: the source, a hub whose topics hold lists of specs.
use tsf_go.Base.{
  ℕ, String, List, [], ◌∷◌, Option, none, some, Bool, true, false, if◌then◌else◌, ◌&&◌, lookup,
  text_comparable, ◌==◌, ℤ, length, get_elem?, ◌>>=◌,
}
use tsf_go.Hub.{
  Hub, Topic, Ready, new_hub, attach, broadcast, goto, await, held, caller_done, watcher_done,
  notified,
}
use tsf_go.Config.Fetch.{Spec, Fetched}

-- Where a topic's goroutine stands: before its first round, in the loop with `lastRes` and
-- `lastIndex`, or returned.
pub data Loop : Type 0 where
  first : Loop
  next : List Spec → ℤ → Loop
  returned : Loop

abbrev pub Consul : Type 0
Consul = Hub String (List Spec) Loop

abbrev pub ConfigTopic : Type 0
ConfigTopic = Topic String (List Spec) Loop

-- New
abbrev pub new_consul : Consul
new_consul = new_hub

-- Consul.Subscribe: the watcher, and the state.
unfoldable pub subscribe : String → Consul → ℕ × Consul
unfolding attach
subscribe path c = (length c.watchers, attach first false path c)

-- reflect.DeepEqual of two lists of specs.
unfoldable pub same_specs : List Spec → List Spec → Bool
same_specs [] [] = true
same_specs [] (y ∷ ys) = false
same_specs (x ∷ xs) [] = false
same_specs (x ∷ xs) (y ∷ ys) = x.key == y.key && x.raw == y.raw && same_specs xs ys

-- A round of the goroutine, over what fetch returns: the first one, and one at a tick.
unfoldable pub round : ℕ → Fetched → Loop → Consul → Consul
unfolding broadcast same_specs
round t got first c = goto t (next got.res got.index) (if got.err then c else broadcast t got.res c)
round t got (next res index) c =
    if got.err
    then c
    else goto t (next got.res got.index)
        (if same_specs res got.res then c else broadcast t got.res c)
round t got returned c = c

-- What Watch returns.
pub data Answer : Type 0 where
  specs : List Spec → Answer
  timeout : Answer
  closed : Answer

-- `spec, _ = ….Load().([]config.Spec)`
abbrev pub or_nil : Option (List Spec) → List Spec
or_nil none = []
or_nil (some res) = res

abbrev pub answer_of : Ready → Option (List Spec) → Answer
answer_of caller_done res = timeout
answer_of watcher_done res = closed
answer_of notified res = specs (or_nil res)

-- Watcher.Watch, when its select takes the case. `none`: the case is not ready.
unfoldable pub watch : Ready → ℕ → Consul → Option (Answer × Consul)
unfolding await
watch ready w c = await ready w c >>= λ read. some (answer_of ready read.0, read.1)

-- Consul.Get: the named result is overwritten by the return.
unfoldable pub get_specs : String → Consul → List Spec
unfolding lookup
get_specs path c = elim (lookup path c.topic) [
  | none ↦ []
  | some t ↦ let spec = or_nil (held (get_elem? c.topics t)) in []
]
