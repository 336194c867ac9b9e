-- ===== src/Hub.antt =====
-- Topics with watchers, as pkg/config/consul/consul.go and naming/consul/discovery.go both keep them:
-- a map of topics, each with its goroutine and a set of watchers. Topics and watchers stand in stores
-- and are named by their places, since closed ones stay reachable from those who hold them. What
-- holds the lock is one step; Close cancels its watcher before it takes the lock, and is two. The
-- map's keys, what a topic holds and where its goroutine stands are parameters.
pub mod Live
pub mod Awaits
pub mod Alike
pub mod Joins
pub mod Subscribes
pub mod Parts
pub mod Closes
pub mod Topics
pub mod Filled
pub mod Told
use tsf_go.Base.{
  ℕ, List, [], ◌∷◌, ◌++◌, Option, none, some, Bool, true, false, not, if◌then◌else◌, lookup, insert,
  delete, keys, is_empty, int_comparable, length, get_elem?, modify, ◌>>=◌, Comparable,
}

-- `spec` is empty until the first Store; `watcher` is a set.
pub record Topic (K V L : Type 0) : Type 0 where
  pub path : K
  pub spec : Option V
  pub cancelled : Bool
  pub watcher : List (ℕ × Unit {0})
  pub loop : L

-- How far the Close of a watcher has come: not called, its context cancelled but the lock not yet
-- taken, or past the part under the lock.
pub data Phase : Type 0 where
  watching : Phase
  closing : Phase
  departed : Phase

-- Whether the watcher's context is done.
abbrev pub is_done : Phase → Bool
is_done watching = false
is_done closing = true
is_done departed = true

abbrev pub is_closing : Phase → Bool
is_closing watching = false
is_closing closing = true
is_closing departed = false

abbrev pub is_gone : Phase → Bool
is_gone watching = false
is_gone closing = false
is_gone departed = true

-- `w.cancel()`
abbrev pub cancel_phase : Phase → Phase
cancel_phase watching = closing
cancel_phase closing = closing
cancel_phase departed = departed

-- `event` says whether the channel of one place is full.
pub record Watcher : Type 0 where
  pub topic : ℕ
  pub event : Bool
  pub phase : Phase

-- The map of topics, and the stores.
pub record Hub (K V L : Type 0) : Type 0 where
  pub topic : List (K × ℕ)
  pub topics : List (Topic K V L)
  pub watchers : List Watcher

abbrev pub fill : Watcher → Watcher
fill w = record w { event = true }

abbrev pub clear : Watcher → Watcher
clear w = record w { event = false }

abbrev pub cancel_watcher : Watcher → Watcher
cancel_watcher w = record w { phase = cancel_phase w.phase }

abbrev pub depart : Watcher → Watcher
depart w = record w { phase = departed }

-- The loop over the watchers: a full channel stays as it is.
unfoldable pub notify : List ℕ → List Watcher → List Watcher
notify [] watchers = watchers
notify (w ∷ ws) watchers = notify ws (modify watchers w fill)

module _ {K V L : Type 0} where
  abbrev pub new_hub : Hub K V L
  new_hub = record { topic = []; topics = []; watchers = [] }

  -- A topic that no one has asked for yet; its goroutine starts.
  abbrev pub new_topic : L → K → Topic K V L
  new_topic start path = record {
    path = path;
    spec = none;
    cancelled = false;
    watcher = [];
    loop = start;
  }

  abbrev pub add_watcher : ℕ → Topic K V L → Topic K V L
  add_watcher w topic = record topic { watcher = insert w tt topic.watcher }

  -- A new watcher of the topic, with or without an event.
  unfoldable pub join : Bool → ℕ → Hub K V L → Hub K V L
  unfolding insert
  join event t c = record c {
    topics = modify c.topics t (add_watcher (length c.watchers));
    watchers = c.watchers ++ (record { topic = t; event = event; phase = watching } ∷ []);
  }

  abbrev pub set_spec : V → Topic K V L → Topic K V L
  set_spec res topic = record topic { spec = some res }

  -- `t.spec.Store res`
  unfoldable pub store : ℕ → V → Hub K V L → Hub K V L
  store t res c = record c { topics = modify c.topics t (set_spec res) }

  -- The watchers of a topic.
  unfoldable pub watchers_of : ℕ → Hub K V L → List ℕ
  watchers_of t c = elim (get_elem? c.topics t) [ none ↦ [] | some topic ↦ keys topic.watcher ]

  -- broadcast
  unfoldable pub broadcast : ℕ → V → Hub K V L → Hub K V L
  unfolding store notify watchers_of
  broadcast t res c =
      let stored = store t res c in
      record stored { watchers = notify (watchers_of t stored) stored.watchers }

  abbrev pub set_loop : L → Topic K V L → Topic K V L
  set_loop loop topic = record topic { loop = loop }

  abbrev pub goto : ℕ → L → Hub K V L → Hub K V L
  goto t loop c = record c { topics = modify c.topics t (set_loop loop) }

  -- The goroutine returns when its context is done.
  unfoldable pub finish : L → ℕ → Topic K V L → Hub K V L → Hub K V L
  finish returned t topic c = if topic.cancelled then goto t returned c else c

  -- What a topic holds.
  abbrev pub held : Option (Topic K V L) → Option V
  held none = none
  held (some topic) = topic.spec

  abbrev pub remove_watcher : ℕ → Topic K V L → Topic K V L
  remove_watcher w topic = record topic { watcher = delete w topic.watcher }

  abbrev pub cancel_topic : Topic K V L → Topic K V L
  cancel_topic topic = record topic { cancelled = true }

-- The cases of a select that waits for an event: another one of the caller's, that the watcher is
-- closed, or the event.
pub data Ready : Type 0 where
  caller_done : Ready
  watcher_done : Ready
  notified : Ready

module _ {K V L : Type 0} where
  -- A select that takes the case: what it reads, and the state; of an event, what the topic holds.
  -- `none`: the case is not ready.
  unfoldable pub await : Ready → ℕ → Hub K V L → Option (Option V × Hub K V L)
  await caller_done w c = some (none, c)
  await watcher_done w c =
      get_elem? c.watchers w >>= λ watcher. if is_done watcher.phase then some (none, c) else none
  await notified w c = get_elem? c.watchers w >>= λ watcher.
      if watcher.event
      then some (
        held (get_elem? c.topics watcher.topic),
        record c { watchers = modify c.watchers w clear },
      )
      else none

module _ {K V L : Type 0} ⦃k : Comparable K⦄ where
  -- The topic of the path, made if there is none.
  unfoldable pub find_topic : L → K → Hub K V L → ℕ × Hub K V L
  unfolding lookup insert
  find_topic start path c = elim (lookup path c.topic) [
    | some t ↦ (t, c)
    | none ↦ (
      length c.topics,
      record c {
        topic = insert path (length c.topics) c.topic;
        topics = c.topics ++ (new_topic start path ∷ []);
      },
    )
  ]

  -- A new watcher of the path's topic.
  unfoldable pub attach : L → Bool → K → Hub K V L → Hub K V L
  unfolding find_topic join
  attach start event path c = let found = find_topic start path c in join event found.0 found.1

  -- The part of Close under the lock, of the topic as it is.
  unfoldable pub leave : ℕ → ℕ → Topic K V L → Hub K V L → Hub K V L
  unfolding delete
  leave w t topic c =
      let left = modify c.topics t (remove_watcher w) in
      if is_empty (delete w topic.watcher)
      then record c { topic = delete topic.path c.topic; topics = modify left t cancel_topic }
      else record c { topics = left }

  -- Close up to the lock: the test, and the cancel.
  unfoldable pub begin_close : ℕ → Hub K V L → Option (Hub K V L)
  begin_close w c = get_elem? c.watchers w >>= λ watcher.
      if is_done watcher.phase
      then some c
      else some (record c { watchers = modify c.watchers w cancel_watcher })

  -- Close from the lock on. `none`: no Close of the watcher waits for the lock.
  unfoldable pub end_close : ℕ → Hub K V L → Option (Hub K V L)
  unfolding leave
  end_close w c = get_elem? c.watchers w >>= λ watcher.
      if not (is_closing watcher.phase)
      then none
      else get_elem? c.topics watcher.topic >>= λ topic.
          some (leave w watcher.topic topic (record c { watchers = modify c.watchers w depart }))

  -- Close of a watcher, when no one comes in between.
  unfoldable pub close : ℕ → Hub K V L → Option (Hub K V L)
  unfolding begin_close end_close
  close w c = get_elem? c.watchers w >>= λ watcher.
      if is_done watcher.phase
      then some c
      else begin_close w c >>= λ cancelled. end_close w cancelled
