-- ===== src/Hub/Live.antt =====
-- Topics with watchers: how topics, their watchers and the map of topics stand to each other.
use tsf_go.Base.{ℕ, some, false, lookup, int_comparable, get_elem?, ◌≡◌, Comparable}
use tsf_go.Hub.{Hub, Topic, Watcher, is_gone}

module _ {K V L : Type 0} ⦃k : Comparable K⦄ where
  -- The map holds topics that are not cancelled, at their paths.
  abbrev pub Mapped : Hub K V L → Type 0
  Mapped c =
      (path : K) (t : ℕ)
      → lookup path c.topic ≡ some t
      → (topic : Topic K V L) × (get_elem? c.topics t ≡ some topic)
        × (topic.path ≡ path)
        × (topic.cancelled ≡ false)

  -- A topic that is not cancelled is the one that the map holds at its path.
  abbrev pub Kept : Hub K V L → Type 0
  Kept c =
      (t : ℕ) (topic : Topic K V L)
      → get_elem? c.topics t ≡ some topic
      → topic.cancelled ≡ false
      → lookup topic.path c.topic ≡ some t

module _ {K V L : Type 0} where
  -- The watchers in a topic's set are its own and have not left, and the topic is not cancelled.
  abbrev pub Inside : Hub K V L → Type 0
  Inside c =
      (t : ℕ) (topic : Topic K V L) (w : ℕ)
      → get_elem? c.topics t ≡ some topic
      → lookup w topic.watcher ≡ some tt
      → (watcher : Watcher) × (get_elem? c.watchers w ≡ some watcher)
        × (watcher.topic ≡ t)
        × (is_gone watcher.phase ≡ false)
        × (topic.cancelled ≡ false)

  -- A watcher that has not left stands in its topic's set.
  abbrev pub Served : Hub K V L → Type 0
  Served c =
      (w : ℕ) (watcher : Watcher)
      → get_elem? c.watchers w ≡ some watcher
      → is_gone watcher.phase ≡ false
      → (topic : Topic K V L) × (get_elem? c.topics watcher.topic ≡ some topic)
        × (lookup w topic.watcher ≡ some tt)

  -- A topic that is not cancelled has a watcher.
  abbrev pub Manned : Hub K V L → Type 0
  Manned c =
      (t : ℕ) (topic : Topic K V L)
      → get_elem? c.topics t ≡ some topic
      → topic.cancelled ≡ false
      → (w : ℕ) × (lookup w topic.watcher ≡ some tt)

-- The links between the map, the topics and the watchers.
pub record Linked {K V L : Type 0} ⦃k : Comparable K⦄ (c : Hub K V L) : Type 0 where
  pub mapped : Mapped c
  pub kept : Kept c
  pub inside : Inside c
  pub served : Served c
