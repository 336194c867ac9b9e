-- ===== src/Config/Clients.antt =====
-- pkg/config/consul/consul.go: what a client sees of a broadcast, of Subscribe and of Close.
use tsf_go.Base.{
  ℕ, String, List, Option, none, some, false, lookup, text_comparable, int_comparable, length,
  get_elem?, ◌≡◌, refl, ap, ◌∙◌, if-true, same_self, ◌>>=◌, modify_at, get_elem?_last,
}
use tsf_go.Hub.{attach, find_topic, join, held, notified, add_watcher, watching}
use tsf_go.Hub.Told.{await_quiet}
use tsf_go.Config.Fetch.{Spec}
use tsf_go.Config.Source.{Consul, ConfigTopic, subscribe, watch, answer_of}

-- After Subscribe to a path whose topic has specs, the new watcher's Watch waits, although the topic
-- still has those specs: it returns only at the next broadcast.
pub watch-subscribe :
    (path : String) (t : ℕ) (topic : ConfigTopic) (res : List Spec) (c : Consul)
    → lookup path c.topic ≡ some t
    → get_elem? c.topics t ≡ some topic
    → topic.spec ≡ some res
    → (watch notified (subscribe path c).0 (subscribe path c).1 ≡ none)
      × (held (get_elem? (subscribe path c).1.topics t) ≡ some res)
unfolding watch subscribe attach find_topic join
watch-subscribe path t topic res c known at holds =
    let joined = add_watcher (length c.watchers) in
    rw (attach, find_topic, known)
      (
        ap
            (λ (o : Option (Option (List Spec) × Consul)).
              o >>= λ read. some (answer_of notified read.0, read.1))
            (await_quiet (length c.watchers) (record { topic = t; event = false; phase = watching })
              (join false t c) (get_elem?_last c.watchers _) refl),
        ap held (
              modify_at c.topics t t joined at
              ∙ ap some (if-true (joined topic) topic (same_self t)))
            ∙ holds,
      )
