-- ===== src/Hub/Subscribes.antt =====
-- Topics with watchers: Subscribe keeps the links, and leaves no topic without a watcher.
use tsf_go.Base.{
  ℕ, [], ◌∷◌, none, some, Bool, false, get_elem?, ◌≡◌, refl, ◌∙◌, ap, lookup, Bool-cases, inl, inr,
  Option-cases, length, insert, int_comparable, Comparable, sym, nat_eqb, some_append, of_append,
  lookup-insert, get_elem?_last, lookup-insert_self, if-true, if-false, ◌==◌, some-injective, ◌++◌,
}
use tsf_go.Hub.{Hub, Topic, attach, find_topic, join, new_topic}
use tsf_go.Hub.Live.{Linked, Manned}
use tsf_go.Hub.Joins.{Linked-join, of_join}

module _ {K V L : Type 0} ⦃k : Comparable K⦄ where
  -- The source with a new topic at the path.
  abbrev grow : L → K → Hub K V L → Hub K V L
  grow start path c = record c {
    topic = insert path (length c.topics) c.topic;
    topics = c.topics ++ (new_topic start path ∷ []);
  }

  Linked-grow :
      (start : L) (path : K) (c : Hub K V L)
      → lookup path c.topic ≡ none
      → Linked c
      → Linked (grow start path c)
  unfolding lookup
  Linked-grow start path c fresh links = record {
    mapped = λ p t e.
        let now = sym (lookup-insert path p (length c.topics) c.topic) ∙ e in
        elim (Bool-cases (p == path)) [
          | inl new ↦
              let is_t =
                some-injective (length c.topics) t
                  (sym (if-true (some (length c.topics)) (lookup p c.topic) new) ∙ now) in
              (
                new_topic start path,
                ap (get_elem? (c.topics ++ (new_topic start path ∷ []))) (sym is_t)
                    ∙ get_elem?_last c.topics _,
                sym ((k.same_iff p path).0 new),
                refl,
              )
          | inr old ↦
              let its =
                links.mapped p t
                  (sym (if-false (some (length c.topics)) (lookup p c.topic) old) ∙ now) in
              (its.0, some_append c.topics _ t its.1, its.2, its.3)
        ];
    kept = λ t topic at open_. elim (of_append c.topics _ t at) [
      | inl old ↦
          let its = links.kept t topic old open_ in
          lookup-insert path topic.path (length c.topics) c.topic
          ∙ elim (Bool-cases (topic.path == path)) [
            | inl same ↦ absurd (let is_path = (k.same_iff topic.path path).0 same in cc)
            | inr other ↦ if-false (some (length c.topics)) (lookup topic.path c.topic) other ∙ its
          ]
      | inr new ↦
          ap (λ x. lookup x.path (insert path (length c.topics) c.topic)) new.1
          ∙ lookup-insert_self path (length c.topics) c.topic
          ∙ ap some (sym new.0)
    ];
    inside = λ t topic w at within. elim (of_append c.topics _ t at) [
      | inl old ↦ links.inside t topic w old within
      | inr new ↦ absurd (let empty = sym (ap (λ x. lookup w x.watcher) new.1) ∙ within in cc)
    ];
    served = λ w watcher at open_.
        let its = links.served w watcher at open_ in
        (its.0, some_append c.topics _ watcher.topic its.1, its.2);
  }

  -- A join leaves a topic without a watcher only if it is another one that had none.
  Manned-join :
      (event : Bool) (t : ℕ) (c : Hub K V L)
      → ((s : ℕ) (topic : Topic K V L)
          → get_elem? c.topics s ≡ some topic
          → topic.cancelled ≡ false
          → nat_eqb t s ≡ false
          → (w : ℕ) × (lookup w topic.watcher ≡ some tt))
      → Manned (join event t c)
  unfolding join
  Manned-join event t c others s topic at open_ =
      let w = length c.watchers in
      let old = of_join t w s c.topics at in
      elim (Bool-cases (nat_eqb t s)) [
        | inl here ↦ (
          w,
          ap (lookup w) (old.4 ∙ if-true (insert w tt old.0.watcher) old.0.watcher here)
              ∙ lookup-insert_self w tt old.0.watcher,
        )
        | inr there ↦
            let its = others s old.0 old.1 (sym old.3 ∙ open_) there in
            (
              its.0,
              ap (lookup its.0) (old.4 ∙ if-false (insert w tt old.0.watcher) old.0.watcher there)
                  ∙ its.1,
            )
      ]

  grow_others :
      (start : L) (path : K) (c : Hub K V L)
      → Manned c
      → (s : ℕ) (topic : Topic K V L) → get_elem? (grow start path c).topics s ≡ some topic
      → topic.cancelled ≡ false
      → nat_eqb (length c.topics) s ≡ false
      → (w : ℕ) × (lookup w topic.watcher ≡ some tt)
  grow_others start path c manned s topic at open_ other = elim (of_append c.topics _ s at) [
    | inl old ↦ manned s topic old open_
    | inr new ↦
        absurd (let itself = (int_comparable.same_iff (length c.topics) s).1 (sym new.0) in cc)
  ]

  pub Linked-attach :
      (start : L) (event : Bool) (path : K) (c : Hub K V L)
      → Linked c
      → Linked (attach start event path c)
  unfolding attach find_topic
  Linked-attach start event path c links = elim (Option-cases (lookup path c.topic)) [
    | inl fresh ↦
        rw (attach, find_topic, fresh)
          (Linked-join event (length c.topics) (new_topic start path) (grow start path c)
            (get_elem?_last c.topics _) refl (Linked-grow start path c fresh links))
    | inr known ↦
        let its = links.mapped path known.0 known.1 in
        rw (attach, find_topic, known.1) (Linked-join event known.0 its.0 c its.1 its.3 links)
  ]

  pub Manned-attach :
      (start : L) (event : Bool) (path : K) (c : Hub K V L)
      → Manned c
      → Manned (attach start event path c)
  unfolding attach find_topic
  Manned-attach start event path c manned = elim (Option-cases (lookup path c.topic)) [
    | inl fresh ↦
        rw (attach, find_topic, fresh)
          (Manned-join event (length c.topics) (grow start path c)
            (grow_others start path c manned))
    | inr known ↦
        rw (attach, find_topic, known.1)
          (Manned-join event known.0 c (λ s topic at open_ other. manned s topic at open_))
  ]

  pub Linked-find_topic :
      (start : L) (path : K) (c : Hub K V L) → Linked c → Linked (find_topic start path c).1
  unfolding find_topic
  Linked-find_topic start path c links = elim (Option-cases (lookup path c.topic)) [
    | inl fresh ↦ rw (find_topic, fresh) (Linked-grow start path c fresh links)
    | inr known ↦ rw (find_topic, known.1) links
  ]
