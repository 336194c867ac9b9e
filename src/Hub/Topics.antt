-- ===== src/Hub/Topics.antt =====
-- Topics with watchers: a property of each topic, kept by what only joins and leaves.
use tsf_go.Base.{
  ℕ, List, [], ◌∷◌, Option, some, Bool, true, if◌then◌else◌, get_elem?, modify, lookup, insert,
  delete, ◌≡◌, ◌∙◌, ap, Bool-cases, Option-cases, inl, inr, some-injective, if-true, if-false,
  nat_eqb, of_modify, of_append, sym, subst, int_comparable, Comparable, length, ◌++◌, is_empty,
}
use tsf_go.Hub.Awaits.{await_cases}
use tsf_go.Hub.Alike.{begin_close_cases}
use tsf_go.Hub.Closes.{end_close_cases}
use tsf_go.Hub.{
  Hub, Topic, attach, join, find_topic, new_topic, add_watcher, remove_watcher, cancel_topic, leave,
  begin_close, end_close, depart, finish, set_loop, await, Ready,
}

module _ {K V L : Type 0} where
  abbrev pub All : (Topic K V L → Type 0) → Hub K V L → Type 0
  All P c = (t : ℕ) (topic : Topic K V L) → get_elem? c.topics t ≡ some topic → P topic

  -- A change that keeps it at its topic keeps it at all.
  pub All-modify :
      (P : Topic K V L → Type 0) (t : ℕ) (f : Topic K V L → Topic K V L)
      (topics : List (Topic K V L))
      → ((x : Topic K V L) → get_elem? topics t ≡ some x → P (f x))
      → ((s : ℕ) (topic : Topic K V L) → get_elem? topics s ≡ some topic → P topic)
      → (s : ℕ) (topic : Topic K V L) → get_elem? (modify topics t f) s ≡ some topic
      → P topic
  All-modify P t f topics h all s topic at =
      let old = of_modify topics t s f at in
      elim (Bool-cases (nat_eqb t s)) [
        | inl here ↦
            let is_t = (int_comparable.same_iff t s).0 here in
            subst P (sym (old.2 ∙ if-true (f old.0) old.0 here))
              (h old.0 (ap (get_elem? topics) is_t ∙ old.1))
        | inr there ↦ subst P (sym (old.2 ∙ if-false (f old.0) old.0 there)) (all s old.0 old.1)
      ]

  pub await_topics :
      (ready : Ready) (w : ℕ) (answer : Option V) (c d : Hub K V L)
      → await ready w c ≡ some (answer, d)
      → d.topics ≡ c.topics
  await_topics ready w answer c d e = elim (await_cases ready w answer c d e) [
    | inl same ↦ ap (λ h. h.topics) same
    | inr cleared ↦ ap (λ h. h.topics) cleared
  ]

-- A property that does not look at who watches, and that a new topic and a cancelled one have.
pub record Steady {K V L : Type 0} (P : Topic K V L → Type 0) (start : L) : Type 0 where
  pub at_start : (path : K) → P (new_topic start path)
  pub joined : (w : ℕ) (x : Topic K V L) → P x → P (add_watcher w x)
  pub left : (w : ℕ) (x : Topic K V L) → P x → P (remove_watcher w x)
  pub dropped : (x : Topic K V L) → P x → P (cancel_topic x)

module _ {K V L : Type 0} where
  All-join :
      (P : Topic K V L → Type 0) (start : L) (event : Bool) (t : ℕ) (c : Hub K V L)
      → Steady P start
      → All P c
      → All P (join event t c)
  unfolding join
  All-join P start event t c steady all =
      All-modify P t (add_watcher (length c.watchers)) c.topics
        (λ x at. steady.joined (length c.watchers) x (all t x at)) all

  pub All-finish :
      (P : Topic K V L → Type 0) (returned : L) (t : ℕ) (topic : Topic K V L) (c : Hub K V L)
      → get_elem? c.topics t ≡ some topic
      → (topic.cancelled ≡ true → P (set_loop returned topic))
      → All P c
      → All P (finish returned t topic c)
  unfolding finish
  All-finish P returned t topic c at ends all = elim (Bool-cases topic.cancelled) [
    | inl done ↦
        rw (finish, done, if◌then◌else◌)
          (All-modify P t (set_loop returned) c.topics
            (λ x here.
              subst (λ y. P (set_loop returned y)) (some-injective topic x (sym at ∙ here))
                (ends done))
            all)
    | inr open_ ↦ rw (finish, open_, if◌then◌else◌) all
  ]

module _ {K V L : Type 0} ⦃k : Comparable K⦄ where
  pub All-attach :
      (P : Topic K V L → Type 0) (start : L) (event : Bool) (path : K) (c : Hub K V L)
      → Steady P start
      → All P c
      → All P (attach start event path c)
  unfolding attach find_topic
  All-attach P start event path c steady all = elim (Option-cases (lookup path c.topic)) [
    | inl new ↦
        rw (attach, find_topic, new)
          (All-join P start event (length c.topics)
            (record c {
              topic = insert path (length c.topics) c.topic;
              topics = c.topics ++ (new_topic start path ∷ []);
            })
            steady
            (λ t topic at. elim (of_append c.topics _ t at) [
              | inl old ↦ all t topic old
              | inr last ↦ subst P (sym last.1) (steady.at_start path)
            ]))
    | inr known ↦ rw (attach, find_topic, known.1) (All-join P start event known.0 c steady all)
  ]

  pub All-find_topic :
      (P : Topic K V L → Type 0) (start : L) (path : K) (c : Hub K V L)
      → Steady P start
      → All P c
      → All P (find_topic start path c).1
  unfolding find_topic
  All-find_topic P start path c steady all = elim (Option-cases (lookup path c.topic)) [
    | inl new ↦
        rw (find_topic, new)
          (λ t topic at. elim (of_append c.topics _ t at) [
            | inl old ↦ all t topic old
            | inr last ↦ subst P (sym last.1) (steady.at_start path)
          ])
    | inr known ↦ rw (find_topic, known.1) all
  ]

  All-leave :
      (P : Topic K V L → Type 0) (start : L) (w t : ℕ) (topic : Topic K V L) (c : Hub K V L)
      → Steady P start
      → All P c
      → All P (leave w t topic c)
  unfolding leave
  All-leave P start w t topic c steady all =
      let left =
        All-modify P t (remove_watcher w) c.topics (λ x at. steady.left w x (all t x at)) all in
      elim (Bool-cases (is_empty (delete w topic.watcher))) [
        | inl empty ↦
            rw (leave, empty, if◌then◌else◌)
              (All-modify P t cancel_topic (modify c.topics t (remove_watcher w))
                (λ x at. steady.dropped x (left t x at)) left)
        | inr others ↦ rw (leave, others, if◌then◌else◌) left
      ]

  pub All-begin_close :
      (P : Topic K V L → Type 0) (w : ℕ) (c d : Hub K V L)
      → begin_close w c ≡ some d
      → All P c
      → All P d
  All-begin_close P w c d e all = elim (begin_close_cases w c d e) [
    | inl same ↦ subst (All P) (sym same) all
    | inr cancelled ↦ subst (All P) (sym cancelled) all
  ]

  pub All-end_close :
      (P : Topic K V L → Type 0) (start : L) (w : ℕ) (c d : Hub K V L)
      → Steady P start
      → end_close w c ≡ some d
      → All P c
      → All P d
  All-end_close P start w c d steady e all =
      let (x, topic, at, waits, at_t, after) = end_close_cases w c d e in
      subst (All P) (sym after) (
        All-leave P start w x.topic topic (record c { watchers = modify c.watchers w depart })
          steady all)
