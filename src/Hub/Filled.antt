-- ===== src/Hub/Filled.antt =====
-- Topics with watchers: a watcher with an event has something to read.
use tsf_go.Base.{
  ℕ, List, [], ◌∷◌, Option, none, some, Bool, true, if◌then◌else◌, get_elem?, modify, lookup,
  insert, delete, keys, ◌≡◌, refl, ◌∙◌, ap, Bool-cases, Option-cases, inl, inr, some-injective,
  if-true, if-false, nat_eqb, of_modify, of_append, modify_at, some_append, sym, subst,
  int_comparable, Comparable, length, ◌++◌, is_empty, ◌⊎◌, same_self, arith,
}
use tsf_go.Hub.Awaits.{await_cases}
use tsf_go.Hub.Alike.{begin_close_cases}
use tsf_go.Hub.Closes.{end_close_cases}
use tsf_go.Hub.{
  Hub, Topic, Watcher, attach, join, find_topic, new_topic, add_watcher, remove_watcher,
  cancel_topic, cancel_watcher, leave, begin_close, end_close, depart, finish, set_loop, goto,
  set_spec, broadcast, store, watchers_of, notify, fill, held, await, Ready, clear,
}
use tsf_go.Hub.Live.{Linked}

module _ {K V L : Type 0} where
  abbrev Holds : List (Topic K V L) → ℕ → Type 0
  Holds topics t = (v : V) × (held (get_elem? topics t) ≡ some v)

  abbrev pub Filled : Hub K V L → Type 0
  Filled c =
      (w : ℕ) (x : Watcher)
      → get_elem? c.watchers w ≡ some x
      → x.event ≡ true
      → (v : V) × (held (get_elem? c.topics x.topic) ≡ some v)

  -- A change of topics that takes nothing away.
  Holds-modify :
      (topics : List (Topic K V L)) (t s : ℕ) (f : Topic K V L → Topic K V L)
      → ((x : Topic K V L) (v : V) → x.spec ≡ some v → (u : V) × ((f x).spec ≡ some u))
      → Holds topics s
      → Holds (modify topics t f) s
  Holds-modify topics t s f keeps (v, holds) = elim (Option-cases (get_elem? topics s)) [
    | inl nothing ↦ absurd (let no = ap held (sym nothing) ∙ holds in cc)
    | inr at ↦
        let its = ap held (sym at.1) ∙ holds in
        let now = modify_at topics t s f at.1 in
        elim (Bool-cases (nat_eqb t s)) [
          | inl here ↦
              let kept = keeps at.0 v its in
              (kept.0, ap held now ∙ ap (λ x. x.spec) (if-true (f at.0) at.0 here) ∙ kept.1)
          | inr there ↦ (v, ap held now ∙ ap (λ x. x.spec) (if-false (f at.0) at.0 there) ∙ its)
        ]
  ]

  Holds-append :
      (topics : List (Topic K V L)) (new : Topic K V L) (t : ℕ)
      → Holds topics t
      → Holds (topics ++ (new ∷ [])) t
  Holds-append topics new t (v, holds) = elim (Option-cases (get_elem? topics t)) [
    | inl nothing ↦ absurd (let no = ap held (sym nothing) ∙ holds in cc)
    | inr at ↦ (v, ap held (some_append topics (new ∷ []) t at.1) ∙ ap held (sym at.1) ∙ holds)
  ]

  -- The same, in a state whose watchers have no new events.
  Filled-modify :
      (c : Hub K V L) (t : ℕ) (f : Topic K V L → Topic K V L)
      → ((x : Topic K V L) (v : V) → x.spec ≡ some v → (u : V) × ((f x).spec ≡ some u))
      → Filled c
      → Filled (record c { topics = modify c.topics t f })
  Filled-modify c t f keeps filled w x at event =
      Holds-modify c.topics t x.topic f keeps (filled w x at event)

  pub Filled-goto : (t : ℕ) (loop : L) (c : Hub K V L) → Filled c → Filled (goto t loop c)
  Filled-goto t loop c filled = Filled-modify c t (set_loop loop) (λ x v e. (v, e)) filled

  pub Filled-finish :
      (returned : L) (t : ℕ) (topic : Topic K V L) (c : Hub K V L)
      → Filled c
      → Filled (finish returned t topic c)
  unfolding finish
  Filled-finish returned t topic c filled = elim (Bool-cases topic.cancelled) [
    | inl done ↦ rw (finish, done, if◌then◌else◌) (Filled-goto t returned c filled)
    | inr open_ ↦ rw (finish, open_, if◌then◌else◌) filled
  ]

  -- A change of watchers that adds no event.
  Filled-watcher :
      (c : Hub K V L) (w : ℕ) (f : Watcher → Watcher)
      → ((x : Watcher) → (f x).topic ≡ x.topic)
      → ((x : Watcher) → (f x).event ≡ true → x.event ≡ true)
      → Filled c
      → Filled (record c { watchers = modify c.watchers w f })
  Filled-watcher c w f keeps quiet filled v y at event =
      let old = of_modify c.watchers w v f at in
      elim (Bool-cases (nat_eqb w v)) [
        | inl here ↦
            let now = old.2 ∙ if-true (f old.0) old.0 here in
            let its = filled v old.0 old.1 (quiet old.0 (ap (λ u. u.event) (sym now) ∙ event)) in
            (
              its.0,
              ap (λ u. held (get_elem? c.topics u)) (ap (λ u. u.topic) now ∙ keeps old.0) ∙ its.1,
            )
        | inr there ↦
            let now = old.2 ∙ if-false (f old.0) old.0 there in
            let its = filled v old.0 old.1 (ap (λ u. u.event) (sym now) ∙ event) in
            (its.0, ap (λ u. held (get_elem? c.topics u.topic)) now ∙ its.1)
      ]

  pub Filled-await :
      (ready : Ready) (w : ℕ) (answer : Option V) (c d : Hub K V L)
      → await ready w c ≡ some (answer, d)
      → Filled c
      → Filled d
  Filled-await ready w answer c d e filled = elim (await_cases ready w answer c d e) [
    | inl same ↦ subst Filled (sym same) filled
    | inr cleared ↦
        subst Filled (sym cleared)
          (Filled-watcher c w clear (λ u. refl) (λ u full. absurd (cc)) filled)
  ]

module _ {K V L : Type 0} ⦃k : Comparable K⦄ where
  Filled-leave :
      (w t : ℕ) (topic : Topic K V L) (c : Hub K V L) → Filled c → Filled (leave w t topic c)
  unfolding leave
  Filled-leave w t topic c filled =
      let left = Filled-modify c t (remove_watcher w) (λ x v e. (v, e)) filled in
      elim (Bool-cases (is_empty (delete w topic.watcher))) [
        | inl empty ↦
            rw (leave, empty, if◌then◌else◌)
              (Filled-modify (record c { topics = modify c.topics t (remove_watcher w) }) t
                cancel_topic (λ x v e. (v, e)) left)
        | inr others ↦ rw (leave, others, if◌then◌else◌) left
      ]

abbrev told : {K V L : Type 0} → Option (Topic K V L) → List ℕ
told o = elim o [ none ↦ [] | some topic ↦ keys topic.watcher ]

-- Who has an event after a set was notified.
of_notify :
    (w : ℕ) (m : List (ℕ × Unit {0})) (watchers : List Watcher) (y : Watcher)
    → get_elem? (notify (keys m) watchers) w ≡ some y
    → (x : Watcher) × (get_elem? watchers w ≡ some x)
      × (y.topic ≡ x.topic)
      × ((x.event ≡ y.event) ⊎ (lookup w m ≡ some tt))
unfolding notify lookup
of_notify w [] watchers y at = (y, at, refl, inl refl)
of_notify w ((v, u) ∷ m) watchers y at =
    let (z, at_z, same, now) = of_notify w m (modify watchers v fill) y at in
    let old = of_modify watchers v w fill at_z in
    elim (Bool-cases (nat_eqb v w)) [
      | inl here ↦
          let is_z = old.2 ∙ if-true (fill old.0) old.0 here in
          (
            old.0,
            old.1,
            same ∙ ap (λ x. x.topic) is_z,
            inr (if-true (some u) (lookup w m) (ground arith)),
          )
      | inr other ↦
          let is_z = old.2 ∙ if-false (fill old.0) old.0 other in
          (
            old.0,
            old.1,
            same ∙ ap (λ x. x.topic) is_z,
            elim now [
              | inl quiet ↦ inl (ap (λ x. x.event) (sym is_z) ∙ quiet)
              | inr within ↦ inr (if-false (some u) (lookup w m) (ground arith) ∙ within)
            ],
          )
    ]

module _ {K V L : Type 0} ⦃k : Comparable K⦄ where
  pub Filled-broadcast :
      (t : ℕ) (res : V) (c : Hub K V L) → Linked c → Filled c → Filled (broadcast t res c)
  unfolding broadcast store watchers_of
  Filled-broadcast t res c linked filled w y at event =
      let topics = modify c.topics t (set_spec res) in
      let before = λ (x : Watcher) (at_x : get_elem? c.watchers w ≡ some x) (full : x.event ≡ true).
        Holds-modify c.topics t x.topic (set_spec res) (λ u v e. (res, refl))
          (filled w x at_x full) in
      elim (Option-cases (get_elem? topics t)) [
        | inl nothing ↦
            before y (ap (λ o. get_elem? (notify (told o) c.watchers) w) (sym nothing) ∙ at) event
        | inr here ↦
            let now = ap (λ o. get_elem? (notify (told o) c.watchers) w) (sym here.1) ∙ at in
            let old = of_modify c.topics t t (set_spec res) here.1 in
            let is_topic = old.2 ∙ if-true (set_spec res old.0) old.0 (same_self t) in
            let (x, at_x, same, how) = of_notify w here.0.watcher c.watchers y now in
            elim how [
              | inl quiet ↦
                  let its = before x at_x (quiet ∙ event) in
                  (its.0, ap (λ s. held (get_elem? topics s)) same ∙ its.1)
              | inr within ↦
                  let its =
                    linked.inside t old.0 w old.1
                      (ap (λ u. lookup w u.watcher) (sym is_topic) ∙ within) in
                  let one = some-injective x its.0 (sym at_x ∙ its.1) in
                  (
                    res,
                    ap (λ s. held (get_elem? topics s)) (same ∙ ap (λ u. u.topic) one ∙ its.2)
                        ∙ ap held here.1
                        ∙ ap (λ u. u.spec) is_topic,
                  )
            ]
      ]

  Filled-join :
      (event : Bool) (t : ℕ) (c : Hub K V L)
      → (event ≡ true → (v : V) × (held (get_elem? c.topics t) ≡ some v))
      → Filled c
      → Filled (join event t c)
  unfolding join
  Filled-join event t c known filled w y at full =
      let more = add_watcher (length c.watchers) in
      elim (of_append c.watchers _ w at) [
        | inl old ↦ Holds-modify c.topics t y.topic more (λ x v e. (v, e)) (filled w y old full)
        | inr new ↦
            let its =
              Holds-modify c.topics t t more (λ x v e. (v, e))
                (known (ap (λ u. u.event) (sym new.1) ∙ full)) in
            (its.0, ap (λ u. held (get_elem? (modify c.topics t more) u.topic)) new.1 ∙ its.1)
      ]

  -- A new watcher may have an event from the start if the topic is known and holds something.
  pub Filled-attach :
      (start : L) (event : Bool) (path : K) (c : Hub K V L)
      → (event ≡ true
          → (t : ℕ) × (lookup path c.topic ≡ some t)
            × ((v : V) × (held (get_elem? c.topics t) ≡ some v)))
      → Filled c
      → Filled (attach start event path c)
  unfolding attach find_topic
  Filled-attach start event path c known filled = elim (Option-cases (lookup path c.topic)) [
    | inl fresh ↦
        rw (attach, find_topic, fresh)
          (Filled-join event (length c.topics)
            (record c {
              topic = insert path (length c.topics) c.topic;
              topics = c.topics ++ (new_topic start path ∷ []);
            })
            (λ e. absurd (let no = sym fresh ∙ (known e).1 in cc))
            (λ w x at full.
              Holds-append c.topics (new_topic start path) x.topic (filled w x at full)))
    | inr found ↦
        rw (attach, find_topic, found.1)
          (Filled-join event found.0 c
            (λ e.
              let (t, at, its) = known e in
              let one = some-injective t found.0 (sym at ∙ found.1) in
              (its.0, ap (λ s. held (get_elem? c.topics s)) (sym one) ∙ its.1))
            filled)
  ]

  pub Filled-begin_close :
      (w : ℕ) (c d : Hub K V L) → begin_close w c ≡ some d → Filled c → Filled d
  Filled-begin_close w c d e filled = elim (begin_close_cases w c d e) [
    | inl same ↦ subst Filled (sym same) filled
    | inr cancelled ↦
        subst Filled (sym cancelled)
          (Filled-watcher c w cancel_watcher (λ u. refl) (λ u full. full) filled)
  ]

  pub Filled-end_close : (w : ℕ) (c d : Hub K V L) → end_close w c ≡ some d → Filled c → Filled d
  Filled-end_close w c d e filled =
      let (x, topic, at, waits, at_t, after) = end_close_cases w c d e in
      subst Filled (sym after) (
        Filled-leave w x.topic topic (record c { watchers = modify c.watchers w depart })
          (Filled-watcher c w depart (λ u. refl) (λ u full. full) filled))

  pub Filled-find_topic :
      (start : L) (path : K) (c : Hub K V L) → Filled c → Filled (find_topic start path c).1
  unfolding find_topic
  Filled-find_topic start path c filled = elim (Option-cases (lookup path c.topic)) [
    | inl fresh ↦
        rw (find_topic, fresh)
          (λ w x at full. Holds-append c.topics (new_topic start path) x.topic (filled w x at full))
    | inr known ↦ rw (find_topic, known.1) filled
  ]
