-- ===== src/Hub/Closes.antt =====
-- Topics with watchers: Close keeps the links, and drops a topic exactly when it is left empty.
use tsf_go.Base.{
  ℕ, List, [], ◌∷◌, none, some, true, false, if◌then◌else◌, get_elem?, ◌≡◌, refl, ◌∙◌, ap, lookup,
  Bool-cases, not, modify, inl, inr, delete, int_comparable, Comparable, sym, nat_eqb, modify_at,
  lookup-delete, if-true, if-false, ◌==◌, some-injective, is_empty, same_self, ◌≢◌, ◌>>=◌,
  >>=-eq-some, subst,
}
use tsf_go.Hub.{
  Hub, Topic, Watcher, remove_watcher, cancel_topic, close, begin_close, end_close, leave, depart,
  cancel_watcher, is_closing, is_gone, is_done, Phase, watching, closing, departed,
}
use tsf_go.Hub.Live.{Linked, Manned}
use tsf_go.Hub.Parts.{Linked-part, part, drop_topic, elsewhere, stays, at_itself}

empty_set : (v : ℕ) (m : List (ℕ × Unit {0})) → is_empty m ≡ true → lookup v m ≢ some tt
unfolding lookup
empty_set v [] e within = cc
empty_set v (entry ∷ m) e within = cc

someone : (m : List (ℕ × Unit {0})) → is_empty m ≡ false → (w : ℕ) × (lookup w m ≡ some tt)
unfolding lookup
someone [] e = absurd (cc)
someone ((w, u) ∷ m) e = (w, if-true (some u) (lookup w m) (same_self w))

phase_there : (p : Phase) → is_closing p ≡ true → is_gone p ≡ false
phase_there watching e = refl
phase_there closing e = refl
phase_there departed e = absurd (cc)

module _ {K V L : Type 0} ⦃k : Comparable K⦄ where
  -- The paths of two open topics differ.
  apart :
      (t s : ℕ) (x y : Topic K V L) (c : Hub K V L)
      → Linked c
      → get_elem? c.topics t ≡ some x
      → x.cancelled ≡ false
      → get_elem? c.topics s ≡ some y
      → y.cancelled ≡ false
      → nat_eqb t s ≡ false
      → (y.path == x.path) ≡ false
  apart t s x y c links at_t open_t at_s open_s other = elim (Bool-cases (y.path == x.path)) [
    | inl same ↦ absurd (
        let one = ap (λ p. lookup p c.topic) ((k.same_iff y.path x.path).0 same) in
        let is_t =
          some-injective t s
            (sym (links.kept t x at_t open_t) ∙ sym one ∙ links.kept s y at_s open_s) in
        let itself = (int_comparable.same_iff t s).1 is_t in cc)
    | inr differ ↦ differ
  ]

  Linked-drop :
      (t : ℕ) (x : Topic K V L) (c : Hub K V L)
      → get_elem? c.topics t ≡ some x
      → x.cancelled ≡ false
      → is_empty x.watcher ≡ true
      → Linked c
      → Linked (drop_topic t x.path c)
  Linked-drop t x c at_t open_t empty links = record {
    mapped = λ path s e.
        let now = sym (lookup-delete x.path path c.topic) ∙ e in
        elim (Bool-cases (path == x.path)) [
          | inl gone ↦ absurd (let no = if-true none (lookup path c.topic) gone in cc)
          | inr other ↦
              let its =
                links.mapped path s (sym (if-false none (lookup path c.topic) other) ∙ now) in
              elim (Bool-cases (nat_eqb t s)) [
                | inl here ↦ absurd (
                    let is_t = (int_comparable.same_iff t s).0 here in
                    let one =
                      some-injective its.0 x
                        (sym its.1 ∙ ap (get_elem? c.topics) (sym is_t) ∙ at_t) in
                    let same = (k.same_iff path x.path).1 (sym its.2 ∙ ap (λ y. y.path) one) in cc)
                | inr there ↦ (its.0, stays t s cancel_topic c.topics there its.1, its.2, its.3)
              ]
        ];
    kept = λ s topic at open_. elim (Bool-cases (nat_eqb t s)) [
      | inl here ↦
          absurd
            (let old = ap (λ y. y.cancelled) (at_itself t s cancel_topic c.topics here at).2 in cc)
      | inr there ↦
          let old = elsewhere t s cancel_topic c.topics there at in
          lookup-delete x.path topic.path c.topic
          ∙ if-false none (lookup topic.path c.topic)
              (apart t s x topic c links at_t open_t old open_ there)
          ∙ links.kept s topic old open_
    ];
    inside = λ s topic v at within. elim (Bool-cases (nat_eqb t s)) [
      | inl here ↦ absurd (
          let old = at_itself t s cancel_topic c.topics here at in
          let is_t = (int_comparable.same_iff t s).0 here in
          let one =
            some-injective old.0 x (sym old.1 ∙ ap (get_elem? c.topics) (sym is_t) ∙ at_t) in
          empty_set v x.watcher empty (
            ap (λ y. lookup v y.watcher) (sym one)
            ∙ ap (λ y. lookup v y.watcher) (sym old.2)
            ∙ within))
      | inr there ↦ links.inside s topic v (elsewhere t s cancel_topic c.topics there at) within
    ];
    served = λ v watcher at open_.
        let its = links.served v watcher at open_ in
        elim (Bool-cases (nat_eqb t watcher.topic)) [
          | inl here ↦ absurd (
              let is_t = (int_comparable.same_iff t watcher.topic).0 here in
              let one =
                some-injective its.0 x (sym its.1 ∙ ap (get_elem? c.topics) (sym is_t) ∙ at_t) in
              empty_set v x.watcher empty (ap (λ y. lookup v y.watcher) (sym one) ∙ its.2))
          | inr there ↦ (its.0, stays t watcher.topic cancel_topic c.topics there its.1, its.2)
        ];
  }

  -- A topic that the leaving watcher does not leave keeps its watchers.
  others_there :
      (w t s : ℕ) (c : Hub K V L) {topic : Topic K V L}
      → Manned c
      → nat_eqb t s ≡ false
      → get_elem? (part w t c).topics s ≡ some topic
      → topic.cancelled ≡ false
      → (v : ℕ) × (lookup v topic.watcher ≡ some tt)
  others_there w t s c {topic} manned there at open_ =
      manned s topic (elsewhere t s (remove_watcher w) c.topics there at) open_

  Manned-part :
      (w t : ℕ) (x : Topic K V L) (c : Hub K V L)
      → Manned c
      → get_elem? c.topics t ≡ some x
      → is_empty (delete w x.watcher) ≡ false
      → Manned (part w t c)
  Manned-part w t x c manned at_t left s topic at open_ = elim (Bool-cases (nat_eqb t s)) [
    | inl here ↦
        let old = at_itself t s (remove_watcher w) c.topics here at in
        let is_t = (int_comparable.same_iff t s).0 here in
        let one = some-injective old.0 x (sym old.1 ∙ ap (get_elem? c.topics) (sym is_t) ∙ at_t) in
        let its = someone (delete w x.watcher) left in
        (
          its.0,
          ap (λ y. lookup its.0 y.watcher) old.2
              ∙ ap (λ y. lookup its.0 (delete w y.watcher)) one
              ∙ its.1,
        )
    | inr there ↦ others_there w t s c manned there at open_
  ]

  Manned-drop :
      (w t : ℕ) (path : K) (c : Hub K V L) → Manned c → Manned (drop_topic t path (part w t c))
  Manned-drop w t path c manned s topic at open_ = elim (Bool-cases (nat_eqb t s)) [
    | inl here ↦ absurd (
        let old =
          ap (λ y. y.cancelled) (at_itself t s cancel_topic (part w t c).topics here at).2 in
        cc)
    | inr there ↦
        others_there w t s c manned there (elsewhere t s cancel_topic (part w t c).topics there at)
          open_
  ]

  -- The end of a Close, in its halves.
  pub end_close_halves :
      (w : ℕ) (watcher : Watcher) (topic : Topic K V L) (c : Hub K V L)
      → get_elem? c.watchers w ≡ some watcher
      → is_closing watcher.phase ≡ true
      → get_elem? c.topics watcher.topic ≡ some topic
      → end_close w c
        ≡ some (
            if is_empty (delete w topic.watcher)
            then drop_topic watcher.topic topic.path (part w watcher.topic c)
            else part w watcher.topic c)
  unfolding end_close leave
  end_close_halves w watcher topic c at_w waits at_t =
      rw (end_close, at_w) (rw (waits, at_t, leave) refl)

  -- A Close that ends was waiting for the lock.
  pub end_close_cases :
      (w : ℕ) (c d : Hub K V L)
      → end_close w c ≡ some d
      → (x : Watcher) × (topic : Topic K V L) × (get_elem? c.watchers w ≡ some x)
        × (is_closing x.phase ≡ true)
        × (get_elem? c.topics x.topic ≡ some topic)
        × (d ≡ leave w x.topic topic (record c { watchers = modify c.watchers w depart }))
  unfolding end_close
  end_close_cases w c d e =
      let (x, at, e₁) = >>=-eq-some (get_elem? c.watchers w) _ e in
      elim (Bool-cases (is_closing x.phase)) [
        | inl waits ↦
            let (topic, at_t, e₂) =
              >>=-eq-some (get_elem? c.topics x.topic) _
                (sym (if-false none _ (ap not waits)) ∙ e₁) in
            (x, topic, at, waits, at_t, sym (some-injective _ d e₂))
        | inr none_waits ↦ absurd (let no = sym (if-true none _ (ap not none_waits)) ∙ e₁ in cc)
      ]

  end_close_ends :
      (w : ℕ) (watcher : Watcher) (c : Hub K V L)
      → get_elem? c.watchers w ≡ some watcher
      → is_closing watcher.phase ≡ true
      → Linked c
      → (d : Hub K V L) × (end_close w c ≡ some d) × (Linked d) × (Manned c → Manned d)
  end_close_ends w watcher c at_w waits links =
      let t = watcher.topic in
      let topic = links.served w watcher at_w (phase_there watcher.phase waits) in
      let parted = Linked-part w t watcher c at_w refl links in
      let its = links.inside t topic.0 w topic.1 topic.2 in
      let after = end_close_halves w watcher topic.0 c at_w waits topic.1 in
      elim (Bool-cases (is_empty (delete w topic.0.watcher))) [
        | inl empty ↦
            let dropped = drop_topic t topic.0.path (part w t c) in
            (
              dropped,
              after ∙ ap some (if-true dropped (part w t c) empty),
              Linked-drop t (remove_watcher w topic.0) (part w t c)
                  (modify_at c.topics t t (remove_watcher w) topic.1
                    ∙ ap some (if-true (remove_watcher w topic.0) topic.0 (same_self t)))
                  its.4 empty parted,
              λ manned. Manned-drop w t topic.0.path c manned,
            )
        | inr left ↦ (
          part w t c,
          after ∙ ap some (if-false (drop_topic t topic.0.path (part w t c)) (part w t c) left),
          parted,
          λ manned. Manned-part w t topic.0 c manned topic.1 left,
        )
      ]

  pub close_again :
      (w : ℕ) (x : Watcher) (c : Hub K V L)
      → get_elem? c.watchers w ≡ some x
      → is_done x.phase ≡ true
      → close w c ≡ some c
  unfolding close
  close_again w x c at gone = rw (close, at) (rw (gone) refl)

  -- Close of a watcher that is still open: its two parts.
  pub close_open :
      (w : ℕ) (x : Watcher) (c : Hub K V L)
      → get_elem? c.watchers w ≡ some x
      → x.phase ≡ watching
      → close w c ≡ end_close w (record c { watchers = modify c.watchers w cancel_watcher })
  unfolding close begin_close
  close_open w x c at open_ =
      let opened = ap is_done open_ in
      let begun = record c { watchers = modify c.watchers w cancel_watcher } in
      rw (close, at)
        (if-false (some c) _ opened
          ∙ ap (λ o. o >>= λ cancelled. end_close w cancelled)
              (if-false (some c) (some begun) opened))

  pub Linked-end_close : (w : ℕ) (c d : Hub K V L) → end_close w c ≡ some d → Linked c → Linked d
  Linked-end_close w c d e linked =
      let (x, topic, at, waits, at_t, rest) = end_close_cases w c d e in
      let (after, is_after, its_linked, its_manned) = end_close_ends w x c at waits linked in
      subst Linked (some-injective after d (sym is_after ∙ e)) its_linked

  pub Manned-end_close :
      (w : ℕ) (c d : Hub K V L) → end_close w c ≡ some d → Linked c → Manned c → Manned d
  Manned-end_close w c d e linked manned =
      let (x, topic, at, waits, at_t, rest) = end_close_cases w c d e in
      let (after, is_after, its_linked, its_manned) = end_close_ends w x c at waits linked in
      subst Manned (some-injective after d (sym is_after ∙ e)) (its_manned manned)
