-- ===== src/Hub/Parts.antt =====
-- Topics with watchers: the part of Close under the lock. The watcher leaves its topic;
-- a topic that is left empty is dropped.
use tsf_go.Base.{
  ℕ, List, none, some, Bool, true, false, if◌then◌else◌, get_elem?, modify, ◌≡◌, refl, ◌≢◌, ◌∙◌, ap,
  lookup, Bool-cases, inl, inr, delete, int_comparable, Comparable, sym, nat_eqb, modify_at,
  of_modify, lookup-delete, if-true, if-false, some-injective, same_self, arith,
}
use tsf_go.Hub.{Hub, Topic, Watcher, depart, remove_watcher, cancel_topic, is_gone}
use tsf_go.Hub.Live.{Linked}

still_there :
    (w v : ℕ) (watchers : List Watcher) {watcher : Watcher}
    → nat_eqb w v ≡ false
    → get_elem? watchers v ≡ some watcher
    → get_elem? (modify watchers w depart) v ≡ some watcher
still_there w v watchers {watcher} other at =
    modify_at watchers w v depart at ∙ ap some (if-false (depart watcher) watcher other)

module _ {K V L : Type 0} ⦃k : Comparable K⦄ where
  -- What stands at a place after a change elsewhere, and at the place itself.
  pub elsewhere :
      (t s : ℕ) (f : (Topic K V L) → (Topic K V L)) (topics : List (Topic K V L))
      {topic : Topic K V L}
      → nat_eqb t s ≡ false
      → get_elem? (modify topics t f) s ≡ some topic
      → get_elem? topics s ≡ some topic
  elsewhere t s f topics {topic} other at =
      let old = of_modify topics t s f at in
      old.1 ∙ ap some (sym (old.2 ∙ if-false (f old.0) old.0 other))

  pub at_itself :
      (t s : ℕ) (f : (Topic K V L) → (Topic K V L)) (topics : List (Topic K V L))
      {topic : Topic K V L}
      → nat_eqb t s ≡ true
      → get_elem? (modify topics t f) s ≡ some topic
      → (x : Topic K V L) × (get_elem? topics s ≡ some x) × (topic ≡ f x)
  at_itself t s f topics here at =
      let old = of_modify topics t s f at in (old.0, old.1, old.2 ∙ if-true (f old.0) old.0 here)

  pub stays :
      (t s : ℕ) (f : (Topic K V L) → (Topic K V L)) (topics : List (Topic K V L))
      {topic : Topic K V L}
      → nat_eqb t s ≡ false
      → get_elem? topics s ≡ some topic
      → get_elem? (modify topics t f) s ≡ some topic
  stays t s f topics {topic} other at =
      modify_at topics t s f at ∙ ap some (if-false (f topic) topic other)

  -- The source after the watcher w has left the topic t.
  abbrev pub part : ℕ → ℕ → Hub K V L → Hub K V L
  part w t c = record c {
    topics = modify c.topics t (remove_watcher w);
    watchers = modify c.watchers w depart;
  }

  -- The source after the empty topic t is dropped.
  abbrev pub drop_topic : ℕ → K → Hub K V L → Hub K V L
  drop_topic t path c = record c {
    topic = delete path c.topic;
    topics = modify c.topics t cancel_topic;
  }

  at_part :
      (w t s : ℕ) (topics : List (Topic K V L)) {x : Topic K V L}
      → get_elem? topics s ≡ some x
      → (topic : Topic K V L) × (get_elem? (modify topics t (remove_watcher w)) s ≡ some topic)
        × (topic.path ≡ x.path)
        × (topic.cancelled ≡ x.cancelled)
        × (topic.watcher ≡ (if nat_eqb t s then delete w x.watcher else x.watcher))
  at_part w t s topics {x} at = elim (Bool-cases (nat_eqb t s)) [
    | inl here ↦ (
      remove_watcher w x,
      modify_at topics t s (remove_watcher w) at ∙ ap some (if-true (remove_watcher w x) x here),
      refl,
      refl,
      sym (if-true (delete w x.watcher) x.watcher here),
    )
    | inr there ↦ (
      x,
      stays t s (remove_watcher w) topics there at,
      refl,
      refl,
      sym (if-false (delete w x.watcher) x.watcher there),
    )
  ]

  pub of_part :
      (w t s : ℕ) (topics : List (Topic K V L)) {topic : Topic K V L}
      → get_elem? (modify topics t (remove_watcher w)) s ≡ some topic
      → (x : Topic K V L) × (get_elem? topics s ≡ some x)
        × (topic.path ≡ x.path)
        × (topic.cancelled ≡ x.cancelled)
        × (topic.watcher ≡ (if nat_eqb t s then delete w x.watcher else x.watcher))
  of_part w t s topics {topic} at = elim (Bool-cases (nat_eqb t s)) [
    | inl here ↦
        let old = at_itself t s (remove_watcher w) topics here at in
        (
          old.0,
          old.1,
          ap (λ x. x.path) old.2,
          ap (λ x. x.cancelled) old.2,
          ap (λ x. x.watcher) old.2 ∙ sym (if-true (delete w old.0.watcher) old.0.watcher here),
        )
    | inr there ↦ (
      topic,
      elsewhere t s (remove_watcher w) topics there at,
      refl,
      refl,
      sym (if-false (delete w topic.watcher) topic.watcher there),
    )
  ]

  -- Who else is in the set after the watcher has left.
  other_left :
      (x : Topic K V L) (v w : ℕ) (b : Bool)
      → nat_eqb v w ≡ false
      → lookup v (if b then delete w x.watcher else x.watcher) ≡ lookup v x.watcher
  other_left x v w true other =
      lookup-delete w v x.watcher ∙ if-false none (lookup v x.watcher) other
  other_left x v w false other = refl

  gone_left : (x : Topic K V L) (w : ℕ) → lookup w (delete w x.watcher) ≡ none
  gone_left x w = lookup-delete w w x.watcher ∙ if-true none (lookup w x.watcher) (same_self w)

  -- A watcher that has left is in no topic's set.
  left_it :
      (w t s v : ℕ) (x : Topic K V L) (watcher : Watcher) (c : Hub K V L)
      → get_elem? c.watchers w ≡ some watcher
      → watcher.topic ≡ t
      → Linked c
      → v ≡ w
      → get_elem? c.topics s ≡ some x
      → lookup v (if nat_eqb t s then delete w x.watcher else x.watcher) ≢ some tt
  left_it w t s v x watcher c at_w its_topic links is_w at within =
      elim (Bool-cases (nat_eqb t s)) [
        | inl here ↦
            let empty =
              ap (lookup v) (if-true (delete w x.watcher) x.watcher here)
              ∙ ap (λ u. lookup u (delete w x.watcher)) is_w
              ∙ gone_left x w in
            cc
        | inr there ↦
            let before =
              ap (lookup v) (sym (if-false (delete w x.watcher) x.watcher there)) ∙ within in
            let its = links.inside s x v at before in
            let one =
              some-injective its.0 watcher (sym its.1 ∙ ap (get_elem? c.watchers) is_w ∙ at_w) in
            let is_t = sym its_topic ∙ sym (ap (λ x. x.topic) one) ∙ its.2 in
            let itself = (int_comparable.same_iff t s).1 is_t in cc
      ]

  pub Linked-part :
      (w t : ℕ) (watcher : Watcher) (c : Hub K V L)
      → get_elem? c.watchers w ≡ some watcher
      → watcher.topic ≡ t
      → Linked c
      → Linked (part w t c)
  Linked-part w t watcher c at_w its_topic links = record {
    mapped = λ path s e.
        let old = links.mapped path s e in
        let now = at_part w t s c.topics old.1 in (now.0, now.1, now.2 ∙ old.2, now.3 ∙ old.3);
    kept = λ s topic at open_.
        let old = of_part w t s c.topics at in
        ap (λ p. lookup p c.topic) old.2 ∙ links.kept s old.0 old.1 (sym old.3 ∙ open_);
    inside = λ s topic v at within.
        let old = of_part w t s c.topics at in
        elim (Bool-cases (nat_eqb v w)) [
          | inl gone ↦ absurd (
              left_it w t s v old.0 watcher c at_w its_topic links
                ((int_comparable.same_iff v w).0 gone) old.1 (ap (lookup v) (sym old.4) ∙ within))
          | inr other ↦
              let before =
                sym (other_left old.0 v w (nat_eqb t s) other)
                ∙ ap (lookup v) (sym old.4)
                ∙ within in
              let its = links.inside s old.0 v old.1 before in
              (its.0, still_there w v c.watchers (ground arith) its.1, its.2, its.3, old.3 ∙ its.4)
        ];
    served = λ v other_one at open_. elim (Bool-cases (nat_eqb w v)) [
      | inl gone ↦ absurd (
          let old = of_modify c.watchers w v depart at in
          let same = ap (λ x. is_gone x.phase) (old.2 ∙ if-true (depart old.0) old.0 gone) in cc)
      | inr other ↦
          let old = of_modify c.watchers w v depart at in
          let same = old.2 ∙ if-false (depart old.0) old.0 other in
          let its = links.served v old.0 old.1 (sym (ap (λ x. is_gone x.phase) same) ∙ open_) in
          let now = at_part w t old.0.topic c.topics its.1 in
          (
            now.0,
            ap (λ x. get_elem? (modify c.topics t (remove_watcher w)) x.topic) same ∙ now.1,
            ap (lookup v) now.4
                ∙ other_left its.0 v w (nat_eqb t old.0.topic) (ground arith)
                ∙ its.2,
          )
    ];
  }
