-- ===== src/Hub/Joins.antt =====
-- Topics with watchers: a watcher that joins a topic keeps the links.
use tsf_go.Base.{
  ℕ, List, [], ◌∷◌, some, Bool, true, false, if◌then◌else◌, if-true, if-false, same_self, ◌++◌,
  get_elem?, modify, ◌≡◌, refl, ◌∙◌, ap, lookup, Bool-cases, inl, inr, some-injective, length,
  insert, int_comparable, Comparable, sym, nat_eqb, modify_at, of_modify, some_append, of_append,
  some_lt, lookup-insert, arith, nat_eqb_iff, get_elem?_last, lookup-insert_self, ◌<◌,
}
use tsf_go.Hub.{Hub, Topic, join, add_watcher, watching}
use tsf_go.Hub.Live.{Linked}

pub differs : (v w : ℕ) → v < w → nat_eqb v w ≡ false
differs v w below = ground arith

module _ {K V L : Type 0} ⦃k : Comparable K⦄ where
  -- A topic after a watcher has joined the topic t: only the set of t has changed.
  pub of_join :
      (t w s : ℕ) (topics : List (Topic K V L)) {topic : Topic K V L}
      → get_elem? (modify topics t (add_watcher w)) s ≡ some topic
      → (x : Topic K V L) × (get_elem? topics s ≡ some x)
        × (topic.path ≡ x.path)
        × (topic.cancelled ≡ x.cancelled)
        × (topic.watcher ≡ (if nat_eqb t s then insert w tt x.watcher else x.watcher))
  of_join t w s topics at =
      let old = of_modify topics t s (add_watcher w) at in
      elim (Bool-cases (nat_eqb t s)) [
        | inl here ↦
            let now = old.2 ∙ if-true (add_watcher w old.0) old.0 here in
            (
              old.0,
              old.1,
              ap (λ x. x.path) now,
              ap (λ x. x.cancelled) now,
              ap (λ x. x.watcher) now
                  ∙ sym (if-true (insert w tt old.0.watcher) old.0.watcher here),
            )
        | inr there ↦
            let now = old.2 ∙ if-false (add_watcher w old.0) old.0 there in
            (
              old.0,
              old.1,
              ap (λ x. x.path) now,
              ap (λ x. x.cancelled) now,
              ap (λ x. x.watcher) now
                  ∙ sym (if-false (insert w tt old.0.watcher) old.0.watcher there),
            )
      ]

  at_join :
      (t w s : ℕ) (topics : List (Topic K V L)) {x : Topic K V L}
      → get_elem? topics s ≡ some x
      → (topic : Topic K V L) × (get_elem? (modify topics t (add_watcher w)) s ≡ some topic)
        × (topic.path ≡ x.path)
        × (topic.cancelled ≡ x.cancelled)
        × (topic.watcher ≡ (if nat_eqb t s then insert w tt x.watcher else x.watcher))
  at_join t w s topics {x} at =
      let now = modify_at topics t s (add_watcher w) at in
      elim (Bool-cases (nat_eqb t s)) [
        | inl here ↦ (
          add_watcher w x,
          now ∙ ap some (if-true (add_watcher w x) x here),
          refl,
          refl,
          sym (if-true (insert w tt x.watcher) x.watcher here),
        )
        | inr there ↦ (
          x,
          now ∙ ap some (if-false (add_watcher w x) x there),
          refl,
          refl,
          sym (if-false (insert w tt x.watcher) x.watcher there),
        )
      ]

  -- Who is in the set before another one joins, and after.
  still :
      (x : Topic K V L) (v w : ℕ) (b : Bool)
      → nat_eqb v w ≡ false
      → lookup v (if b then insert w tt x.watcher else x.watcher) ≡ lookup v x.watcher
  still x v w true other =
      lookup-insert w v tt x.watcher ∙ if-false (some tt) (lookup v x.watcher) other
  still x v w false other = refl

  pub Linked-join :
      (event : Bool) (t : ℕ) (open_topic : Topic K V L) (c : Hub K V L)
      → get_elem? c.topics t ≡ some open_topic
      → open_topic.cancelled ≡ false
      → Linked c
      → Linked (join event t c)
  unfolding join
  Linked-join event t open_topic c at_t opened links =
      let w = length c.watchers in
      record {
        mapped = λ path s e.
            let old = links.mapped path s e in
            let now = at_join t w s c.topics old.1 in (now.0, now.1, now.2 ∙ old.2, now.3 ∙ old.3);
        kept = λ s topic at open_.
            let old = of_join t w s c.topics at in
            ap (λ p. lookup p c.topic) old.2 ∙ links.kept s old.0 old.1 (sym old.3 ∙ open_);
        inside = λ s topic v at within.
            let old = of_join t w s c.topics at in
            elim (Bool-cases (nat_eqb v w)) [
              | inl new ↦
                  let is_w = (nat_eqb_iff v w).0 new in
                  elim (Bool-cases (nat_eqb t s)) [
                    | inl here ↦
                        let is_t = (nat_eqb_iff t s).0 here in
                        let same =
                          some-injective old.0 open_topic
                            (sym old.1 ∙ ap (get_elem? c.topics) (sym is_t) ∙ at_t) in
                        (
                          record { topic = t; event = event; phase = watching },
                          ap
                                (get_elem? (
                                  c.watchers
                                  ++ (record { topic = t; event = event; phase = watching } ∷ [])))
                                is_w
                              ∙ get_elem?_last c.watchers _,
                          is_t,
                          refl,
                          old.3 ∙ ap (λ x. x.cancelled) same ∙ opened,
                        )
                    | inr there ↦
                        let before =
                          ap (lookup v)
                            (sym (if-false (insert w tt old.0.watcher) old.0.watcher there))
                          ∙ ap (lookup v) (sym old.4)
                          ∙ within in
                        let below = some_lt c.watchers v (links.inside s old.0 v old.1 before).1 in
                        absurd (omega arith)
                  ]
              | inr other ↦
                  let before =
                    sym (still old.0 v w (nat_eqb t s) other)
                    ∙ ap (lookup v) (sym old.4)
                    ∙ within in
                  let its = links.inside s old.0 v old.1 before in
                  (its.0, some_append c.watchers _ v its.1, its.2, its.3, old.3 ∙ its.4)
            ];
        served = λ v watcher at open_. elim (of_append c.watchers _ v at) [
          | inl old ↦
              let its = links.served v watcher old open_ in
              let now = at_join t w watcher.topic c.topics its.1 in
              (
                now.0,
                now.1,
                ap (lookup v) now.4
                    ∙ still its.0 v w (nat_eqb t watcher.topic)
                        (differs v w (some_lt c.watchers v old))
                    ∙ its.2,
              )
          | inr new ↦
              let now = at_join t w t c.topics at_t in
              (
                now.0,
                ap (λ x. get_elem? (modify c.topics t (add_watcher w)) x.topic) new.1 ∙ now.1,
                ap (lookup v) (
                      now.4
                      ∙ if-true (insert w tt open_topic.watcher) open_topic.watcher (same_self t))
                    ∙ ap (λ x. lookup x (insert w tt open_topic.watcher)) new.0
                    ∙ lookup-insert_self w tt open_topic.watcher,
              )
        ];
      }
