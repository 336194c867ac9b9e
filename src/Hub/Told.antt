-- ===== src/Hub/Told.antt =====
-- Topics with watchers: what a watcher sees of a broadcast, and of its own Close.
use tsf_go.Base.{
  ℕ, List, [], ◌∷◌, none, some, true, false, if◌then◌else◌, get_elem?, modify, lookup, delete, keys,
  is_empty, ◌≡◌, refl, ◌∙◌, ap, Bool-cases, inl, inr, ◌⊎◌, some-injective, if-true, if-false,
  nat_eqb, modify_at, sym, int_comparable, Comparable, same_self, arith, lookup-delete, ◌>>=◌,
}
use tsf_go.Hub.{
  Hub, Topic, Watcher, close, cancel_watcher, set_spec, broadcast, store, watchers_of, notify, fill,
  held, await, watcher_done, notified, clear, depart, end_close, is_done, is_gone, is_closing,
  cancel_phase, watching,
}
use tsf_go.Hub.Live.{Linked}
use tsf_go.Hub.Parts.{part, drop_topic}
use tsf_go.Hub.Closes.{close_open, close_again, end_close_halves}
use tsf_go.Hub.Alike.{Alike-cancel, Linked-Alike}

-- The watchers of a set are notified.
notify_set :
    (w : ℕ) (m : List (ℕ × Unit {0})) (watchers : List Watcher) (x : Watcher)
    → get_elem? watchers w ≡ some x
    → ((lookup w m ≡ some tt) ⊎ (x.event ≡ true))
    → (y : Watcher) × (get_elem? (notify (keys m) watchers) w ≡ some y)
      × (y.event ≡ true)
      × (y.topic ≡ x.topic)
unfolding notify lookup
notify_set w [] watchers x at (inl within) = absurd (cc)
notify_set w [] watchers x at (inr full) = (x, at, full, refl)
notify_set w ((v, u) ∷ m) watchers x at known =
    let now = modify_at watchers v w fill at in
    elim (Bool-cases (nat_eqb v w)) [
      | inl here ↦
          notify_set w m (modify watchers v fill) (fill x) (now ∙ ap some (if-true (fill x) x here))
            (inr refl)
      | inr other ↦
          notify_set w m (modify watchers v fill) x (now ∙ ap some (if-false (fill x) x other))
            (elim known [
              | inl within ↦ inl (sym (if-false (some u) (lookup w m) (ground arith)) ∙ within)
              | inr full ↦ inr full
            ])
    ]

module _ {K V L : Type 0} ⦃k : Comparable K⦄ where
  -- After a broadcast to its topic a watcher that has not left reads what was broadcast, and then waits.
  pub await-broadcast :
      (w : ℕ) (x : Watcher) (res : V) (c : Hub K V L)
      → Linked c
      → get_elem? c.watchers w ≡ some x
      → is_gone x.phase ≡ false
      → (d : Hub K V L) × (await notified w (broadcast x.topic res c) ≡ some (some res, d))
        × (await notified w d ≡ none)
  unfolding await broadcast store watchers_of
  await-broadcast w x res c linked at open_ =
      let topic = linked.served w x at open_ in
      let now =
        modify_at c.topics x.topic x.topic (set_spec res) topic.1
        ∙ ap some (if-true (set_spec res topic.0) topic.0 (same_self x.topic)) in
      let (y, at_y, full, its) = notify_set w topic.0.watcher c.watchers x at (inl topic.2) in
      let after = broadcast x.topic res c in
      let seen =
        ap (λ o. get_elem? (notify (elim o [ none ↦ [] | some u ↦ keys u.watcher ]) c.watchers) w)
          now
        ∙ at_y in
      let cleared =
        modify_at after.watchers w w clear seen ∙ ap some (if-true (clear y) y (same_self w)) in
      (
        record after { watchers = modify after.watchers w clear },
        ap
              (λ o. o >>= λ u.
                if u.event
                then some (
                  held (get_elem? after.topics u.topic),
                  record after { watchers = modify after.watchers w clear },
                )
                else none)
              seen
            ∙ if-true _ none full
            ∙ ap (λ s. some (s, record after { watchers = modify after.watchers w clear }))
                (ap (λ t. held (get_elem? after.topics t)) its ∙ ap held now),
        ap
            (λ o. o >>= λ u.
              if u.event
              then some (
                held (get_elem? after.topics u.topic),
                record after { watchers = modify (modify after.watchers w clear) w clear },
              )
              else none)
            cleared,
      )

  -- The end of a Close that waits for the lock: the watcher is done, and a further Close changes
  -- nothing. The map loses the topic if that was its last watcher, and keeps it otherwise.
  end_close_lem :
      (w : ℕ) (x : Watcher) (topic : Topic K V L) (c : Hub K V L)
      → Linked c
      → get_elem? c.watchers w ≡ some x
      → is_closing x.phase ≡ true
      → is_gone x.phase ≡ false
      → get_elem? c.topics x.topic ≡ some topic
      → (d : Hub K V L) × (end_close w c ≡ some d)
        × (await watcher_done w d ≡ some (none, d))
        × (close w d ≡ some d)
        × (lookup topic.path d.topic
            ≡ (if is_empty (delete w topic.watcher) then none else some x.topic))
  unfolding await
  end_close_lem w x topic c linked at waits there at_topic =
      let after = end_close_halves w x topic c at waits at_topic in
      let now = modify_at c.watchers w w depart at ∙ ap some (if-true (depart x) x (same_self w)) in
      let its = linked.served w x at there in
      let one = some-injective its.0 topic (sym its.1 ∙ at_topic) in
      let its_open = (linked.inside x.topic its.0 w its.1 its.2).4 in
      let here = linked.kept x.topic topic at_topic (ap (λ t. t.cancelled) (sym one) ∙ its_open) in
      elim (Bool-cases (is_empty (delete w topic.watcher))) [
        | inl last ↦
            let d = drop_topic x.topic topic.path (part w x.topic c) in
            (
              d,
              after ∙ ap some (if-true d (part w x.topic c) last),
              ap (λ o. o >>= λ u. if is_done u.phase then some (none, d) else none) now,
              close_again w (depart x) d now refl,
              lookup-delete topic.path topic.path c.topic
                  ∙ if-true none (lookup topic.path c.topic) (same_self topic.path)
                  ∙ sym (if-true none (some x.topic) last),
            )
        | inr others ↦
            let d = part w x.topic c in
            (
              d,
              after ∙ ap some (if-false (drop_topic x.topic topic.path d) d others),
              ap (λ o. o >>= λ u. if is_done u.phase then some (none, d) else none) now,
              close_again w (depart x) d now refl,
              here ∙ sym (if-false none (some x.topic) others),
            )
      ]

  -- Close of an open watcher returns, the watcher is done from then on, and a second Close changes
  -- nothing. The map loses the topic if that was its last watcher, and keeps it otherwise.
  pub close_lem :
      (w : ℕ) (x : Watcher) (topic : Topic K V L) (c : Hub K V L)
      → Linked c
      → get_elem? c.watchers w ≡ some x
      → x.phase ≡ watching
      → get_elem? c.topics x.topic ≡ some topic
      → (d : Hub K V L) × (close w c ≡ some d)
        × (await watcher_done w d ≡ some (none, d))
        × (close w d ≡ some d)
        × (lookup topic.path d.topic
            ≡ (if is_empty (delete w topic.watcher) then none else some x.topic))
  close_lem w x topic c linked at open_ at_topic =
      let begun = record c { watchers = modify c.watchers w cancel_watcher } in
      let now =
        modify_at c.watchers w w cancel_watcher at
        ∙ ap some (if-true (cancel_watcher x) x (same_self w)) in
      let (d, ends, done, again, map) =
        end_close_lem w (cancel_watcher x) topic begun
          (Linked-Alike c begun (Alike-cancel w c) linked) now
          (ap (λ p. is_closing (cancel_phase p)) open_) (ap (λ p. is_gone (cancel_phase p)) open_)
          at_topic in
      (d, close_open w x c at open_ ∙ ends, done, again, map)

module _ {K V L : Type 0} where
  -- A watcher without an event waits.
  pub await_quiet :
      (w : ℕ) (x : Watcher) (c : Hub K V L)
      → get_elem? c.watchers w ≡ some x
      → x.event ≡ false
      → await notified w c ≡ none
  unfolding await
  await_quiet w x c at quiet = rw (await, at) (rw (quiet) refl)
