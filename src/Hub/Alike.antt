-- ===== src/Hub/Alike.antt =====
-- Topics with watchers: the steps that change no link, that is, those that touch only what the
-- topics hold, the events, and where the goroutines stand.
use tsf_go.Base.{
  ℕ, List, [], ◌∷◌, Option, some, Bool, if◌then◌else◌, get_elem?, modify, ◌≡◌, refl, ◌∙◌, map,
  same_image, map-modify, ap, lookup, int_comparable, Comparable, sym, Bool-cases, inl, inr, sym,
  subst, some-injective, if-true, if-false, >>=-eq-some, ◌⊎◌,
}
use tsf_go.Hub.Awaits.{await_cases}
use tsf_go.Hub.{
  Hub, Topic, Watcher, finish, await, Ready, goto, set_loop, set_spec, fill, clear, notify, store,
  broadcast, watchers_of, is_gone, is_done, Phase, watching, closing, departed, cancel_phase,
  cancel_watcher, begin_close,
}
use tsf_go.Hub.Live.{Linked, Manned}

abbrev tie : Watcher → ℕ × Bool
tie w = (w.topic, is_gone w.phase)

notify_ties :
    (ws : List ℕ) (watchers : List Watcher) → map tie (notify ws watchers) ≡ map tie watchers
unfolding notify
notify_ties [] watchers = refl
notify_ties (w ∷ ws) watchers =
    notify_ties ws (modify watchers w fill) ∙ map-modify tie fill watchers w (λ x. refl)

module _ {K V L : Type 0} where
  abbrev seat : (Topic K V L) → K × Bool × List (ℕ × Unit {0})
  seat topic = (topic.path, topic.cancelled, topic.watcher)

-- The second state has the first one's links.
pub record Alike {K V L : Type 0} (c d : Hub K V L) : Type 0 where
  pub same_map : d.topic ≡ c.topic
  pub same_topics : map seat d.topics ≡ map seat c.topics
  pub same_watchers : map tie d.watchers ≡ map tie c.watchers

module _ {K V L : Type 0} where
  pub Alike-trans : (a b c : Hub K V L) → Alike a b → Alike b c → Alike a c
  Alike-trans a b c p q = record {
    same_map = q.same_map ∙ p.same_map;
    same_topics = q.same_topics ∙ p.same_topics;
    same_watchers = q.same_watchers ∙ p.same_watchers;
  }

  pub Alike-self : (c : Hub K V L) → Alike c c
  Alike-self c = record { same_map = refl; same_topics = refl; same_watchers = refl }

  pub Alike-goto : (t : ℕ) (loop : L) (c : Hub K V L) → Alike c (goto t loop c)
  Alike-goto t loop c = record {
    same_map = refl;
    same_topics = map-modify seat (set_loop loop) c.topics t (λ topic. refl);
    same_watchers = refl;
  }

  pub Alike-broadcast : (t : ℕ) (res : V) (c : Hub K V L) → Alike c (broadcast t res c)
  unfolding broadcast store
  Alike-broadcast t res c = record {
    same_map = refl;
    same_topics = map-modify seat (set_spec res) c.topics t (λ topic. refl);
    same_watchers = notify_ties (watchers_of t (store t res c)) c.watchers;
  }

  pub Alike-finish :
      (returned : L) (t : ℕ) (topic : Topic K V L) (c : Hub K V L)
      → Alike c (finish returned t topic c)
  unfolding finish
  Alike-finish returned t topic c = elim (Bool-cases topic.cancelled) [
    | inl done ↦ rw (finish, done, if◌then◌else◌) (Alike-goto t returned c)
    | inr open_ ↦ rw (finish, open_, if◌then◌else◌) (Alike-self c)
  ]

  pub Alike-await :
      (ready : Ready) (w : ℕ) (answer : Option V) (c d : Hub K V L)
      → await ready w c ≡ some (answer, d)
      → Alike c d
  Alike-await ready w answer c d e = elim (await_cases ready w answer c d e) [
    | inl same ↦ subst (Alike c) (sym same) (Alike-self c)
    | inr cleared ↦ subst (Alike c) (sym cleared) (record {
      same_map = refl;
      same_topics = refl;
      same_watchers = map-modify tie clear c.watchers w (λ x. refl);
    })
  ]

gone_cancel : (p : Phase) → is_gone (cancel_phase p) ≡ is_gone p
gone_cancel watching = refl
gone_cancel closing = refl
gone_cancel departed = refl

module _ {K V L : Type 0} ⦃k : Comparable K⦄ where
  -- Close up to the lock changes nothing, or cancels the watcher.
  pub begin_close_cases :
      (w : ℕ) (c d : Hub K V L)
      → begin_close w c ≡ some d
      → (d ≡ c) ⊎ (d ≡ record c { watchers = modify c.watchers w cancel_watcher })
  unfolding begin_close
  begin_close_cases w c d e =
      let (x, at, e₁) = >>=-eq-some (get_elem? c.watchers w) _ e in
      elim (Bool-cases (is_done x.phase)) [
        | inl done ↦ inl (sym (some-injective c d (sym (if-true (some c) _ done) ∙ e₁)))
        | inr open_ ↦ inr (sym (some-injective _ d (sym (if-false (some c) _ open_) ∙ e₁)))
      ]

  pub Alike-cancel :
      (w : ℕ) (c : Hub K V L) → Alike c (record c { watchers = modify c.watchers w cancel_watcher })
  Alike-cancel w c = record {
    same_map = refl;
    same_topics = refl;
    same_watchers =
        map-modify tie cancel_watcher c.watchers w
          (λ (x : Watcher). ap (λ b. (x.topic, b)) (gone_cancel x.phase));
  }

  pub Alike-begin_close : (w : ℕ) (c d : Hub K V L) → begin_close w c ≡ some d → Alike c d
  Alike-begin_close w c d e = elim (begin_close_cases w c d e) [
    | inl same ↦ subst (Alike c) (sym same) (Alike-self c)
    | inr cancelled ↦ subst (Alike c) (sym cancelled) (Alike-cancel w c)
  ]

module _ {K V L : Type 0} ⦃k : Comparable K⦄ where
  -- Links are kept by a step that changes none.
  pub Linked-Alike : (c d : Hub K V L) → Alike c d → Linked c → Linked d
  Linked-Alike c d same links = record {
    mapped = λ path t e.
        let old = links.mapped path t (ap (lookup path) (sym same.same_map) ∙ e) in
        let now = same_image seat c.topics d.topics t (sym same.same_topics) old.1 in
        (now.0, now.1, ap (λ s. s.0) now.2 ∙ old.2, ap (λ s. s.1) now.2 ∙ old.3);
    kept = λ t topic at open_.
        let old = same_image seat d.topics c.topics t same.same_topics at in
        ap (λ p. lookup p d.topic) (ap (λ s. s.0) (sym old.2))
        ∙ ap (lookup old.0.path) same.same_map
        ∙ links.kept t old.0 old.1 (ap (λ s. s.1) old.2 ∙ open_);
    inside = λ t topic w at within.
        let old = same_image seat d.topics c.topics t same.same_topics at in
        let its = links.inside t old.0 w old.1 (ap (λ s. lookup w s.2) old.2 ∙ within) in
        let now = same_image tie c.watchers d.watchers w (sym same.same_watchers) its.1 in
        (
          now.0,
          now.1,
          ap (λ s. s.0) now.2 ∙ its.2,
          ap (λ s. s.1) now.2 ∙ its.3,
          ap (λ s. s.1) (sym old.2) ∙ its.4,
        );
    served = λ w watcher at open_.
        let old = same_image tie d.watchers c.watchers w same.same_watchers at in
        let its = links.served w old.0 old.1 (ap (λ s. s.1) old.2 ∙ open_) in
        let now = same_image seat c.topics d.topics old.0.topic (sym same.same_topics) its.1 in
        (
          now.0,
          ap (get_elem? d.topics) (ap (λ s. s.0) (sym old.2)) ∙ now.1,
          ap (λ s. lookup w s.2) now.2 ∙ its.2,
        );
  }

  pub Manned-Alike : (c d : Hub K V L) → Alike c d → Manned c → Manned d
  Manned-Alike c d same manned t topic at open_ =
      let old = same_image seat d.topics c.topics t same.same_topics at in
      let its = manned t old.0 old.1 (ap (λ s. s.1) old.2 ∙ open_) in
      (its.0, ap (λ s. lookup its.0 s.2) (sym old.2) ∙ its.1)
