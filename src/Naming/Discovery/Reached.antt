-- ===== src/Naming/Discovery/Reached.antt =====
-- naming/consul/discovery.go: what holds of the discovery in every state that its steps reach, and
-- what a client sees.
use tsf_go.Base.{
  ℕ, String, List, Option, none, some, true, false, lookup, text_comparable, int_comparable,
  get_elem?, ◌≡◌, refl, Option-cases, inl, inr, ap, ◌∙◌, sym, subst, some-injective, >>=-eq-some,
}
use tsf_go.Http.{Reply}
use tsf_go.Hub.{new_hub, Ready, await, finish, held, notified, watcher_done, caller_done}
use tsf_go.Hub.Live.{Linked}
use tsf_go.Hub.Alike.{Alike, Alike-finish, Alike-await, Alike-begin_close, Linked-Alike}
use tsf_go.Hub.Subscribes.{Linked-attach, Linked-find_topic}
use tsf_go.Hub.Closes.{Linked-end_close}
use tsf_go.Hub.Topics.{
  All, All-modify, All-attach, All-begin_close, All-end_close, All-finish, All-find_topic,
  await_topics,
}
use tsf_go.Hub.Filled.{
  Filled, Filled-attach, Filled-finish, Filled-begin_close, Filled-end_close, Filled-await,
  Filled-find_topic,
}
use tsf_go.Naming.{Service, service_comparable}
use tsf_go.Naming.Kratos.{KratosInstance}
use tsf_go.Naming.Discovery.{
  Discovery, SvcInfo, Node, Next, first, returned, round, watch, pushes, get_service, next_event,
  begin_stop, end_stop, health_service, named, some_nodes,
}
use tsf_go.Naming.Discovery.Rounds.{
  Looping, Looping-Steady, Looping-returned, Looping-rounded, rounded, round_topics, Alike-round,
}

pushes_new : (svc : Service) (c : Discovery) → lookup svc c.topic ≡ none → pushes svc c ≡ false
unfolding pushes
pushes_new svc c new = rw (pushes, new) refl

pub pushes_at :
    (svc : Service) (c : Discovery) (t : ℕ)
    → lookup svc c.topic ≡ some t
    → pushes svc c ≡ some_nodes (held (get_elem? c.topics t))
unfolding pushes
pushes_at svc c t known = rw (pushes, known) refl

-- Watch pushes an event at once only for a service that has instances.
pub pushes_known :
    (svc : Service) (c : Discovery)
    → pushes svc c ≡ true
    → (t : ℕ) × (lookup svc c.topic ≡ some t)
      × ((known : List KratosInstance) × (held (get_elem? c.topics t) ≡ some known))
unfolding pushes
pushes_known svc c e = elim (Option-cases (lookup svc c.topic)) [
  | inl new ↦ absurd (let no = sym (pushes_new svc c new) ∙ e in cc)
  | inr known ↦ elim (Option-cases (held (get_elem? c.topics known.0))) [
    | inl nothing ↦ absurd (let no = sym (pushes_at svc c known.0 known.1) ∙ e in cc)
    | inr holds ↦ (known.0, known.1, (holds.0, holds.1))
  ]
]

module _ (own : String) (show_tags : List String → String) where
  -- A step: a call of a client, or a round of a service's goroutine. A Stop is two steps, with others in
  -- between; no second Stop of the same watcher passes the test before the first cancels.
  pub data Step : Discovery → Discovery → Type 0 where
    watches : (name : String) (c : Discovery) → Step c (watch name c).1
    gets : (name : String) (c : Discovery) → Step c (get_service name c).1
    rounds :
        (reply : Reply (List Node)) (t : ℕ) (svc : SvcInfo) (c : Discovery)
        → get_elem? c.topics t ≡ some svc
        → Step c (round own show_tags t (health_service reply) svc.loop c)
    finishes :
        (t : ℕ) (svc : SvcInfo) (c : Discovery)
        → get_elem? c.topics t ≡ some svc
        → Step c (finish returned t svc c)
    nexts :
        (ready : Ready) (w : ℕ) (answer : Next) (c after : Discovery)
        → next_event ready w c ≡ some (answer, after)
        → Step c after
    cancels : (w : ℕ) (c after : Discovery) → begin_stop w c ≡ some after → Step c after
    leaves : (w : ℕ) (c after : Discovery) → end_stop w c ≡ some after → Step c after

  pub data Reaches : Discovery → Discovery → Type 0 where
    here : (c : Discovery) → Reaches c c
    steps : (a b c : Discovery) → Reaches a b → Step b c → Reaches a c

  -- What holds of every state.
  pub record Settled (c : Discovery) : Type 0 where
    pub linked : Linked c
    pub filled : Filled c
    pub looping : All (Looping own show_tags) c

  Settled-Alike :
      (c d : Discovery)
      → Alike c d
      → Settled c
      → Filled d
      → All (Looping own show_tags) d
      → Settled d
  Settled-Alike c d same sound filled looping = record {
    linked = Linked-Alike c d same sound.linked;
    filled = filled;
    looping = looping;
  }

  Settled-await :
      (ready : Ready) (w : ℕ) (known : Option (List KratosInstance)) (c d : Discovery)
      → await ready w c ≡ some (known, d)
      → Settled c
      → Settled d
  Settled-await ready w known c d e sound =
      Settled-Alike c d (Alike-await ready w known c d e) sound
        (Filled-await ready w known c d e sound.filled)
        (subst (λ l. (s : ℕ) (x : SvcInfo) → get_elem? l s ≡ some x → Looping own show_tags x)
          (sym (await_topics ready w known c d e)) sound.looping)

  after_next : {x y : Next × Discovery} → some x ≡ some y → x.1 ≡ y.1
  after_next {x} {y} e = ap (λ p. p.1) (some-injective x y e)

  Settled-next_event :
      (ready : Ready) (w : ℕ) (answer : Next) (c d : Discovery)
      → next_event ready w c ≡ some (answer, d)
      → Settled c
      → Settled d
  unfolding next_event
  Settled-next_event caller_done w answer c d e sound = absurd (cc)
  Settled-next_event watcher_done w answer c d e sound =
      let (read, is_read, e₁) = >>=-eq-some (await watcher_done w c) _ e in
      subst Settled (after_next e₁) (Settled-await watcher_done w read.0 c read.1 is_read sound)
  Settled-next_event notified w answer c d e sound =
      let (read, is_read, e₁) = >>=-eq-some (await notified w c) _ e in
      subst Settled (after_next e₁) (Settled-await notified w read.0 c read.1 is_read sound)

  Settled-get_service : (name : String) (c : Discovery) → Settled c → Settled (get_service name c).1
  unfolding get_service
  Settled-get_service name c sound = elim (Option-cases (lookup (named name) c.topic)) [
    | inl new ↦
        rw (get_service, new)
          (record {
            linked = Linked-find_topic first (named name) c sound.linked;
            filled = Filled-find_topic first (named name) c sound.filled;
            looping =
                All-find_topic (Looping own show_tags) first (named name) c
                  (Looping-Steady own show_tags) sound.looping;
          })
    | inr known ↦ elim (Option-cases (held (get_elem? c.topics known.0))) [
      | inl nothing ↦ rw (get_service, known.1, nothing) sound
      | inr holds ↦ rw (get_service, known.1, holds.1) sound
    ]
  ]

  Looping-round :
      (reply : Reply (List Node)) (t : ℕ) (svc : SvcInfo) (c : Discovery)
      → get_elem? c.topics t ≡ some svc
      → All (Looping own show_tags) c
      → All (Looping own show_tags) (round own show_tags t (health_service reply) svc.loop c)
  Looping-round reply t svc c at all s now at_s =
      let got = health_service reply in
      All-modify (Looping own show_tags) t (rounded own show_tags got svc.loop) c.topics
        (λ x at_x.
          Looping-rounded own show_tags got svc.loop x
            (ap (λ y. y.loop) (some-injective x svc (sym at_x ∙ at))) (all t x at_x))
        all s now
        (ap (λ l. get_elem? l s) (sym (round_topics own show_tags t got svc.loop c)) ∙ at_s)

  Settled-Step : (c d : Discovery) → Step c d → Settled c → Settled d
  unfolding watch begin_stop end_stop
  Settled-Step _ _ (watches name c) sound =
      let svc = named name in
      record {
        linked = Linked-attach first (pushes svc c) svc c sound.linked;
        filled = Filled-attach first (pushes svc c) svc c (pushes_known svc c) sound.filled;
        looping =
            All-attach (Looping own show_tags) first (pushes svc c) svc c
              (Looping-Steady own show_tags) sound.looping;
      }
  Settled-Step _ _ (gets name c) sound = Settled-get_service name c sound
  Settled-Step _ _ (rounds reply t svc c at) sound =
      let got = health_service reply in
      let same = Alike-round own show_tags t got svc.loop c sound.linked sound.filled in
      Settled-Alike c (round own show_tags t got svc.loop c) same.0 sound same.1
        (Looping-round reply t svc c at sound.looping)
  Settled-Step _ _ (finishes t svc c at) sound =
      Settled-Alike c (finish returned t svc c) (Alike-finish returned t svc c) sound
        (Filled-finish returned t svc c sound.filled)
        (All-finish (Looping own show_tags) returned t svc c at
          (Looping-returned own show_tags svc (sound.looping t svc at)) sound.looping)
  Settled-Step _ _ (nexts ready w answer c d e) sound =
      Settled-next_event ready w answer c d e sound
  Settled-Step _ _ (cancels w c d e) sound =
      Settled-Alike c d (Alike-begin_close w c d e) sound (Filled-begin_close w c d e sound.filled)
        (All-begin_close (Looping own show_tags) w c d e sound.looping)
  Settled-Step _ _ (leaves w c d e) sound = record {
    linked = Linked-end_close w c d e sound.linked;
    filled = Filled-end_close w c d e sound.filled;
    looping =
        All-end_close (Looping own show_tags) first w c d (Looping-Steady own show_tags) e
          sound.looping;
  }

  Settled-new_hub : Settled new_hub
  unfolding lookup
  Settled-new_hub = record {
    linked = record {
      mapped = λ path t e. absurd (cc);
      kept = λ t topic at open_. absurd (cc);
      inside = λ t topic w at within. absurd (cc);
      served = λ w watcher at open_. absurd (cc);
    };
    filled = λ w x at full. absurd (cc);
    looping = λ t topic at. absurd (cc);
  }

  -- Let no two Stops of one watcher overlap between their test and the cancel. Then in every state
  -- that the discovery reaches, whatever the registry answers and in whatever order the steps of
  -- clients and goroutines come, also between the cancel and the lock of a Stop, the map holds
  -- exactly the services that are not cancelled; the watchers in the sets of services are exactly
  -- those whose Stop has not yet had the lock; a watcher with an event has instances to read; no
  -- goroutine returns before its service is cancelled; a service holds no empty list, and holds the
  -- instances of its last nodes if it holds any.
  pub Reaches-Settled : (c : Discovery) → Reaches new_hub c → Settled c
  Reaches-Settled c reached = go new_hub c reached Settled-new_hub
    where
      go : (b d : Discovery) → Reaches b d → Settled b → Settled d
      go _ _ (here b) sound = sound
      go _ _ (steps a b d before step) sound = Settled-Step b d step (go a b before sound)
