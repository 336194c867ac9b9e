-- ===== src/Config/Reached.antt =====
-- pkg/config/consul/consul.go: what holds of the source in every state that its steps reach, and what
-- a client sees.
use tsf_go.Base.{
  ℕ, String, List, Option, some, Bool, true, false, if◌then◌else◌, lookup, text_comparable,
  int_comparable, get_elem?, ◌≡◌, Bool-cases, inl, inr, ap, ◌∙◌, sym, subst, some-injective,
  >>=-eq-some,
}
use tsf_go.Http.{Reply}
use tsf_go.Hub.{Ready, broadcast, begin_close, end_close, await, finish, goto}
use tsf_go.Hub.Live.{Linked, Manned}
use tsf_go.Hub.Alike.{
  Alike, Alike-self, Alike-trans, Alike-goto, Alike-broadcast, Alike-finish, Alike-await,
  Alike-begin_close, Linked-Alike, Manned-Alike,
}
use tsf_go.Hub.Subscribes.{Linked-attach, Manned-attach}
use tsf_go.Hub.Closes.{Linked-end_close, Manned-end_close}
use tsf_go.Hub.Topics.{
  All, All-modify, All-attach, All-begin_close, All-end_close, All-finish, await_topics,
}
use tsf_go.Hub.Filled.{
  Filled, Filled-attach, Filled-broadcast, Filled-goto, Filled-finish, Filled-begin_close,
  Filled-end_close, Filled-await,
}
use tsf_go.Config.Fetch.{Spec, Item, Fetched, fetch}
use tsf_go.Config.Source.{
  Consul, ConfigTopic, Loop, Answer, first, next, returned, subscribe, round, watch, new_consul,
  same_specs, answer_of,
}
use tsf_go.Config.Rounds.{
  Looping, Looping-Steady, Looping-returned, Looping-rounded, rounded, round_topics,
}

-- A step of the source: a call of a client, or a round of a topic's goroutine. A Close is two steps, with
-- others in between; no second Close of the same watcher passes the test before the first cancels.
pub data Step : Consul → Consul → Type 0 where
  subscribes : (path : String) (c : Consul) → Step c (subscribe path c).1
  rounds :
      (decode : String → Option String) (reply : Reply (List Item)) (t : ℕ) (topic : ConfigTopic)
      (c : Consul)
      → get_elem? c.topics t ≡ some topic
      → Step c (round t (fetch decode reply) topic.loop c)
  finishes :
      (t : ℕ) (topic : ConfigTopic) (c : Consul)
      → get_elem? c.topics t ≡ some topic
      → Step c (finish returned t topic c)
  watches :
      (ready : Ready) (w : ℕ) (answer : Answer) (c after : Consul)
      → watch ready w c ≡ some (answer, after)
      → Step c after
  cancels : (w : ℕ) (c after : Consul) → begin_close w c ≡ some after → Step c after
  leaves : (w : ℕ) (c after : Consul) → end_close w c ≡ some after → Step c after

pub data Reaches : Consul → Consul → Type 0 where
  here : (c : Consul) → Reaches c c
  steps : (a b c : Consul) → Reaches a b → Step b c → Reaches a c

-- What holds of every state.
pub record Sound (c : Consul) : Type 0 where
  pub linked : Linked c
  pub manned : Manned c
  pub filled : Filled c
  pub looping : All Looping c

-- A round changes no links, and what it notifies it has stored.
quiet_or_told :
    (t : ℕ) (loop : Loop) (res : List Spec) (quiet : Bool) (c : Consul)
    → Linked c
    → Filled c
    → Alike c (goto t loop (if quiet then c else broadcast t res c))
      × Filled (goto t loop (if quiet then c else broadcast t res c))
quiet_or_told t loop res true c linked filled = (Alike-goto t loop c, Filled-goto t loop c filled)
quiet_or_told t loop res false c linked filled =
    let told = broadcast t res c in
    (
      Alike-trans c told (goto t loop told) (Alike-broadcast t res c) (Alike-goto t loop told),
      Filled-goto t loop told (Filled-broadcast t res c linked filled),
    )

Alike-round :
    (t : ℕ) (got : Fetched) (loop : Loop) (c : Consul)
    → Linked c
    → Filled c
    → Alike c (round t got loop c) × Filled (round t got loop c)
unfolding round
Alike-round t got first c linked filled =
    quiet_or_told t (next got.res got.index) got.res got.err c linked filled
Alike-round t got (next res index) c linked filled = elim (Bool-cases got.err) [
  | inl bad ↦ rw (bad, if◌then◌else◌) (Alike-self c, filled)
  | inr good ↦
      rw (good, if◌then◌else◌)
        (quiet_or_told t (next got.res got.index) got.res (same_specs res got.res) c linked filled)
]
Alike-round t got returned c linked filled = (Alike-self c, filled)

Looping-round :
    (decode : String → Option String) (reply : Reply (List Item)) (t : ℕ) (topic : ConfigTopic)
    (c : Consul)
    → get_elem? c.topics t ≡ some topic
    → All Looping c
    → All Looping (round t (fetch decode reply) topic.loop c)
Looping-round decode reply t topic c at all s now at_s =
    All-modify Looping t (rounded (fetch decode reply) topic.loop) c.topics
      (λ x at_x.
        Looping-rounded decode reply topic.loop x
          (ap (λ y. y.loop) (some-injective x topic (sym at_x ∙ at))) (all t x at_x))
      all s now
      (ap (λ l. get_elem? l s) (sym (round_topics t (fetch decode reply) topic.loop c)) ∙ at_s)

-- A step that changes no links.
Sound-Alike : (c d : Consul) → Alike c d → Sound c → Filled d → All Looping d → Sound d
Sound-Alike c d same sound filled looping = record {
  linked = Linked-Alike c d same sound.linked;
  manned = Manned-Alike c d same sound.manned;
  filled = filled;
  looping = looping;
}

Sound-watch :
    (ready : Ready) (w : ℕ) (answer : Answer) (c d : Consul)
    → watch ready w c ≡ some (answer, d)
    → Sound c
    → Sound d
unfolding watch
Sound-watch ready w answer c d e sound =
    let (read, is_read, e₁) = >>=-eq-some (await ready w c) _ e in
    let same = ap (λ p. p.1) (some-injective (answer_of ready read.0, read.1) (answer, d) e₁) in
    subst Sound same (
      Sound-Alike c read.1 (Alike-await ready w read.0 c read.1 is_read) sound
        (Filled-await ready w read.0 c read.1 is_read sound.filled)
        (subst (λ l. (s : ℕ) (x : ConfigTopic) → get_elem? l s ≡ some x → Looping x)
          (sym (await_topics ready w read.0 c read.1 is_read)) sound.looping))

Sound-Step : (c d : Consul) → Step c d → Sound c → Sound d
unfolding subscribe
Sound-Step _ _ (subscribes path c) sound = record {
  linked = Linked-attach first false path c sound.linked;
  manned = Manned-attach first false path c sound.manned;
  filled = Filled-attach first false path c (λ e. absurd (cc)) sound.filled;
  looping = All-attach Looping first false path c Looping-Steady sound.looping;
}
Sound-Step _ _ (rounds decode reply t topic c at) sound =
    let got = fetch decode reply in
    let same = Alike-round t got topic.loop c sound.linked sound.filled in
    Sound-Alike c (round t got topic.loop c) same.0 sound same.1
      (Looping-round decode reply t topic c at sound.looping)
Sound-Step _ _ (finishes t topic c at) sound =
    Sound-Alike c (finish returned t topic c) (Alike-finish returned t topic c) sound
      (Filled-finish returned t topic c sound.filled)
      (All-finish Looping returned t topic c at (Looping-returned topic) sound.looping)
Sound-Step _ _ (watches ready w answer c d e) sound = Sound-watch ready w answer c d e sound
Sound-Step _ _ (cancels w c d e) sound =
    Sound-Alike c d (Alike-begin_close w c d e) sound (Filled-begin_close w c d e sound.filled)
      (All-begin_close Looping w c d e sound.looping)
Sound-Step _ _ (leaves w c d e) sound = record {
  linked = Linked-end_close w c d e sound.linked;
  manned = Manned-end_close w c d e sound.linked sound.manned;
  filled = Filled-end_close w c d e sound.filled;
  looping = All-end_close Looping first w c d Looping-Steady e sound.looping;
}

Sound-new_consul : Sound new_consul
unfolding lookup
Sound-new_consul = record {
  linked = record {
    mapped = λ path t e. absurd (cc);
    kept = λ t topic at open_. absurd (cc);
    inside = λ t topic w at within. absurd (cc);
    served = λ w watcher at open_. absurd (cc);
  };
  manned = λ t topic at open_. absurd (cc);
  filled = λ w x at full. absurd (cc);
  looping = λ t topic at. absurd (cc);
}

-- Let no two Closes of one watcher overlap between their test and the cancel. Then every state that
-- the source reaches, whatever the registry answers and in whatever order the steps of clients and
-- goroutines come, also between the cancel and the lock of a Close, is sound: the map holds exactly
-- the topics that are not cancelled, each at its path; these, and no others, have watchers; the
-- watchers in the sets of topics are exactly those whose Close has not yet had the lock; a watcher
-- with an event has specs to read; no goroutine returns before its topic is cancelled; and what
-- Watch reads of a topic in its loop is what the last fetch without an error got.
pub Reaches-Sound : (c : Consul) → Reaches new_consul c → Sound c
Reaches-Sound c reached = go new_consul c reached Sound-new_consul
  where
    go : (b d : Consul) → Reaches b d → Sound b → Sound d
    go _ _ (here b) sound = sound
    go _ _ (steps a b d before step) sound = Sound-Step b d step (go a b before sound)
