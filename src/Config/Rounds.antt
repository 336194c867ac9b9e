-- ===== src/Config/Rounds.antt =====
-- pkg/config/consul/consul.go: what a round of a topic's goroutine does to its topic.
use tsf_go.Base.{
  ℕ, String, List, [], ◌∷◌, Option, none, some, Bool, true, false, if◌then◌else◌, ◌&&◌,
  text_comparable, ◌==◌, ℤ, modify, ◌≡◌, refl, ◌≢◌, ◌⊎◌, inl, inr, Bool-cases, Option-cases, ap,
  ap₂, ◌∙◌, sym, subst, if-true, if-false, parse_int, modify-modify, modify_nothing,
}
use tsf_go.Http.{Reply, is_not_found, Header}
use tsf_go.Hub.{goto, broadcast, store, set_spec, set_loop}
use tsf_go.Hub.Topics.{Steady}
use tsf_go.Config.Fetch.{Fetched, Spec, Item, fetch, read_reply, index_of}
use tsf_go.Config.Source.{
  Consul, ConfigTopic, Loop, round, same_specs, first, next, returned, or_nil,
}

-- What holds of each topic: its goroutine has not returned before it is cancelled, it holds nothing
-- before the first round, and what Watch reads is what the last fetch without an error got.
pub record Looping (topic : ConfigTopic) : Type 0 where
  pub fresh : topic.loop ≡ first → topic.spec ≡ none
  pub running : topic.cancelled ≡ false → topic.loop ≢ returned
  pub synced : (res : List Spec) (index : ℤ) → topic.loop ≡ next res index → or_nil topic.spec ≡ res

and_both : (a b : Bool) → (a && b) ≡ true → (a ≡ true) × (b ≡ true)
and_both true true e = (refl, refl)
and_both true false e = absurd (cc)
and_both false b e = absurd (cc)

pub same_specs-eq : (xs ys : List Spec) → same_specs xs ys ≡ true → xs ≡ ys
unfolding same_specs
same_specs-eq [] [] e = refl
same_specs-eq [] (y ∷ ys) e = absurd (cc)
same_specs-eq (x ∷ xs) [] e = absurd (cc)
same_specs-eq (x ∷ xs) (y ∷ ys) e =
    let (heads, tails) = and_both (x.key == y.key && x.raw == y.raw) (same_specs xs ys) e in
    let (keys, raws) = and_both (x.key == y.key) (x.raw == y.raw) heads in
    let same_key = (text_comparable.same_iff x.key y.key).0 keys in
    let same_raw = (text_comparable.same_iff x.raw y.raw).0 raws in
    ap₂ (λ z zs. z ∷ zs) (ap₂ (λ k r. record { key = k; raw = r }) same_key same_raw)
      (same_specs-eq xs ys tails)

read_err :
    (decode : String → Option String) (header : Option Header) (items : Option (List Item))
    → ((read_reply decode header items).res ≡ []) ⊎ ((read_reply decode header items).err ≡ false)
unfolding read_reply
read_err decode none items = inl refl
read_err decode (some h) items = elim (Bool-cases (parse_int (index_of h)).1) [
  | inl bad ↦ inl (rw (read_reply, bad, if◌then◌else◌) refl)
  | inr good ↦ inr (rw (read_reply, good, if◌then◌else◌) refl)
]

-- A fetch with an error gets no specs.
pub fetch_err :
    (decode : String → Option String) (reply : Reply (List Item))
    → ((fetch decode reply).res ≡ []) ⊎ ((fetch decode reply).err ≡ false)
unfolding fetch
fetch_err decode reply = elim (Option-cases reply.err) [
  | inl fine ↦ rw (fetch, fine) (read_err decode reply.header reply.content)
  | inr failed ↦ elim (Bool-cases (is_not_found failed.0)) [
    | inl missing ↦
        rw (fetch, failed.1, missing, if◌then◌else◌) (read_err decode reply.header reply.content)
    | inr other ↦ inl (rw (fetch, failed.1, other, if◌then◌else◌) refl)
  ]
]

-- The topic after a round of its goroutine.
abbrev pub rounded : Fetched → Loop → ConfigTopic → ConfigTopic
rounded got first x = set_loop (next got.res got.index) (if got.err then x else set_spec got.res x)
rounded got (next res index) x =
    if got.err
    then x
    else set_loop (next got.res got.index)
        (if same_specs res got.res then x else set_spec got.res x)
rounded got returned x = x

next_res : {a b : List Spec} {i j : ℤ} → next a i ≡ next b j → a ≡ b
next_res e = ap (λ l. elim l [ first ↦ [] | next res index ↦ res | returned ↦ [] ]) e

Looping-set_loop :
    (res : List Spec) (index : ℤ) (x : ConfigTopic)
    → or_nil x.spec ≡ res
    → Looping (set_loop (next res index) x)
Looping-set_loop res index x holds = record {
  fresh = λ e. absurd (cc);
  running = λ open_ e. absurd (cc);
  synced = λ r i e. holds ∙ next_res e;
}

-- The first round: a fetch with an error leaves the topic without specs.
after_first :
    (got : Fetched) (x : ConfigTopic)
    → x.spec ≡ none
    → ((got.res ≡ []) ⊎ (got.err ≡ false))
    → or_nil (if got.err then x else set_spec got.res x).spec ≡ got.res
after_first got x fresh errs = elim (Bool-cases got.err) [
  | inl bad ↦
      ap (λ y. or_nil y.spec) (if-true x (set_spec got.res x) bad)
      ∙ ap or_nil fresh
      ∙ elim errs [ inl empty ↦ sym empty | inr good ↦ absurd (cc) ]
  | inr good ↦ ap (λ y. or_nil y.spec) (if-false x (set_spec got.res x) good)
]

-- A later round: the specs are stored if they differ from the last ones.
after_next :
    (got : Fetched) (res : List Spec) (x : ConfigTopic)
    → or_nil x.spec ≡ res
    → or_nil (if same_specs res got.res then x else set_spec got.res x).spec ≡ got.res
after_next got res x holds = elim (Bool-cases (same_specs res got.res)) [
  | inl same ↦
      ap (λ y. or_nil y.spec) (if-true x (set_spec got.res x) same)
      ∙ holds
      ∙ same_specs-eq res got.res same
  | inr new ↦ ap (λ y. or_nil y.spec) (if-false x (set_spec got.res x) new)
]

pub Looping-rounded :
    (decode : String → Option String) (reply : Reply (List Item)) (loop : Loop) (x : ConfigTopic)
    → x.loop ≡ loop
    → Looping x
    → Looping (rounded (fetch decode reply) loop x)
Looping-rounded decode reply first x e looping =
    let got = fetch decode reply in
    Looping-set_loop got.res got.index (if got.err then x else set_spec got.res x)
      (after_first got x (looping.fresh e) (fetch_err decode reply))
Looping-rounded decode reply (next res index) x e looping =
    let got = fetch decode reply in
    elim (Bool-cases got.err) [
      | inl bad ↦ subst Looping (sym (if-true x _ bad)) looping
      | inr good ↦ subst Looping (sym (if-false x _ good)) (
          Looping-set_loop got.res got.index
            (if same_specs res got.res then x else set_spec got.res x)
            (after_next got res x (looping.synced res index e)))
    ]
Looping-rounded decode reply returned x e looping = looping

topics_either :
    (t : ℕ) (loop : Loop) (res : List Spec) (quiet : Bool) (c : Consul)
    → (goto t loop (if quiet then c else broadcast t res c)).topics
      ≡ modify c.topics t (λ x. set_loop loop (if quiet then x else set_spec res x))
unfolding broadcast store
topics_either t loop res true c = refl
topics_either t loop res false c = modify-modify c.topics t (set_spec res) (set_loop loop)

topics_unless :
    (t : ℕ) (loop : Loop) (res : List Spec) (err quiet : Bool) (c : Consul)
    → (if err then c else goto t loop (if quiet then c else broadcast t res c)).topics
      ≡ modify c.topics t
          (λ x. if err then x else set_loop loop (if quiet then x else set_spec res x))
topics_unless t loop res true quiet c = sym (modify_nothing c.topics t)
topics_unless t loop res false quiet c = topics_either t loop res quiet c

-- A round changes the topic as `rounded` says.
pub round_topics :
    (t : ℕ) (got : Fetched) (loop : Loop) (c : Consul)
    → (round t got loop c).topics ≡ modify c.topics t (rounded got loop)
unfolding round
round_topics t got first c = topics_either t (next got.res got.index) got.res got.err c
round_topics t got (next res index) c =
    topics_unless t (next got.res got.index) got.res got.err (same_specs res got.res) c
round_topics t got returned c = sym (modify_nothing c.topics t)

pub Looping-Steady : Steady Looping first
Looping-Steady = record {
  at_start = λ path. record {
    fresh = λ e. refl;
    running = λ open_ e. absurd (cc);
    synced = λ res index e. absurd (cc);
  };
  joined = λ w x looping. record {
    fresh = looping.fresh;
    running = looping.running;
    synced = looping.synced;
  };
  left = λ w x looping. record {
    fresh = looping.fresh;
    running = looping.running;
    synced = looping.synced;
  };
  dropped = λ x looping. record {
    fresh = looping.fresh;
    running = λ open_ e. absurd (cc);
    synced = looping.synced;
  };
}

pub Looping-returned : (x : ConfigTopic) → x.cancelled ≡ true → Looping (set_loop returned x)
Looping-returned x done = record {
  fresh = λ e. absurd (cc);
  running = λ open_ e. absurd (cc);
  synced = λ res index e. absurd (cc);
}
