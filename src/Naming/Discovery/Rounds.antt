-- ===== src/Naming/Discovery/Rounds.antt =====
-- naming/consul/discovery.go: what a round of a service's goroutine does to its service.
use tsf_go.Base.{
  ℕ, suc, String, List, [], ◌∷◌, none, some, Bool, true, false, if◌then◌else◌, ◌&&◌, not, ℤ, modify,
  ◌≡◌, refl, ◌≢◌, ◌⊎◌, inl, inr, Bool-cases, ap, ◌∙◌, sym, subst, if-true, if-false, modify-modify,
  modify_nothing, is_empty, some-injective,
}
use tsf_go.Hub.{goto, broadcast, store, set_spec, set_loop}
use tsf_go.Hub.Topics.{Steady}
use tsf_go.Hub.Alike.{Alike, Alike-trans, Alike-goto, Alike-self, Alike-broadcast}
use tsf_go.Hub.Filled.{Filled, Filled-goto, Filled-broadcast}
use tsf_go.Hub.Live.{Linked}
use tsf_go.Naming.{service_comparable}
use tsf_go.Naming.Kratos.{KratosInstance}
use tsf_go.Naming.Discovery.{
  Discovery, SvcInfo, Node, Gathered, Loop, first, next, returned, round, has_news, broadcast_nodes,
  instances,
}

and_not : (a b : Bool) → (a && not b) ≡ true → b ≡ false
and_not true true e = absurd (cc)
and_not false true e = absurd (cc)
and_not a false e = refl

not_and : (a b : Bool) → (not a && b) ≡ true → a ≡ false
not_and true b e = absurd (cc)
not_and false b e = refl

news_node :
    (last : List Node) (index : ℤ) (got : Gathered (List Node))
    → has_news last index got ≡ true
    → is_empty got.nodes ≡ false
unfolding has_news
news_node last index got e = not_and (is_empty got.nodes) _ e

module _ (own : String) (show_tags : List String → String) where
  -- What holds of each service: it holds nothing before the first round, its goroutine has not returned
  -- before it is cancelled, what it holds is not empty, and is made of the last nodes.
  pub record Looping (svc : SvcInfo) : Type 0 where
    pub fresh : svc.loop ≡ first → svc.spec ≡ none
    pub running : svc.cancelled ≡ false → svc.loop ≢ returned
    pub not_empty : (known : List KratosInstance) → svc.spec ≡ some known → is_empty known ≡ false
    pub shown :
        (last : List Node) (index : ℤ) (retries : ℕ)
        → svc.loop ≡ next last index retries
        → (svc.spec ≡ none) ⊎ (svc.spec ≡ some (instances own show_tags last))

  pub Looping-Steady : Steady Looping first
  Looping-Steady = record {
    at_start = λ path. record {
      fresh = λ e. refl;
      running = λ open_ e. absurd (cc);
      not_empty = λ known e. absurd (cc);
      shown = λ last index retries e. absurd (cc);
    };
    joined = λ w x l. record {
      fresh = l.fresh;
      running = l.running;
      not_empty = l.not_empty;
      shown = l.shown;
    };
    left = λ w x l. record {
      fresh = l.fresh;
      running = l.running;
      not_empty = l.not_empty;
      shown = l.shown;
    };
    dropped = λ x l. record {
      fresh = l.fresh;
      running = λ open_ e. absurd (cc);
      not_empty = l.not_empty;
      shown = l.shown;
    };
  }

  pub Looping-returned :
      (x : SvcInfo) → Looping x → x.cancelled ≡ true → Looping (set_loop returned x)
  Looping-returned x l done = record {
    fresh = λ e. absurd (cc);
    running = λ open_ e. absurd (cc);
    not_empty = l.not_empty;
    shown = λ last index retries e. absurd (cc);
  }

  -- The service after a round of its goroutine.
  abbrev pub rounded : Gathered (List Node) → Loop → SvcInfo → SvcInfo
  rounded got first x = set_loop (next got.nodes got.index 0) (
      if not got.err && not (is_empty got.nodes)
      then set_spec (instances own show_tags got.nodes) x
      else x)
  rounded got (next last index retries) x =
      if got.err
      then set_loop (next last index (suc retries)) x
      else if has_news last index got
      then set_loop (next got.nodes got.index 0) (set_spec (instances own show_tags got.nodes) x)
      else set_loop (next last got.index 0) x
  rounded got returned x = x

  abbrev last_of : Loop → List Node
  last_of first = []
  last_of (next last index retries) = last
  last_of returned = []

  -- A service in its loop that holds nothing, or what the last nodes make.
  Looping-next :
      (last : List Node) (index : ℤ) (retries : ℕ) (x : SvcInfo)
      → ((known : List KratosInstance) → x.spec ≡ some known → is_empty known ≡ false)
      → ((x.spec ≡ none) ⊎ (x.spec ≡ some (instances own show_tags last)))
      → Looping (set_loop (next last index retries) x)
  Looping-next last index retries x not_empty shown = record {
    fresh = λ e. absurd (cc);
    running = λ open_ e. absurd (cc);
    not_empty = not_empty;
    shown = λ l i r e. elim shown [
      | inl nothing ↦ inl nothing
      | inr holds ↦ inr (holds ∙ ap (λ ns. some (instances own show_tags ns)) (ap last_of e))
    ];
  }

  instances-is_empty :
      (nodes : List Node)
      → is_empty nodes ≡ false
      → is_empty (instances own show_tags nodes) ≡ false
  instances-is_empty [] e = absurd (cc)
  instances-is_empty (node ∷ nodes) e = refl

  -- A service that has just got the nodes.
  Looping-told :
      (nodes : List Node) (index : ℤ) (x : SvcInfo)
      → is_empty nodes ≡ false
      → Looping (set_loop (next nodes index 0) (set_spec (instances own show_tags nodes) x))
  Looping-told nodes index x some_node =
      Looping-next nodes index 0 (set_spec (instances own show_tags nodes) x)
        (λ known e.
          ap is_empty (sym (some-injective _ known e)) ∙ instances-is_empty nodes some_node)
        (inr refl)

  pub Looping-rounded :
      (got : Gathered (List Node)) (loop : Loop) (x : SvcInfo)
      → x.loop ≡ loop
      → Looping x
      → Looping (rounded got loop x)
  Looping-rounded got first x e l = elim (Bool-cases (not got.err && not (is_empty got.nodes))) [
    | inl good ↦
        subst (λ y. Looping (set_loop (next got.nodes got.index 0) y)) (sym (if-true _ x good))
          (Looping-told got.nodes got.index x (and_not (not got.err) (is_empty got.nodes) good))
    | inr bad ↦
        subst (λ y. Looping (set_loop (next got.nodes got.index 0) y)) (sym (if-false _ x bad))
          (Looping-next got.nodes got.index 0 x l.not_empty (inl (l.fresh e)))
  ]
  Looping-rounded got (next last index retries) x e l = elim (Bool-cases got.err) [
    | inl bad ↦
        subst Looping (sym (if-true _ _ bad))
          (Looping-next last index (suc retries) x l.not_empty (l.shown last index retries e))
    | inr good ↦
        subst Looping (sym (if-false _ _ good)) (elim (Bool-cases (has_news last index got)) [
          | inl news ↦
              subst Looping (sym (if-true _ _ news))
                (Looping-told got.nodes got.index x (news_node last index got news))
          | inr same ↦
              subst Looping (sym (if-false _ _ same))
                (Looping-next last got.index 0 x l.not_empty (l.shown last index retries e))
        ])
  ]
  Looping-rounded got returned x e l = l

  -- A round changes the service as `rounded` says.
  pub round_topics :
      (t : ℕ) (got : Gathered (List Node)) (loop : Loop) (c : Discovery)
      → (round own show_tags t got loop c).topics ≡ modify c.topics t (rounded got loop)
  unfolding round broadcast_nodes broadcast store
  round_topics t got first c = told_or_not (not got.err && not (is_empty got.nodes))
    where
      told_or_not :
          (news : Bool)
          → (goto t
              (next got.nodes got.index 0)
              (if news then broadcast_nodes own show_tags t got.nodes c else c)).topics
            ≡ modify c.topics t (λ x.
              set_loop
                (next got.nodes got.index 0)
                (if news then set_spec (instances own show_tags got.nodes) x else x))
      told_or_not true =
          modify-modify c.topics t (set_spec (instances own show_tags got.nodes))
            (set_loop (next got.nodes got.index 0))
      told_or_not false = refl
  round_topics t got (next last index retries) c = by_cases got.err (has_news last index got)
    where
      by_cases :
          (err news : Bool)
          → (if err
              then goto t (next last index (suc retries)) c
              else if news
              then goto t (next got.nodes got.index 0) (broadcast_nodes own show_tags t got.nodes c)
              else goto t (next last got.index 0) c).topics
            ≡ modify c.topics t (λ x.
              if err
              then set_loop (next last index (suc retries)) x
              else if news
              then set_loop
                  (next got.nodes got.index 0)
                  (set_spec (instances own show_tags got.nodes) x)
              else set_loop (next last got.index 0) x)
      by_cases true news = refl
      by_cases false true =
          modify-modify c.topics t (set_spec (instances own show_tags got.nodes))
            (set_loop (next got.nodes got.index 0))
      by_cases false false = refl
  round_topics t got returned c = sym (modify_nothing c.topics t)

  -- A round changes no links, and what it notifies it has stored.
  told :
      (t : ℕ) (loop : Loop) (nodes : List Node) (c : Discovery)
      → Linked c
      → Filled c
      → Alike c (goto t loop (broadcast_nodes own show_tags t nodes c))
        × Filled (goto t loop (broadcast_nodes own show_tags t nodes c))
  unfolding broadcast_nodes
  told t loop nodes c linked filled =
      let now = broadcast t (instances own show_tags nodes) c in
      (
        Alike-trans c now (goto t loop now) (Alike-broadcast t (instances own show_tags nodes) c)
            (Alike-goto t loop now),
        Filled-goto t loop now (Filled-broadcast t (instances own show_tags nodes) c linked filled),
      )

  quiet :
      (t : ℕ) (loop : Loop) (c : Discovery)
      → Filled c
      → Alike c (goto t loop c) × Filled (goto t loop c)
  quiet t loop c filled = (Alike-goto t loop c, Filled-goto t loop c filled)

  pub Alike-round :
      (t : ℕ) (got : Gathered (List Node)) (loop : Loop) (c : Discovery)
      → Linked c
      → Filled c
      → Alike c (round own show_tags t got loop c) × Filled (round own show_tags t got loop c)
  unfolding round
  Alike-round t got first c linked filled =
      elim (Bool-cases (not got.err && not (is_empty got.nodes))) [
        | inl news ↦ rw (news, if◌then◌else◌) (told t _ got.nodes c linked filled)
        | inr same ↦ rw (same, if◌then◌else◌) (quiet t _ c filled)
      ]
  Alike-round t got (next last index retries) c linked filled = elim (Bool-cases got.err) [
    | inl bad ↦ rw (bad, if◌then◌else◌) (quiet t _ c filled)
    | inr good ↦ elim (Bool-cases (has_news last index got)) [
      | inl news ↦ rw (good, news, if◌then◌else◌) (told t _ got.nodes c linked filled)
      | inr same ↦ rw (good, same, if◌then◌else◌) (quiet t _ c filled)
    ]
  ]
  Alike-round t got returned c linked filled = (Alike-self c, filled)
