-- ===== src/Route/Router/Select.antt =====
-- Router.Select: the first rule that the call meets and that has instances decides.
use tsf_go.Base.{
  ℕ, String, List, [], ◌∷◌, ◌++◌, some, Bool, true, false, ◌≡◌, refl, ap, ◌≢◌, ◌↔◌, ◌⊎◌, inl, inr,
  if◌then◌else◌, Bool-cases, arith, Each, lookup, is_empty, suc,
}
use tsf_go.Meta.{Context}
use tsf_go.Tag.{rule_hit}
use tsf_go.Tag.Rules.{Meets, rule_hit_iff}
use tsf_go.Naming.{Instance, Service, own_namespace, service_comparable}
use tsf_go.Route.Router.{
  Candidates, Rule, RuleGroup, Services, to_common_tag_rule, match_by_rule, select_loop, settle,
  select_in, select,
}
use tsf_go.Route.Router.Candidates.{Weighted}
use tsf_go.Route.Router.Match.{Fair, Orders, NoWeight, Matched, match_by_rule-Matched}

-- Each destination id of the rule has one weight.
abbrev pub OneWeight : Rule → Type 0
OneWeight rule = (w : String → ℕ) × Weighted w rule.dest_list

module _ (random : ℕ → ℕ → ℕ) (arrange : ℕ → Candidates → Candidates)
    (matches : String → String → Bool) (ctx : Context) (nodes : List Instance) where
  -- The call meets the tags of the rule.
  abbrev pub Met : Rule → Type 0
  Met rule = Meets matches ctx (to_common_tag_rule rule)

  -- The rule leaves the choice to the next one.
  abbrev pub Passed : Rule → Type 0
  Passed rule = (¬ Met rule) ⊎ NoWeight nodes rule.dest_list

  -- The rule that decides, with those before it.
  pub record Decides (rules : List Rule) (inss : List Instance) : Type 0 where
    pub before : List Rule
    pub rule : Rule
    pub after : List Rule
    pub call : ℕ
    pub split : rules ≡ (before ++ (rule ∷ after))
    pub passed : Each Passed before
    pub met : Met rule
    pub nonempty : inss ≢ []
    pub matched : Matched random arrange call rule nodes inss

  abbrev NoneLeft : List Rule → Bool → Bool × List Instance → Type 0
  NoneLeft rules hit found =
      (found.1 ≡ [])
      × Each Passed rules
      × ((found.0 ≡ false) ↔ ((hit ≡ false) × Each (λ (r : Rule). ¬ Met r) rules))

  abbrev LoopEnd : List Rule → Bool → Bool × List Instance → Type 0
  LoopEnd rules hit found = ((found.0 ≡ true) × Decides rules found.1) ⊎ NoneLeft rules hit found

  later-Decides :
      (r : Rule) (rules : List Rule) (inss : List Instance)
      → Passed r
      → Decides rules inss
      → Decides (r ∷ rules) inss
  later-Decides r rules inss p d = record {
    before = r ∷ d.before;
    rule = d.rule;
    after = d.after;
    call = d.call;
    split = ap (λ l. r ∷ l) d.split;
    passed = (p, d.passed);
    met = d.met;
    nonempty = d.nonempty;
    matched = d.matched;
  }

  unmet-LoopEnd :
      (r : Rule) (rules : List Rule) (hit : Bool) (found : Bool × List Instance)
      → ¬ Met r
      → LoopEnd rules hit found
      → LoopEnd (r ∷ rules) hit found
  unmet-LoopEnd r rules hit found u (inl (h, d)) = inl (h, later-Decides r rules found.1 (inl u) d)
  unmet-LoopEnd r rules hit found u (inr (e, p, f)) =
      inr (e, (inl u, p), (λ z. ((f.0 z).0, (u, (f.0 z).1)), λ z. f.1 (z.0, z.1.1)))

  Met-LoopEnd :
      (r : Rule) (rules : List Rule) (hit : Bool) (found : Bool × List Instance)
      → Met r
      → NoWeight nodes r.dest_list
      → LoopEnd rules true found
      → LoopEnd (r ∷ rules) hit found
  Met-LoopEnd r rules hit found m n (inl (h, d)) = inl (h, later-Decides r rules found.1 (inr n) d)
  Met-LoopEnd r rules hit found m n (inr (e, p, f)) =
      inr (e, (inr n, p), (λ z. absurd (let t = (f.0 z).0 in cc), λ z. absurd (z.1.0 m)))

  -- One rule that the call meets, by what matchByRule gave.
  step-LoopEnd :
      (k : ℕ) (r : Rule) (rules : List Rule) (hit : Bool) (inss : List Instance)
      → Met r
      → match_by_rule random arrange k r nodes ≡ some inss
      → Matched random arrange k r nodes inss
      → ((found : Bool × List Instance) × (select_loop random arrange matches ctx nodes
              (suc k)
              rules
              true
              []
            ≡ some found)
          × LoopEnd rules true found)
      → (found : Bool × List Instance) × (select_loop random arrange matches ctx nodes k
            (r ∷ rules)
            hit
            []
          ≡ some found)
        × LoopEnd (r ∷ rules) hit found
  unfolding select_loop
  step-LoopEnd k r rules hit [] m e (inl (z, n)) (found, run, end) = (
    found,
    rw (select_loop, (rule_hit_iff matches ctx (to_common_tag_rule r)).1 m, e) run,
    Met-LoopEnd r rules hit found m n end,
  )
  step-LoopEnd k r rules hit [] m e (inr (ne, d, f)) later = absurd (ne refl)
  step-LoopEnd k r rules hit (i ∷ is) m e matched later = (
    (true, i ∷ is),
    rw (select_loop, (rule_hit_iff matches ctx (to_common_tag_rule r)).1 m, e) refl,
    inl (
      refl,
      record {
        before = [];
        rule = r;
        after = rules;
        call = k;
        split = refl;
        passed = tt;
        met = m;
        nonempty = λ z. cc;
        matched = matched;
      },
    ),
  )

  select_loop-LoopEnd :
      (k : ℕ) (rules : List Rule) (hit : Bool)
      → Fair random
      → Orders arrange
      → Each OneWeight rules
      → (found : Bool × List Instance) × (select_loop random arrange matches ctx nodes k rules hit
            []
          ≡ some found)
        × LoopEnd rules hit found
  unfolding select_loop
  select_loop-LoopEnd k [] hit fair orders o =
      ((hit, []), refl, inr (refl, tt, (λ z. (z, tt), λ z. z.0)))
  select_loop-LoopEnd k (r ∷ rules) hit fair orders o =
      elim (Bool-cases (rule_hit matches ctx (to_common_tag_rule r))) [
        | inl h ↦
            let here = match_by_rule-Matched random arrange o.0.0 k r nodes fair orders o.0.1 in
            step-LoopEnd k r rules hit here.0
              ((rule_hit_iff matches ctx (to_common_tag_rule r)).0 h) here.1 here.2
              (select_loop-LoopEnd (suc k) rules true fair orders o.1)
        | inr h ↦
            let later = select_loop-LoopEnd k rules hit fair orders o.1 in
            let unmet : ¬ Met r =
              λ m. let z = (rule_hit_iff matches ctx (to_common_tag_rule r)).1 m in cc in
            (later.0, rw (select_loop, h) later.1, unmet-LoopEnd r rules hit later.0 unmet later.2)
      ]

  -- The choice by a group of rules.
  abbrev pub Selected : RuleGroup → List Instance → Type 0
  Selected group res =
      (Each (λ (r : Rule). ¬ Met r) group.rule_list × (res ≡ nodes))
      ⊎ ((¬ Each (λ (r : Rule). ¬ Met r) group.rule_list)
          × Each Passed group.rule_list
          × (res ≡ (if group.fallback_status then nodes else [])))
      ⊎ Decides group.rule_list res

  settle-Selected :
      (group : RuleGroup) (found : Bool × List Instance)
      → LoopEnd group.rule_list false found
      → Selected group (settle group nodes found)
  unfolding settle
  settle-Selected group (true, inss) (inl (h, d)) = elim (Bool-cases (is_empty inss)) [
    | inl e ↦ absurd (d.nonempty (ground (arith, e)))
    | inr e ↦ rw (e, if◌then◌else◌) (inr (inr d))
  ]
  settle-Selected group (false, inss) (inl (h, d)) = absurd (cc)
  settle-Selected group (false, inss) (inr (e, p, f)) = inl ((f.0 refl).1, refl)
  settle-Selected group (true, inss) (inr (e, p, f)) =
      rw (e, is_empty) (inr (inl (λ z. let t = f.1 (refl, z) in cc, p, refl)))

  empty_list : (rules : List Rule) → is_empty rules ≡ true → Each (λ (r : Rule). ¬ Met r) rules
  empty_list [] e = tt
  empty_list (r ∷ rules) e = absurd (cc)

  select_in-Selected :
      (group : RuleGroup)
      → Fair random
      → Orders arrange
      → Each OneWeight group.rule_list
      → (res : List Instance) × (select_in random arrange matches ctx nodes (some group) ≡ some res)
        × Selected group res
  unfolding select_in
  select_in-Selected group fair orders o =
      let end = select_loop-LoopEnd 0 group.rule_list false fair orders o in
      elim (Bool-cases (is_empty group.rule_list)) [
        | inl e ↦
            rw (select_in, e, if◌then◌else◌) (nodes, refl, inl (empty_list group.rule_list e, refl))
        | inr e ↦
            rw (select_in, e, end.1, if◌then◌else◌)
              (settle group nodes end.0, refl, settle-Selected group end.0 end.2)
      ]

pub select-Selected :
    (random : ℕ → ℕ → ℕ) (arrange : ℕ → Candidates → Candidates) (matches : String → String → Bool)
    (ctx : Context) (own : String) (services : Services) (svc : Service) (group : RuleGroup)
    (node : Instance) (nodes : List Instance)
    → Fair random
    → Orders arrange
    → lookup (record { namespace = own_namespace own svc.namespace; name = svc.name }) services
      ≡ some group
    → Each OneWeight group.rule_list
    → (res : List Instance) × (select random arrange matches ctx own
          (some services)
          svc
          (node ∷ nodes)
        ≡ some res)
      × Selected random arrange matches ctx (node ∷ nodes) group res
unfolding select
select-Selected random arrange matches ctx own services svc group node nodes fair orders e o =
    rw e (select_in-Selected random arrange matches ctx (node ∷ nodes) group fair orders o)
