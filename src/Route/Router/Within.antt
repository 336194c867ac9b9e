-- ===== src/Route/Router/Within.antt =====
-- Router.Select gives no instance that it was not given.
use tsf_go.Base.{
  ℕ, String, List, [], ◌∷◌, Option, none, some, Bool, true, false, ◌≡◌, refl, sym, subst, inl, inr,
  Option-cases, Each, Each-map, Each-tabulate, Each-lookup, Memᴰ, lookup, if◌then◌else◌,
}
use tsf_go.Meta.{Context}
use tsf_go.Naming.{Service, Instance, own_namespace, service_comparable}
use tsf_go.Route.Router.{Candidates, RuleGroup, Rule, Services, select, select_in}
use tsf_go.Route.Router.Candidates.{Fits}
use tsf_go.Route.Router.Match.{Fair, Orders, Matched}
use tsf_go.Route.Router.Select.{OneWeight, Selected, select-Selected}

abbrev pub Within : List Instance → List Instance → Type 0
Within nodes res = Each (λ (n : Instance). Memᴰ n nodes) res

-- Every rule of every group has one weight for each destination id.
abbrev pub OneWeights : Option Services → Type 0
OneWeights none = Unit {0}
OneWeights (some services) =
    Each (λ (e : Service × RuleGroup). Each OneWeight e.1.rule_list) services

all-Within : (nodes : List Instance) → Within nodes nodes
all-Within nodes = Each-tabulate (λ (n : Instance). Memᴰ n nodes) nodes (λ n m. m)

none-Within :
    (nodes : List Instance) (fallback : Bool) → Within nodes (if fallback then nodes else [])
none-Within nodes true = all-Within nodes
none-Within nodes false = tt

module _ (random : ℕ → ℕ → ℕ) (arrange : ℕ → Candidates → Candidates)
    (matches : String → String → Bool) (ctx : Context) where
  Matched-Within :
      (k : ℕ) (rule : Rule) (nodes res : List Instance)
      → Matched random arrange k rule nodes res
      → Within nodes res
  Matched-Within k rule nodes res (inl (e, rest)) = subst (Within nodes) (sym e) tt
  Matched-Within k rule nodes res (inr (ne, (id, fits), drawn)) =
      Each-map (Fits nodes rule.dest_list id) (λ (n : Instance). Memᴰ n nodes) (λ n f. f.is_node)
        res fits

  Selected-Within :
      (nodes : List Instance) (group : RuleGroup) (res : List Instance)
      → Selected random arrange matches ctx nodes group res
      → Within nodes res
  Selected-Within nodes group res (inl (unmet, e)) = subst (Within nodes) (sym e) (all-Within nodes)
  Selected-Within nodes group res (inr (inl (met, passed, e))) =
      subst (Within nodes) (sym e) (none-Within nodes group.fallback_status)
  Selected-Within nodes group res (inr (inr d)) = Matched-Within d.call d.rule nodes res d.matched

  -- Select, before the first refresh and after it, for a service with rules or without, does not panic
  -- and gives only instances that it was given, if the random source keeps its bounds, the candidates
  -- come in any order, and each destination id of a rule has one weight.
  pub select-Within :
      (own : String) (services : Option Services) (svc : Service) (nodes : List Instance)
      → Fair random
      → Orders arrange
      → OneWeights services
      → (res : List Instance) × (select random arrange matches ctx own services svc nodes
          ≡ some res)
        × Within nodes res
  unfolding select select_in
  select-Within own services svc [] fair orders o = ([], refl, tt)
  select-Within own none svc (node ∷ nodes) fair orders o =
      (node ∷ nodes, refl, all-Within (node ∷ nodes))
  select-Within own (some services) svc (node ∷ nodes) fair orders o =
      let key : Service = record { namespace = own_namespace own svc.namespace; name = svc.name } in
      elim (Option-cases (lookup key services)) [
        | inl missing ↦
            (node ∷ nodes, rw (select, missing, select_in) refl, all-Within (node ∷ nodes))
        | inr (group, found) ↦
            let weights =
              Each-lookup (λ (e : Service × RuleGroup). Each OneWeight e.1.rule_list) key group
                services o found in
            let chosen =
              select-Selected random arrange matches ctx own services svc group node nodes fair
                orders found weights in
            (chosen.0, chosen.1, Selected-Within (node ∷ nodes) group chosen.0 chosen.2)
      ]
