-- ===== src/Route/Router/Match.antt =====
-- matchByRule: what the instances of a rule are.
use tsf_go.Base.{
  ℕ, String, List, [], ◌∷◌, some, true, ◌≡◌, refl, sym, ap, subst, ◌∙◌, ◌≢◌, ◌⊎◌, inl, inr, ◌≤◌,
  ◌<◌, nat_eqb, if◌then◌else◌, Bool-cases, Option-cases, arith, Permᴰ, Memᴰ, Each, Each-lookup,
  Each-Permᴰ, Each-tabulate, lookup, ◌==◌, text_comparable, Each-Memᴰ, Each_middle,
}
use tsf_go.Naming.{Instance}
use tsf_go.Route.Router.{
  Candidate, Candidates, Dest, Rule, match_items, visit_nodes, pick_one, match_by_rule,
}
use tsf_go.Route.Router.Pick.{total, total-Permᴰ, Drawn, pick-Drawn}
use tsf_go.Route.Router.Candidates.{
  HasItems, match_items_iff, Weighted, Fits, Entry, Gathered, visit_nodes-Gathered,
}
use tsf_go.Route.Router.Cover.{visit_nodes_covers}

-- A random source whose values are below the bound that it is given.
abbrev pub Fair : (ℕ → ℕ → ℕ) → Type 0
Fair random = (k n : ℕ) → 0 < n → random k n < n

-- An order of ranging over a map meets each entry once.
abbrev pub Orders : (ℕ → Candidates → Candidates) → Type 0
Orders arrange = (k : ℕ) (m : Candidates) → Permᴰ m (arrange k m)

weight_le_total :
    (id : String) (c : Candidate) (m : Candidates) → lookup id m ≡ some c → c.weight ≤ total m
unfolding lookup
weight_le_total id c [] e = absurd (cc)
weight_le_total id c (entry ∷ m) e = elim (Bool-cases (id == entry.0)) [
  | inl same ↦
      let at : entry.1 ≡ c = ground (arith, same, e) in
      let z = ap (λ (x : Candidate). x.weight) at in omega arith
  | inr other ↦ let later = weight_le_total id c m (ground (arith, other, e)) in omega arith
]

-- Every destination that an instance meets has the weight 0.
abbrev pub NoWeight : List Instance → List Dest → Type 0
NoWeight nodes dests =
    Each
      (λ (node : Instance).
        Each (λ (dest : Dest). (¬ HasItems node dest.dest_item_list) ⊎ (dest.dest_weight ≡ 0))
          dests)
      nodes

module _ (nodes : List Instance) (dests : List Dest) (w : String → ℕ) where
  met_weight :
      Weighted w dests
      → Gathered nodes dests w (visit_nodes nodes dests (0, []))
      → total (visit_nodes nodes dests (0, [])).1 ≡ 0
      → (node : Instance) (dest : Dest) → Memᴰ node nodes
      → Memᴰ dest dests
      → match_items node dest.dest_item_list true ≡ true
      → dest.dest_weight ≡ 0
  met_weight e h z node dest n m meets =
      let found = visit_nodes nodes dests (0, []) in
      let weight_eq = Each-Memᴰ (λ (d : Dest). d.dest_weight ≡ w d.dest_id) dest dests e m in
      elim (Option-cases (lookup dest.dest_id found.1)) [
        | inl missing ↦ absurd (visit_nodes_covers dests node dest nodes (0, []) n m meets missing)
        | inr (c, at) ↦
            let below = weight_le_total dest.dest_id c found.1 at in
            let entry = (Each-lookup (Entry nodes dests w) dest.dest_id c found.1 h.1 at).0 in
            omega arith
      ]

  Gathered-NoWeight :
      Weighted w dests
      → Gathered nodes dests w (visit_nodes nodes dests (0, []))
      → total (visit_nodes nodes dests (0, [])).1 ≡ 0
      → NoWeight nodes dests
  Gathered-NoWeight e h z =
      Each-tabulate
        (λ (node : Instance).
          Each (λ (dest : Dest). (¬ HasItems node dest.dest_item_list) ⊎ (dest.dest_weight ≡ 0))
            dests)
        nodes
        (λ node n.
          Each-tabulate
            (λ (dest : Dest). (¬ HasItems node dest.dest_item_list) ⊎ (dest.dest_weight ≡ 0)) dests
            (λ dest m. elim (Bool-cases (match_items node dest.dest_item_list true)) [
              | inl meets ↦ inr (met_weight e h z node dest n m meets)
              | inr fails ↦ inl (λ has.
                  let meets = (match_items_iff node dest.dest_item_list true).1 (refl, has) in cc)
            ]))

  Drawn-Fits :
      (cur : ℕ) (m order : Candidates) (inss : List Instance)
      → Permᴰ m order
      → Each (Entry nodes dests w) m
      → Drawn cur order inss
      → (inss ≢ []) × ((id : String) × Each (Fits nodes dests id) inss)
  Drawn-Fits cur m order inss p h d =
      let all =
        subst (Each (Entry nodes dests w)) d.split (Each-Permᴰ (Entry nodes dests w) m order p h) in
      let entry = Each_middle (Entry nodes dests w) d.before d.chosen d.after all in
      (
        λ e. entry.1 (sym d.inss_eq ∙ e),
        (d.chosen.0, subst (Each (Fits nodes dests d.chosen.0)) (sym d.inss_eq) entry.2),
      )

module _ (random : ℕ → ℕ → ℕ) (arrange : ℕ → Candidates → Candidates) where
  -- What the k-th call of matchByRule may return: nothing, if no destination with a weight is met, or
  -- the instances of the destination that the draw chooses by the weights.
  abbrev pub Matched : ℕ → Rule → List Instance → List Instance → Type 0
  Matched k rule nodes inss =
      let found = visit_nodes nodes rule.dest_list (0, []) in
      ((inss ≡ []) × NoWeight nodes rule.dest_list)
      ⊎ ((inss ≢ [])
          × ((id : String) × Each (Fits nodes rule.dest_list id) inss)
          × Drawn (random k (total found.1)) (arrange k found.1) inss)

  pick_one-Drawn :
      (k sum : ℕ) (m : Candidates)
      → Fair random
      → Orders arrange
      → sum ≡ total m
      → ((pick_one random arrange k sum m ≡ some []) × (total m ≡ 0))
        ⊎ ((inss : List Instance) × (pick_one random arrange k sum m ≡ some inss)
            × Drawn (random k (total m)) (arrange k m) inss)
  unfolding pick_one
  pick_one-Drawn k sum m fair orders e = elim (Bool-cases (nat_eqb sum 0)) [
    | inl empty ↦ inl (rw (empty, if◌then◌else◌) refl, ground (arith, empty, e))
    | inr some_left ↦
        let positive : 0 < sum = ground arith in
        let same_total = total-Permᴰ m (arrange k m) (orders k m) in
        let picked =
          pick-Drawn sum (random k sum) (arrange k m) (e ∙ same_total) (fair k sum positive) in
        inr (
          picked.0,
          (rw (some_left, if◌then◌else◌) picked.1),
          subst (λ s. Drawn (random k s) (arrange k m) picked.0) e picked.2,
        )
  ]

  pub match_by_rule-Matched :
      (w : String → ℕ) (k : ℕ) (rule : Rule) (nodes : List Instance)
      → Fair random
      → Orders arrange
      → Weighted w rule.dest_list
      → (inss : List Instance) × (match_by_rule random arrange k rule nodes ≡ some inss)
        × Matched k rule nodes inss
  unfolding match_by_rule
  match_by_rule-Matched w k rule nodes fair orders e =
      let found = visit_nodes nodes rule.dest_list (0, []) in
      let h =
        visit_nodes-Gathered nodes rule.dest_list w nodes (0, [])
          (Each-tabulate (λ (n : Instance). Memᴰ n nodes) nodes (λ n m. m)) e (refl, tt) in
      elim (pick_one-Drawn k found.0 found.1 fair orders h.0) [
        | inl (nothing, zero_total) ↦
            ([], nothing, inl (refl, Gathered-NoWeight nodes rule.dest_list w e h zero_total))
        | inr (inss, picked, drawn) ↦
            let fits =
              Drawn-Fits nodes rule.dest_list w (random k (total found.1)) found.1
                (arrange k found.1) inss (orders k found.1) h.1 drawn in
            (inss, picked, inr (fits.0, fits.1, drawn))
      ]
