-- ===== src/Route/Router/Candidates.antt =====
-- matchByRule: what its loops gather, and what a draw picks of it.
use tsf_go.Base.{
  ℕ, String, List, [], ◌∷◌, ◌++◌, Option, none, some, Bool, true, false, ◌≡◌, refl, ◌≢◌, ◌↔◌, inl,
  inr, ◌+◌, if◌then◌else◌, Bool-cases, Option-cases, arith, Memᴰ, Each, Each-snoc, Each-insert,
  Each-lookup, Each-tabulate, lookup, insert, ◌==◌, text_comparable,
}
use tsf_go.Naming.{Instance, get}
use tsf_go.Route.Router.{
  Candidate, Candidates, Dest, DestItem, match_items, instances_of, added_weight, add_candidate,
  visit_dests, visit_nodes,
}
use tsf_go.Route.Router.Pick.{total}

-- The instance has the metadata that the items ask for.
abbrev pub HasItems : Instance → List DestItem → Type 0
HasItems node items =
    Each (λ (item : DestItem). get item.dest_item_field node.metadata ≡ item.dest_item_value) items

pub match_items_iff :
    (node : Instance) (items : List DestItem) (matched : Bool)
    → (match_items node items matched ≡ true) ↔ ((matched ≡ true) × HasItems node items)
unfolding match_items
match_items_iff node [] matched = (λ e. (e, tt), λ h. h.0)
match_items_iff node (item ∷ items) matched =
    elim (Bool-cases (get item.dest_item_field node.metadata == item.dest_item_value)) [
      | inl e ↦
          let same =
            (text_comparable.same_iff (get item.dest_item_field node.metadata)
                item.dest_item_value).0
              e in
          let rest = match_items_iff node items matched in
          rw (e, if◌then◌else◌)
            (λ h. ((rest.0 h).0, (same, (rest.0 h).1)), λ h. rest.1 (h.0, h.1.1))
      | inr e ↦
          let rest = match_items_iff node items false in
          rw (e, if◌then◌else◌)
            (
              λ h. absurd (let z = (rest.0 h).0 in cc),
              λ h. absurd (
                  let z =
                    (text_comparable.same_iff (get item.dest_item_field node.metadata)
                        item.dest_item_value).1
                      h.1.0 in
                  cc),
            )
    ]

abbrev pub weight_in : Option Candidate → ℕ
weight_in none = 0
weight_in (some c) = c.weight

total-insert :
    (id : String) (c : Candidate) (m : Candidates)
    → total (insert id c m) + weight_in (lookup id m) ≡ total m + c.weight
unfolding insert lookup
total-insert id c [] = omega arith
total-insert id c (entry ∷ m) = elim (Bool-cases (id == entry.0)) [
  | inl e ↦ rw (e, if◌then◌else◌) (omega arith)
  | inr e ↦ rw (e, if◌then◌else◌) (let later = total-insert id c m in omega arith)
]

module _ (w : String → ℕ) where
  -- All destinations of one id have the same weight, which `w` gives.
  abbrev pub Weighted : List Dest → Type 0
  Weighted dests = Each (λ (d : Dest). d.dest_weight ≡ w d.dest_id) dests

module _ (nodes : List Instance) (dests : List Dest) where
  -- The instance is one of `nodes` that a destination of this id asks for.
  pub record Fits (id : String) (node : Instance) : Type 0 where
    pub dest : Dest
    pub is_node : Memᴰ node nodes
    pub is_dest : Memᴰ dest dests
    pub id_eq : dest.dest_id ≡ id
    pub has_items : HasItems node dest.dest_item_list

  module _ (w : String → ℕ) where
    abbrev pub Entry : String × Candidate → Type 0
    Entry e = (e.1.weight ≡ w e.0) × (e.1.inss ≢ []) × Each (Fits e.0) e.1.inss

    -- What the loops have gathered.
    abbrev pub Gathered : ℕ × Candidates → Type 0
    Gathered found = (found.0 ≡ total found.1) × Each Entry found.1

    snoc_nonempty : (ns : List Instance) (n : Instance) → (ns ++ (n ∷ [])) ≢ []
    snoc_nonempty [] n e = cc
    snoc_nonempty (m ∷ ns) n e = cc

    old_Fits :
        (id : String) (m : Candidates) → Each Entry m → Each (Fits id) (instances_of (lookup id m))
    old_Fits id m h = elim (Option-cases (lookup id m)) [
      | inl e ↦ rw e tt
      | inr (c, e) ↦ rw e (Each-lookup Entry id c m h e).2
    ]

    old_weight :
        (id : String) (m : Candidates) (weight : ℕ)
        → Each Entry m
        → weight ≡ w id
        → added_weight (lookup id m) weight + weight_in (lookup id m) ≡ weight
    old_weight id m weight h e = elim (Option-cases (lookup id m)) [
      | inl none_yet ↦ rw none_yet (omega arith)
      | inr (c, at) ↦ rw at (let here = (Each-lookup Entry id c m h at).0 in omega arith)
    ]

    add_candidate-Gathered :
        (node : Instance) (dest : Dest) (found : ℕ × Candidates)
        → dest.dest_weight ≡ w dest.dest_id
        → Fits dest.dest_id node
        → Gathered found
        → Gathered (add_candidate node dest found)
    unfolding add_candidate
    add_candidate-Gathered node dest (sum, m) e fits h =
        let c : Candidate = record {
          inss = instances_of (lookup dest.dest_id m) ++ (node ∷ []);
          weight = dest.dest_weight;
        } in
        let new_total = total-insert dest.dest_id c m in
        let old = old_weight dest.dest_id m dest.dest_weight h.1 e in
        let sum_eq = h.0 in
        (
          omega arith,
          Each-insert Entry dest.dest_id c m h.1 (
            e,
            snoc_nonempty (instances_of (lookup dest.dest_id m)) node,
            Each-snoc (Fits dest.dest_id) (instances_of (lookup dest.dest_id m)) node
                (old_Fits dest.dest_id m h.1) fits,
          ),
        )

    visit_dests-Gathered :
        (node : Instance) (ds : List Dest) (found : ℕ × Candidates)
        → Memᴰ node nodes
        → Each (λ (d : Dest). Memᴰ d dests) ds
        → Weighted w ds
        → Gathered found
        → Gathered (visit_dests node ds found)
    unfolding visit_dests
    visit_dests-Gathered node [] found n i e h = h
    visit_dests-Gathered node (d ∷ ds) found n i e h =
        elim (Bool-cases (match_items node d.dest_item_list true)) [
          | inl meets ↦
              let fits : Fits d.dest_id node = record {
                dest = d;
                is_node = n;
                is_dest = i.0;
                id_eq = refl;
                has_items = ((match_items_iff node d.dest_item_list true).0 meets).1;
              } in
              rw (visit_dests, meets, if◌then◌else◌)
                (visit_dests-Gathered node ds (add_candidate node d found) n i.1 e.1
                  (add_candidate-Gathered node d found e.0 fits h))
          | inr fails ↦
              rw (visit_dests, fails, if◌then◌else◌)
                (visit_dests-Gathered node ds found n i.1 e.1 h)
        ]

    pub visit_nodes-Gathered :
        (ns : List Instance) (found : ℕ × Candidates)
        → Each (λ (n : Instance). Memᴰ n nodes) ns
        → Weighted w dests
        → Gathered found
        → Gathered (visit_nodes ns dests found)
    unfolding visit_nodes
    visit_nodes-Gathered [] found n e h = h
    visit_nodes-Gathered (node ∷ ns) found n e h =
        visit_nodes-Gathered ns (visit_dests node dests found) n.1 e (
          visit_dests-Gathered node dests found n.0
            (Each-tabulate (λ (d : Dest). Memᴰ d dests) dests (λ d m. m)) e h)
