-- ===== src/Route/Router/Cover.antt =====
-- matchByRule: every destination that an instance meets has its candidate.
use tsf_go.Base.{
  ℕ, String, List, [], ◌∷◌, ◌++◌, none, true, ◌≡◌, sym, ap, ◌∙◌, ◌≢◌, ◌⊎◌, inl, inr, if◌then◌else◌,
  Bool-cases, Memᴰ, lookup, insert, lookup-insert, ◌==◌, text_comparable,
}
use tsf_go.Naming.{Instance}
use tsf_go.Route.Router.{
  Candidate, Candidates, Dest, match_items, instances_of, add_candidate, visit_dests, visit_nodes,
}

-- A candidate of the id is there.
abbrev pub Present : String → ℕ × Candidates → Type 0
Present id found = lookup id found.1 ≢ none

insert-Present :
    (id new : String) (c : Candidate) (m : Candidates)
    → (lookup id m ≢ none) ⊎ (id ≡ new)
    → lookup id (insert new c m) ≢ none
insert-Present id new c m h = rw (lookup-insert new id c m) (elim (Bool-cases (id == new)) [
  | inl same ↦ rw (same, if◌then◌else◌) (λ e. cc)
  | inr other ↦
      rw (other, if◌then◌else◌)
        (elim h [
          | inl before ↦ before
          | inr at ↦ λ e. let z = (text_comparable.same_iff id new).1 at in cc
        ])
])

add_candidate-Present :
    (id : String) (node : Instance) (dest : Dest) (found : ℕ × Candidates)
    → Present id found ⊎ (id ≡ dest.dest_id)
    → Present id (add_candidate node dest found)
unfolding add_candidate
add_candidate-Present id node dest (sum, m) h =
    insert-Present id dest.dest_id
      (record {
        inss = instances_of (lookup dest.dest_id m) ++ (node ∷ []);
        weight = dest.dest_weight;
      })
      m h

visit_dests-Present :
    (id : String) (node : Instance) (ds : List Dest) (found : ℕ × Candidates)
    → Present id found
    → Present id (visit_dests node ds found)
unfolding visit_dests
visit_dests-Present id node [] found h = h
visit_dests-Present id node (d ∷ ds) found h =
    elim (Bool-cases (match_items node d.dest_item_list true)) [
      | inl meets ↦
          rw (visit_dests, meets, if◌then◌else◌)
            (visit_dests-Present id node ds (add_candidate node d found)
              (add_candidate-Present id node d found (inl h)))
      | inr fails ↦ rw (visit_dests, fails, if◌then◌else◌) (visit_dests-Present id node ds found h)
    ]

visit_dests_covers :
    (node : Instance) (dest : Dest) (ds : List Dest) (found : ℕ × Candidates)
    → Memᴰ dest ds
    → match_items node dest.dest_item_list true ≡ true
    → Present dest.dest_id (visit_dests node ds found)
unfolding visit_dests
visit_dests_covers node dest [] found m h = elim m [ ]
visit_dests_covers node dest (d ∷ ds) found (Memᴰ.head e) h =
    let meets = ap (λ (c : Dest). match_items node c.dest_item_list true) (sym e) ∙ h in
    rw (visit_dests, meets, if◌then◌else◌)
      (visit_dests-Present dest.dest_id node ds (add_candidate node d found)
        (add_candidate-Present dest.dest_id node d found (inr (ap (λ (c : Dest). c.dest_id) e))))
visit_dests_covers node dest (d ∷ ds) found (Memᴰ.tail m) h =
    visit_dests_covers node dest ds
      (if match_items node d.dest_item_list true then add_candidate node d found else found) m h

module _ (dests : List Dest) where
  visit_nodes-Present :
      (id : String) (ns : List Instance) (found : ℕ × Candidates)
      → Present id found
      → Present id (visit_nodes ns dests found)
  unfolding visit_nodes
  visit_nodes-Present id [] found h = h
  visit_nodes-Present id (node ∷ ns) found h =
      visit_nodes-Present id ns (visit_dests node dests found)
        (visit_dests-Present id node dests found h)

  pub visit_nodes_covers :
      (node : Instance) (dest : Dest) (ns : List Instance) (found : ℕ × Candidates)
      → Memᴰ node ns
      → Memᴰ dest dests
      → match_items node dest.dest_item_list true ≡ true
      → Present dest.dest_id (visit_nodes ns dests found)
  unfolding visit_nodes
  visit_nodes_covers node dest [] found n m h = elim n [ ]
  visit_nodes_covers node dest (node' ∷ ns) found (Memᴰ.head e) m h =
      visit_nodes-Present dest.dest_id ns (visit_dests node' dests found) (
        visit_dests_covers node' dest dests found m
          (ap (λ n. match_items n dest.dest_item_list true) (sym e) ∙ h))
  visit_nodes_covers node dest (node' ∷ ns) found (Memᴰ.tail n) m h =
      visit_nodes_covers node dest ns (visit_dests node' dests found) n m h
