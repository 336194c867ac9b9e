-- ===== src/Balancer/Hash/Members.antt =====
-- The members after Set: those that it is given, each with the index that it was added with.
use tsf_go.Base.{
  ℕ, String, List, [], ◌∷◌, Option, none, some, Bool, true, false, ◌≡◌, refl, sym, ap, ◌∙◌, ◌≢◌,
  inl, inr, ◌==◌, text_comparable, int_comparable, if◌then◌else◌, Bool-cases, Option-cases, lookup,
  has_key, keys, arith, lookup-insert, lookup-delete,
}
use tsf_go.Balancer.Hash.{
  Consistent, Node, add, remove, remove_others, add_missing, set, is_name, update_sorted_hashes,
}

-- The index of the first element of a name.
abbrev pub first_idx : String → List Node → Option ℕ
first_idx name [] = none
first_idx name (v ∷ rest) = if name == v.name then some v.idx else first_idx name rest

abbrev pub or_else : Option ℕ → Option ℕ → Option ℕ
or_else none new = new
or_else (some i) new = some i

abbrev in_names : String → List String → Bool
in_names name [] = false
in_names name (k ∷ rest) = if name == k then true else in_names name rest

-- What the first loop leaves of a member that stood there.
abbrev left_of : Bool → Bool → Option ℕ → Option ℕ
left_of wanted visited old = if wanted then old else if visited then none else old

has_key-lookup :
    (key : String) (m : List (String × ℕ)) → (has_key key m ≡ false) → lookup key m ≡ none
unfolding has_key lookup
has_key-lookup key [] e = refl
has_key-lookup key (entry ∷ m) e = elim (Bool-cases (key == entry.0)) [
  | inl same ↦ absurd (ground (arith, same, e))
  | inr other ↦ rw (other, if◌then◌else◌) (has_key-lookup key m (ground (arith, other, e)))
]

lookup-has_key : (key : String) (m : List (String × ℕ)) → has_key key m ≡ true → lookup key m ≢ none
unfolding has_key lookup
lookup-has_key key [] e z = cc
lookup-has_key key (entry ∷ m) e z = elim (Bool-cases (key == entry.0)) [
  | inl same ↦ ground (arith, same, z)
  | inr other ↦ lookup-has_key key m (ground (arith, other, e)) (ground (arith, other, z))
]

lookup-keys :
    (key : String) (m : List (String × ℕ)) → in_names key (keys m) ≡ false → lookup key m ≡ none
unfolding lookup
lookup-keys key [] e = refl
lookup-keys key (entry ∷ m) e = elim (Bool-cases (key == entry.0)) [
  | inl same ↦ absurd (ground (arith, same, e))
  | inr other ↦ rw (other, if◌then◌else◌) (lookup-keys key m (ground (arith, other, e)))
]

is_name_same : (a b : String) (elts : List Node) → (a == b) ≡ true → is_name a elts ≡ is_name b elts
is_name_same a b elts e = ap (λ s. is_name s elts) ((text_comparable.same_iff a b).0 e)

first_idx-none :
    (name : String) (elts : List Node) → is_name name elts ≡ false → first_idx name elts ≡ none
unfolding is_name
first_idx-none name [] e = refl
first_idx-none name (v ∷ rest) e = elim (Bool-cases (name == v.name)) [
  | inl same ↦ absurd (ground (arith, same, e))
  | inr other ↦ rw (other, if◌then◌else◌) (first_idx-none name rest (ground (arith, other, e)))
]

skipped :
    (here : Bool) (old later : Option ℕ) (i : ℕ)
    → (here ≡ true → old ≢ none)
    → or_else old later ≡ or_else old (if here then some i else later)
skipped true none later i h = absurd (h refl refl)
skipped true (some j) later i h = refl
skipped false none later i h = refl
skipped false (some j) later i h = refl

added :
    (here : Bool) (old later : Option ℕ) (i : ℕ)
    → (here ≡ true → old ≡ none)
    → or_else (if here then some i else old) later ≡ or_else old (if here then some i else later)
added true none later i h = refl
added true (some j) later i h = absurd (let z = h refl in cc)
added false old later i h = refl

settled :
    (wanted visited : Bool) (old new : Option ℕ)
    → (visited ≡ false → old ≡ none)
    → (wanted ≡ false → new ≡ none)
    → or_else (left_of wanted visited old) new ≡ (if wanted then or_else old new else none)
settled true visited old new v w = refl
settled false true old new v w = w refl
settled false false old new v w = rw (v refl) (w refl)

at_name :
    (name k : String) (m : List (String × ℕ)) → (name == k) ≡ true → lookup k m ≡ lookup name m
at_name name k m e = ap (λ s. lookup s m) (sym ((text_comparable.same_iff name k).0 e))

module _ (hash : String → ℕ) where
  lookup-remove :
      (name k : String) (c : Consistent)
      → lookup name (remove hash k c).members ≡ (if name == k then none else lookup name c.members)
  unfolding remove update_sorted_hashes
  lookup-remove name k c = lookup-delete k name c.members

  lookup-add :
      (name : String) (v : Node) (c : Consistent)
      → lookup name (add hash v c).members
        ≡ (if name == v.name then some v.idx else lookup name c.members)
  unfolding add update_sorted_hashes
  lookup-add name v c = lookup-insert v.name name v.idx c.members

  lookup-remove_others :
      (name : String) (elts : List Node) (names : List String) (c : Consistent)
      → lookup name (remove_others hash elts names c).members
        ≡ left_of (is_name name elts) (in_names name names) (lookup name c.members)
  unfolding remove_others
  lookup-remove_others name elts [] c = ground arith
  lookup-remove_others name elts (k ∷ rest) c = elim (Bool-cases (is_name k elts)) [
    | inl stays ↦
        rw (remove_others, stays, if◌then◌else◌)
          (lookup-remove_others name elts rest c ∙ ground (arith, stays, is_name_same name k elts))
    | inr goes ↦
        rw (remove_others, goes, if◌then◌else◌)
          (lookup-remove_others name elts rest (remove hash k c)
            ∙ rw (lookup-remove name k c) (ground (arith, goes, is_name_same name k elts)))
  ]

  lookup-add_missing :
      (name : String) (elts : List Node) (c : Consistent)
      → lookup name (add_missing hash elts c).members
        ≡ or_else (lookup name c.members) (first_idx name elts)
  unfolding add_missing
  lookup-add_missing name [] c = elim (Option-cases (lookup name c.members)) [
    | inl e ↦ rw e refl
    | inr (i, e) ↦ rw e refl
  ]
  lookup-add_missing name (v ∷ rest) c = elim (Bool-cases (has_key v.name c.members)) [
    | inl there ↦
        rw (add_missing, there, if◌then◌else◌)
          (lookup-add_missing name rest c
            ∙ skipped (name == v.name) (lookup name c.members) (first_idx name rest) v.idx
                (λ same missing.
                  lookup-has_key v.name c.members there
                    (at_name name v.name c.members same ∙ missing)))
    | inr new ↦
        rw (add_missing, new, if◌then◌else◌)
          (lookup-add_missing name rest (add hash v c)
            ∙ rw (lookup-add name v c) (
                added (name == v.name) (lookup name c.members) (first_idx name rest) v.idx (λ same.
                  sym (at_name name v.name c.members same) ∙ has_key-lookup v.name c.members new)))
  ]

  -- After Set a name that it is not given is no member. A name that it is given has the index that it
  -- was added with: the old one if it was a member before, wherever it stands in the new list, or the
  -- index of the first element of this name.
  pub lookup-set :
      (name : String) (elts : List Node) (c : Consistent)
      → lookup name (set hash elts c).members ≡ (
          if is_name name elts then or_else (lookup name c.members) (first_idx name elts) else none)
  unfolding set
  lookup-set name elts c =
      lookup-add_missing name elts (remove_others hash elts (keys c.members) c)
      ∙ rw (lookup-remove_others name elts (keys c.members) c) (
          settled (is_name name elts) (in_names name (keys c.members)) (lookup name c.members)
            (first_idx name elts) (lookup-keys name c.members) (first_idx-none name elts))
