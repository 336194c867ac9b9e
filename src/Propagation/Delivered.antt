-- ===== src/Propagation/Delivered.antt =====
-- server.go: what the loop over the metadata gives to the user's keys.
use tsf_go.Base.{
  String, List, [], ◌∷◌, ◌++◌, Option, none, some, Bool, true, false, if◌then◌else◌, ◌||◌, lookup,
  text_comparable, ◌==◌, ◌≡◌, refl, ◌∙◌, ap, sym, Bool-cases, inl, inr, if-true, if-false, Each,
  same_self,
}
use tsf_go.Meta.{
  Any, SysMeta, UserMeta, is_incoming, is_user_key, is_link_key, user_key, get_user_key,
}
use tsf_go.Meta.Laws.{last_of}
use tsf_go.Propagation.{Md, TsfMeta, read_entries, read_entry, read_key}
use tsf_go.Propagation.Keys.{
  get_user_key-user_key, is_user_key-user_key, incoming_plain, user_key-get_user_key, user_key_some,
}

last_of-append {ℓ} :
    {V : Type ℓ} (key : String) (a b : List (String × V)) (before : Option V)
    → last_of key (a ++ b) before ≡ last_of key b (last_of key a before)
last_of-append key [] b before = refl
last_of-append key (p ∷ a) b before =
    last_of-append key a b (if key == p.0 then some p.1 else before)

-- A map has a key once.
unfoldable pub KeysOnce : Md → Type 0
unfolding lookup
KeysOnce [] = Unit
KeysOnce (e ∷ rest) = (lookup e.0 rest ≡ none) × KeysOnce rest

abbrev pub or_before : Option String → Option String → Option String
or_before none before = before
or_before (some v) before = some v

-- With keys that stand once the last value is the one that is found.
pub last_of-lookup :
    (key : String) (m : Md) (before : Option String)
    → KeysOnce m
    → last_of key m before ≡ or_before (lookup key m) before
unfolding KeysOnce lookup
last_of-lookup key [] before once = refl
last_of-lookup key (e ∷ rest) before (alone, once) = elim (Bool-cases (key == e.0)) [
  | inl same ↦
      let one = ap (λ k. lookup k rest) ((text_comparable.same_iff key e.0).0 same) ∙ alone in
      let later = last_of-lookup key rest (some e.1) once in
      ap (last_of key rest) (if-true (some e.1) before same)
      ∙ later
      ∙ ap (λ o. or_before o (some e.1)) one
      ∙ sym (ap (λ o. or_before o before) (if-true (some e.1) (lookup key rest) same))
  | inr other ↦
      let later = last_of-lookup key rest before once in
      ap (last_of key rest) (if-false (some e.1) before other)
      ∙ later
      ∙ sym (ap (λ o. or_before o before) (if-false (some e.1) (lookup key rest) other))
]

-- An entry that is read as it stands: its key in lower case, its value not empty, and no tags.
abbrev pub Plain : (String → String) → String × String → Type 0
Plain lower e = (lower e.0 ≡ e.0) × (((e.1 == "") ≡ false) × ((e.0 == "tsf-tags") ≡ false))

either_keeps :
    (k : String) {before : Option String} (b : Bool) (x y : SysMeta × UserMeta)
    → (b ≡ true → last_of k x.1 before ≡ before)
    → (b ≡ false → last_of k y.1 before ≡ before)
    → last_of k (if b then x else y).1 before ≡ before
either_keeps k true x y f g = f refl
either_keeps k false x y f g = g refl

-- Another user's key.
not_theirs :
    (k key : String)
    → (user_key k == key) ≡ false
    → is_user_key key ≡ true
    → (k == get_user_key key) ≡ false
not_theirs k key differs its = elim (Bool-cases (k == get_user_key key)) [
  | inl same ↦ absurd (
      let one =
        ap user_key ((text_comparable.same_iff k (get_user_key key)).0 same)
        ∙ user_key-get_user_key key its in
      let equal = (text_comparable.same_iff (user_key k) key).1 one in cc)
  | inr other ↦ other
]

module _ (lower : String → String) (read_tsf read_atom : String → TsfMeta)
    (read_tags : String → List (String × Any)) where
  own_key :
      (k val : String) (before : Option String)
      → last_of k (read_key lower read_tsf read_atom read_tags (user_key k) val).1 before ≡ some val
  unfolding read_key
  own_key k val before =
      let own = is_user_key-user_key k in
      let local = Bool-cases (is_incoming (user_key k)) in
      elim local [
        | inl comes ↦ absurd (let plain = incoming_plain (user_key k) comes in cc)
        | inr stays ↦
            ap (λ (r : SysMeta × UserMeta). last_of k r.1 before)
              (if-false _ _ stays ∙ if-true _ _ own)
            ∙ rw (get_user_key-user_key k) (rw (same_self k) refl)
      ]

  other_key :
      (k key val : String) (before : Option String)
      → (user_key k == key) ≡ false
      → (key == "tsf-tags") ≡ false
      → last_of k (read_key lower read_tsf read_atom read_tags key val).1 before ≡ before
  unfolding read_key
  other_key k key val before differs no_tags =
      either_keeps k (is_incoming key) _ _ (λ _. refl)
        (λ _.
          either_keeps k (is_user_key key) _ _
            (λ its. if-false (some val) before (not_theirs k key differs its))
            (λ _.
              either_keeps k (is_link_key key) _ _ (λ _. refl)
                (λ _.
                  either_keeps k (key == "tsf-metadata") _ _ (λ _. refl)
                    (λ _.
                      either_keeps k (key == "_st") _ _ (λ _. refl)
                        (λ _.
                          either_keeps k (key == "tsf-tags") _ _ (λ e. absurd (cc)) (λ _. refl))))))

  key_last :
      (k key val : String) (before : Option String)
      → (key == "tsf-tags") ≡ false
      → last_of k (read_key lower read_tsf read_atom read_tags key val).1 before
        ≡ (if user_key k == key then some val else before)
  key_last k key val before no_tags = elim (Bool-cases (user_key k == key)) [
    | inl same ↦
        ap (λ x. last_of k (read_key lower read_tsf read_atom read_tags x val).1 before)
          (sym ((text_comparable.same_iff (user_key k) key).0 same))
        ∙ own_key k val before
        ∙ sym (if-true (some val) before same)
    | inr differ ↦
        other_key k key val before differ no_tags ∙ sym (if-false (some val) before differ)
  ]

  -- An entry of the metadata, and the user's keys.
  entry_last :
      (k : String) (e : String × String) (before : Option String)
      → Plain lower e
      → last_of k (read_entry lower read_tsf read_atom read_tags e).1 before
        ≡ (if user_key k == e.0 then some e.1 else before)
  unfolding read_entry
  entry_last k (key, val) before (fixed, (some_value, no_tags)) = elim (Bool-cases (key == "")) [
    | inl empty ↦
        let apart =
          ap (λ x. user_key k == x) ((text_comparable.same_iff key "").0 empty) ∙ user_key_some k in
        ap (λ (r : SysMeta × UserMeta). last_of k r.1 before)
          (if-true {b = key == "" || val == ""} ([], []) _ (rw empty refl))
        ∙ sym (if-false (some val) before apart)
    | inr named ↦
        ap (λ (r : SysMeta × UserMeta). last_of k r.1 before)
          (if-false {b = key == "" || val == ""} ([], []) _ (rw named some_value)
            ∙ ap (λ x. read_key lower read_tsf read_atom read_tags x val) fixed)
        ∙ key_last k key val before no_tags
  ]

  -- The loop over metadata that are read as they stand: a user's key has the last value of its key.
  pub entries_last :
      (k : String) (md : Md) (before : Option String)
      → Each (Plain lower) md
      → last_of k (read_entries lower read_tsf read_atom read_tags md).1 before
        ≡ last_of (user_key k) md before
  unfolding read_entries
  entries_last k [] before plain = refl
  entries_last k (e ∷ md) before (here, later) =
      last_of-append k (read_entry lower read_tsf read_atom read_tags e).1
        (read_entries lower read_tsf read_atom read_tags md).1 before
      ∙ ap (last_of k (read_entries lower read_tsf read_atom read_tags md).1)
          (entry_last k e before here)
      ∙ entries_last k md (if user_key k == e.0 then some e.1 else before) later
