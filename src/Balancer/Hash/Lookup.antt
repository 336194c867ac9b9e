-- ===== src/Balancer/Hash/Lookup.antt =====
-- Get: the owner of the first point behind the key's hash, around the circle.
use tsf_go.Base.{
  ℕ, String, List, [], ◌∷◌, none, some, true, false, ◌≡◌, refl, sym, subst, ◌∙◌, ◌≢◌, ◌⊎◌, inl, inr,
  ◌==◌, text_comparable, int_comparable, if◌then◌else◌, Bool-cases, leb, ltb, lookup, keys, sort,
  sort-Sorted, sort-Permᴰ, Sorted, get_elem?, length, is_empty, ◌≤◌, ◌<◌, arith, Each, Each-map,
  Each-lookup, Each-Permᴰ, Memᴰ, Each-Memᴰ, sort_nonempty, Each-tabulate,
}
use tsf_go.Balancer.Hash.{Consistent, first_above, search_circle, get}
use tsf_go.Balancer.Hash.Circle.{IsValid, Owned}

-- `h` is the hash that the key goes to: the least one above the key, or the least of all if none is above.
abbrev pub Next : ℕ → List ℕ → ℕ → Type 0
Next key hashes h =
    Memᴰ h hashes
    × (((key < h) × Each (λ x. (x ≤ key) ⊎ (h ≤ x)) hashes)
        ⊎ (Each (λ x. x ≤ key) hashes × Each (λ x. h ≤ x) hashes))

-- The index that the search gives, in a sorted list that is not empty.
abbrev wrapped : ℕ → List ℕ → ℕ
wrapped key hs = if leb (length hs) (first_above key hs) then 0 else first_above key hs

above_at :
    (key : ℕ) (hs : List ℕ)
    → Sorted leb hs
    → ((first_above key hs ≡ length hs) × Each (λ x. x ≤ key) hs)
      ⊎ ((first_above key hs < length hs)
          × ((h : ℕ) × (get_elem? hs (first_above key hs) ≡ some h)
              × Memᴰ h hs
              × (key < h)
              × Each (λ x. (x ≤ key) ⊎ (h ≤ x)) hs))
unfolding first_above
above_at key [] s = inl (refl, tt)
above_at key (x ∷ hs) s = elim (Bool-cases (ltb key x)) [
  | inl found ↦
      rw (found, if◌then◌else◌)
        (inr (
          omega arith,
          (
            x,
            refl,
            Memᴰ.head refl,
            ground arith,
            (
              inr (omega arith),
              Each-map (λ y. leb x y ≡ true) (λ y. (y ≤ key) ⊎ (x ≤ y)) (λ y e. inr (ground arith))
                  hs s.0,
            ),
          ),
        ))
  | inr on ↦
      let low : x ≤ key = ground arith in
      rw (on, if◌then◌else◌)
        (elim (above_at key hs s.1) [
          | inl (e, all) ↦ inl ((omega arith), (low, all))
          | inr (lt, (h, at, m, above, between)) ↦
              inr ((omega arith), (h, at, Memᴰ.tail m, above, (inl low, between)))
        ])
]

wrapped-Next :
    (key : ℕ) (hs : List ℕ)
    → Sorted leb hs
    → hs ≢ []
    → (h : ℕ) × (get_elem? hs (wrapped key hs) ≡ some h) × Next key hs h
wrapped-Next key [] s ne = absurd (ne refl)
wrapped-Next key (x ∷ hs) s ne = elim (above_at key (x ∷ hs) s) [
  | inl (e, all) ↦
      let last : leb (length (x ∷ hs)) (first_above key (x ∷ hs)) ≡ true = ground arith in
      rw (last, if◌then◌else◌)
        (
          x,
          refl,
          (
            Memᴰ.head refl,
            inr (
              all,
              (
                omega arith,
                Each-map (λ y. leb x y ≡ true) (λ y. x ≤ y) (λ y e. ground arith) hs s.0,
              ),
            ),
          ),
        )
  | inr (lt, (h, at, m, above, between)) ↦
      let inside : leb (length (x ∷ hs)) (first_above key (x ∷ hs)) ≡ false = ground arith in
      rw (inside, if◌then◌else◌) (h, at, (m, inl (above, between)))
]

pub Memᴰ-lookup :
    (h : ℕ) (m : List (ℕ × String)) → Memᴰ h (keys m) → (elt : String) × (lookup h m ≡ some elt)
unfolding lookup
Memᴰ-lookup h [] m = elim m [ ]
Memᴰ-lookup h (entry ∷ rest) m = elim (Bool-cases (h == entry.0)) [
  | inl same ↦ rw (same, if◌then◌else◌) (entry.1, refl)
  | inr other ↦
      rw (other, if◌then◌else◌)
        (elim m [
          | Memᴰ.head e ↦ absurd (let z = (int_comparable.same_iff h entry.0).1 e in cc)
          | Memᴰ.tail later ↦ Memᴰ-lookup h rest later
        ])
]

keys_nonempty : (m : List (ℕ × String)) → m ≢ [] → keys m ≢ []
keys_nonempty [] ne e = ne refl
keys_nonempty (x ∷ m) ne e = cc

pub sort_keys-Memᴰ : (h : ℕ) (m : List (ℕ × String)) → Memᴰ h (sort leb (keys m)) → Memᴰ h (keys m)
sort_keys-Memᴰ h m e =
    Each-Memᴰ (λ x. Memᴰ x (keys m)) h (sort leb (keys m))
      (Each-Permᴰ (λ x. Memᴰ x (keys m)) (keys m) (sort leb (keys m)) (sort-Permᴰ leb (keys m))
        (Each-tabulate (λ x. Memᴰ x (keys m)) (keys m) (λ x i. i)))
      e

is_empty-false : (m : List (ℕ × String)) → m ≢ [] → is_empty m ≡ false
is_empty-false [] ne = absurd (ne refl)
is_empty-false (x ∷ m) ne = refl

Sorted-sort : (xs : List ℕ) → Sorted leb (sort leb xs)
Sorted-sort xs = sort-Sorted leb (λ x y e. ground arith) (λ x y z e e'. ground arith) xs

module _ (hash : String → ℕ) where
  -- Get on a valid circle that is not empty gives a member, the owner of the least point above the
  -- hash of the name, or of the least point of all if none is above it.
  pub get-Next :
      (name : String) (c : Consistent)
      → IsValid hash c
      → c.circle ≢ []
      → (owner : String) × (get hash name c ≡ some (some owner))
        × (lookup owner c.members ≢ none)
        × ((h : ℕ) × (lookup h c.circle ≡ some owner) × Next (hash name) c.sorted_hashes h)
  unfolding get search_circle
  get-Next name c v ne =
      let in_order = subst (Sorted leb) (sym v.sorted) (Sorted-sort (keys c.circle)) in
      let some_left : c.sorted_hashes ≢ [] =
        λ e. sort_nonempty leb (keys c.circle) (keys_nonempty c.circle ne) (sym v.sorted ∙ e) in
      let (h, at, next) = wrapped-Next (hash name) c.sorted_hashes in_order some_left in
      let (owner, owns) =
        Memᴰ-lookup h c.circle (sort_keys-Memᴰ h c.circle (subst (Memᴰ h) v.sorted next.0)) in
      let owned =
        Each-lookup (Owned hash c.members c.number_of_replicas) h owner c.circle v.owned owns in
      (
        owner,
        rw (is_empty-false c.circle ne, at, owns, if◌then◌else◌) refl,
        owned.0,
        (h, owns, next),
      )
