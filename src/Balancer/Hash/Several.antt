-- ===== src/Balancer/Hash/Several.antt =====
-- balancer/hash: GetTwo and GetN, which go around the circle from the point of the key. A loop that
-- starts at the first point does not stop at it again, so it may go on for ever: `steps` is how many
-- rounds are run, and `none` a loop that is not over then, or a panic.
use tsf_go.Base.{
  ℕ, suc, zero, String, List, [], ◌∷◌, ◌++◌, Option, none, some, Bool, true, false, not, ◌==◌,
  text_comparable, int_comparable, if◌then◌else◌, leb, nat_eqb, lookup, keys, get_elem?, length,
  is_empty, ◌>>=◌, pos, pos_part, ltb_ℤ, ◌&&◌,
}
use tsf_go.Balancer.Hash.{Consistent, search_circle}

-- Consistent.Members
unfoldable pub members_of : Consistent → List String
members_of c = keys c.members

-- sliceContainsMember
unfoldable pub slice_contains_member : List String → String → Bool
slice_contains_member [] member = false
slice_contains_member (m ∷ rest) member =
    if m == member then true else slice_contains_member rest member

abbrev pub or_empty : Option String → String
or_empty none = ""
or_empty (some s) = s

-- c.circle[c.sortedHashes[i]]
unfoldable pub owner_at : Consistent → ℕ → Option String
unfolding lookup
owner_at c i = get_elem? c.sorted_hashes i >>= λ h. some (or_empty (lookup h c.circle))

abbrev pub wrap : Consistent → ℕ → ℕ
wrap c i = if leb (length c.sorted_hashes) i then 0 else i

-- The loop of GetTwo over `i` and `b`
unfoldable pub other_owner : ℕ → Consistent → ℕ → String → ℕ → String → Option String
unfolding owner_at
other_owner zero c start a i b = none
other_owner (suc steps) c start a i b =
    let later = other_owner steps c start a (suc (wrap c i)) in
    if nat_eqb i start
    then some b
    else owner_at c (wrap c i) >>= λ found. if not (found == a) then some found else later found

module _ (hash : String → ℕ) where
  -- Consistent.GetTwo: ErrEmptyCircle is `some none`.
  unfoldable pub get_two : ℕ → String → Consistent → Option (Option (String × String))
  unfolding search_circle owner_at other_owner
  get_two steps name c =
      if is_empty c.circle
      then some none
      else (owner_at c (search_circle c (hash name)) >>= λ a.
          if not (ltb_ℤ c.count (pos 1)) && not (ltb_ℤ (pos 1) c.count)
          then some (some (a, ""))
          else (other_owner steps c (search_circle c (hash name)) a
                (suc (search_circle c (hash name))) ""
              >>= λ b. some (some (a, b))))

  -- The loop of GetN over `i` and `res`
  unfoldable pub more_owners : ℕ → Consistent → ℕ → ℕ → ℕ → List String → Option (List String)
  unfolding owner_at slice_contains_member
  more_owners zero c start n i res = none
  more_owners (suc steps) c start n i res =
      let later = more_owners steps c start n (suc (wrap c i)) in
      if nat_eqb i start
      then some res
      else (owner_at c (wrap c i) >>= λ elem.
          let res' = if slice_contains_member res elem then res else res ++ (elem ∷ []) in
          if nat_eqb (length res') n then some res' else later res')

  -- Consistent.GetN
  unfoldable pub get_n : ℕ → String → ℕ → Consistent → Option (Option (List String))
  unfolding search_circle owner_at more_owners
  get_n steps name n c =
      let wanted = if ltb_ℤ c.count (pos n) then pos_part c.count else n in
      if is_empty c.circle
      then some none
      else (owner_at c (search_circle c (hash name)) >>= λ elem.
          if nat_eqb 1 wanted
          then some (some (elem ∷ []))
          else (more_owners steps c (search_circle c (hash name)) wanted
                (suc (search_circle c (hash name))) (elem ∷ [])
              >>= λ res. some (some res)))
