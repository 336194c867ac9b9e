-- ===== src/Route/Lane/Rules.antt =====
-- refreshRules and GetLaneID: which rules count, in which order.
use tsf_go.Base.{
  String, List, [], ◌∷◌, ◌++◌, Bool, true, false, ◌≡◌, refl, sym, ap, ◌∙◌, ◌↔◌, inl, inr, ◌==◌,
  text_comparable, if◌then◌else◌, Bool-cases, arith, values, sort, Sorted, sort-Sorted, sort-Permᴰ,
  Memᴰ, Each, Each-Permᴰ, Each-map, Each-Memᴰ, Permᴰ-Memᴰ, ℤ, pos, negsuc, pos_part, neg_part,
  ltb_ℤ, nat_eqb, ◌≤◌, ◌+◌, ◌⊎◌,
}
use tsf_go.Route.Lane.{Lane, LaneInfo, LaneRule}
use tsf_go.Route.Lane.Refresh.{not_after, less, rules_of, effective_rules, refresh_rules}

not_after_total : (a b : LaneRule) → not_after a b ≡ false → not_after b a ≡ true
unfolding less
not_after_total a b e = ground arith

not_after_transitive :
    (a b c : LaneRule) → not_after a b ≡ true → not_after b c ≡ true → not_after a c ≡ true
unfolding less
not_after_transitive a b c e e' = ground arith

-- The first rule has the smaller priority, or the same one and was created no later.
abbrev pub Precedes : LaneRule → LaneRule → Type 0
Precedes a b =
    (ltb_ℤ a.priority b.priority ≡ true)
    ⊎ ((a.priority ≡ b.priority) × (a.create_time ≤ b.create_time))

-- Each rule precedes all those behind it.
abbrev pub InOrder : List LaneRule → Type 0
InOrder [] = Unit
InOrder (r ∷ rules) = Each (Precedes r) rules × InOrder rules

same_ℤ : (a b : ℤ) → nat_eqb (pos_part a + neg_part b) (pos_part b + neg_part a) ≡ true → a ≡ b
same_ℤ (pos n) (pos m) e = ap pos (ground (arith, e))
same_ℤ (pos n) (negsuc m) e = absurd (ground (arith, e))
same_ℤ (negsuc n) (pos m) e = absurd (ground (arith, e))
same_ℤ (negsuc n) (negsuc m) e = ap negsuc (ground (arith, e))

not_after-Precedes : (a b : LaneRule) → not_after a b ≡ true → Precedes a b
unfolding less
not_after-Precedes a b e =
    elim (Bool-cases (
      nat_eqb (pos_part a.priority + neg_part b.priority)
        (pos_part b.priority + neg_part a.priority))) [
          | inl same ↦ inr (same_ℤ a.priority b.priority same, ground (arith, e, same))
          | inr differ ↦ inl (ground (arith, e, differ))
        ]

Sorted-InOrder : (rules : List LaneRule) → Sorted not_after rules → InOrder rules
Sorted-InOrder [] sorted = tt
Sorted-InOrder (r ∷ rules) sorted = (
  Each-map (λ s. not_after r s ≡ true) (Precedes r) (not_after-Precedes r) rules sorted.0,
  Sorted-InOrder rules sorted.1,
)

-- The rule's lane is one of the list.
abbrev pub has_lane : String → List LaneInfo → Bool
has_lane id [] = false
has_lane id (lane ∷ rest) = if id == lane.id then true else has_lane id rest

abbrev Counts : List LaneRule → List LaneInfo → LaneRule → Type 0
Counts rules lanes r = Memᴰ r rules × (has_lane r.lane_id lanes ≡ true)

Each-append :
    (P : LaneRule → Type 0) (xs ys : List LaneRule) → Each P xs → Each P ys → Each P (xs ++ ys)
Each-append P [] ys h k = k
Each-append P (x ∷ xs) ys h k = (h.0, Each-append P xs ys h.1 k)

rules_of-Each :
    (lane : LaneInfo) (rules : List LaneRule)
    → Each (λ (r : LaneRule). Memᴰ r rules × (r.lane_id ≡ lane.id)) (rules_of lane rules)
unfolding rules_of
rules_of-Each lane [] = tt
rules_of-Each lane (r ∷ rules) =
    let later =
      Each-map (λ (s : LaneRule). Memᴰ s rules × (s.lane_id ≡ lane.id))
        (λ (s : LaneRule). Memᴰ s (r ∷ rules) × (s.lane_id ≡ lane.id)) (λ s h. (Memᴰ.tail h.0, h.1))
        (rules_of lane rules) (rules_of-Each lane rules) in
    elim (Bool-cases (r.lane_id == lane.id)) [
      | inl e ↦
          rw (rules_of, e, if◌then◌else◌)
            ((Memᴰ.head refl, (text_comparable.same_iff r.lane_id lane.id).0 e), later)
      | inr e ↦ rw (rules_of, e, if◌then◌else◌) later
    ]

effective_rules-Each :
    (lanes : List LaneInfo) (rules : List LaneRule)
    → Each (Counts rules lanes) (effective_rules lanes rules)
unfolding effective_rules
effective_rules-Each [] rules = tt
effective_rules-Each (lane ∷ lanes) rules =
    Each-append (Counts rules (lane ∷ lanes)) (rules_of lane rules) (effective_rules lanes rules)
      (Each-map (λ (s : LaneRule). Memᴰ s rules × (s.lane_id ≡ lane.id))
        (Counts rules (lane ∷ lanes))
        (λ r h. (h.0, rw ((text_comparable.same_iff r.lane_id lane.id).1 h.1) refl))
        (rules_of lane rules) (rules_of-Each lane rules))
      (Each-map (Counts rules lanes) (Counts rules (lane ∷ lanes))
        (λ r h.
          (h.0, elim (Bool-cases (r.lane_id == lane.id)) [ inl e ↦ rw e refl | inr e ↦ rw e h.1 ]))
        (effective_rules lanes rules) (effective_rules-Each lanes rules))

Memᴰ-append_left : (r : LaneRule) (xs ys : List LaneRule) → Memᴰ r xs → Memᴰ r (xs ++ ys)
Memᴰ-append_left r [] ys m = elim m [ ]
Memᴰ-append_left r (x ∷ xs) ys (Memᴰ.head e) = Memᴰ.head e
Memᴰ-append_left r (x ∷ xs) ys (Memᴰ.tail m) = Memᴰ.tail (Memᴰ-append_left r xs ys m)

Memᴰ-append_right : (r : LaneRule) (xs ys : List LaneRule) → Memᴰ r ys → Memᴰ r (xs ++ ys)
Memᴰ-append_right r [] ys m = m
Memᴰ-append_right r (x ∷ xs) ys m = Memᴰ.tail (Memᴰ-append_right r xs ys m)

rules_of-Memᴰ :
    (r : LaneRule) (lane : LaneInfo) (rules : List LaneRule)
    → Memᴰ r rules
    → (r.lane_id == lane.id) ≡ true
    → Memᴰ r (rules_of lane rules)
unfolding rules_of
rules_of-Memᴰ r lane [] m e = elim m [ ]
rules_of-Memᴰ r lane (s ∷ rules) (Memᴰ.head same) e =
    rw (rules_of, (ap (λ (x : LaneRule). x.lane_id == lane.id) (sym same) ∙ e), if◌then◌else◌)
      (Memᴰ.head same)
rules_of-Memᴰ r lane (s ∷ rules) (Memᴰ.tail m) e = elim (Bool-cases (s.lane_id == lane.id)) [
  | inl h ↦ rw (rules_of, h, if◌then◌else◌) (Memᴰ.tail (rules_of-Memᴰ r lane rules m e))
  | inr h ↦ rw (rules_of, h, if◌then◌else◌) (rules_of-Memᴰ r lane rules m e)
]

effective_rules-Memᴰ :
    (r : LaneRule) (lanes : List LaneInfo) (rules : List LaneRule)
    → Counts rules lanes r
    → Memᴰ r (effective_rules lanes rules)
unfolding effective_rules
effective_rules-Memᴰ r [] rules h = absurd (cc)
effective_rules-Memᴰ r (lane ∷ lanes) rules h = elim (Bool-cases (r.lane_id == lane.id)) [
  | inl e ↦
      Memᴰ-append_left r (rules_of lane rules) (effective_rules lanes rules)
        (rules_of-Memᴰ r lane rules h.0 e)
  | inr e ↦
      Memᴰ-append_right r (rules_of lane rules) (effective_rules lanes rules)
        (effective_rules-Memᴰ r lanes rules (h.0, ground (arith, e, h.1)))
]

-- refreshRules keeps the rules of the effective lanes, enabled or not, and no other, a smaller
-- priority before a greater one and, where these are the same, an earlier creation before a later one.
pub refresh_rules-InOrder :
    (l : Lane)
    → InOrder (refresh_rules l).rules
      × ((r : LaneRule)
          → Memᴰ r (refresh_rules l).rules
            ↔ (Memᴰ r l.all_rules × (has_lane r.lane_id (values l.lanes) ≡ true)))
unfolding refresh_rules
refresh_rules-InOrder l =
    let all = effective_rules (values l.lanes) l.all_rules in
    let order = sort-Permᴰ not_after all in
    (
      Sorted-InOrder (sort not_after all)
          (sort-Sorted not_after not_after_total not_after_transitive all),
      λ r. (
        λ m.
            Each-Memᴰ (Counts l.all_rules (values l.lanes)) r (sort not_after all)
              (Each-Permᴰ (Counts l.all_rules (values l.lanes)) all (sort not_after all) order
                (effective_rules-Each (values l.lanes) l.all_rules))
              m,
        λ h.
            Permᴰ-Memᴰ r all (sort not_after all) order
              (effective_rules-Memᴰ r (values l.lanes) l.all_rules h),
      ),
    )
