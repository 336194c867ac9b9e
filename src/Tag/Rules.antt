-- ===== src/Tag/Rules.antt =====
-- pkg/sys/tag: which rules hit.
use tsf_go.Base.{
  ℕ, String, List, [], ◌∷◌, none, Bool, true, false, ◌≡◌, refl, ◌↔◌, ◌⊎◌, inl, inr, ◌==◌,
  text_comparable, int_comparable, if◌then◌else◌, lookup, Bool-cases, arith, contains-nil, ◌∙◌,
}
use tsf_go.Meta.{Context, sys, user, origin_of}
use tsf_go.Tag.{
  Tag, Rule, TagType, type_sys, type_user, hit, hit_value, value_of, operate, all_hit, any_hit,
  rule_hit, relation_and, relation_or, is_in,
}

module _ (matches : String → String → Bool) (ctx : Context) where
  abbrev pub Hits : Tag → Type 0
  Hits t = hit matches ctx t ≡ true

  -- Every tag of the list hits.
  abbrev pub Every : List Tag → Type 0
  Every [] = Unit {0}
  Every (t ∷ rest) = Hits t × Every rest

  -- Some tag of the list hits.
  abbrev pub Some : List Tag → Type 0
  Some [] = ⊥
  Some (t ∷ rest) = Hits t ⊎ Some rest

  all_hit_iff : (ts : List Tag) → (all_hit matches ctx ts ≡ true) ↔ Every ts
  unfolding all_hit
  all_hit_iff [] = (λ _. tt, λ _. refl)
  all_hit_iff (t ∷ ts) = elim (Bool-cases (hit matches ctx t)) [
    | inl h ↦ rw h (λ e. (refl, (all_hit_iff ts).0 e), λ e. (all_hit_iff ts).1 e.1)
    | inr h ↦ rw h (λ e. cc, λ e. cc)
  ]

  any_hit_iff : (ts : List Tag) → (any_hit matches ctx ts ≡ true) ↔ Some ts
  unfolding any_hit
  any_hit_iff [] = (λ e. cc, λ e. elim e [ ])
  any_hit_iff (t ∷ ts) = elim (Bool-cases (hit matches ctx t)) [
    | inl h ↦ rw h (λ e. inl refl, λ e. refl)
    | inr h ↦ rw h (
      λ e. inr ((any_hit_iff ts).0 e),
      λ e. elim e [ inl c ↦ cc | inr later ↦ (any_hit_iff ts).1 later ],
    )
  ]

  -- What a rule asks of the call: nothing if it has no tags, all its tags under AND, one of them
  -- under OR; no other relation is ever met.
  abbrev pub Meets : Rule → Type 0
  Meets r =
      (r.tags ≡ [])
      ⊎ ((r.expression ≡ relation_and) × Every r.tags)
      ⊎ ((r.expression ≡ relation_or) × Some r.tags)

  ladder_iff :
      (expression : ℕ) (t : Tag) (ts : List Tag)
      → ((if expression == relation_and
            then all_hit matches ctx (t ∷ ts)
            else if expression == relation_or
            then any_hit matches ctx (t ∷ ts)
            else false)
          ≡ true)
        ↔ (((expression ≡ relation_and) × Every (t ∷ ts))
            ⊎ ((expression ≡ relation_or) × Some (t ∷ ts)))
  ladder_iff expression t ts = elim (Bool-cases (expression == relation_and)) [
    | inl h ↦
        let z : expression ≡ relation_and = ground arith in
        rw (h, if◌then◌else◌)
          (
            λ e. inl (z, (all_hit_iff (t ∷ ts)).0 e),
            λ e. elim e [
              | inl (_, every) ↦ (all_hit_iff (t ∷ ts)).1 every
              | inr (one, _) ↦ absurd (omega arith)
            ],
          )
    | inr h ↦ elim (Bool-cases (expression == relation_or)) [
      | inl k ↦
          let z : expression ≡ relation_or = ground arith in
          rw (h, k, if◌then◌else◌)
            (
              λ e. inr (z, (any_hit_iff (t ∷ ts)).0 e),
              λ e. elim e [
                | inl (zero_, _) ↦ absurd (omega arith)
                | inr (_, one) ↦ (any_hit_iff (t ∷ ts)).1 one
              ],
            )
      | inr k ↦
          rw (h, k, if◌then◌else◌)
            (
              λ e. cc,
              λ e. elim e [
                | inl (a, _) ↦ absurd (ground arith)
                | inr (a, _) ↦ absurd (ground arith)
              ],
            )
    ]
  ]

  rule_hit_tags :
      (id name : String) (expression : ℕ) (tags : List Tag)
      → let r : Rule = record { id = id; name = name; tags = tags; expression = expression } in
        (rule_hit matches ctx r ≡ true) ↔ Meets r
  unfolding rule_hit
  rule_hit_tags id name expression [] = (λ _. inl refl, λ _. refl)
  rule_hit_tags id name expression (t ∷ ts) = (
    λ e. inr ((ladder_iff expression t ts).0 e),
    λ m. elim m [ inl e ↦ cc | inr h ↦ (ladder_iff expression t ts).1 h ],
  )

  -- A rule hits exactly if it has no tags, or its relation is AND and every tag hits, or its relation
  -- is OR and some tag hits. A rule of another relation that has tags never hits.
  pub rule_hit_iff : (r : Rule) → (rule_hit matches ctx r ≡ true) ↔ Meets r
  rule_hit_iff r = rule_hit_tags r.id r.name r.expression r.tags

  hit_sys :
      (type : TagType) (field operator value : String)
      → type ≡ type_sys
      → hit_value matches operator value (value_of ctx type field)
        ≡ hit_value matches operator value (sys ctx field)
  unfolding value_of
  hit_sys type field operator value e = rw e refl

  hit_user :
      (type : TagType) (field operator value : String)
      → type ≡ type_user
      → lookup field (origin_of ctx.user_meta) ≡ none
      → hit_value matches operator value (value_of ctx type field)
        ≡ operate matches operator value ""
  unfolding value_of hit_value user
  hit_user type field operator value e h = rw (e, h) refl

  operate_in :
      (operator value : String) → operator ≡ is_in → operate matches operator value "" ≡ true
  unfolding operate
  operate_in operator value o = rw o (contains-nil value)

  -- A system tag on a key that the call does not carry never hits, whatever its operator.
  pub hit_missing_sys :
      (t : Tag) → t.type ≡ type_sys → sys ctx t.field ≡ none → hit matches ctx t ≡ false
  unfolding hit hit_value
  hit_missing_sys t e h = hit_sys t.type t.field t.operator t.value e ∙ rw h refl

  -- A user tag on a key that the call does not carry is tested on the empty string: under IN it hits,
  -- whatever values it lists.
  pub hit_missing_in :
      (t : Tag)
      → t.type ≡ type_user
      → lookup t.field (origin_of ctx.user_meta) ≡ none
      → t.operator ≡ is_in
      → hit matches ctx t ≡ true
  unfolding hit
  hit_missing_in t e h o =
      hit_user t.type t.field t.operator t.value e h ∙ operate_in t.operator t.value o
