-- ===== src/Auth/Rules.antt =====
-- Verify: what the rules of a white list and of a black list let through.
use tsf_go.Base.{
  String, List, [], ◌∷◌, some, Bool, true, false, ◌≡◌, refl, ◌↔◌, ◌⊎◌, inl, inr, ◌==◌,
  text_comparable, if◌then◌else◌, Bool-cases, ◌≢◌,
}
use tsf_go.Meta.{Context}
use tsf_go.Tag.{rule_hit}
use tsf_go.Tag.Rules.{Meets, rule_hit_iff}
use tsf_go.Auth.{
  AuthConfig, AuthRule, verify, verify_loop, some_rule_hits, judge, Verdict, pass, gen_tag_rules,
}

module _ (matches : String → String → Bool) (ctx : Context) where
  -- Some rule of the list is met by the call.
  abbrev pub SomeMet : List AuthRule → Type 0
  SomeMet [] = ⊥
  SomeMet (r ∷ rest) = Meets matches ctx (gen_tag_rules r) ⊎ SomeMet rest

  some_rule_hits_iff : (rs : List AuthRule) → (some_rule_hits matches ctx rs ≡ true) ↔ SomeMet rs
  unfolding some_rule_hits
  some_rule_hits_iff [] = (λ e. cc, λ e. elim e [ ])
  some_rule_hits_iff (r ∷ rs) =
      let here = rule_hit_iff matches ctx (gen_tag_rules r) in
      elim (Bool-cases (rule_hit matches ctx (gen_tag_rules r))) [
        | inl h ↦ rw h (λ e. inl (here.0 h), λ e. refl)
        | inr h ↦ rw h (
          λ e. inr ((some_rule_hits_iff rs).0 e),
          λ e. elim e [
            | inl m ↦ let hit = here.1 m in cc
            | inr later ↦ (some_rule_hits_iff rs).1 later
          ],
        )
      ]

  judge_iff :
      (type : String) (hits : Bool) (P : Type 0)
      → (hits ≡ true) ↔ P
      → (judge type hits ≡ pass) ↔ (((type ≡ "W") × P) ⊎ ((type ≢ "W") × (¬ P)))
  unfolding judge
  judge_iff type true P h = elim (Bool-cases (type == "W")) [
    | inl w ↦
        rw (w, if◌then◌else◌)
          (λ _. inl ((text_comparable.same_iff type "W").0 w, h.0 refl), λ _. refl)
    | inr w ↦
        rw (w, if◌then◌else◌)
          (
            λ e. cc,
            λ e. elim e [
              | inl (same, _) ↦ let t = (text_comparable.same_iff type "W").1 same in cc
              | inr (_, never) ↦ absurd (never (h.0 refl))
            ],
          )
  ]
  judge_iff type false P h = elim (Bool-cases (type == "W")) [
    | inl w ↦
        rw (w, if◌then◌else◌)
          (
            λ e. cc,
            λ e. elim e [
              | inl (_, met) ↦ let t = h.1 met in cc
              | inr (differ, _) ↦ absurd (differ ((text_comparable.same_iff type "W").0 w))
            ],
          )
    | inr w ↦
        rw (w, if◌then◌else◌)
          (
            λ _. inr (
              λ same. let t = (text_comparable.same_iff type "W").1 same in cc,
              λ met. let t = h.1 met in cc,
            ),
            λ _. refl,
          )
  ]

  verify_rules :
      (type : String) (rules : List AuthRule)
      → let config : AuthConfig = record { rules = rules; type = type } in
        (v : Verdict) × (verify matches ctx (some config) (some config) ≡ some v)
        × ((v ≡ pass)
            ↔ ((rules ≡ []) ⊎ ((type ≡ "W") × SomeMet rules) ⊎ ((type ≢ "W") × (¬ SomeMet rules))))
  unfolding verify verify_loop
  verify_rules type [] = (pass, refl, (λ _. inl refl, λ _. refl))
  verify_rules type (r ∷ rs) =
      let found =
        judge_iff type (some_rule_hits matches ctx (r ∷ rs)) (SomeMet (r ∷ rs))
          (some_rule_hits_iff (r ∷ rs)) in
      (
        judge type (some_rule_hits matches ctx (r ∷ rs)),
        refl,
        (λ e. inr (found.0 e), λ e. elim e [ inl none_left ↦ cc | inr m ↦ found.1 m ]),
      )

  -- As long as no refresh comes between its two reads, Verify does not panic on a configuration. It
  -- lets a call pass exactly if there are no rules, or the list is a white list (type "W") and the
  -- call meets one of its rules, or it is of another type and the call meets none of them.
  pub verify_iff :
      (config : AuthConfig)
      → (v : Verdict) × (verify matches ctx (some config) (some config) ≡ some v)
        × ((v ≡ pass) ↔ (
            (config.rules ≡ [])
            ⊎ ((config.type ≡ "W") × SomeMet config.rules)
            ⊎ ((config.type ≢ "W") × (¬ SomeMet config.rules))))
  verify_iff config = verify_rules config.type config.rules
