-- ===== src/Tag/Tests.antt =====
-- Rules over a context of one system key.
use tsf_go.Base.{
  contains, lookup, String, [], ◌∷◌, Bool, true, none, some, ◌≡◌, refl, ◌↔◌, ◌==◌, text_comparable,
}
use tsf_go.Meta.{Context, text}
use tsf_go.Tag.{Tag, Rule, type_sys, type_user, is_in, equal, relation_and, hit, rule_hit}
use tsf_go.Tag.Rules.{Meets, rule_hit_iff, hit_missing_in}

-- A stand-in for the regular expressions: the pattern is the text itself.
abbrev literal : String → String → Bool
literal pattern s = pattern == s

abbrev call : Context
call = record { sys_meta = some (("service.name", text "shop") ∷ []); user_meta = none }

abbrev from_shop : Tag
from_shop = record { type = type_sys; field = "service.name"; operator = equal; value = "shop" }

abbrev colour_in : Tag
colour_in = record { type = type_user; field = "colour"; operator = is_in; value = "red,blue" }

abbrev both : Rule
both = record { id = "1"; name = ""; tags = from_shop ∷ colour_in ∷ []; expression = relation_and }

both_hit : rule_hit literal call both ≡ true
unfolding rule_hit contains
both_hit = refl

rule_hit_iff_example : (rule_hit literal call both ≡ true) ↔ Meets literal call both
rule_hit_iff_example = rule_hit_iff literal call both

hit_missing_in_example : hit literal call colour_in ≡ true
unfolding lookup
hit_missing_in_example = hit_missing_in literal call colour_in refl refl refl
