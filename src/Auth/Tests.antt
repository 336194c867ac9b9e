-- ===== src/Auth/Tests.antt =====
-- A white list of one rule.
use tsf_go.Base.{String, [], ◌∷◌, Bool, some, ◌≡◌, refl, ◌↔◌, ◌⊎◌, ◌==◌, text_comparable, ◌≢◌}
use tsf_go.Meta.{Context, text}
use tsf_go.Auth.{AuthConfig, AuthRule, AuthTag, Verdict, pass, verify, none}
use tsf_go.Auth.Rules.{SomeMet, verify_iff}

abbrev literal : String → String → Bool
literal pattern s = pattern == s

abbrev call : Context
call = record {
  sys_meta = some (("namespace", text "n") ∷ ("service.name", text "shop") ∷ []);
  user_meta = none;
}

abbrev from_shop : AuthTag
from_shop = record {
  id = "t";
  type = "S";
  field = "source.namespace.service.name";
  operator = "EQUAL";
  value = "n/shop";
}

abbrev rule : AuthRule
rule = record { id = "1"; name = "shop"; tags = from_shop ∷ [] }

abbrev white_list : AuthConfig
white_list = record { rules = rule ∷ []; type = "W" }

passes : verify literal call (some white_list) (some white_list) ≡ some pass
unfolding verify
passes = refl

verify_iff_example :
    (v : Verdict) × (verify literal call (some white_list) (some white_list) ≡ some v)
    × ((v ≡ pass) ↔ (
        (white_list.rules ≡ [])
        ⊎ ((white_list.type ≡ "W") × SomeMet literal call white_list.rules)
        ⊎ ((white_list.type ≢ "W") × (¬ SomeMet literal call white_list.rules))))
verify_iff_example = verify_iff literal call white_list
