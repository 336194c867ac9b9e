-- ===== src/Meta/Tests.antt =====
-- A context of a few keys, and the theorems on it.
use tsf_go.Base.{text_comparable, [], ◌∷◌, none, some, ◌≡◌, refl}
use tsf_go.Meta.{Context, SysMeta, text, with_sys, sys, user}
use tsf_go.Meta.Laws.{last_of, sys-with_sys}

abbrev one_key : Context
one_key = record { sys_meta = some (("lane.id", text "a") ∷ []); user_meta = none }

abbrev new_sys : SysMeta
new_sys = ("lane.id", text "b") ∷ ("namespace", text "n") ∷ ("lane.id", text "c") ∷ []

overwritten : sys (with_sys one_key new_sys) "lane.id" ≡ some (text "c")
unfolding sys with_sys
overwritten = refl

sys-with_sys_example :
    (sys (with_sys one_key new_sys) "lane.id" ≡ last_of "lane.id" new_sys (sys one_key "lane.id"))
    × (user (with_sys one_key new_sys) "colour" ≡ user one_key "colour")
sys-with_sys_example = sys-with_sys one_key new_sys "lane.id" "colour"
