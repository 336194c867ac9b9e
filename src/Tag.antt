-- ===== src/Tag.antt =====
-- pkg/sys/tag: a tag is a test of one metadata value of the call, a rule joins tags.
-- The regular expression engine, regexp.MatchString, is the parameter `matches`: the pattern, then
-- the text; an invalid pattern does not match.
mod Tests
pub mod Rules
use tsf_go.Base.{
  ℕ, String, List, [], ◌∷◌, Option, none, some, Bool, true, false, not, ◌==◌, text_comparable,
  int_comparable, contains, if◌then◌else◌, is_empty,
}
use tsf_go.Meta.{Context, Any, text, other, sys, user}

-- TypeSys and TypeUser; Hit treats any other number as TypeUser.
pub data TagType : Type 0 where
  type_sys type_user : TagType

abbrev pub equal : String
equal = "EQUAL"

abbrev pub not_equal : String
not_equal = "NOT_EQUAL"

abbrev pub is_in : String
is_in = "IN"

abbrev pub not_in : String
not_in = "NOT_IN"

abbrev pub regex : String
regex = "REGEX"

pub record Tag : Type 0 where
  pub type : TagType
  pub field : String
  pub operator : String
  pub value : String

-- Relation: AND, OR, COMPOSITE
abbrev pub relation_and : ℕ
relation_and = 0

abbrev pub relation_or : ℕ
relation_or = 1

abbrev pub relation_composite : ℕ
relation_composite = 2

pub record Rule : Type 0 where
  pub id : String
  pub name : String
  pub tags : List Tag
  pub expression : ℕ

-- `v`: nil, or the value that the context has.
unfoldable pub value_of : Context → TagType → String → Option Any
unfolding sys user
value_of ctx type_sys field = sys ctx field
value_of ctx type_user field = some (text (user ctx field))

module _ (matches : String → String → Bool) where
  -- The ladder over the operators.
  unfoldable pub operate : String → String → String → Bool
  operate operator value target =
      if operator == equal
      then target == value
      else if operator == not_equal
      then not (target == value)
      else if operator == is_in
      then contains value target
      else if operator == not_in
      then not (contains value target)
      else if operator == regex
      then matches value target
      else false

  unfoldable pub hit_value : String → String → Option Any → Bool
  unfolding operate
  hit_value operator value none = false
  hit_value operator value (some (other n)) = false
  hit_value operator value (some (text target)) = operate operator value target

  -- Tag.Hit
  unfoldable pub hit : Context → Tag → Bool
  unfolding hit_value value_of
  hit ctx t = hit_value t.operator t.value (value_of ctx t.type t.field)

  -- The loops of Rule.Hit
  unfoldable pub all_hit : Context → List Tag → Bool
  unfolding hit
  all_hit ctx [] = true
  all_hit ctx (t ∷ rest) = if not (hit ctx t) then false else all_hit ctx rest

  unfoldable pub any_hit : Context → List Tag → Bool
  unfolding hit
  any_hit ctx [] = false
  any_hit ctx (t ∷ rest) = if hit ctx t then true else any_hit ctx rest

  -- Rule.Hit
  unfoldable pub rule_hit : Context → Rule → Bool
  unfolding all_hit any_hit
  rule_hit ctx r =
      if is_empty r.tags
      then true
      else if r.expression == relation_and
      then all_hit ctx r.tags
      else if r.expression == relation_or
      then any_hit ctx r.tags
      else false
