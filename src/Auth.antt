-- ===== src/Auth.antt =====
-- pkg/auth/authenticator: access rules of a service, kept up to date by a watcher.
-- Unmarshalling is outside: a spec carries its key and what unmarshalling it gives, or a failure,
-- which leaves the variable as it was.
mod Tests
pub mod Rules
use tsf_go.Base.{
  ℕ, String, List, [], ◌∷◌, ◌++◌, Option, none, some, Bool, true, false, not, ◌==◌, text_comparable,
  if◌then◌else◌, has_prefix, trim_prefix, split_slash, ◌&&◌, ◌||◌, is_empty,
}
use tsf_go.Meta.{Context, namespace, service_name, prefix_dest}
use tsf_go.Tag
use tsf_go.Tag.{Tag, TagType, type_sys, type_user, relation_and, rule_hit}

-- authenticator.Tag
pub record AuthTag : Type 0 where
  pub id : String
  pub type : String
  pub field : String
  pub operator : String
  pub value : String

pub record AuthRule : Type 0 where
  pub id : String
  pub name : String
  pub tags : List AuthTag

pub record AuthConfig : Type 0 where
  pub rules : List AuthRule
  pub type : String

abbrev pub sys_tag : String → String → String → Tag
sys_tag field operator value = record {
  type = type_sys;
  field = field;
  operator = operator;
  value = value;
}

abbrev pub namespace_service : String
namespace_service = "source.namespace.service.name"

-- The two tags of a value `namespace/service`; a value with no slash gives none.
unfoldable pub split_tags : String → Option (String × String) → List Tag
split_tags operator none = []
split_tags operator (some (ns, service)) =
    sys_tag namespace operator ns ∷ sys_tag service_name operator service ∷ []

unfoldable pub plain_tag : AuthTag → Tag
unfolding has_prefix trim_prefix
plain_tag t = record {
  type = if t.type == "S" then type_sys else type_user;
  field = if has_prefix t.field prefix_dest then trim_prefix t.field prefix_dest else t.field;
  operator = t.operator;
  value = t.value;
}

-- One round of the loop of genTagRules
unfoldable pub gen_tags : AuthTag → List Tag
unfolding split_tags plain_tag split_slash
gen_tags t =
    if t.type == "S" && t.field == namespace_service
    then split_tags t.operator (split_slash t.value)
    else plain_tag t ∷ []

unfoldable pub gen_all : List AuthTag → List Tag
unfolding gen_tags
gen_all [] = []
gen_all (t ∷ rest) = gen_tags t ++ gen_all rest

-- AuthRule.genTagRules
unfoldable pub gen_tag_rules : AuthRule → Tag.Rule
unfolding gen_all
gen_tag_rules rule = record {
  id = rule.id;
  name = "";
  tags = gen_all rule.tags;
  expression = relation_and;
}

pub data Verdict : Type 0 where
  pass forbidden : Verdict

-- What the loop and the statement behind it answer, by the type of the configuration.
unfoldable pub judge : String → Bool → Verdict
judge type true = if type == "W" then pass else forbidden
judge type false = if type == "W" then forbidden else pass

module _ (matches : String → String → Bool) where
  -- Whether the loop of Verify meets a rule that hits.
  unfoldable pub some_rule_hits : Context → List AuthRule → Bool
  unfolding gen_tag_rules rule_hit
  some_rule_hits ctx [] = false
  some_rule_hits ctx (rule ∷ rest) =
      if rule_hit matches ctx (gen_tag_rules rule) then true else some_rule_hits ctx rest

  -- Verify reads `a.authConfig` under the lock first, and without it at the loop: `current` is what
  -- stands there then. A nil pointer there panics, `none`.
  unfoldable pub verify_loop : Context → AuthConfig → Option AuthConfig → Option Verdict
  unfolding some_rule_hits judge
  verify_loop ctx snapshot none = none
  verify_loop ctx snapshot (some current) =
      some (judge snapshot.type (some_rule_hits ctx current.rules))

  -- Authenticator.Verify
  unfoldable pub verify : Context → Option AuthConfig → Option AuthConfig → Option Verdict
  unfolding verify_loop
  verify ctx none current = some pass
  verify ctx (some snapshot) current =
      if is_empty snapshot.rules then some pass else verify_loop ctx snapshot current

pub record Spec : Type 0 where
  pub key : String
  pub parsed : Option (List AuthConfig)

-- What Watch returns: the specs, an error that ends the loop, or another error.
pub data Watched : Type 0 where
  specs : List Spec → Watched
  closed : Watched
  failed : Watched

-- The loop over the specs, over `authConfigs` and whether `err` is set.
unfoldable pub read_specs : String → List Spec → List AuthConfig → Bool → List AuthConfig × Bool
read_specs key [] configs err = (configs, err)
read_specs key (s ∷ rest) configs err =
    let (configs', err') = read_one s.parsed (s.key == key) in read_specs key rest configs' err'
  where
    read_one : Option (List AuthConfig) → Bool → List AuthConfig × Bool
    read_one parsed false = (configs, true)
    read_one none true = (configs, true)
    read_one (some new) true = (new, false)

abbrev pub first_of_configs : List AuthConfig → Option AuthConfig
first_of_configs [] = none
first_of_configs (c ∷ rest) = some c

-- One round of refreshRule: the new value of `a.authConfig`, and whether the loop goes on.
unfoldable pub refresh : String → Watched → Option AuthConfig → Option AuthConfig × Bool
unfolding read_specs
refresh key closed old = (old, false)
refresh key failed old = (old, true)
refresh key (specs ss) old =
    let (configs, err) = read_specs key ss [] false in
    if is_empty configs && err then (old, true) else (first_of_configs configs, true)
