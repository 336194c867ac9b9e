-- ===== src/Meta.antt =====
-- pkg/meta: the names of the tags, and the two maps of metadata that a context carries.
mod Tests
pub mod Laws
use tsf_go.Base.{
  ℕ, String, List, [], ◌∷◌, ◌++◌, Option, none, some, Bool, true, false, ◌||◌, lookup, insert,
  has_key, text_comparable, if◌then◌else◌, has_prefix, trim_prefix, ◌==◌,
}
use Prim.Native.String.{◌++◌ as text_append}

abbrev pub prefix_dest : String
prefix_dest = "destination."

abbrev pub prefix_source : String
prefix_source = "source."

abbrev pub prefix_user : String
prefix_user = "user_def."

abbrev pub application_id : String
application_id = "application.id"

abbrev pub group_id : String
group_id = "group.id"

abbrev pub connection_ip : String
connection_ip = "connection.ip"

abbrev pub application_version : String
application_version = "application.version"

abbrev pub service_name : String
service_name = "service.name"

abbrev pub interface : String
interface = "interface"

abbrev pub request_http_method : String
request_http_method = "request.http.method"

abbrev pub service_namespace : String
service_namespace = "service.namespace"

abbrev pub namespace : String
namespace = "namespace"

abbrev pub lane_id : String
lane_id = "lane.id"

-- carriedKey and linkKey, as the lists of their keys
abbrev pub carried_keys : List String
carried_keys =
    application_id ∷ group_id ∷ connection_ip ∷ application_version ∷ service_name ∷ interface
    ∷ request_http_method ∷ service_namespace ∷ []

abbrev pub link_keys : List String
link_keys = lane_id ∷ []

-- Membership in a map that serves as a set.
unfoldable pub is_member : String → List String → Bool
is_member key [] = false
is_member key (k ∷ rest) = key == k || is_member key rest

unfoldable pub is_link_key : String → Bool
unfolding is_member
is_link_key key = is_member key link_keys

unfoldable pub is_incoming : String → Bool
unfolding is_member
is_incoming key = is_member key carried_keys

unfoldable pub is_outgoing : String → Bool
unfolding is_member
is_outgoing key = if is_member key carried_keys then true else is_member key link_keys

unfoldable pub user_key : String → String
user_key key = text_append prefix_user key

unfoldable pub get_user_key : String → String
unfolding trim_prefix
get_user_key key = trim_prefix key prefix_user

unfoldable pub is_user_key : String → Bool
unfolding has_prefix
is_user_key key = has_prefix key prefix_user

unfoldable pub source_key : String → String
source_key key = text_append prefix_source key

unfoldable pub dest_key : String → String
dest_key key = text_append prefix_dest key

-- A value of type interface{}: a string, or a value of another type.
pub data Any : Type 0 where
  text : String → Any
  other : ℕ → Any

abbrev pub SysMeta : Type 0
SysMeta = List (String × Any)

abbrev pub UserMeta : Type 0
UserMeta = List (String × String)

-- A context, as far as this package reads and extends it. No map is no value in the context.
pub record Context : Type 0 where
  pub sys_meta : Option SysMeta
  pub user_meta : Option UserMeta

-- `origin, _ := ctx.Value(…)`, copied.
abbrev pub origin_of {ℓ} : {A : Type ℓ} → Option (List A) → List A
origin_of none = []
origin_of (some m) = m

-- `for _, pair := range pairs { copied[pair.Key] = pair.Value }`
unfoldable pub insert_all {ℓ} :
    {V : Type ℓ} → List (String × V) → List (String × V) → List (String × V)
unfolding insert
insert_all [] m = m
insert_all (p ∷ rest) m = insert_all rest (insert p.0 p.1 m)

unfoldable pub with_user : Context → UserMeta → Context
unfolding insert_all
with_user ctx pairs = record ctx { user_meta = some (insert_all pairs (origin_of ctx.user_meta)) }

unfoldable pub with_sys : Context → SysMeta → Context
unfolding insert_all
with_sys ctx pairs = record ctx { sys_meta = some (insert_all pairs (origin_of ctx.sys_meta)) }

-- Sys returns nil, or the value.
unfoldable pub sys : Context → String → Option Any
unfolding lookup
sys ctx key = lookup key (origin_of ctx.sys_meta)

abbrev pub or_empty : Option String → String
or_empty none = ""
or_empty (some s) = s

-- User returns the empty string if there is no such key.
unfoldable pub user : Context → String → String
unfolding lookup
user ctx key = or_empty (lookup key (origin_of ctx.user_meta))

-- RangeSys and RangeUser hand each entry to a function; the state that it changes is passed on.
unfoldable pub range_entries {ℓ κ} :
    {V : Type ℓ} {S : Type κ} → (String → V → S → S) → List (String × V) → S → S
range_entries f [] s = s
range_entries f (e ∷ rest) s = range_entries f rest (f e.0 e.1 s)

unfoldable pub range_sys {ℓ} : {S : Type ℓ} → Context → (String → Any → S → S) → S → S
unfolding range_entries
range_sys ctx f s = range_entries f (origin_of ctx.sys_meta) s

unfoldable pub range_user {ℓ} : {S : Type ℓ} → Context → (String → String → S → S) → S → S
unfolding range_entries
range_user ctx f s = range_entries f (origin_of ctx.user_meta) s
