-- ===== src/Naming.antt =====
-- naming: a service and its instances.
pub mod Kratos
pub mod Discovery
pub mod Registry
use tsf_go.Base.{
  ℕ, String, List, Bool, true, false, ◌≡◌, refl, ap, ap₂, ◌==◌, ◌||◌, ◌&&◌, ◌↔◌, Comparable,
  text_comparable, if◌then◌else◌, lookup, none, some,
}

abbrev pub group_id : String
group_id = "TSF_GROUP_ID"

abbrev pub namespace_id : String
namespace_id = "TSF_NAMESPACE_ID"

abbrev pub application_id : String
application_id = "TSF_APPLICATION_ID"

abbrev pub region : String
region = "TSF_REGION"

abbrev pub ns_local : String
ns_local = "local"

abbrev pub ns_global : String
ns_global = "global"

pub record Service : Type 0 where
  pub namespace : String
  pub name : String

pub record Instance : Type 0 where
  pub service : Service
  pub id : String
  pub region : String
  pub host : String
  pub port : ℕ
  pub metadata : List (String × String)
  pub status : ℕ
  pub tags : List String

-- `own` is env.NamespaceID().
unfoldable pub own_namespace : String → String → String
own_namespace own namespace = if namespace == "" || namespace == ns_local then own else namespace

unfoldable pub new_service : String → String → String → Service
unfolding own_namespace
new_service own namespace name = record { namespace = own_namespace own namespace; name = name }

-- `m[key]` of a map of texts: the empty one if there is no such key.
unfoldable pub get : String → List (String × String) → String
unfolding lookup
get key m = elim (lookup key m) [ none ↦ "" | some v ↦ v ]

unfoldable pub same_service : Service → Service → Bool
same_service a b = (a.namespace == b.namespace) && (a.name == b.name)

abbrev service_of : String → String → Service
service_of namespace name = record { namespace = namespace; name = name }

and-true : (a b : Bool) → (a && b) ≡ true → (a ≡ true) × (b ≡ true)
and-true true b e = (refl, e)
and-true false b e = absurd (cc)

pub same_service_iff : (a b : Service) → (same_service a b ≡ true) ↔ (a ≡ b)
unfolding same_service
same_service_iff a b = (
  λ e.
      let both = and-true (a.namespace == b.namespace) (a.name == b.name) e in
      ap₂ service_of ((text_comparable.same_iff a.namespace b.namespace).0 both.0)
        ((text_comparable.same_iff a.name b.name).0 both.1),
  λ e.
      let ns =
        (text_comparable.same_iff a.namespace b.namespace).1
          (ap (λ (s : Service). s.namespace) e) in
      let n = (text_comparable.same_iff a.name b.name).1 (ap (λ (s : Service). s.name) e) in
      rw (ns, n) refl,
)

instance abbrev pub service_comparable : Comparable Service
service_comparable = record { same = same_service; same_iff = same_service_iff }
