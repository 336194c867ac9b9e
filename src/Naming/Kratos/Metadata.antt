-- ===== src/Naming/Kratos/Metadata.antt =====
-- The metadata of an instance that comes from the registry.
use tsf_go.Base.{
  String, List, Option, none, some, false, ◌≡◌, refl, ap, ◌∙◌, ◌==◌, text_comparable, if◌then◌else◌,
  lookup, insert, delete, lookup-insert, lookup-delete, Bool-cases, inl, inr,
}
use tsf_go.Naming.{get}
use tsf_go.Naming.Kratos.{
  api_metas, api_metas_grpc, api_metas_http, with_api_metas, instance_metadata,
}

-- The API metadata for a scheme: those of its own, if there are any, or the general ones.
abbrev pub api_metas_of : String → List (String × String) → Option String
api_metas_of scheme m =
    let own = get (if scheme == "grpc" then api_metas_grpc else api_metas_http) m in
    if own == "" then lookup api_metas m else some own

get-insert :
    (key new v : String) (m : List (String × String))
    → (key == new) ≡ false
    → get key (insert new v m) ≡ get key m
unfolding get
get-insert key new v m e = rw (get, lookup-insert new key v m, e, if◌then◌else◌) refl

lookup-with_api_metas :
    (own key : String) (m : List (String × String))
    → lookup key (with_api_metas own m) ≡ (
        if key == api_metas
        then (if get own m == "" then lookup api_metas m else some (get own m))
        else lookup key m)
unfolding with_api_metas
lookup-with_api_metas own key m = elim (Bool-cases (get own m == "")) [
  | inl e ↦
      rw (with_api_metas, e, if◌then◌else◌)
        (elim (Bool-cases (key == api_metas)) [
          | inl at ↦
              rw (at, if◌then◌else◌)
                (ap (λ s. lookup s m) ((text_comparable.same_iff key api_metas).0 at))
          | inr other ↦ rw (other, if◌then◌else◌) refl
        ])
  | inr e ↦ rw (with_api_metas, e, if◌then◌else◌) (lookup-insert api_metas key (get own m) m)
]

-- One scheme's API metadata over the metadata with the protocol.
lookup_chosen :
    (own scheme key : String) (m : List (String × String))
    → (own == "protocol") ≡ false
    → lookup key (with_api_metas own (insert "protocol" scheme m)) ≡ (
        if key == api_metas
        then (if get own m == "" then lookup api_metas m else some (get own m))
        else if key == "protocol"
        then some scheme
        else lookup key m)
lookup_chosen own scheme key m e =
    lookup-with_api_metas own key (insert "protocol" scheme m)
    ∙ rw
        (
          get-insert own "protocol" scheme m e,
          lookup-insert "protocol" key scheme m,
          lookup-insert "protocol" api_metas scheme m,
        )
        refl

-- The instance at an endpoint has the registry's metadata, but its protocol is the endpoint's scheme, the
-- API metadata are those of the scheme if there are any, and those that go by scheme are gone.
pub lookup-instance_metadata :
    (scheme key : String) (m : List (String × String))
    → lookup key (instance_metadata scheme m) ≡ (
        if key == api_metas_http
        then none
        else if key == api_metas_grpc
        then none
        else if key == api_metas
        then api_metas_of scheme m
        else if key == "protocol"
        then some scheme
        else lookup key m)
unfolding instance_metadata
lookup-instance_metadata scheme key m = elim (Bool-cases (scheme == "grpc")) [
  | inl e ↦
      rw (instance_metadata, e, if◌then◌else◌)
        (lookup-delete api_metas_http key
            (delete api_metas_grpc (with_api_metas api_metas_grpc (insert "protocol" scheme m)))
          ∙ rw
              (
                lookup-delete api_metas_grpc key
                    (with_api_metas api_metas_grpc (insert "protocol" scheme m)),
                lookup_chosen api_metas_grpc scheme key m refl,
              )
              refl)
  | inr e ↦
      rw (instance_metadata, e, if◌then◌else◌)
        (lookup-delete api_metas_http key
            (delete api_metas_grpc (with_api_metas api_metas_http (insert "protocol" scheme m)))
          ∙ rw
              (
                lookup-delete api_metas_grpc key
                    (with_api_metas api_metas_http (insert "protocol" scheme m)),
                lookup_chosen api_metas_http scheme key m refl,
              )
              refl)
]
