-- ===== src/Naming/Kratos/Tests.antt =====
-- An endpoint of gRPC, with API metadata of its own.
use tsf_go.Base.{
  String, List, [], ◌∷◌, none, some, ◌≡◌, refl, ◌==◌, text_comparable, if◌then◌else◌, lookup,
}
use tsf_go.Naming.Kratos.{
  api_metas, api_metas_grpc, api_metas_http, instance_metadata, before_colon, behind_colon,
}
use tsf_go.Naming.Kratos.Metadata.{api_metas_of, lookup-instance_metadata}

abbrev of_both : List (String × String)
of_both = ("TSF_API_METAS_GRPC", "g") ∷ ("TSF_API_METAS_HTTP", "h") ∷ []

abbrev general : String
general = "TSF_API_METAS"

abbrev protocol : String
protocol = "protocol"

split_host : (before_colon "10.0.0.1:80" ≡ "10.0.0.1") × (behind_colon "10.0.0.1:80" ≡ some "80")
unfolding before_colon behind_colon
split_host = (refl, refl)

own_metas : lookup "TSF_API_METAS" (instance_metadata "grpc" of_both) ≡ some "g"
unfolding instance_metadata lookup
own_metas = refl

lookup-instance_metadata_example : lookup general (instance_metadata "grpc" of_both) ≡ (
    if general == api_metas_http
    then none
    else if general == api_metas_grpc
    then none
    else if general == api_metas
    then api_metas_of "grpc" of_both
    else if general == protocol
    then some "grpc"
    else lookup general of_both)
lookup-instance_metadata_example = lookup-instance_metadata "grpc" general of_both
