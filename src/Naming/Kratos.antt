-- ===== src/Naming/Kratos.antt =====
-- naming/service.go: instances to and from those of the kratos registry. url.Parse, strconv.Atoi and
-- the JSON of the tags are parameters: a text's scheme and host, or a failure, which leaves a nil
-- pointer; a number, 0 for what is none; the tags. `none` is a panic.
pub mod Metadata
mod Tests
use Prim.Native.String.{◌++◌ as text_append}
use Prim.Native.Char.{code}
use tsf_go.Base.{
  ℕ, String, List, [], ◌∷◌, Option, none, some, Bool, true, false, not, ◌==◌, text_comparable,
  if◌then◌else◌, lookup, insert, delete, itoa, length, ltb, nat_eqb, ◌>>=◌,
}
use tsf_go.Naming.{Instance, Service, get, region, namespace_id}

-- registry.ServiceInstance
pub record KratosInstance : Type 0 where
  pub id : String
  pub name : String
  pub version : String
  pub metadata : List (String × String)
  pub endpoints : List String

abbrev pub api_metas : String
api_metas = "TSF_API_METAS"

abbrev pub api_metas_grpc : String
api_metas_grpc = "TSF_API_METAS_GRPC"

abbrev pub api_metas_http : String
api_metas_http = "TSF_API_METAS_HTTP"

-- The parts of strings.Split s ":" that parseEndpoint reads: the first, and the second if there is one.
unfoldable pub before_colon : String → String
before_colon String.[] = String.[]
before_colon (String.◌∷◌ c s) =
    let rest = before_colon s in if nat_eqb (code c) 58 then String.[] else String.◌∷◌ c rest

unfoldable pub behind_colon : String → Option String
behind_colon String.[] = none
behind_colon (String.◌∷◌ c s) =
    let rest = behind_colon s in if nat_eqb (code c) 58 then some s else rest

-- The metadata of the instance at an endpoint of this scheme.
unfoldable pub with_api_metas : String → List (String × String) → List (String × String)
unfolding get insert
with_api_metas own m = if not (get own m == "") then insert api_metas (get own m) m else m

unfoldable pub instance_metadata : String → List (String × String) → List (String × String)
unfolding with_api_metas insert delete
instance_metadata scheme m =
    let copied = insert "protocol" scheme m in
    let chosen =
      if scheme == "grpc"
      then with_api_metas api_metas_grpc copied
      else with_api_metas api_metas_http copied in
    delete api_metas_http (delete api_metas_grpc chosen)

module _ (show_tags : List String → String) where
  -- Instance.ToKratosInstance
  unfoldable pub to_kratos : Instance → KratosInstance
  unfolding get insert itoa
  to_kratos i =
      let m =
        insert "tsf_tags" (show_tags i.tags) (insert "tsf_status" (itoa i.status) i.metadata) in
      let protocol = if get "protocol" m == "" then "http" else get "protocol" m in
      record {
        id = i.id;
        name = i.service.name;
        version = get "TSF_PROG_VERSION" m;
        metadata = m;
        endpoints =
            text_append protocol
              (text_append "://" (text_append i.host (text_append ":" (itoa i.port))))
            ∷ [];
      }

module _ (parse_url : String → Option (String × String)) (atoi : String → ℕ)
    (read_tags : String → List String) where
  -- parseEndpoint, of what url.Parse gives: the scheme, the host and the port.
  unfoldable pub parse_endpoint : String → Option (String × String × ℕ)
  unfolding before_colon behind_colon
  parse_endpoint endpoint = parse_url endpoint >>= λ u.
      behind_colon u.1 >>= λ rest. some (u.0, before_colon u.1, atoi (before_colon rest))

  -- The body of the loop of FromKratosInstance
  unfoldable pub from_endpoint : KratosInstance → String × String × ℕ → Instance
  unfolding get instance_metadata
  from_endpoint ki (scheme, ip, port) = record {
    service = record {
      namespace = get namespace_id ki.metadata;
      name = text_append ki.name (text_append "_" scheme);
    };
    id = if ltb 1 (length ki.endpoints) then text_append ki.id (text_append "-" scheme) else ki.id;
    region = get region ki.metadata;
    host = ip;
    port = port;
    metadata = instance_metadata scheme ki.metadata;
    status = atoi (get "tsf_status" ki.metadata);
    tags = read_tags (get "tsf_tags" ki.metadata);
  }

  unfoldable pub from_endpoints : KratosInstance → List String → Option (List Instance)
  unfolding parse_endpoint from_endpoint
  from_endpoints ki [] = some []
  from_endpoints ki (e ∷ rest) =
      let later = from_endpoints ki rest in
      parse_endpoint e >>= λ parsed. later >>= λ inss. some (from_endpoint ki parsed ∷ inss)

  -- FromKratosInstance
  unfoldable pub from_kratos : KratosInstance → Option (List Instance)
  unfolding from_endpoints
  from_kratos ki = from_endpoints ki ki.endpoints
