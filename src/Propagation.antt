-- ===== src/Propagation.antt =====
-- client.go and server.go: the metadata of a call that travel with it. kratos's Metadata.Set, JSON with
-- its fallback to an escaped text, and strings.ToLower are parameters. `none` is a panic.
pub mod Keys
pub mod Carried
pub mod Delivered
pub mod Journey
mod Tests
use tsf_go.Base.{
  ℕ, String, List, [], ◌∷◌, ◌++◌, Option, none, some, Bool, true, false, if◌then◌else◌, ◌||◌,
  lookup, insert, text_comparable, ◌==◌,
}
use tsf_go.Meta.{
  Context, Any, text, other, SysMeta, UserMeta, sys, with_sys, with_user, range_sys, range_user,
  is_outgoing, is_incoming, is_user_key, is_link_key, user_key, get_user_key, source_key, dest_key,
  service_name, service_namespace, namespace, interface, group_id, application_id,
  application_version, request_http_method, connection_ip, lane_id,
}
use tsf_go.Naming.Kratos.{before_colon}

-- What the environment says of the program.
pub record Env : Type 0 where
  pub own_namespace : String
  pub group : String
  pub application : String
  pub version : String

-- The metadata of a request.
abbrev pub Md : Type 0
Md = List (String × String)

-- The pairs that startClientContext adds; `own_name` is the name in the context of kratos.
unfoldable pub name_pair : String → Option Any → Option SysMeta
name_pair own_name none = some ((service_name, text own_name) ∷ [])
name_pair own_name (some (text name)) = some []
name_pair own_name (some (other n)) = none

abbrev pub lane_pair : String → SysMeta
lane_pair lane = if lane == "" then [] else (lane_id, text lane) ∷ []

unfoldable pub client_pairs : Env → String → String → String → SysMeta → SysMeta
unfolding dest_key
client_pairs env remote operation lane names =
    ((dest_key service_name, text remote)
      ∷ (dest_key service_namespace, text env.own_namespace)
      ∷ [])
    ++ (names ++ ((dest_key interface, text operation) ∷ lane_pair lane))

module _ (set : String → String → Md → Md) (stringer : ℕ → Option String) where
  abbrev pub carry_user : String → String → Md → Md
  carry_user key value md = set (user_key key) value md

  -- A value that is no text travels if it is a Stringer.
  unfoldable pub carry_sys : String → Any → Md → Md
  unfolding is_outgoing
  carry_sys key (text s) md = if is_outgoing key then set key s md else md
  carry_sys key (other n) md =
      if is_outgoing key then elim (stringer n) [ none ↦ md | some s ↦ set key s md ] else md

  -- startClientContext from the pairs on: the metadata that go into the context of the client.
  unfoldable pub client_md : Env → Context → Md
  unfolding range_user range_sys carry_sys
  client_md env ctx =
      let users = range_user ctx carry_user [] in
      let all = range_sys ctx carry_sys users in
      set application_version env.version (
        set application_id env.application
          (set service_namespace env.own_namespace (set group_id env.group all)))

  -- startClientContext: the context, and its metadata. `lane` is what GetLaneID gives.
  unfoldable pub start_client_context :
      Env → String → String → String → String → Context → Option (Context × Md)
  unfolding name_pair client_pairs client_md sys with_sys
  start_client_context env own_name remote operation lane ctx =
      elim (name_pair own_name (sys ctx service_name)) [
        | none ↦ none
        | some names ↦
            let named = with_sys ctx (client_pairs env remote operation lane names) in
            some (named, client_md env named)
      ]

-- Metadata and AtomMetadata of pkg/http, as far as they are read.
pub record TsfMeta : Type 0 where
  pub application : String
  pub version : String
  pub service : String
  pub group : String
  pub local_ip : String
  pub namespace_id : String
  pub interface_name : String

abbrev source_pair : String → String → String × Any
source_pair key value = (source_key key, text value)

abbrev pub tsf_pairs : TsfMeta → SysMeta
tsf_pairs m =
    source_pair application_id m.application
    ∷ source_pair application_version m.version
    ∷ source_pair service_name m.service
    ∷ source_pair group_id m.group
    ∷ source_pair connection_ip m.local_ip
    ∷ source_pair namespace m.namespace_id
    ∷ []

abbrev pub atom_pairs : TsfMeta → SysMeta
atom_pairs m =
    source_pair interface m.interface_name
    ∷ source_pair application_id m.application
    ∷ source_pair service_name m.service
    ∷ source_pair group_id m.group
    ∷ source_pair connection_ip m.local_ip
    ∷ source_pair namespace m.namespace_id
    ∷ []

-- The texts among the tags.
unfoldable pub text_tags : List (String × Any) → UserMeta
text_tags [] = []
text_tags ((key, text value) ∷ rest) = (key, value) ∷ text_tags rest
text_tags ((key, other n) ∷ rest) = text_tags rest

module _ (lower : String → String) (read_tsf read_atom : String → TsfMeta)
    (read_tags : String → List (String × Any)) where
  -- What an entry of the metadata gives, its key in lower case: pairs for the system, and for the user.
  unfoldable pub read_key : String → String → SysMeta × UserMeta
  unfolding is_incoming is_user_key is_link_key get_user_key text_tags
  read_key key val =
      if is_incoming key
      then ((source_key key, text val) ∷ [], [])
      else if is_user_key key
      then ([], (get_user_key key, val) ∷ [])
      else if is_link_key key
      then ((key, text val) ∷ [], [])
      else if key == "tsf-metadata"
      then (tsf_pairs (read_tsf val), [])
      else if key == "_st"
      then (atom_pairs (read_atom val), [])
      else if key == "tsf-tags"
      then ([], text_tags (read_tags val))
      else ([], [])

  unfoldable pub read_entry : String × String → SysMeta × UserMeta
  unfolding read_key
  read_entry (key, val) = if key == "" || val == "" then ([], []) else read_key (lower key) val

  -- The loop over the metadata.
  unfoldable pub read_entries : Md → SysMeta × UserMeta
  unfolding read_entry
  read_entries [] = ([], [])
  read_entries (e ∷ md) =
      let here = read_entry e in let rest = read_entries md in (here.0 ++ rest.0, here.1 ++ rest.1)

  abbrev pub peer_pair : Option String → SysMeta
  peer_pair none = []
  peer_pair (some address) = (source_key connection_ip, text (before_colon address)) ∷ []

  abbrev pub server_pairs : Env → String → String → String → String → SysMeta
  server_pairs env own_name method operation addr =
      (service_name, text own_name)
      ∷ (namespace, text env.own_namespace)
      ∷ (interface, text operation)
      ∷ (request_http_method, text method)
      ∷ (group_id, text env.group)
      ∷ (application_id, text env.application)
      ∷ (application_version, text env.version)
      ∷ (connection_ip, text addr)
      ∷ []

  -- startServerContext, of the metadata in the order of the loop and the peer's address.
  unfoldable pub start_server_context :
      Env → String → String → String → String → Option String → Md → Context → Context
  unfolding read_entries with_sys with_user
  start_server_context env own_name method operation addr peer md ctx =
      let read = read_entries md in
      with_user
        (with_sys ctx
          (read.0 ++ (peer_pair peer ++ server_pairs env own_name method operation addr)))
        read.1
