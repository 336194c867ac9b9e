-- ===== src/Config/Fetch.antt =====
-- pkg/config/consul/consul.go: fetch. The response's body and the values in it are decoded by JSON and
-- base64, which are parameters.
use tsf_go.Base.{
  String, List, [], ◌∷◌, Option, none, some, Bool, true, false, if◌then◌else◌, lookup,
  text_comparable, ◌==◌, ℤ, pos, parse_int, format_int,
}
use tsf_go.Http.{Header, Reply, is_not_found}

infixl 6 ◌<>◌
abbrev pub ◌<>◌ : String → String → String
s <> t = Prim.Native.String.◌++◌ s t

pub record Conf : Type 0 where
  pub address : String
  pub token : String
  pub app_id : String
  pub namespace_id : String

pub record Spec : Type 0 where
  pub key : String
  pub raw : String

-- An entry of the response, its value in base64.
pub record Item : Type 0 where
  pub key : String
  pub value : String

-- strings.HasSuffix path "/"
unfoldable pub ends_slash : String → Bool
ends_slash String.[] = false
ends_slash (String.◌∷◌ c s) = if s == "" then String.◌∷◌ c s == "/" else ends_slash s

-- The URL that fetch asks.
unfoldable pub fetch_url : Conf → String → ℤ → String
unfolding format_int ends_slash
fetch_url conf path index =
    "http://"
    <> conf.address
    <> "/v1/kv/"
    <> path
    <> "?token="
    <> conf.token
    <> "&wait=55s&nsType=DEF_AND_GLOBAL&index="
    <> format_int index
    <> (if ends_slash path then "&recurse" else "")
    <> (if conf.namespace_id == "" then "" else "&nid=" <> conf.namespace_id)
    <> (if conf.app_id == "" then "" else "&uid=" <> conf.app_id)

-- What fetch returns: the specs, the index, and whether there is an error.
pub record Fetched : Type 0 where
  pub res : List Spec
  pub index : ℤ
  pub err : Bool

-- The loop over the entries: one that is not base64 is skipped.
unfoldable pub read_items : (String → Option String) → List Item → List Spec
read_items decode [] = []
read_items decode (item ∷ items) = elim (decode item.value) [
  | none ↦ read_items decode items
  | some b ↦ record { key = item.key; raw = b } ∷ read_items decode items
]

abbrev pub items_of : Option (List Item) → List Item
items_of none = []
items_of (some items) = items

-- header.Get "X-Consul-Index"
abbrev pub index_of : Header → String
index_of h = elim (lookup "X-Consul-Index" h) [ none ↦ "" | some s ↦ s ]

-- fetch from the header on.
unfoldable pub read_reply : (String → Option String) → Option Header → Option (List Item) → Fetched
unfolding parse_int read_items lookup
read_reply decode none items = record { res = []; index = pos 0; err = true }
read_reply decode (some h) items =
    let read = parse_int (index_of h) in
    if read.1
    then record { res = []; index = read.0; err = true }
    else record { res = read_items decode (items_of items); index = read.0; err = false }

-- fetch, of what the client returns: that a key is not found is no error.
unfoldable pub fetch : (String → Option String) → Reply (List Item) → Fetched
unfolding read_reply
fetch decode reply = elim reply.err [
  | none ↦ read_reply decode reply.header reply.content
  | some failure ↦
      if is_not_found failure
      then read_reply decode reply.header reply.content
      else record { res = []; index = pos 0; err = true }
]
