-- ===== src/Naming/Discovery.antt =====
-- naming/consul/discovery.go: the services that are looked up at the registry, a hub whose topics hold
-- the instances. The address that a request goes to, the JSON of the response and of the tags are
-- parameters; the pauses between rounds are left out, the count of retries is kept.
pub mod Compare
pub mod Rounds
pub mod Reached
pub mod Clients
mod Tests
use tsf_go.Base.{
  ℕ, suc, ◌+◌, String, List, [], ◌∷◌, map, Option, none, some, Bool, true, false, not,
  if◌then◌else◌, ◌&&◌, ◌||◌, lookup, text_comparable, ◌==◌, ℤ, pos, length, get_elem?, ◌>>=◌,
  is_empty, nat_eqb, parse_int, format_int, Comparable, pos_part, neg_part, int_comparable,
}
use tsf_go.Http.{Header, Reply, is_not_found}
use tsf_go.Hub.{
  Hub, Topic, Ready, new_hub, attach, find_topic, broadcast, goto, await, held, close, begin_close,
  end_close, caller_done, watcher_done, notified,
}
use tsf_go.Naming.{Service, Instance, new_service, get, namespace_id, ns_global, service_comparable}
use tsf_go.Naming.Kratos.{KratosInstance, to_kratos}

infixl 6 ◌<>◌
abbrev ◌<>◌ : String → String → String
s <> t = Prim.Native.String.◌++◌ s t

pub record Conf : Type 0 where
  pub token : String
  pub app_id : String
  pub namespace_id : String

-- Consul.addr, over the random draw. `none` is a draw out of range, at which the code panics.
unfoldable pub addr : List String → ℕ → Option String
addr [] draw = some ""
addr (a ∷ []) draw = some a
addr (a ∷ b ∷ rest) draw = get_elem? (a ∷ b ∷ rest) draw

-- CheckServiceNode, of which only the service is read.
pub record Node : Type 0 where
  pub id : String
  pub service : String
  pub address : String
  pub meta : List (String × String)
  pub port : ℕ

-- CheckServiceNode.compare
unfoldable pub compare_node : Node → Node → Bool
compare_node self node =
    self.address == node.address && self.id == node.id && self.port == node.port

-- The inner loop of compareNodes.
unfoldable pub some_equal : List Node → Node → Bool
unfolding compare_node
some_equal [] node = false
some_equal (old_node ∷ old) node = compare_node old_node node || some_equal old node

unfoldable pub all_equal : List Node → List Node → Bool
unfolding some_equal
all_equal old [] = true
all_equal old (node ∷ new) = if some_equal old node then all_equal old new else false

unfoldable pub compare_nodes : List Node → List Node → Bool
unfolding all_equal
compare_nodes old new = if not (length old == length new) then false else all_equal old new

-- The URL that catalog asks, and the one that healthService asks.
unfoldable pub catalog_url : Conf → String → ℤ → String
unfolding format_int
catalog_url conf addr index =
    "http://"
    <> addr
    <> "/v1/catalog/services?token="
    <> conf.token
    <> "&wait=55s&index="
    <> format_int index
    <> (if conf.namespace_id == "" then "" else "&nid=" <> conf.namespace_id)
    <> (if conf.app_id == "" then "" else "&uid=" <> conf.app_id)

unfoldable pub health_url : Conf → String → String → Service → ℤ → String
unfolding format_int
health_url conf own addr svc index =
    "http://"
    <> addr
    <> "/v1/health/service/"
    <> svc.name
    <> "?token="
    <> conf.token
    <> "&passing&wait=55s&index="
    <> format_int index
    <> (if not (svc.namespace == "") && not (svc.namespace == own)
        then if svc.namespace == ns_global then "&nsType=GLOBAL" else "&nid=" <> svc.namespace
        else if conf.namespace_id == ""
        then ""
        else "&nid=" <> conf.namespace_id)
    <> (if conf.app_id == "" then "" else "&uid=" <> conf.app_id)

-- What catalog and healthService return: what the body was decoded into, the index, and whether there
-- is an error.
pub record Gathered {ℓ} (A : Type ℓ) : Type ℓ where
  pub nodes : A
  pub index : ℤ
  pub err : Bool

abbrev pub index_of : Header → String
index_of h = elim (lookup "X-Consul-Index" h) [ none ↦ "" | some s ↦ s ]

module _ {ℓ} {A : Type ℓ} where
  unfoldable pub read_index : A → Option Header → Gathered A
  unfolding parse_int lookup
  read_index nodes none = record { nodes = nodes; index = pos 0; err = true }
  read_index nodes (some h) =
      let read = parse_int (index_of h) in record { nodes = nodes; index = read.0; err = read.1 }

  abbrev pub or_unset : A → Option A → A
  or_unset unset none = unset
  or_unset unset (some a) = a

  -- healthService and catalog, of what the client returns; `unset` is the variable before the request.
  unfoldable pub gather : A → Reply A → Gathered A
  unfolding read_index
  gather unset reply = elim reply.err [
    | none ↦ read_index (or_unset unset reply.content) reply.header
    | some failure ↦
        if is_not_found failure
        then read_index (or_unset unset reply.content) reply.header
        else record { nodes = or_unset unset reply.content; index = pos 0; err = true }
  ]

unfoldable pub health_service : Reply (List Node) → Gathered (List Node)
unfolding gather
health_service reply = gather [] reply

-- A round of Catalog: the index and the count of retries.
unfoldable pub catalog_round {ℓ} : {A : Type ℓ} → Gathered A → ℤ × ℕ → ℤ × ℕ
catalog_round got (last, retries) = if got.err then (last, suc retries) else (got.index, 0)

-- Where a service's goroutine stands: before its first round, in the loop with `lastNodes`,
-- `lastIndex` and `retries`, or returned.
pub data Loop : Type 0 where
  first : Loop
  next : List Node → ℤ → ℕ → Loop
  returned : Loop

abbrev pub Discovery : Type 0
Discovery = Hub Service (List KratosInstance) Loop

abbrev pub SvcInfo : Type 0
SvcInfo = Topic Service (List KratosInstance) Loop

abbrev same_index : ℤ → ℤ → Bool
same_index i j = pos_part i == pos_part j && neg_part i == neg_part j

-- Whether a round has news.
unfoldable pub has_news : List Node → ℤ → Gathered (List Node) → Bool
unfolding compare_nodes
has_news last_nodes last_index got =
    not (is_empty got.nodes)
    && (not (same_index got.index last_index) || not (compare_nodes last_nodes got.nodes))

-- `own` is env.NamespaceID(); the tags are nil.
module _ (own : String) (show_tags : List String → String) where
  -- What store makes of a node.
  unfoldable pub instance_of : Node → KratosInstance
  unfolding new_service get to_kratos
  instance_of node = to_kratos show_tags (record {
    service = new_service own (get namespace_id node.meta) node.service;
    id = node.id;
    region = "";
    host = node.address;
    port = node.port;
    metadata = node.meta;
    status = 0;
    tags = [];
  })

  abbrev pub instances : List Node → List KratosInstance
  instances nodes = map instance_of nodes

  -- svcInfo.broadcast
  unfoldable pub broadcast_nodes : ℕ → List Node → Discovery → Discovery
  unfolding broadcast instance_of
  broadcast_nodes t nodes c = broadcast t (instances nodes) c

  -- A round of the goroutine: the first one, and one at a tick.
  unfoldable pub round : ℕ → Gathered (List Node) → Loop → Discovery → Discovery
  unfolding broadcast_nodes has_news
  round t got first c =
      goto t (next got.nodes got.index 0)
        (if not got.err && not (is_empty got.nodes) then broadcast_nodes t got.nodes c else c)
  round t got (next last_nodes last_index retries) c =
      if got.err
      then goto t (next last_nodes last_index (suc retries)) c
      else if has_news last_nodes last_index got
      then goto t (next got.nodes got.index 0) (broadcast_nodes t got.nodes c)
      else goto t (next last_nodes got.index 0) c
  round t got returned c = c

-- A service of no namespace.
abbrev pub named : String → Service
named name = record { namespace = ""; name = name }

abbrev pub some_nodes : Option (List KratosInstance) → Bool
some_nodes none = false
some_nodes (some nodes) = not (is_empty nodes)

-- Whether Watch pushes an event at once.
unfoldable pub pushes : Service → Discovery → Bool
unfolding lookup
pushes svc c = elim (lookup svc c.topic) [
  | none ↦ false
  | some t ↦ some_nodes (held (get_elem? c.topics t))
]

-- Consul.Watch: the watcher, and the state.
unfoldable pub watch : String → Discovery → ℕ × Discovery
unfolding attach pushes
watch name c = (length c.watchers, attach first (pushes (named name) c) (named name) c)

-- What GetService returns: nil for a service that it had to start, the nodes, or an error.
pub data Got : Type 0 where
  started : Got
  got_nodes : List KratosInstance → Got
  not_found : Got

-- Consul.GetService
unfoldable pub get_service : String → Discovery → Got × Discovery
unfolding lookup find_topic
get_service name c = elim (lookup (named name) c.topic) [
  | none ↦ (started, (find_topic first (named name) c).1)
  | some t ↦ elim (held (get_elem? c.topics t)) [
    | none ↦ (not_found, c)
    | some known ↦ (got_nodes known, c)
  ]
]

-- What Next returns, or that it panics.
pub data Next : Type 0 where
  next_nodes : List KratosInstance → Next
  client_closed : Next
  panics : Next

abbrev pub next_of : Option (List KratosInstance) → Next
next_of none = panics
next_of (some known) = next_nodes known

-- Watcher.Next, when its select takes the case: it has no context of a caller. `none`: the case is not
-- ready.
unfoldable pub next_event : Ready → ℕ → Discovery → Option (Next × Discovery)
unfolding await
next_event caller_done w c = none
next_event watcher_done w c = await watcher_done w c >>= λ read. some (client_closed, read.1)
next_event notified w c = await notified w c >>= λ read. some (next_of read.0, read.1)

-- Watcher.Stop, up to the lock and from it on.
unfoldable pub begin_stop : ℕ → Discovery → Option Discovery
unfolding begin_close
begin_stop w c = begin_close w c

unfoldable pub end_stop : ℕ → Discovery → Option Discovery
unfolding end_close
end_stop w c = end_close w c

-- Watcher.Stop, when no one comes in between.
unfoldable pub stop : ℕ → Discovery → Option Discovery
unfolding close
stop w c = close w c
