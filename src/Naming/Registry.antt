-- ===== src/Naming/Registry.antt =====
-- naming/consul/registry.go: the instances that the program registers, each with the goroutine of its
-- heartbeats. An outcome of a request to the registry is a parameter; the pauses are left out, the
-- count of retries is kept.
pub mod Kept
mod Tests
use tsf_go.Base.{
  ℕ, suc, String, List, [], ◌∷◌, ◌++◌, Option, none, some, Bool, true, false, if◌then◌else◌, ◌||◌,
  lookup, insert, text_comparable, ◌==◌, length, get_elem?, modify, nat_eqb, ◌>>=◌, itoa,
}
use tsf_go.Http.{Failure, refused, broken}
use tsf_go.Naming.{Instance}
use tsf_go.Naming.Discovery.{Conf}

infixl 6 ◌<>◌
abbrev ◌<>◌ : String → String → String
s <> t = Prim.Native.String.◌++◌ s t

-- checkID
abbrev pub check_id : Instance → String
check_id ins = "service:" <> ins.id

-- What the URLs of register, heartBeat and deregister end in.
abbrev pub url_tail : Conf → String
url_tail conf =
    "?token="
    <> conf.token
    <> (if conf.namespace_id == "" then "" else "&nid=" <> conf.namespace_id)
    <> (if conf.app_id == "" then "" else "&uid=" <> conf.app_id)

abbrev pub register_url : Conf → String → String
register_url conf addr = "http://" <> addr <> "/v1/agent/service/register" <> url_tail conf

abbrev pub heartbeat_url : Conf → String → Instance → String
heartbeat_url conf addr ins =
    "http://" <> addr <> "/v1/agent/check/pass/" <> check_id ins <> url_tail conf

abbrev pub deregister_url : Conf → String → Instance → String
deregister_url conf addr ins =
    "http://" <> addr <> "/v1/agent/service/deregister/" <> ins.id <> url_tail conf

-- The goroutine of the heartbeats: not started, before its first heartbeat, before a tick with its
-- retries, or returned.
pub data Loop : Type 0 where
  idle : Loop
  starting : Loop
  beating : ℕ → Loop
  ended : Loop

-- insInfo, with its goroutine.
pub record Info : Type 0 where
  pub ins : Instance
  pub cancelled : Bool
  pub loop : Loop

-- The map of registered instances, and the store of their infos.
pub record Registry : Type 0 where
  pub registry : List (String × ℕ)
  pub infos : List Info

abbrev set_loop : Loop → Info → Info
set_loop loop info = record info { loop = loop }

abbrev cancel : Info → Info
cancel info = record info { cancelled = true }

-- A request of an instance, and what it brings back: an error, or none.
pub data Request : Type 0 where
  register : Instance → Request
  heartbeat : Instance → Request
  deregister : Instance → Request

-- What a call asks of the registry, in order, and the error that it returns.
abbrev pub Outcome : Type 0
Outcome = List Request × Option Failure

-- registerIns under the lock, of an ID that is not in the map.
abbrev pub added : Instance → Registry → Registry
added ins r = record {
  registry = insert ins.id (length r.infos) r.registry;
  infos = r.infos ++ (record { ins = ins; cancelled = false; loop = idle } ∷ []);
}

-- registerIns from the answer to its request on, of the info at its place: the error, if there is one,
-- is returned before the goroutine starts.
unfoldable pub start : ℕ → Option Failure → Registry → Option Failure × Registry
start a (some failure) r = (some failure, r)
start a none r = (none, record r { infos = modify r.infos a (set_loop starting) })

-- registerIns. The request is made only for an ID that is not in the map.
unfoldable pub register_ins : (Request → Option Failure) → Instance → Registry → Outcome × Registry
unfolding lookup insert start
register_ins send ins r = elim (lookup ins.id r.registry) [
  | some a ↦ (([], none), r)
  | none ↦
      let started = start (length r.infos) (send (register ins)) (added ins r) in
      ((register ins ∷ [], started.0), started.1)
]

-- Register, of the instances of the endpoints.
unfoldable pub register_all :
    (Request → Option Failure) → List Instance → Registry → Outcome × Registry
unfolding register_ins
register_all send [] r = (([], none), r)
register_all send (ins ∷ inss) r =
    let first = register_ins send ins r in
    let rest = register_all send inss first.1 in
    elim first.0.1 [ some failure ↦ first | none ↦ ((first.0.0 ++ rest.0.0, rest.0.1), rest.1) ]

-- errors.IsNotFound || errors.IsInternalServer
abbrev pub lost : Failure → Bool
lost (refused status) = nat_eqb status 404 || nat_eqb status 500
lost broken = true

-- The requests of a tick, in order, and the retries after it.
unfoldable pub beat : (Request → Option Failure) → Instance → ℕ → List Request × ℕ
beat send ins retries = elim (send (heartbeat ins)) [
  | none ↦ (heartbeat ins ∷ [], 0)
  | some failure ↦
      if lost failure
      then elim (send (register ins)) [
        | none ↦ (heartbeat ins ∷ register ins ∷ [], 0)
        | some again ↦ (heartbeat ins ∷ register ins ∷ [], suc retries)
      ]
      else (heartbeat ins ∷ [], suc retries)
]

-- A tick of a goroutine: its requests, and the state. The first heartbeat's outcome is dropped.
unfoldable pub tick : (Request → Option Failure) → ℕ → Info → Registry → List Request × Registry
unfolding beat
tick send a info r = elim info.loop [
  | idle ↦ ([], r)
  | starting ↦
      (heartbeat info.ins ∷ [], record r { infos = modify r.infos a (set_loop (beating 0)) })
  | beating retries ↦
      let made = beat send info.ins retries in
      (made.0, record r { infos = modify r.infos a (set_loop (beating made.1)) })
  | ended ↦ ([], r)
]

-- The goroutine returns when its context is done.
unfoldable pub finish : ℕ → Info → Registry → Registry
finish a info r = elim info.loop [
  | idle ↦ r
  | starting ↦ r
  | beating retries ↦
      if info.cancelled then record r { infos = modify r.infos a (set_loop ended) } else r
  | ended ↦ r
]

-- deregister, one request.
unfoldable pub deregister_one :
    (Request → Option Failure) → Instance → Registry → Outcome × Registry
deregister_one send ins r = ((deregister ins ∷ [], send (deregister ins)), r)

-- Deregister, of the instances of the endpoints.
unfoldable pub deregister_all :
    (Request → Option Failure) → List Instance → Registry → Outcome × Registry
unfolding deregister_one
deregister_all send [] r = (([], none), r)
deregister_all send (ins ∷ inss) r =
    let first = deregister_one send ins r in
    let rest = deregister_all send inss first.1 in
    elim first.0.1 [ some failure ↦ first | none ↦ ((first.0.0 ++ rest.0.0, rest.0.1), rest.1) ]

-- deregisterIns, which nothing calls: it cancels the goroutine, and leaves the map alone.
unfoldable pub deregister_ins : Instance → Registry → List Request × Registry
unfolding lookup
deregister_ins ins r = elim (lookup ins.id r.registry) [
  | none ↦ (deregister ins ∷ [], r)
  | some a ↦ (deregister ins ∷ [], record r { infos = modify r.infos a cancel })
]
