-- ===== src/Propagation/Tests.antt =====
-- A call from one program to another.
use tsf_go.Base.{
  ℕ, String, List, [], ◌∷◌, Option, none, some, ◌≡◌, refl, sym, subst, if◌then◌else◌, ◌||◌, insert,
  lookup, text_comparable, ◌==◌, lookup-insert, arith, Bool-cases, inl, inr,
}
use tsf_go.Meta.{Context, Any, text, user, sys, user_key, source_key}
use tsf_go.Naming.Kratos.{before_colon}
use tsf_go.Propagation.{Env, Md, TsfMeta, start_client_context, start_server_context}
use tsf_go.Propagation.Carried.{SetsLower}
use tsf_go.Propagation.Delivered.{KeysOnce}
use tsf_go.Propagation.Journey.{Sent, start_server_context-start_client_context}

-- Keys that are in lower case already.
abbrev lower : String → String
lower s = s

abbrev set : String → String → Md → Md
set key v md = if key == "" || v == "" then md else insert key v md

set-SetsLower : SetsLower lower set
set-SetsLower k key v md = let inserted = lookup-insert key k v md in ground arith

abbrev stringer : ℕ → Option String
stringer n = none

abbrev no_tsf : String → TsfMeta
no_tsf s = record {
  application = "";
  version = "";
  service = "";
  group = "";
  local_ip = "";
  namespace_id = "";
  interface_name = "";
}

abbrev no_tags : String → List (String × Any)
no_tags s = []

abbrev env : Env
env = record { own_namespace = "ns"; group = "g"; application = "a"; version = "v1" }

abbrev far : Env
far = record { own_namespace = "ns"; group = "h"; application = "b"; version = "v2" }

abbrev ctx : Context
ctx = record { sys_meta = none; user_meta = some (("tenant", "t1") ∷ ("zone", "z") ∷ []) }

abbrev callee : Context
callee = record { sys_meta = none; user_meta = none }

abbrev named : Context
named = record {
  sys_meta = some (
      ("destination.service.name", text "stock")
      ∷ ("destination.service.namespace", text "ns")
      ∷ ("service.name", text "shop")
      ∷ ("destination.interface", text "/get")
      ∷ ("lane.id", text "lane")
      ∷ []);
  user_meta = ctx.user_meta;
}

-- What the client sends.
abbrev md : Md
md =
    ("user_def.tenant", "t1")
    ∷ ("user_def.zone", "z")
    ∷ ("service.name", "shop")
    ∷ ("lane.id", "lane")
    ∷ ("group.id", "g")
    ∷ ("service.namespace", "ns")
    ∷ ("application.id", "a")
    ∷ ("application.version", "v1")
    ∷ []

client_test :
    start_client_context set stringer env "shop" "stock" "/get" "lane" ctx ≡ some (named, md)
unfolding start_client_context insert user_key
client_test = refl

-- The same metadata in another order.
abbrev sent : Md
sent =
    ("user_def.zone", "z")
    ∷ ("user_def.tenant", "t1")
    ∷ ("service.name", "shop")
    ∷ ("lane.id", "lane")
    ∷ ("group.id", "g")
    ∷ ("service.namespace", "ns")
    ∷ ("application.id", "a")
    ∷ ("application.version", "v1")
    ∷ []

sent-md : (k : String) → lookup k sent ≡ lookup k md
unfolding lookup
sent-md k = elim (Bool-cases (k == "user_def.tenant")) [
  | inl same ↦
      subst (λ x. lookup x sent ≡ lookup x md)
        (sym ((text_comparable.same_iff k "user_def.tenant").0 same)) refl
  | inr differ ↦ rw differ refl
]

sent-Sent : Sent lower md sent
unfolding KeysOnce lookup user_key
sent-Sent = record {
  once = (refl, (refl, (refl, (refl, (refl, (refl, (refl, (refl, tt))))))));
  plain = (
    (refl, (refl, refl)),
    (
      (refl, (refl, refl)),
      (
        (refl, (refl, refl)),
        (
          (refl, (refl, refl)),
          (
            (refl, (refl, refl)),
            ((refl, (refl, refl)), ((refl, (refl, refl)), ((refl, (refl, refl)), tt))),
          ),
        ),
      ),
    ),
  );
  same = λ key. sent-md (user_key key);
}

server_test :
    sys
      (start_server_context lower no_tsf no_tsf no_tags far "stock" "GET" "/get" "10.0.0.2"
        (some "10.0.0.1:80")
        sent
        callee)
      "source.connection.ip"
    ≡ some (text "10.0.0.1")
unfolding start_server_context sys source_key before_colon
server_test = refl

start_server_context-start_client_context_example :
    user
      (start_server_context lower no_tsf no_tsf no_tags far "stock" "GET" "/get" "10.0.0.2"
        (some "10.0.0.1:80")
        sent
        callee)
      "zone"
    ≡ "z"
unfolding KeysOnce lookup user_key
start_server_context-start_client_context_example =
    start_server_context-start_client_context lower set stringer no_tsf no_tsf no_tags env far
      "shop" "stock" "/get" "lane" "stock" "GET" "/get" "10.0.0.2" (some "10.0.0.1:80") ctx named
      callee md sent "zone" set-SetsLower (λ out goes. refl) (refl, (refl, tt))
      ((refl, refl), ((refl, refl), tt)) client_test sent-Sent
