-- ===== src/Naming/Registry/Tests.antt =====
-- Runs of the registered instances.
use tsf_go.Base.{
  ℕ, [], ◌∷◌, Option, none, some, false, ◌≡◌, refl, get_elem?, lookup, Memᴰ, ◌↔◌, ◌⊎◌,
  text_comparable,
}
use tsf_go.Http.{Failure, refused, broken}
use tsf_go.Naming.{Instance}
use tsf_go.Naming.Registry.{
  Registry, Info, Loop, idle, starting, added, start, deregister_all, beating, Request, register,
  heartbeat, deregister, register_ins, tick, finish, heartbeat_url,
}
use tsf_go.Naming.Registry.Kept.{
  Reaches, here, steps, claims, starts, ticks, deregisters, new_registry, infos-Reaches,
  tick-deregister_all, NotKnown, Taken, register_ins-register_ins,
}

abbrev ins : Instance
ins = record {
  service = record { namespace = "ns"; name = "app" };
  id = "i1";
  region = "";
  host = "10.0.0.1";
  port = 80;
  metadata = [];
  status = 0;
  tags = [];
}

url_test :
    heartbeat_url (record { token = "t"; app_id = "7"; namespace_id = "" }) "host:8500" ins
    ≡ "http://host:8500/v1/agent/check/pass/service:i1?token=t&uid=7"
url_test = refl

-- A registry that takes all but heartbeats, which it does not know.
abbrev forgets : Request → Option Failure
forgets (register i) = none
forgets (heartbeat i) = some (refused 404)
forgets (deregister i) = none

abbrev fails : Request → Option Failure
fails request = some broken

-- The part of Register under the lock.
abbrev claimed : Registry
claimed = added ins new_registry

abbrev one : Registry
unfolding register_ins
one = (register_ins forgets ins new_registry).1

abbrev info : Loop → Info
info loop = record { ins = ins; cancelled = false; loop = loop }

abbrev two : Registry
unfolding tick
two = (tick forgets 0 (info starting) one).1

-- Register, the first heartbeat, Deregister.
reached : Reaches new_registry two
unfolding register_ins start tick lookup deregister_all
reached =
    steps new_registry two two
      (steps new_registry one two
        (steps new_registry claimed one
          (steps new_registry new_registry claimed (here new_registry)
            (claims ins new_registry refl))
          (starts 0 none (info idle) claimed refl refl))
        (ticks forgets 0 (info starting) one refl))
      (deregisters forgets (ins ∷ []) two)

infos-Reaches_example :
    (◌≡◌ {A = ℕ} 0 0)
    × ((info (beating 0)).cancelled ≡ false)
    × (finish 0 (info (beating 0)) two ≡ two)
unfolding two one
infos-Reaches_example =
    infos-Reaches two 0 0 (info (beating 0)) (info (beating 0)) reached refl refl refl

tick-deregister_all_example :
    Memᴰ
      (heartbeat ins)
      (tick forgets 0 (info (beating 0)) (deregister_all forgets (ins ∷ []) two).1).0
    × (Memᴰ
          (register ins)
          (tick forgets 0 (info (beating 0)) (deregister_all forgets (ins ∷ []) two).1).0
        ↔ NotKnown forgets ins)
    × ((left : ℕ) × (get_elem?
            (tick forgets 0 (info (beating 0)) (deregister_all forgets (ins ∷ []) two).1).1.infos
            0
          ≡ some (info (beating left)))
        × ((left ≡ 0) ↔ Taken forgets ins)
        × ((left ≡ 0) ⊎ (left ≡ 1)))
unfolding two one
tick-deregister_all_example =
    tick-deregister_all forgets forgets (ins ∷ []) 0 0 (info (beating 0)) two refl refl

register_ins-register_ins_example :
    register_ins forgets ins (register_ins fails ins new_registry).1
    ≡ (([], none), (register_ins fails ins new_registry).1)
register_ins-register_ins_example = register_ins-register_ins fails forgets ins new_registry
