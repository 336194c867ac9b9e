-- ===== src/Naming/Registry/Kept.antt =====
-- naming/consul/registry.go: what holds of the registered instances over every order of the calls of
-- Register and Deregister and the ticks of the goroutines.
use tsf_go.Base.{
  ℕ, List, [], ◌∷◌, Option, none, some, true, false, lookup, insert, text_comparable,
  int_comparable, ◌==◌, length, get_elem?, modify, ◌≡◌, refl, inl, inr, Bool-cases, Option-cases,
  ap, ◌⊎◌, ◌↔◌, Memᴰ, suc, arith, nat_eqb_iff, ◌∙◌, sym, subst, some-injective, if-true, if-false,
  same_self, nat_eqb, of_modify, of_append, lookup-insert, lookup-insert_self, modify_at,
}
use tsf_go.Http.{Failure, refused, broken}
use tsf_go.Naming.{Instance}
use tsf_go.Naming.Registry.{
  Registry, Info, Loop, idle, starting, beating, ended, Request, register, heartbeat, register_ins,
  start, tick, beat, finish, lost, set_loop, added, deregister, deregister_all, deregister_one,
}

-- A step: the part of Register under the lock for one instance, what follows on the answer to its
-- request, a tick of a goroutine, its end, or a call of Deregister.
pub data Step : Registry → Registry → Type 0 where
  claims : (ins : Instance) (r : Registry) → lookup ins.id r.registry ≡ none → Step r (added ins r)
  starts :
      (a : ℕ) (outcome : Option Failure) (info : Info) (r : Registry)
      → get_elem? r.infos a ≡ some info
      → info.loop ≡ idle
      → Step r (start a outcome r).1
  ticks :
      (send : Request → Option Failure) (a : ℕ) (info : Info) (r : Registry)
      → get_elem? r.infos a ≡ some info
      → Step r (tick send a info r).1
  finishes :
      (a : ℕ) (info : Info) (r : Registry)
      → get_elem? r.infos a ≡ some info
      → Step r (finish a info r)
  deregisters :
      (send : Request → Option Failure) (inss : List Instance) (r : Registry)
      → Step r (deregister_all send inss r).1

pub data Reaches : Registry → Registry → Type 0 where
  here : (r : Registry) → Reaches r r
  steps : (a b c : Registry) → Reaches a b → Step b c → Reaches a c

abbrev pub new_registry : Registry
new_registry = record { registry = []; infos = [] }

-- The map holds each info at its instance's id, so an id has one info, and one goroutine, at most; and
-- no info is cancelled.
abbrev pub Held : Registry → Type 0
Held r =
    (a : ℕ) (info : Info)
    → get_elem? r.infos a ≡ some info
    → (lookup info.ins.id r.registry ≡ some a) × (info.cancelled ≡ false)

Held-set_loop :
    (a : ℕ) (loop : Loop) (r : Registry)
    → Held r
    → Held (record r { infos = modify r.infos a (set_loop loop) })
Held-set_loop a loop r held b info at =
    let old = of_modify r.infos a b (set_loop loop) at in
    elim (Bool-cases (nat_eqb a b)) [
      | inl here_ ↦
          let now = old.2 ∙ if-true (set_loop loop old.0) old.0 here_ in
          let its = held b old.0 old.1 in
          (ap (λ i. lookup i.ins.id r.registry) now ∙ its.0, ap (λ i. i.cancelled) now ∙ its.1)
      | inr there ↦
          let now = old.2 ∙ if-false (set_loop loop old.0) old.0 there in
          let its = held b old.0 old.1 in
          (ap (λ i. lookup i.ins.id r.registry) now ∙ its.0, ap (λ i. i.cancelled) now ∙ its.1)
    ]

Held-added :
    (ins : Instance) (r : Registry) → lookup ins.id r.registry ≡ none → Held r → Held (added ins r)
Held-added ins r fresh held a info at = elim (of_append r.infos _ a at) [
  | inl old ↦
      let its = held a info old in
      (
        lookup-insert ins.id info.ins.id (length r.infos) r.registry
            ∙ elim (Bool-cases (info.ins.id == ins.id)) [
              | inl same ↦ absurd (
                  let one = (text_comparable.same_iff info.ins.id ins.id).0 same in
                  let no = sym its.0 ∙ ap (λ i. lookup i r.registry) one ∙ fresh in cc)
              | inr other ↦ if-false _ _ other ∙ its.0
            ],
        its.1,
      )
  | inr new ↦ (
    ap (λ i. lookup i.ins.id (insert ins.id (length r.infos) r.registry)) new.1
        ∙ lookup-insert_self ins.id (length r.infos) r.registry
        ∙ ap some (sym new.0),
    ap (λ i. i.cancelled) new.1,
  )
]

Held-start : (a : ℕ) (outcome : Option Failure) (r : Registry) → Held r → Held (start a outcome r).1
unfolding start
Held-start a (some failure) r held = held
Held-start a none r held = Held-set_loop a starting r held

Held-tick :
    (send : Request → Option Failure) (a : ℕ) (info : Info) (loop : Loop) (r : Registry)
    → info.loop ≡ loop
    → Held r
    → Held (tick send a info r).1
unfolding tick
Held-tick send a info idle r e held = rw (tick, e) held
Held-tick send a info starting r e held = rw (tick, e) (Held-set_loop a (beating 0) r held)
Held-tick send a info (beating retries) r e held =
    rw (tick, e) (Held-set_loop a (beating (beat send info.ins retries).1) r held)
Held-tick send a info ended r e held = rw (tick, e) held

-- A goroutine whose info is not cancelled does not end.
finish_open :
    (a : ℕ) (info : Info) (loop : Loop) (r : Registry)
    → info.loop ≡ loop
    → info.cancelled ≡ false
    → finish a info r ≡ r
unfolding finish
finish_open a info idle r e open_ = rw (finish, e) refl
finish_open a info starting r e open_ = rw (finish, e) refl
finish_open a info (beating retries) r e open_ = rw (finish, e, open_) refl
finish_open a info ended r e open_ = rw (finish, e) refl

-- Deregister leaves the map and the goroutines alone.
deregister_all_state :
    (send : Request → Option Failure) (inss : List Instance) (r : Registry)
    → (deregister_all send inss r).1 ≡ r
unfolding deregister_all deregister_one
deregister_all_state send [] r = refl
deregister_all_state send (ins ∷ inss) r = elim (Option-cases (send (deregister ins))) [
  | inl done ↦ rw (deregister_all, done) (deregister_all_state send inss r)
  | inr fails ↦ rw (deregister_all, fails.1) refl
]

Held-Step : (r s : Registry) → Step r s → Held r → Held s
Held-Step _ _ (claims ins r new) held = Held-added ins r new held
Held-Step _ _ (starts a outcome info r at waits) held = Held-start a outcome r held
Held-Step _ _ (ticks send a info r at) held = Held-tick send a info info.loop r refl held
Held-Step _ _ (finishes a info r at) held =
    subst Held (sym (finish_open a info info.loop r refl (held a info at).1)) held
Held-Step _ _ (deregisters send inss r) held =
    subst Held (sym (deregister_all_state send inss r)) held

Held-Reaches : (r s : Registry) → Reaches r s → Held r → Held s
Held-Reaches _ _ (here r) held = held
Held-Reaches _ _ (steps a b c before step) held = Held-Step b c step (Held-Reaches a b before held)

-- In every state that Register, Deregister and the ticks reach, an ID has one info at most, and so one
-- goroutine, which does not end: Deregister stops none, and none is cancelled.
pub infos-Reaches :
    (r : Registry) (a b : ℕ) (i j : Info)
    → Reaches new_registry r
    → get_elem? r.infos a ≡ some i
    → get_elem? r.infos b ≡ some j
    → i.ins.id ≡ j.ins.id
    → (a ≡ b) × (i.cancelled ≡ false) × (finish a i r ≡ r)
infos-Reaches r a b i j reached at_a at_b same =
    let held = Held-Reaches new_registry r reached (λ c info at. absurd (cc)) in
    let (in_map, open_) = held a i at_a in
    (
      some-injective a b (sym in_map ∙ ap (λ id. lookup id r.registry) same ∙ (held b j at_b).0),
      open_,
      finish_open a i i.loop r refl open_,
    )

-- An error that says that the registry does not know the instance, or that it failed: one of status 404
-- or 500, or one without a status.
abbrev pub Unknown : Failure → Type 0
Unknown failure = (failure ≡ refused 404) ⊎ (failure ≡ refused 500) ⊎ (failure ≡ broken)

Unknown-lost : (failure : Failure) → lost failure ≡ true ↔ Unknown failure
Unknown-lost (refused status) = (
  λ e. elim (Bool-cases (nat_eqb status 404)) [
    | inl missing ↦ inl (ap refused ((nat_eqb_iff status 404).0 missing))
    | inr other ↦ inr (inl (ap refused ((nat_eqb_iff status 500).0 (ground (arith, e, other)))))
  ],
  λ u. elim u [
    | inl missing ↦ ap lost missing
    | inr (inl failed) ↦ ap lost failed
    | inr (inr no_status) ↦ absurd (cc)
  ],
)
Unknown-lost broken = (λ e. inr (inr refl), λ u. refl)

module _ (send : Request → Option Failure) (ins : Instance) where
  -- The heartbeat brings back an error of these.
  abbrev pub NotKnown : Type 0
  NotKnown = (failure : Failure) × (send (heartbeat ins) ≡ some failure) × Unknown failure

  -- The heartbeat is taken, or the registration that follows it.
  abbrev pub Taken : Type 0
  Taken = (send (heartbeat ins) ≡ none) ⊎ (NotKnown × (send (register ins) ≡ none))

  -- What a tick asks, and how many retries it leaves.
  abbrev pub Beats : ℕ → List Request × ℕ → Type 0
  Beats retries (asked, left) =
      Memᴰ (heartbeat ins) asked
      × (Memᴰ (register ins) asked ↔ NotKnown)
      × ((left ≡ 0) ↔ Taken)
      × ((left ≡ 0) ⊎ (left ≡ suc retries))

  only_heartbeat : Memᴰ (register ins) (heartbeat ins ∷ []) → ⊥
  only_heartbeat (Memᴰ.head e) = cc
  only_heartbeat (Memᴰ.tail m) = elim m [ ]

  beat_lem : (retries : ℕ) → Beats retries (beat send ins retries)
  unfolding beat
  beat_lem retries = elim (Option-cases (send (heartbeat ins))) [
    | inl taken ↦
        let made : beat send ins retries ≡ (heartbeat ins ∷ [], 0) = rw (beat, taken) refl in
        subst (Beats retries) (sym made) (
          Memᴰ.head refl,
          (
            λ m. absurd (only_heartbeat m),
            λ (n : NotKnown). absurd (let no = sym taken ∙ n.1 in cc),
          ),
          (λ z. inl taken, λ t. refl),
          inl refl,
        )
    | inr (failure, fails) ↦ elim (Bool-cases (lost failure)) [
      | inl is_lost ↦
          let unknown : NotKnown = (failure, fails, (Unknown-lost failure).0 is_lost) in
          elim (Option-cases (send (register ins))) [
            | inl taken ↦
                let made : beat send ins retries ≡ (heartbeat ins ∷ register ins ∷ [], 0) =
                  rw (beat, fails, is_lost, taken) refl in
                subst (Beats retries) (sym made) (
                  Memᴰ.head refl,
                  (λ m. unknown, λ n. Memᴰ.tail (Memᴰ.head refl)),
                  (λ z. inr (unknown, taken), λ t. refl),
                  inl refl,
                )
            | inr (again, refuses) ↦
                let made : beat send ins retries
                    ≡ (heartbeat ins ∷ register ins ∷ [], suc retries) =
                  rw (beat, fails, is_lost, refuses) refl in
                subst (Beats retries) (sym made) (
                  Memᴰ.head refl,
                  (λ m. unknown, λ n. Memᴰ.tail (Memᴰ.head refl)),
                  (
                    λ z. absurd (cc),
                    λ (t : Taken). elim t [
                      | inl fine ↦ absurd (let no = sym fine ∙ fails in cc)
                      | inr both ↦ absurd (let no = sym both.1 ∙ refuses in cc)
                    ],
                  ),
                  inr refl,
                )
          ]
      | inr known ↦
          let made : beat send ins retries ≡ (heartbeat ins ∷ [], suc retries) =
            rw (beat, fails, known) refl in
          let knows : ¬ NotKnown = λ n.
            let one = some-injective failure n.0 (sym fails ∙ n.1) in
            let is_lost = ap lost one ∙ (Unknown-lost n.0).1 n.2 in cc in
          subst (Beats retries) (sym made) (
            Memᴰ.head refl,
            (λ m. absurd (only_heartbeat m), λ n. absurd (knows n)),
            (
              λ z. absurd (cc),
              λ (t : Taken). elim t [
                | inl fine ↦ absurd (let no = sym fine ∙ fails in cc)
                | inr both ↦ absurd (knows both.0)
              ],
            ),
            inr refl,
          )
    ]
  ]

-- The tick of a registered instance after a call of Deregister, of this or of other instances, whatever
-- it brought: the goroutine still sends the heartbeat; it asks to register the instance again exactly if
-- the heartbeat brings back an error of status 404 or 500, or without a status, as from a registry that
-- has taken the Deregister; and it goes on without retries exactly if the heartbeat or this request is
-- taken, and with one retry more otherwise.
pub tick-deregister_all :
    (send again : Request → Option Failure) (inss : List Instance) (a retries : ℕ) (info : Info)
    (r : Registry)
    → get_elem? r.infos a ≡ some info
    → info.loop ≡ beating retries
    → let made = tick again a info (deregister_all send inss r).1 in
      Memᴰ (heartbeat info.ins) made.0
      × (Memᴰ (register info.ins) made.0 ↔ NotKnown again info.ins)
      × ((left : ℕ) × (get_elem? made.1.infos a ≡ some (set_loop (beating left) info))
          × ((left ≡ 0) ↔ Taken again info.ins)
          × ((left ≡ 0) ⊎ (left ≡ suc retries)))
unfolding tick
tick-deregister_all send again inss a retries info r at in_loop =
    let s = (deregister_all send inss r).1 in
    let at_s = ap (λ (q : Registry). get_elem? q.infos a) (deregister_all_state send inss r) ∙ at in
    let made = beat again info.ins retries in
    let beats = beat_lem again info.ins retries in
    let ticked : tick again a info s
        ≡ (made.0, record s { infos = modify s.infos a (set_loop (beating made.1)) }) =
      rw (tick, in_loop) refl in
    rw ticked (
      beats.0,
      beats.1,
      (
        made.1,
        modify_at s.infos a a (set_loop (beating made.1)) at_s
            ∙ ap some (if-true _ info (same_self a)),
        beats.2,
        beats.3,
      ),
    )

known_after :
    (send : Request → Option Failure) (ins : Instance) (r : Registry)
    → (a : ℕ) × (lookup ins.id (register_ins send ins r).1.registry ≡ some a)
unfolding register_ins start
known_after send ins r = elim (Option-cases (lookup ins.id r.registry)) [
  | inl new ↦
      rw (register_ins, new)
        (
          length r.infos,
          kept (length r.infos) (send (register ins)) (added ins r)
              (lookup-insert_self ins.id (length r.infos) r.registry),
        )
  | inr known ↦ rw (register_ins, known.1) known
]
  where
    kept :
        (a : ℕ) (outcome : Option Failure) (s : Registry)
        → lookup ins.id s.registry ≡ some a
        → lookup ins.id (start a outcome s).1.registry ≡ some a
    kept a (some failure) s e = e
    kept a none s e = e

register_known :
    (send : Request → Option Failure) (ins : Instance) (r : Registry) (a : ℕ)
    → lookup ins.id r.registry ≡ some a
    → register_ins send ins r ≡ (([], none), r)
unfolding register_ins
register_known send ins r a known = rw (register_ins, known) refl

-- A second Register of an instance makes no request, changes nothing and reports no error, whatever the
-- outcome of the first one: also when that failed and started no goroutine.
pub register_ins-register_ins :
    (send again : Request → Option Failure) (ins : Instance) (r : Registry)
    → register_ins again ins (register_ins send ins r).1 ≡ (([], none), (register_ins send ins r).1)
register_ins-register_ins send again ins r =
    let known = known_after send ins r in
    register_known again ins (register_ins send ins r).1 known.0 known.1
