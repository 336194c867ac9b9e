-- ===== src/Balancer/P2c/Picks.antt =====
-- balancer/p2c/p2c.go: Pick gives one of the nodes, by its address.
use tsf_go.Base.{
  ℕ, ◌+◌, ◌-◌, ◌<◌, String, List, [], ◌∷◌, none, some, Bool, true, false, if◌then◌else◌, lookup,
  text_comparable, int_comparable, ◌==◌, length, modify, ◌≡◌, refl, ◌⊎◌, ◌∙◌, sym, subst,
  Bool-cases, inl, inr, if-true, if-false, Memᴰ, arith, ltb,
}
use tsf_go.Naming.{Instance}
use tsf_go.Balancer.Hash.{addr}
use tsf_go.Balancer.P2c.{
  SubConn, Picker, Callback, conn_of, choose, force, begin, pick, pick_of_two, load,
  refresh_predict, put, set_pick, mark_pick, begin_call, times_word, force_gap,
}
use tsf_go.Balancer.P2c.Conns.{
  Holds, Valid, Keeps, Keeps-modify, Keeps-put, Valid-Keeps, Serves, Serves-Keeps, Bounded,
  pre_pick-Drawn, conn_of-Valid,
}

refresh_node : (now : ℕ) (sc : SubConn) → (refresh_predict now sc).node ≡ sc.node
unfolding refresh_predict
refresh_node now sc = elim (Bool-cases (ltb 10000000 (now - sc.predict_ts))) [
  | inl old ↦ rw (refresh_predict, old, if◌then◌else◌) refl
  | inr fresh ↦ rw (refresh_predict, fresh, if◌then◌else◌) refl
]

-- Both of two are chosen, in one order or the other.
pub record Chosen (a b : ℕ) (p : Picker) (got : ℕ × ℕ × Picker) : Type 0 where
  pub order : ((got.0 ≡ a) × (got.1 ≡ b)) ⊎ ((got.0 ≡ b) × (got.1 ≡ a))
  pub keeps : Keeps p got.2
  pub same_map : got.2.sub_conns ≡ p.sub_conns

choose-Chosen :
    (start a b : ℕ) (key_a key_b : String) (p : Picker)
    → Holds a key_a p
    → Holds b key_b p
    → (got : ℕ × ℕ × Picker) × (choose start a b p ≡ some got) × Chosen a b p got
unfolding choose load
choose-Chosen start a b key_a key_b p (conn_a, at_a, its_a) holds_b =
    let load_a = load start conn_a in
    let p₁ = put a load_a.1 p in
    let keeps₁ = Keeps-put a conn_a load_a.1 p at_a (refresh_node start conn_a) in
    let (conn_b, at_b, its_b) = keeps₁ b key_b holds_b in
    let load_b = load start conn_b in
    let p₂ = put b load_b.1 p₁ in
    let keeps₂ = Keeps-put b conn_b load_b.1 p₁ at_b (refresh_node start conn_b) in
    let both = λ (c : ℕ) (key : String) (h : Holds c key p). keeps₂ c key (keeps₁ c key h) in
    elim (Bool-cases
      (ltb (times_word load_b.0 conn_a.success) (times_word load_a.0 conn_b.success))) [
        | inl less ↦ (
          (b, a, p₂),
          rw (choose, at_a) (rw (at_b) (if-true _ _ less)),
          record { order = inr (refl, refl); keeps = both; same_map = refl },
        )
        | inr more ↦ (
          (a, b, p₂),
          rw (choose, at_a) (rw (at_b) (if-false _ _ more)),
          record { order = inl (refl, refl); keeps = both; same_map = refl },
        )
      ]

force_lem :
    (start upc : ℕ) (key : String) (p : Picker)
    → Holds upc key p
    → (got : Bool × Picker) × (force start upc p ≡ some got)
      × Keeps p got.1
      × (got.1.sub_conns ≡ p.sub_conns)
unfolding force
force_lem start upc key p (sc, at, its) = elim (Bool-cases (ltb force_gap (start - sc.pick))) [
  | inl late ↦ (
    (true, record p { heap = modify p.heap upc (set_pick start) }),
    rw (force, at) (if-true _ _ late),
    Keeps-modify upc (set_pick start) p (λ x. refl),
    refl,
  )
  | inr recent ↦ ((false, p), rw (force, at) (if-false _ _ recent), λ c k h. h, refl)
]

-- What Pick gives: an instance with the address of one of the nodes.
pub record Picked (nodes : List Instance) (got : Instance × Callback × Picker) : Type 0 where
  pub node : Instance
  pub within : Memᴰ node nodes
  pub same_addr : addr got.0 ≡ addr node
  pub valid : Valid got.2

mark_Keeps :
    (start pc : ℕ) (switched : Bool) (p : Picker)
    → Keeps p (mark_pick start pc switched p)
      × ((mark_pick start pc switched p).sub_conns ≡ p.sub_conns)
unfolding mark_pick
mark_Keeps start pc true p = (λ c k h. h, refl)
mark_Keeps start pc false p = (Keeps-modify pc (set_pick start) p (λ x. refl), refl)

begin-Picked :
    (start pc : ℕ) (switched : Bool) (nodes : List Instance) (p : Picker)
    → Serves nodes pc p
    → Valid p
    → (got : Instance × Callback × Picker) × (begin start pc switched p ≡ some got)
      × Picked nodes got
unfolding begin
begin-Picked start pc switched nodes p (node, within, holds) valid =
    let q = mark_pick start pc switched p in
    let (keeps, same) = mark_Keeps start pc switched p in
    let (sc, at, its) = keeps pc (addr node) holds in
    let f = begin_call p.elements start in
    (
      (
        sc.node,
        record { conn = pc; element = p.elements; start = start },
        record q { heap = modify q.heap pc f; elements = p.elements + 1 },
      ),
      rw (begin, at) refl,
      record {
        node = node;
        within = within;
        same_addr = its;
        valid =
            Valid-Keeps q (record q { heap = modify q.heap pc f; elements = p.elements + 1 }) refl
              (Keeps-modify pc f q (λ x. refl)) (Valid-Keeps p q same keeps valid);
      },
    )

in_order :
    (nodes : List Instance) (a b : ℕ) (got : ℕ × ℕ × Picker)
    → Serves nodes a got.2
    → Serves nodes b got.2
    → (((got.0 ≡ a) × (got.1 ≡ b)) ⊎ ((got.0 ≡ b) × (got.1 ≡ a)))
    → Serves nodes got.0 got.2 × Serves nodes got.1 got.2
in_order nodes a b got one two (inl (x, y)) =
    (subst (λ c. Serves nodes c got.2) (sym x) one, subst (λ c. Serves nodes c got.2) (sym y) two)
in_order nodes a b got one two (inr (x, y)) =
    (subst (λ c. Serves nodes c got.2) (sym x) two, subst (λ c. Serves nodes c got.2) (sym y) one)

pick_of_two-Picked :
    (intn : ℕ → ℕ → ℕ) (start : ℕ) (nodes : List Instance) (p : Picker)
    → Bounded intn
    → 1 < length nodes
    → Valid p
    → (got : Instance × Callback × Picker) × (pick_of_two intn start nodes p ≡ some got)
      × Picked nodes got
unfolding pick_of_two
pick_of_two-Picked intn start nodes p bounded two_nodes valid =
    let (drawn, is_drawn, its) = pre_pick-Drawn intn nodes p bounded two_nodes valid in
    let (node_a, within_a, holds_a) = its.one in
    let (node_b, within_b, holds_b) = its.two in
    let (chosen, is_chosen, choice) =
      choose-Chosen start drawn.0 drawn.1 (addr node_a) (addr node_b) drawn.2 holds_a holds_b in
    let one = Serves-Keeps nodes drawn.0 drawn.2 chosen.2 choice.keeps its.one in
    let two = Serves-Keeps nodes drawn.1 drawn.2 chosen.2 choice.keeps its.two in
    let valid_chosen = Valid-Keeps drawn.2 chosen.2 choice.same_map choice.keeps its.valid in
    let (serves_pc, serves_upc) = in_order nodes drawn.0 drawn.1 chosen one two choice.order in
    let (node_u, within_u, holds_u) = serves_upc in
    let (forced, is_forced, keeps, same) =
      force_lem start chosen.1 (addr node_u) chosen.2 holds_u in
    let valid_forced = Valid-Keeps chosen.2 forced.1 same keeps valid_chosen in
    elim (Bool-cases forced.0) [
      | inl late ↦
          let (got, is_got, picked) =
            begin-Picked start chosen.1 true nodes forced.1
              (Serves-Keeps nodes chosen.1 chosen.2 forced.1 keeps serves_upc) valid_forced in
          (
            got,
            rw (pick_of_two, is_drawn)
                (rw (is_chosen) (rw (is_forced) (if-true _ _ late ∙ is_got))),
            picked,
          )
      | inr recent ↦
          let (got, is_got, picked) =
            begin-Picked start chosen.0 (chosen.0 == chosen.1) nodes forced.1
              (Serves-Keeps nodes chosen.0 chosen.2 forced.1 keeps serves_pc) valid_forced in
          (
            got,
            rw (pick_of_two, is_drawn)
                (rw (is_chosen) (rw (is_forced) (if-false _ _ recent ∙ is_got))),
            picked,
          )
    ]

-- Pick of no nodes gives the nil instance. Of some nodes, if the draws keep their bounds and the map is
-- in order, it does not panic, and gives an instance with the address of one of the nodes; the map stays
-- in order.
pub pick-Picked :
    (intn : ℕ → ℕ → ℕ) (start : ℕ) (nodes : List Instance) (p : Picker)
    → Bounded intn
    → Valid p
    → ((nodes ≡ []) × (pick intn start nodes p ≡ some none))
      ⊎ ((got : Instance × Callback × Picker) × (pick intn start nodes p ≡ some (some got))
          × Picked nodes got)
unfolding pick
pick-Picked intn start [] p bounded valid = inl (refl, refl)
pick-Picked intn start (node ∷ []) p bounded valid =
    let found = lookup (addr node) p.sub_conns in
    let (valid_q, keeps, holds) = conn_of-Valid node found p (λ c e. valid (addr node) c e) valid in
    let q = conn_of node found p in
    let (got, is_got, picked) =
      begin-Picked start q.0 false (node ∷ []) q.1 (node, Memᴰ.head refl, holds) valid_q in
    inr (got, rw (is_got) refl, picked)
pick-Picked intn start (a ∷ b ∷ rest) p bounded valid =
    let (got, is_got, picked) =
      pick_of_two-Picked intn start (a ∷ b ∷ rest) p bounded (omega arith) valid in
    inr (got, rw (is_got) refl, picked)
