-- ===== src/Balancer/P2c/Conns.antt =====
-- balancer/p2c/p2c.go: the map of the statistics. Each entry belongs to a node with the entry's address,
-- and what Pick and its callback do keeps this.
use tsf_go.Base.{
  ◌||◌, ℕ, suc, zero, ◌+◌, ◌-◌, ◌<◌, String, List, [], ◌∷◌, ◌++◌, Option, none, some, lookup,
  text_comparable, int_comparable, ◌==◌, length, get_elem?, modify, ◌≡◌, refl, ◌∙◌, ap, sym,
  Bool-cases, inl, inr, some-injective, if-true, if-false, nat_eqb, lookup-insert, modify_at,
  some_append, get_elem?_last, get_elem?_lt, Memᴰ, arith,
}
use tsf_go.Naming.{Instance}
use tsf_go.Balancer.Hash.{addr}
use tsf_go.Balancer.P2c.{
  SubConn, Picker, new_sub_conn, conn_of, conns_of, draw_two, pre_pick, other_index, is_valid, put,
}

-- The place holds the statistics of a node with the address.
abbrev pub Holds : ℕ → String → Picker → Type 0
Holds c key p = (sc : SubConn) × (get_elem? p.heap c ≡ some sc) × (addr sc.node ≡ key)

abbrev pub Valid : Picker → Type 0
Valid p = (key : String) (c : ℕ) → lookup key p.sub_conns ≡ some c → Holds c key p

-- What is held stays so.
abbrev pub Keeps : Picker → Picker → Type 0
Keeps p q = (c : ℕ) (key : String) → Holds c key p → Holds c key q

pub Keeps-modify :
    (i : ℕ) (f : SubConn → SubConn) (p : Picker)
    → ((sc : SubConn) → (f sc).node ≡ sc.node)
    → Keeps p (record p { heap = modify p.heap i f })
Keeps-modify i f p same c key (sc, at, its) = elim (Bool-cases (nat_eqb i c)) [
  | inl here ↦
      (f sc, modify_at p.heap i c f at ∙ ap some (if-true (f sc) sc here), ap addr (same sc) ∙ its)
  | inr there ↦ (sc, modify_at p.heap i c f at ∙ ap some (if-false (f sc) sc there), its)
]

pub Keeps-put :
    (i : ℕ) (old sc : SubConn) (p : Picker)
    → get_elem? p.heap i ≡ some old
    → sc.node ≡ old.node
    → Keeps p (put i sc p)
Keeps-put i old sc p here same c key (found, at, its) = elim (Bool-cases (nat_eqb i c)) [
  | inl eq_c ↦
      let is_c = (int_comparable.same_iff i c).0 eq_c in
      let one = some-injective found old (sym at ∙ ap (get_elem? p.heap) (sym is_c) ∙ here) in
      (
        sc,
        modify_at p.heap i c (λ _. sc) at ∙ ap some (if-true sc found eq_c),
        ap addr (same ∙ ap (λ x. x.node) (sym one)) ∙ its,
      )
  | inr there ↦ (found, modify_at p.heap i c (λ _. sc) at ∙ ap some (if-false sc found there), its)
]

pub Valid-Keeps : (p q : Picker) → q.sub_conns ≡ p.sub_conns → Keeps p q → Valid p → Valid q
Valid-Keeps p q same keeps valid key c at =
    keeps c key (valid key c (ap (lookup key) (sym same) ∙ at))

-- The statistics of a node that is looked up, or made.
pub conn_of-Valid :
    (node : Instance) (found : Option ℕ) (p : Picker)
    → ((c : ℕ) → found ≡ some c → Holds c (addr node) p)
    → Valid p
    → Valid (conn_of node found p).1
      × Keeps p (conn_of node found p).1
      × Holds (conn_of node found p).0 (addr node) (conn_of node found p).1
unfolding conn_of
conn_of-Valid node (some c) p known valid = (valid, λ d key h. h, known c refl)
conn_of-Valid node none p known valid = (
  λ key c at.
      let now = sym (lookup-insert (addr node) key (length p.heap) p.sub_conns) ∙ at in
      elim (Bool-cases (key == addr node)) [
        | inl same ↦
            let is_c =
              some-injective (length p.heap) c
                (sym (if-true _ (lookup key p.sub_conns) same) ∙ now) in
            (
              new_sub_conn node,
              ap (get_elem? (p.heap ++ (new_sub_conn node ∷ []))) (sym is_c)
                  ∙ get_elem?_last p.heap _,
              sym ((text_comparable.same_iff key (addr node)).0 same),
            )
        | inr other ↦
            let old = valid key c (sym (if-false (some (length p.heap)) _ other) ∙ now) in
            (old.0, some_append p.heap _ c old.1, old.2)
      ],
  λ c key h. (h.0, some_append p.heap _ c h.1, h.2),
  (new_sub_conn node, get_elem?_last p.heap _, refl),
)

-- The place holds the statistics of one of the nodes.
abbrev pub Serves : List Instance → ℕ → Picker → Type 0
Serves nodes c p = (node : Instance) × Memᴰ node nodes × Holds c (addr node) p

pub Serves-Keeps :
    (nodes : List Instance) (c : ℕ) (p q : Picker) → Keeps p q → Serves nodes c p → Serves nodes c q
Serves-Keeps nodes c p q keeps (node, within, holds) = (node, within, keeps c (addr node) holds)

-- Two of the nodes have been drawn.
pub record Drawn (nodes : List Instance) (p : Picker) (got : ℕ × ℕ × Picker) : Type 0 where
  pub one : Serves nodes got.0 got.2
  pub two : Serves nodes got.1 got.2
  pub valid : Valid got.2
  pub keeps : Keeps p got.2

get_elem?-Memᴰ :
    (nodes : List Instance) (i : ℕ) {node : Instance}
    → get_elem? nodes i ≡ some node
    → Memᴰ node nodes
get_elem?-Memᴰ [] i at = absurd (cc)
get_elem?-Memᴰ (x ∷ nodes) zero at = Memᴰ.head (some-injective _ x (sym at))
get_elem?-Memᴰ (x ∷ nodes) (suc i) at = Memᴰ.tail (get_elem?-Memᴰ nodes i at)

conns_of-Drawn :
    (nodes : List Instance) (a b : Instance) (p : Picker)
    → Memᴰ a nodes
    → Memᴰ b nodes
    → Valid p
    → Drawn nodes p (conns_of a b p)
unfolding conns_of
conns_of-Drawn nodes a b p in_a in_b valid =
    let known = lookup (addr a) p.sub_conns in
    let known_b = lookup (addr b) p.sub_conns in
    let (valid_a, keeps_a, holds_a) = conn_of-Valid a known p (λ c e. valid (addr a) c e) valid in
    let q = (conn_of a known p).1 in
    let (valid_b, keeps_b, holds_b) =
      conn_of-Valid b known_b q (λ c e. keeps_a c (addr b) (valid (addr b) c e)) valid_a in
    record {
      one = (a, in_a, keeps_b (conn_of a known p).0 (addr a) holds_a);
      two = (b, in_b, holds_b);
      valid = valid_b;
      keeps = λ c key h. keeps_b c key (keeps_a c key h);
    }

-- The draws keep their bounds.
abbrev pub Bounded : (ℕ → ℕ → ℕ) → Type 0
Bounded intn = (i n : ℕ) → 0 < n → intn i n < n

other_lt : (a b n : ℕ) → a < n → b < n - 1 → other_index a b < n
other_lt a b n below_a below_b = ground arith

draw_two-Drawn :
    (intn : ℕ → ℕ → ℕ) (i : ℕ) (nodes : List Instance) (p : Picker)
    → Bounded intn
    → 1 < length nodes
    → Valid p
    → (got : ℕ × ℕ × Picker) × (draw_two intn i nodes p ≡ some got) × Drawn nodes p got
unfolding draw_two
draw_two-Drawn intn i nodes p bounded some_nodes valid =
    let n = length nodes in
    let a = intn i n in
    let below_a = bounded i n (omega arith) in
    let b = other_index a (intn (i + 1) (n - 1)) in
    let below_b =
      other_lt a (intn (i + 1) (n - 1)) n below_a (bounded (i + 1) (n - 1) (omega arith)) in
    let (node_a, at_a) = get_elem?_lt nodes a below_a in
    let (node_b, at_b) = get_elem?_lt nodes b below_b in
    (
      conns_of node_a node_b p,
      rw (draw_two, at_a) (rw (at_b) refl),
      conns_of-Drawn nodes node_a node_b p (get_elem?-Memᴰ nodes a at_a)
          (get_elem?-Memᴰ nodes b at_b) valid,
    )

pub pre_pick-Drawn :
    (intn : ℕ → ℕ → ℕ) (nodes : List Instance) (p : Picker)
    → Bounded intn
    → 1 < length nodes
    → Valid p
    → (got : ℕ × ℕ × Picker) × (pre_pick intn nodes p ≡ some got) × Drawn nodes p got
unfolding pre_pick
pre_pick-Drawn intn nodes p bounded some_nodes valid =
    let (got, is_got, drawn) = draw_two-Drawn intn 0 nodes p bounded some_nodes valid in
    let (again, is_again, drawn_again) =
      draw_two-Drawn intn 2 nodes got.2 bounded some_nodes drawn.valid in
    elim (Bool-cases (is_valid got.0 got.2 || is_valid got.1 got.2)) [
      | inl fine ↦ (got, rw (pre_pick, is_got) (if-true _ _ fine), drawn)
      | inr both_bad ↦ (
        again,
        rw (pre_pick, is_got) (if-false _ _ both_bad ∙ is_again),
        record {
          one = drawn_again.one;
          two = drawn_again.two;
          valid = drawn_again.valid;
          keeps = λ c key h. drawn_again.keeps c key (drawn.keeps c key h);
        },
      )
    ]
