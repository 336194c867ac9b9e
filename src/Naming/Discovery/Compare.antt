-- ===== src/Naming/Discovery/Compare.antt =====
-- naming/consul/discovery.go: what compareNodes decides.
use tsf_go.Base.{
  List, [], ◌∷◌, Bool, true, false, ◌&&◌, ◌≡◌, refl, Bool-cases, inl, inr, ◌↔◌, ◌==◌,
  text_comparable, int_comparable, length, Memᴰ, arith, subst, sym,
}
use tsf_go.Naming.Discovery.{Node, compare_node, some_equal, all_equal, compare_nodes}

-- The two nodes have the same address, id and port.
pub record SamePlace (a b : Node) : Type 0 where
  pub same_address : a.address ≡ b.address
  pub same_id : a.id ≡ b.id
  pub same_port : a.port ≡ b.port

both_true : (a b : Bool) → (a && b) ≡ true → (a ≡ true) × (b ≡ true)
both_true true b e = (refl, e)
both_true false b e = absurd (cc)

compare_node-SamePlace : (a b : Node) → compare_node a b ≡ true → SamePlace a b
unfolding compare_node
compare_node-SamePlace a b e =
    let (front, port) = both_true (a.address == b.address && a.id == b.id) (a.port == b.port) e in
    let (address, id) = both_true (a.address == b.address) (a.id == b.id) front in
    record {
      same_address = (text_comparable.same_iff a.address b.address).0 address;
      same_id = (text_comparable.same_iff a.id b.id).0 id;
      same_port = (int_comparable.same_iff a.port b.port).0 port;
    }

SamePlace-compare_node : (a b : Node) → SamePlace a b → compare_node a b ≡ true
unfolding compare_node
SamePlace-compare_node a b same =
    let address = (text_comparable.same_iff a.address b.address).1 same.same_address in
    let id = (text_comparable.same_iff a.id b.id).1 same.same_id in
    let port = (int_comparable.same_iff a.port b.port).1 same.same_port in ground arith

abbrev pub Within : Node → List Node → Type 0
Within node old = (a : Node) × Memᴰ a old × SamePlace a node

some_equal-Within : (old : List Node) (node : Node) → some_equal old node ≡ true → Within node old
unfolding some_equal
some_equal-Within [] node e = absurd (cc)
some_equal-Within (a ∷ old) node e = elim (Bool-cases (compare_node a node)) [
  | inl same ↦ (a, Memᴰ.head refl, compare_node-SamePlace a node same)
  | inr other ↦
      let (b, within, same) = some_equal-Within old node (ground arith) in
      (b, Memᴰ.tail within, same)
]

Within-some_equal :
    (old : List Node) (node a : Node) → Memᴰ a old → SamePlace a node → some_equal old node ≡ true
unfolding some_equal
Within-some_equal [] node a within same = elim within [ ]
Within-some_equal (b ∷ old) node a (Memᴰ.head e) same =
    let equal = SamePlace-compare_node b node (subst (λ c. SamePlace c node) e same) in ground arith
Within-some_equal (b ∷ old) node a (Memᴰ.tail within) same =
    let later = Within-some_equal old node a within same in ground arith

all_equal-Within :
    (old new : List Node)
    → all_equal old new ≡ true
    → (node : Node) → Memᴰ node new
    → Within node old
unfolding all_equal
all_equal-Within old [] e node within = elim within [ ]
all_equal-Within old (n ∷ new) e node (Memᴰ.head is_n) =
    subst (λ c. Within c old) (sym is_n) (some_equal-Within old n (ground arith))
all_equal-Within old (n ∷ new) e node (Memᴰ.tail within) =
    all_equal-Within old new (ground arith) node within

Within-all_equal :
    (old new : List Node)
    → ((node : Node) → Memᴰ node new → Within node old)
    → all_equal old new ≡ true
unfolding all_equal
Within-all_equal old [] h = refl
Within-all_equal old (n ∷ new) h =
    let (a, within, same) = h n (Memᴰ.head refl) in
    let here = Within-some_equal old n a within same in
    let later = Within-all_equal old new (λ node m. h node (Memᴰ.tail m)) in ground arith

-- compareNodes says true exactly if there are as many old nodes as new ones and each new node has an
-- old one with its address, id and port; the metadata are not looked at.
pub compare_nodes_iff :
    (old new : List Node)
    → (compare_nodes old new ≡ true)
      ↔ ((length old ≡ length new) × ((node : Node) → Memᴰ node new → Within node old))
unfolding compare_nodes
compare_nodes_iff old new = (
  λ e.
      let (lengths, equal) = parts e in
      (
        (int_comparable.same_iff (length old) (length new)).0 lengths,
        all_equal-Within old new equal,
      ),
  λ (lengths, within).
      let same = (int_comparable.same_iff (length old) (length new)).1 lengths in
      let equal = Within-all_equal old new within in ground arith,
)
  where
    parts :
        compare_nodes old new ≡ true
        → ((length old == length new) ≡ true) × (all_equal old new ≡ true)
    parts e = elim (Bool-cases (length old == length new)) [
      | inl same ↦ (same, ground arith)
      | inr other ↦ absurd (ground arith)
    ]

SamePlace-self : (a : Node) → SamePlace a a
SamePlace-self a = record { same_address = refl; same_id = refl; same_port = refl }

pub compare_nodes_self : (nodes : List Node) → compare_nodes nodes nodes ≡ true
compare_nodes_self nodes =
    (compare_nodes_iff nodes nodes).1 (refl, λ node within. (node, within, SamePlace-self node))
