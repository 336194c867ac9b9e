-- ===== src/Balancer/Hash.antt =====
-- balancer/hash: consistent hashing. Each member has a number of points on a circle of hashes; a key
-- goes to the owner of the first point behind it. The hash function (CRC-32, or FNV if UseFnv is set)
-- is the parameter `hash`; the circle has a positive number of replicas, since the capacity test of
-- updateSortedHashes divides by it.
pub mod Circle
pub mod Members
pub mod Lookup
pub mod Several
pub mod Stable
mod Tests
use tsf_go.Base.{
  ℕ, suc, zero, String, List, [], ◌∷◌, Option, none, some, Bool, true, false, ◌==◌, text_comparable,
  int_comparable, if◌then◌else◌, ltb, leb, lookup, insert, delete, has_key, keys, sort, get_elem?,
  length, is_empty, itoa, ◌+◌, ◌-◌, ℤ, pos, sub_ℕ, pos_part, neg_part,
}
use Prim.Native.String.{◌++◌ as text_append}
use tsf_go.Naming.{Instance}

pub record Node : Type 0 where
  pub name : String
  pub idx : ℕ

pub record Consistent : Type 0 where
  pub circle : List (ℕ × String)
  pub members : List (String × ℕ)
  pub sorted_hashes : List ℕ
  pub number_of_replicas : ℕ
  pub count : ℤ

-- NewHash
unfoldable pub new_hash : Consistent
new_hash = record {
  circle = [];
  members = [];
  sorted_hashes = [];
  number_of_replicas = 100;
  count = pos 0;
}

-- Consistent.eltKey
unfoldable pub elt_key : String → ℕ → String
unfolding itoa
elt_key elt idx = text_append (itoa idx) elt

-- Consistent.updateSortedHashes
unfoldable pub update_sorted_hashes : Consistent → Consistent
unfolding sort
update_sorted_hashes c = record c { sorted_hashes = sort leb (keys c.circle) }

-- sort.Search over the hashes: the index of the first that is above the key, or their number.
unfoldable pub first_above : ℕ → List ℕ → ℕ
first_above key [] = 0
first_above key (h ∷ hs) = let later = first_above key hs in if ltb key h then 0 else suc later

-- Consistent.search
unfoldable pub search_circle : Consistent → ℕ → ℕ
unfolding first_above
search_circle c key =
    let i = first_above key c.sorted_hashes in if leb (length c.sorted_hashes) i then 0 else i

unfoldable pub is_name : String → List Node → Bool
is_name k [] = false
is_name k (v ∷ rest) = if k == v.name then true else is_name k rest

-- Consistent.Index: 0 for a name that is no member.
unfoldable pub index : Consistent → String → ℕ
unfolding lookup
index c elt = elim (lookup elt c.members) [ none ↦ 0 | some i ↦ i ]

module _ (hash : String → ℕ) where
  abbrev pub point : String → ℕ → ℕ
  point elt i = hash (elt_key elt i)

  -- The loops of add and remove over the replicas from the i-th on.
  unfoldable pub add_points : String → ℕ → ℕ → List (ℕ × String) → List (ℕ × String)
  unfolding insert elt_key
  add_points name i zero circle = circle
  add_points name i (suc left) circle =
      add_points name (suc i) left (insert (point name i) name circle)

  unfoldable pub remove_points : String → ℕ → ℕ → List (ℕ × String) → List (ℕ × String)
  unfolding delete elt_key
  remove_points name i zero circle = circle
  remove_points name i (suc left) circle =
      remove_points name (suc i) left (delete (point name i) circle)

  -- Consistent.add
  unfoldable pub add : Node → Consistent → Consistent
  unfolding add_points update_sorted_hashes insert
  add elt c =
      let with_points = record c { circle = add_points elt.name 0 c.number_of_replicas c.circle } in
      let with_member = record with_points { members = insert elt.name elt.idx c.members } in
      record (update_sorted_hashes with_member) {
        count = sub_ℕ (pos_part c.count + 1) (neg_part c.count);
      }

  -- Consistent.remove
  unfoldable pub remove : String → Consistent → Consistent
  unfolding remove_points update_sorted_hashes delete
  remove elt c =
      let less_points = record c { circle = remove_points elt 0 c.number_of_replicas c.circle } in
      let less_member = record less_points { members = delete elt c.members } in
      record (update_sorted_hashes less_member) {
        count = sub_ℕ (pos_part c.count) (neg_part c.count + 1);
      }

  -- The first loop of Set, over the members' names as they stood before.
  unfoldable pub remove_others : List Node → List String → Consistent → Consistent
  unfolding remove is_name
  remove_others elts [] c = c
  remove_others elts (k ∷ rest) c =
      remove_others elts rest (if is_name k elts then c else remove k c)

  -- The second loop of Set
  unfoldable pub add_missing : List Node → Consistent → Consistent
  unfolding add has_key
  add_missing [] c = c
  add_missing (v ∷ rest) c = add_missing rest (if has_key v.name c.members then c else add v c)

  -- Consistent.Set
  unfoldable pub set : List Node → Consistent → Consistent
  unfolding remove_others add_missing
  set elts c = add_missing elts (remove_others elts (keys c.members) c)

  -- What Consistent.Get gives: ErrEmptyCircle, a panic of an index out of range, or an element.
  unfoldable pub get : String → Consistent → Option (Option String)
  unfolding search_circle lookup
  get name c =
      if is_empty c.circle
      then some none
      else elim (get_elem? c.sorted_hashes (search_circle c (hash name))) [
        | none ↦ none
        | some h ↦ elim (lookup h c.circle) [ none ↦ some (some "") | some elt ↦ some (some elt) ]
      ]

-- Instance.Addr
unfoldable pub addr : Instance → String
unfolding itoa
addr ins = text_append ins.host (text_append ":" (itoa ins.port))

unfoldable pub to_nodes : ℕ → List Instance → List Node
unfolding addr
to_nodes i [] = []
to_nodes i (ins ∷ rest) = record { name = addr ins; idx = i } ∷ to_nodes (suc i) rest

-- What Pick gives: an instance or nil, and the circle afterwards. A panic is `none`. `draw` is
-- rand.Intn over the number of nodes.
unfoldable pub pick :
    (String → ℕ)
    → (ℕ → ℕ)
    → Option String
    → List Instance
    → Consistent
    → Option (Option Instance × Consistent)
unfolding set get index to_nodes
pick hash draw key [] c = some (none, c)
pick hash draw none (ins ∷ rest) c = elim (get_elem? (ins ∷ rest) (draw (length (ins ∷ rest)))) [
  | none ↦ none
  | some chosen ↦ some (some chosen, c)
]
pick hash draw (some key) (ins ∷ rest) c =
    let c' = set hash (to_nodes 0 (ins ∷ rest)) c in
    elim (get hash key c') [
      | none ↦ none
      | some none ↦ elim (get_elem? (ins ∷ rest) (draw (length (ins ∷ rest)))) [
        | none ↦ none
        | some chosen ↦ some (some chosen, c')
      ]
      | some (some owner) ↦ elim (get_elem? (ins ∷ rest) (index c' owner)) [
        | none ↦ none
        | some chosen ↦ some (some chosen, c')
      ]
    ]
