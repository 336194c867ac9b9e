-- ===== src/Balancer/Hash/Tests.antt =====
-- Small circles, and the theorems on them.
use Prim.Native.Char.{code}
use tsf_go.Base.{
  sort, ℕ, String, [], ◌∷◌, Option, none, some, ◌≡◌, refl, ◌≢◌, ◌*◌, ◌+◌, pos, lookup,
  if◌then◌else◌, text_comparable, int_comparable,
}
use tsf_go.Naming.{Instance}
use tsf_go.Balancer.Hash.{Node, Consistent, add, set, get, pick, is_name, sort}
use tsf_go.Balancer.Hash.Circle.{IsValid, add-IsValid, set-IsValid}
use tsf_go.Balancer.Hash.Members.{first_idx, or_else, lookup-set}
use tsf_go.Base.{true}
use tsf_go.Balancer.Hash.Several.{get_two, slice_contains_member}
use tsf_go.Base.{◌⊎◌}
use tsf_go.Balancer.Hash.Stable.{get-add}
use tsf_go.Balancer.Hash.Lookup.{Next, get-Next}

unfoldable checksum : String → ℕ
checksum String.[] = 0
checksum (String.◌∷◌ c s) = code c + 3 * checksum s

abbrev empty : Consistent
empty = record {
  circle = [];
  members = [];
  sorted_hashes = [];
  number_of_replicas = 2;
  count = pos 0;
}

abbrev node_a : Node
node_a = record { name = "a"; idx = 0 }

abbrev node_b : Node
node_b = record { name = "b"; idx = 1 }

empty-IsValid : IsValid checksum empty
unfolding sort
empty-IsValid = record { owned = tt; sorted = refl }

abbrev one : Consistent
one = add checksum node_a empty

set-IsValid_example : IsValid checksum (set checksum (node_b ∷ node_a ∷ []) one)
set-IsValid_example =
    set-IsValid checksum (node_b ∷ node_a ∷ []) one
      (add-IsValid checksum node_a empty empty-IsValid)

lookup-set_example : lookup "a" (set checksum (node_b ∷ node_a ∷ []) one).members ≡ (
    if is_name "a" (node_b ∷ node_a ∷ [])
    then or_else (lookup "a" one.members) (first_idx "a" (node_b ∷ node_a ∷ []))
    else none)
lookup-set_example = lookup-set checksum "a" (node_b ∷ node_a ∷ []) one

one_not_empty : one.circle ≢ []
unfolding add checksum
one_not_empty e = cc

get-Next_example :
    (owner : String) × (get checksum "user" one ≡ some (some owner))
    × (lookup owner one.members ≢ none)
    × ((h : ℕ) × (lookup h one.circle ≡ some owner) × Next (checksum "user") one.sorted_hashes h)
get-Next_example =
    get-Next checksum "user" one (add-IsValid checksum node_a empty empty-IsValid) one_not_empty

abbrev at_port : ℕ → Instance
at_port port = record {
  service = record { namespace = ""; name = "" };
  id = "";
  region = "";
  host = "h";
  port = port;
  metadata = [];
  status = 0;
  tags = [];
}

abbrev least : ℕ → ℕ
least n = 0

abbrev picked_again : Option (Option Instance × Consistent) → Option (Option Instance × Consistent)
picked_again none = none
picked_again (some (chosen, c)) = pick checksum least (some "user") (at_port 2 ∷ []) c

-- When the first of two instances goes, the one left keeps the index 1, and the next pick with a key
-- panics: the index is out of range.
stale_index :
    picked_again (pick checksum least (some "user") (at_port 1 ∷ at_port 2 ∷ []) empty) ≡ none
unfolding pick checksum
stale_index = refl

-- With the points of one owner only, the loop of GetTwo passes the first point again and again.
abbrev crowded : Consistent
crowded = record {
  circle = (1, "a") ∷ [];
  members = ("a", 0) ∷ ("b", 1) ∷ [];
  sorted_hashes = 1 ∷ [];
  number_of_replicas = 1;
  count = pos 2;
}

no_end : get_two checksum 100 "user" crowded ≡ none
unfolding get_two checksum
no_end = refl

two_owners : slice_contains_member ("a" ∷ "b" ∷ []) "b" ≡ true
unfolding slice_contains_member
two_owners = refl

get-add_example :
    (owner owner' : String) × (get checksum "user" one ≡ some (some owner))
    × (get checksum "user" (add checksum node_b one) ≡ some (some owner'))
    × ((owner' ≡ "b") ⊎ (owner' ≡ owner))
get-add_example =
    get-add checksum "user" node_b one (add-IsValid checksum node_a empty empty-IsValid)
      one_not_empty
