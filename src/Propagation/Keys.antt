-- ===== src/Propagation/Keys.antt =====
-- client.go and server.go: the keys of the user's metadata are no keys of the system.
use Prim.Native.String.append
use text.Mathlib.TextEquality.{Char-path}
use Prim.Native.String.{◌++◌ as text_append}
use tsf_go.Base.{
  String, List, [], ◌∷◌, true, false, ◌≡◌, refl, ◌∙◌, ap, ap₂, sym, Bool-cases, inl, inr,
  has_prefix, behind, trim_prefix, text_comparable, ◌==◌, Each, arith, if-true, has_prefix-nil,
}
use tsf_go.Meta.{
  is_member, is_outgoing, is_incoming, is_user_key, user_key, get_user_key, prefix_user,
  carried_keys, link_keys,
}

behind-nil : (s : String) → behind s String.[] ≡ s
unfolding behind
behind-nil String.[] = refl
behind-nil (String.◌∷◌ c s) = refl

has_prefix-append : (p s : String) → has_prefix (text_append p s) p ≡ true
unfolding has_prefix
has_prefix-append String.[] s = has_prefix-nil (text_append String.[] s)
has_prefix-append (String.◌∷◌ c p) s =
    rw (append.cons c p s) (let later = has_prefix-append p s in ground arith)

behind-append : (p s : String) → behind (text_append p s) p ≡ s
unfolding behind
behind-append String.[] s = rw (append.nil s) (behind-nil s)
behind-append (String.◌∷◌ c p) s = rw (append.cons c p s) (behind-append p s)

-- The key of a user's key is a user key, and gives it back.
pub get_user_key-user_key : (key : String) → get_user_key (user_key key) ≡ key
unfolding get_user_key user_key trim_prefix
get_user_key-user_key key =
    if-true (behind (text_append prefix_user key) prefix_user) _ (has_prefix-append prefix_user key)
    ∙ behind-append prefix_user key

pub is_user_key-user_key : (key : String) → is_user_key (user_key key) ≡ true
unfolding is_user_key user_key
is_user_key-user_key key = has_prefix-append prefix_user key

-- A member of a list without user keys is none.
member_not :
    (key : String) (keys : List String)
    → Each (λ k. is_user_key k ≡ false) keys
    → is_member key keys ≡ true
    → is_user_key key ≡ false
unfolding is_member
member_not key [] plain e = absurd (cc)
member_not key (k ∷ keys) (here, later) e = elim (Bool-cases (key == k)) [
  | inl same ↦ ap is_user_key ((text_comparable.same_iff key k).0 same) ∙ here
  | inr other ↦ member_not key keys later (ground arith)
]

pub outgoing_plain : (key : String) → is_outgoing key ≡ true → is_user_key key ≡ false
unfolding is_outgoing is_user_key has_prefix
outgoing_plain key e = elim (Bool-cases (is_member key carried_keys)) [
  | inl carried ↦
      member_not key carried_keys (refl, (refl, (refl, (refl, (refl, (refl, (refl, (refl, tt))))))))
        carried
  | inr link ↦ member_not key link_keys (refl, tt) (ground arith)
]

pub incoming_plain : (key : String) → is_incoming key ≡ true → is_user_key key ≡ false
unfolding is_incoming is_user_key has_prefix
incoming_plain key e =
    member_not key carried_keys (refl, (refl, (refl, (refl, (refl, (refl, (refl, (refl, tt)))))))) e

append-behind : (s p : String) → has_prefix s p ≡ true → text_append p (behind s p) ≡ s
unfolding has_prefix behind
append-behind s String.[] e = append.nil (behind s String.[]) ∙ behind-nil s
append-behind String.[] (String.◌∷◌ d p) e = absurd (cc)
append-behind (String.◌∷◌ c s) (String.◌∷◌ d p) e =
    append.cons d p (behind s p)
    ∙ ap₂ String.◌∷◌ (Char-path d c (ground arith)) (append-behind s p (ground arith))

-- A user key is the key of what it gives back.
pub user_key-get_user_key :
    (key : String) → is_user_key key ≡ true → user_key (get_user_key key) ≡ key
unfolding get_user_key user_key trim_prefix is_user_key
user_key-get_user_key key e =
    ap (text_append prefix_user) (if-true (behind key prefix_user) _ e)
    ∙ append-behind key prefix_user e

empty_plain : is_user_key "" ≡ false
unfolding is_user_key has_prefix
empty_plain = refl

pub user_key_some : (key : String) → (user_key key == "") ≡ false
user_key_some key = elim (Bool-cases (user_key key == "")) [
  | inl empty ↦ absurd (
      let one = ap is_user_key ((text_comparable.same_iff (user_key key) "").0 empty) in
      let its = is_user_key-user_key key in let none_such = empty_plain in cc)
  | inr some_key ↦ some_key
]

-- The user's keys differ as their names do.
pub same_user_key : (k key : String) → (user_key k == user_key key) ≡ (k == key)
same_user_key k key = elim (Bool-cases (k == key)) [
  | inl same ↦
      (text_comparable.same_iff (user_key k) (user_key key)).1
        (ap user_key ((text_comparable.same_iff k key).0 same))
      ∙ sym same
  | inr differ ↦ elim (Bool-cases (user_key k == user_key key)) [
    | inl same ↦ absurd (
        let one =
          sym (get_user_key-user_key k)
          ∙ ap get_user_key ((text_comparable.same_iff (user_key k) (user_key key)).0 same)
          ∙ get_user_key-user_key key in
        let equal = (text_comparable.same_iff k key).1 one in cc)
    | inr other ↦ other ∙ sym differ
  ]
]
