-- ===== src/Meta/Laws.antt =====
-- pkg/meta: what a context returns after WithUser and WithSys, and which keys travel.
use tsf_go.Base.{
  String, List, [], ◌∷◌, Option, some, lookup, insert, ◌≡◌, refl, ◌∙◌, ap, lookup-insert,
  if◌then◌else◌, ◌==◌, text_comparable, arith, ◌||◌,
}
use tsf_go.Meta.{
  Context, SysMeta, UserMeta, insert_all, with_user, with_sys, sys, user, origin_of, or_empty,
  is_link_key, is_incoming, is_outgoing,
}

-- The last value that the pairs give to a key, or the one that stood before them.
abbrev pub last_of {ℓ} : {V : Type ℓ} → String → List (String × V) → Option V → Option V
last_of key [] before = before
last_of key (p ∷ rest) before = last_of key rest (if key == p.0 then some p.1 else before)

lookup-insert_all {ℓ} :
    {V : Type ℓ} (key : String) (pairs m : List (String × V))
    → lookup key (insert_all pairs m) ≡ last_of key pairs (lookup key m)
unfolding insert_all
lookup-insert_all key [] m = refl
lookup-insert_all key (p ∷ rest) m =
    lookup-insert_all key rest (insert p.0 p.1 m)
    ∙ ap (last_of key rest) (lookup-insert p.0 key p.1 m)

-- After WithSys a key has the last value that the new pairs give it, and its old value (or none) if
-- they do not name it. The user metadata are the same as before.
pub sys-with_sys :
    (ctx : Context) (pairs : SysMeta) (key name : String)
    → (sys (with_sys ctx pairs) key ≡ last_of key pairs (sys ctx key))
      × (user (with_sys ctx pairs) name ≡ user ctx name)
unfolding sys with_sys user
sys-with_sys ctx pairs key name = (lookup-insert_all key pairs (origin_of ctx.sys_meta), refl)

-- After WithUser a key has the last value that the new pairs give it, and its old value (or the
-- empty string) if they do not name it. The system metadata are the same as before.
pub user-with_user :
    (ctx : Context) (pairs : UserMeta) (key name : String)
    → (user (with_user ctx pairs) key
        ≡ or_empty (last_of key pairs (lookup key (origin_of ctx.user_meta))))
      × (sys (with_user ctx pairs) name ≡ sys ctx name)
unfolding user with_user sys
user-with_user ctx pairs key name =
    (ap or_empty (lookup-insert_all key pairs (origin_of ctx.user_meta)), refl)

-- A key goes out exactly if it comes in or is a link key.
pub is_outgoing_lem : (key : String) → is_outgoing key ≡ (is_incoming key || is_link_key key)
unfolding is_outgoing is_incoming is_link_key
is_outgoing_lem key = ground arith
