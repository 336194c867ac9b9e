-- ===== src/Propagation/Carried.antt =====
-- client.go and server.go: the user's metadata of the caller are those of the callee.
use tsf_go.Base.{
  ℕ, String, [], ◌∷◌, Option, none, some, true, false, if◌then◌else◌, ◌||◌, lookup, text_comparable,
  ◌==◌, ◌≡◌, refl, ◌∙◌, ap, Bool-cases, inl, inr, if-true, if-false, Option-cases, Each, arith,
}
use tsf_go.Meta.{
  Context, Any, text, other, SysMeta, UserMeta, range_user, range_sys, range_entries, origin_of,
  is_outgoing, is_user_key, user_key, group_id, service_namespace, application_id,
  application_version,
}
use tsf_go.Meta.Laws.{last_of}
use tsf_go.Propagation.{Env, Md, carry_user, carry_sys, client_md}
use tsf_go.Propagation.Keys.{is_user_key-user_key, outgoing_plain, same_user_key, user_key_some}

-- kratos's Metadata.Set: nothing for an empty key or value, and the key in lower case.
abbrev pub SetsLower : (String → String) → (String → String → Md → Md) → Type 0
SetsLower lower set =
    (k key v : String) (md : Md)
    → lookup k (set key v md) ≡ (
        if key == "" || v == ""
        then lookup k md
        else if k == lower key
        then some v
        else lookup k md)

-- A pair of the user that travels: its key in lower case, its value not empty.
abbrev pub Travels : (String → String) → String × String → Type 0
Travels lower e = (lower (user_key e.0) ≡ user_key e.0) × ((e.1 == "") ≡ false)

module _ (lower : String → String) (set : String → String → Md → Md)
    (sets : SetsLower lower set) where
  -- Set of another key.
  set_other :
      (k key v : String) (md : Md)
      → (k == lower key) ≡ false
      → lookup k (set key v md) ≡ lookup k md
  set_other k key v md differs = sets k key v md ∙ ground arith

  -- Keys that go out stay as they are, and are no user keys.
  outgoing_other :
      (key out : String)
      → is_outgoing out ≡ true
      → lower out ≡ out
      → (user_key key == lower out) ≡ false
  outgoing_other key out goes same = elim (Bool-cases (user_key key == lower out)) [
    | inl equal ↦ absurd (
        let one = (text_comparable.same_iff (user_key key) (lower out)).0 equal ∙ same in
        let plain = ap is_user_key one ∙ outgoing_plain out goes in
        let its = is_user_key-user_key key in cc)
    | inr differ ↦ differ
  ]

  carry_text_other :
      (stringer : ℕ → Option String) (key name s : String) (md : Md)
      → ((out : String) → is_outgoing out ≡ true → lower out ≡ out)
      → lookup (user_key key) (carry_sys set stringer name (text s) md) ≡ lookup (user_key key) md
  unfolding carry_sys
  carry_text_other stringer key name s md plain = elim (Bool-cases (is_outgoing name)) [
    | inl goes ↦
        ap (lookup (user_key key)) (if-true (set name s md) md goes)
        ∙ set_other (user_key key) name s md (outgoing_other key name goes (plain name goes))
    | inr stays ↦ ap (lookup (user_key key)) (if-false (set name s md) md stays)
  ]

  carry_sys_other :
      (stringer : ℕ → Option String) (key name : String) (value : Any) (md : Md)
      → ((out : String) → is_outgoing out ≡ true → lower out ≡ out)
      → lookup (user_key key) (carry_sys set stringer name value md) ≡ lookup (user_key key) md
  unfolding carry_sys
  carry_sys_other stringer key name (text s) md plain =
      carry_text_other stringer key name s md plain
  carry_sys_other stringer key name (other n) md plain = elim (Option-cases (stringer n)) [
    | inl nothing ↦ rw nothing (ground arith)
    | inr (s, it) ↦ rw it (carry_text_other stringer key name s md plain)
  ]

  range_sys_other :
      (stringer : ℕ → Option String) (key : String) (entries : SysMeta) (md : Md)
      → ((out : String) → is_outgoing out ≡ true → lower out ≡ out)
      → lookup (user_key key) (range_entries {V = Any} {S = Md} (carry_sys set stringer) entries md)
        ≡ lookup (user_key key) md
  unfolding range_entries
  range_sys_other stringer key [] md plain = refl
  range_sys_other stringer key (e ∷ rest) md plain =
      range_sys_other stringer key rest (carry_sys set stringer e.0 e.1 md) plain
      ∙ carry_sys_other stringer key e.0 e.1 md plain

  carried_value :
      (key : String) (e : String × String) (md : Md)
      → lower (user_key e.0) ≡ user_key e.0
      → (e.1 == "") ≡ false
      → (if user_key e.0 == "" || e.1 == ""
          then lookup (user_key key) md
          else if user_key key == lower (user_key e.0)
          then some e.1
          else lookup (user_key key) md)
        ≡ (if key == e.0 then some e.1 else lookup (user_key key) md)
  carried_value key e md fixed some_value =
      rw fixed (rw (same_user_key key e.0) (let named = user_key_some e.0 in ground arith))

  -- The user's pairs as they are carried.
  range_user_last :
      (stringer : ℕ → Option String) (key : String) (entries : UserMeta) (md : Md)
      → Each (Travels lower) entries
      → lookup
          (user_key key)
          (range_entries {V = String} {S = Md} (carry_user set stringer) entries md)
        ≡ last_of key entries (lookup (user_key key) md)
  unfolding range_entries
  range_user_last stringer key [] md travel = refl
  range_user_last stringer key (e ∷ rest) md ((fixed, some_value), later) =
      range_user_last stringer key rest (set (user_key e.0) e.1 md) later
      ∙ ap (last_of key rest)
          (sets (user_key key) (user_key e.0) e.1 md ∙ carried_value key e md fixed some_value)

  -- Of a user's key the metadata of the client have the last value in the context.
  pub client_md_last :
      (stringer : ℕ → Option String) (env : Env) (ctx : Context) (key : String)
      → ((out : String) → is_outgoing out ≡ true → lower out ≡ out)
      → Each (Travels lower) (origin_of ctx.user_meta)
      → lookup (user_key key) (client_md set stringer env ctx)
        ≡ last_of key (origin_of ctx.user_meta) none
  unfolding client_md range_user range_sys is_outgoing lookup
  client_md_last stringer env ctx key plain travel =
      let keep = λ (out v : String) (md : Md) (goes : is_outgoing out ≡ true).
        set_other (user_key key) out v md (outgoing_other key out goes (plain out goes)) in
      let users =
        range_entries {V = String} {S = Md} (carry_user set stringer) (origin_of ctx.user_meta)
          [] in
      let all =
        range_entries {V = Any} {S = Md} (carry_sys set stringer) (origin_of ctx.sys_meta) users in
      let first = set group_id env.group all in
      let second = set service_namespace env.own_namespace first in
      let third = set application_id env.application second in
      keep application_version env.version third refl
      ∙ keep application_id env.application second refl
      ∙ keep service_namespace env.own_namespace first refl
      ∙ keep group_id env.group all refl
      ∙ range_sys_other stringer key (origin_of ctx.sys_meta) users plain
      ∙ range_user_last stringer key (origin_of ctx.user_meta) [] travel
