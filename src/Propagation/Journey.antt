-- ===== src/Propagation/Journey.antt =====
-- client.go and server.go: the user's metadata of the caller in the context of the callee.
use tsf_go.Base.{
  ℕ, String, List, ◌++◌, Option, none, some, true, lookup, text_comparable, ◌≡◌, refl, ◌∙◌, ap, sym,
  Each, some-injective, subst, Option-cases, inl, inr,
}
use tsf_go.Meta.{
  Context, Any, sys, user, with_sys, origin_of, is_outgoing, user_key, or_empty, service_name,
}
use tsf_go.Meta.Laws.{last_of, user-with_user}
use tsf_go.Propagation.{
  Env, Md, TsfMeta, name_pair, client_pairs, client_md, start_client_context, read_entries,
  start_server_context, peer_pair, server_pairs,
}
use tsf_go.Propagation.Carried.{SetsLower, Travels, client_md_last}
use tsf_go.Propagation.Delivered.{KeysOnce, or_before, last_of-lookup, Plain, entries_last}

-- `sent` are metadata of a request that give the user's keys what `md` give them.
pub record Sent (lower : String → String) (md sent : Md) : Type 0 where
  pub once : KeysOnce sent
  pub plain : Each (Plain lower) sent
  pub same : (key : String) → lookup (user_key key) sent ≡ lookup (user_key key) md

client_case :
    (set : String → String → Md → Md) (stringer : ℕ → Option String) (env : Env)
    (own_name remote operation lane : String) (ctx named : Context) (md : Md)
    → start_client_context set stringer env own_name remote operation lane ctx ≡ some (named, md)
    → (named.user_meta ≡ ctx.user_meta) × (md ≡ client_md set stringer env named)
unfolding start_client_context with_sys
client_case set stringer env own_name remote operation lane ctx named md e =
    elim (Option-cases (name_pair own_name (sys ctx service_name))) [
      | inl stops ↦ absurd (
          let run : start_client_context set stringer env own_name remote operation lane ctx
              ≡ none =
            rw (start_client_context, stops) refl in
          cc)
      | inr (names, go_on) ↦
          let on = with_sys ctx (client_pairs env remote operation lane names) in
          let run : start_client_context set stringer env own_name remote operation lane ctx
              ≡ some (on, client_md set stringer env on) =
            rw (start_client_context, go_on) refl in
          let it = some-injective _ _ (sym run ∙ e) in
          let is_named = ap (λ (p : Context × Md). p.0) it in
          (
            sym (ap (λ (c : Context). c.user_meta) is_named),
            sym (ap (λ (p : Context × Md). p.1) it) ∙ ap (client_md set stringer env) is_named,
          )
    ]

or_before-none : (o : Option String) → or_before o none ≡ o
or_before-none none = refl
or_before-none (some v) = refl

-- If the user metadata of the caller's context hold each key once, with keys that lower case leaves
-- alone and values that are not empty, and a request delivers the user keys of the metadata that
-- startClientContext makes (if it does not panic), then after startServerContext a user key has the
-- caller's value, or the one of the callee's context (or the empty string) if the caller has none.
-- Metadata.Set keeps lower case keys with values that are not empty, and the system's keys are in
-- lower case; the request has lower case keys, each once, values that are not empty and no tags.
pub start_server_context-start_client_context :
    (lower : String → String) (set : String → String → Md → Md) (stringer : ℕ → Option String)
    (read_tsf read_atom : String → TsfMeta) (read_tags : String → List (String × Any))
    (env far : Env) (own_name remote operation lane his_name method his_operation addr : String)
    (peer : Option String) (ctx named callee : Context) (md sent : Md) (key : String)
    → SetsLower lower set
    → ((out : String) → is_outgoing out ≡ true → lower out ≡ out)
    → KeysOnce (origin_of ctx.user_meta)
    → Each (Travels lower) (origin_of ctx.user_meta)
    → start_client_context set stringer env own_name remote operation lane ctx ≡ some (named, md)
    → Sent lower md sent
    → user
        (start_server_context lower read_tsf read_atom read_tags far his_name method his_operation
          addr peer sent callee)
        key
      ≡ or_empty (
          or_before
            (lookup key (origin_of ctx.user_meta))
            (lookup key (origin_of callee.user_meta)))
unfolding start_server_context with_sys
start_server_context-start_client_context lower set stringer read_tsf read_atom read_tags env far
      own_name remote operation lane his_name method his_operation addr peer ctx named callee md
      sent key sets plain once travel started goes =
    let (users, is_md) =
      client_case set stringer env own_name remote operation lane ctx named md started in
    let before = lookup key (origin_of callee.user_meta) in
    let travel_on = subst (λ u. Each (Travels lower) (origin_of u)) (sym users) travel in
    let found =
      goes.same key
      ∙ ap (lookup (user_key key)) is_md
      ∙ client_md_last lower set sets stringer env named key plain travel_on
      ∙ ap (λ u. last_of key (origin_of u) none) users
      ∙ last_of-lookup key (origin_of ctx.user_meta) none once
      ∙ or_before-none (lookup key (origin_of ctx.user_meta)) in
    (user-with_user
      (with_sys callee (
        (read_entries lower read_tsf read_atom read_tags sent).0
        ++ (peer_pair lower read_tsf read_atom read_tags peer
            ++ server_pairs lower read_tsf read_atom read_tags far his_name method his_operation
                addr)))
      (read_entries lower read_tsf read_atom read_tags sent).1 key key).0
    ∙ ap or_empty (
        entries_last lower read_tsf read_atom read_tags key sent before goes.plain
        ∙ last_of-lookup (user_key key) sent before goes.once
        ∙ ap (λ o. or_before o before) found)
