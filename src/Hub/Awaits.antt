-- ===== src/Hub/Awaits.antt =====
-- Topics with watchers: what a select that waits for an event leaves behind.
use tsf_go.Base.{
  ℕ, Option, none, some, get_elem?, modify, ◌≡◌, ◌∙◌, ap, Bool-cases, inl, inr, ◌⊎◌, some-injective,
  if-true, if-false, sym, >>=-eq-some,
}
use tsf_go.Hub.{Hub, await, caller_done, watcher_done, notified, Ready, clear, is_done}

module _ {K V L : Type 0} where
  after : {x y : Option V × Hub K V L} → some x ≡ some y → y.1 ≡ x.1
  after {x} {y} e = ap (λ p. p.1) (sym (some-injective x y e))

  -- Nothing, or one watcher's event.
  pub await_cases :
      (ready : Ready) (w : ℕ) (answer : Option V) (c d : Hub K V L)
      → await ready w c ≡ some (answer, d)
      → (d ≡ c) ⊎ (d ≡ record c { watchers = modify c.watchers w clear })
  unfolding await
  await_cases caller_done w answer c d e = inl (after e)
  await_cases watcher_done w answer c d e =
      let (x, at, e₁) = >>=-eq-some (get_elem? c.watchers w) _ e in
      elim (Bool-cases (is_done x.phase)) [
        | inl done ↦ inl (after (sym (if-true _ none done) ∙ e₁))
        | inr open_ ↦ absurd (let no = sym (if-false (some (none, c)) none open_) ∙ e₁ in cc)
      ]
  await_cases notified w answer c d e =
      let (x, at, e₁) = >>=-eq-some (get_elem? c.watchers w) _ e in
      elim (Bool-cases x.event) [
        | inl full ↦ inr (after (sym (if-true _ none full) ∙ e₁))
        | inr empty ↦ absurd (let no = sym (if-false _ none empty) ∙ e₁ in cc)
      ]
