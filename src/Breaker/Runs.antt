-- ===== src/Breaker/Runs.antt =====
-- A breaker over marks and calls of Allow in any order: it holds the marks.
use tsf_go.Base.{
  ℕ, ◌^◌, ◌/◌, ◌≤◌, ◌<◌, List, [], ◌∷◌, Option, some, ◌≡◌, refl, ◌∙◌, ap, sym, arith, ◌>>=◌, Float,
  IsExact, length, some-injective, >>=-eq-some,
}
use tsf_go.Breaker.Sre.{Config, Sre, State, new_sre, allow, decide}
use tsf_go.Breaker.History.{Mark, MarksInOrder, last_mark, mark, mark_all, mark_lem, event}
use tsf_go.Metric.Policy.{add_policy}
use tsf_go.Breaker.Allow.{Holds, Holds-state, seen, summary-mark_all, decide_state, decide_not_half}

module _ (fl : Float) (exact : IsExact fl) where
  open fl use {F, plus}

  -- A mark, or a call of Allow with its time and its draw.
  pub data Step : Type 0 where
    marks : Mark → Step
    asks : ℕ → F → Step

  -- The marks among the steps, newest first.
  abbrev pub marks_of : List Step → List Mark
  marks_of [] = []
  marks_of (marks k ∷ steps) = k ∷ marks_of steps
  marks_of (asks now draw ∷ steps) = marks_of steps

  -- No call of Allow is earlier than the marks before it.
  abbrev pub AsksInOrder : ℕ → List Step → Type 0
  AsksInOrder origin [] = Unit
  AsksInOrder origin (marks k ∷ steps) = AsksInOrder origin steps
  AsksInOrder origin (asks now draw ∷ steps) =
      (last_mark origin (marks_of steps) ≤ now) × AsksInOrder origin steps

  -- The breaker after the steps, the oldest of them first.
  pub run : List Step → Sre fl → Option (Sre fl)
  unfolding mark allow
  run [] b = some b
  run (marks k ∷ steps) b = run steps b >>= λ b'. mark fl k b'
  run (asks now draw ∷ steps) b =
      run steps b >>= λ b'. allow fl now draw b' >>= λ answer. some answer.1

  mark_state :
      (k : Mark) (b c : Sre fl) (state : State)
      → mark fl k b ≡ some c
      → mark fl k (record b { state = state }) ≡ some (record c { state = state })
  mark_state k b c state e =
      let (stat, added, same) =
        >>=-eq-some (add_policy plus k.time (event fl k).val b.stat) _
          (sym (mark_lem fl k b) ∙ e) in
      mark_lem fl k (record b { state = state })
      ∙ ap (λ o. o >>= λ stat. some (record b { stat = stat; state = state })) added
      ∙ ap (λ (x : Sre fl). some (record x { state = state })) (some-injective _ c same)

  fewer : (k : Mark) (ks : List Mark) → length (k ∷ ks) < 2 ^ 53 → length ks < 2 ^ 53
  fewer k ks h = omega (arith, h)

  older :
      (origin : ℕ) (k : Mark) (ks : List Mark)
      → MarksInOrder origin (k ∷ ks)
      → MarksInOrder origin ks
  older origin k [] o = tt
  older origin k (k' ∷ ks) o = o.1

  -- After any marks and calls of Allow in order the breaker holds the marks, and nothing panicked.
  pub run-Holds :
      (conf : Config fl) (origin : ℕ) (steps : List Step) (made : Sre fl)
      → 0 < conf.bucket
      → conf.bucket ≤ conf.window
      → length (marks_of steps) < 2 ^ 53
      → MarksInOrder origin (marks_of steps)
      → AsksInOrder origin steps
      → new_sre fl conf origin ≡ some made
      → (b : Sre fl) × (state : State) × (mark_all fl (marks_of steps) made ≡ some b)
        × (run steps made ≡ some (record b { state = state }))
        × Holds fl exact conf origin (marks_of steps) (record b { state = state })
  unfolding run mark_all allow
  run-Holds conf origin [] made hb hw few ordered asked is_made =
      let (b, is_b, holds, closed) = summary-mark_all fl exact conf origin [] hb hw few ordered in
      let same = sym (ap (λ o. o >>= λ b0. mark_all fl [] b0) is_made) ∙ is_b in
      (b, b.state, same, same, holds)
  run-Holds conf origin (marks k ∷ steps) made hb hw few ordered asked is_made =
      let ks = marks_of steps in
      let (b, state, all, runs, held) =
        run-Holds conf origin steps made hb hw (fewer k ks few) (older origin k ks ordered) asked
          is_made in
      let (c, is_c, holds, closed) =
        summary-mark_all fl exact conf origin (k ∷ ks) hb hw few ordered in
      let every = sym (ap (λ o. o >>= λ b0. mark_all fl (k ∷ ks) b0) is_made) ∙ is_c in
      let one = ap (λ o. o >>= λ b'. mark fl k b') (sym all) ∙ every in
      (
        c,
        state,
        every,
        ap (λ o. o >>= λ b'. mark fl k b') runs ∙ mark_state k b c state one,
        Holds-state fl exact conf origin (k ∷ ks) c state held.not_half holds,
      )
  run-Holds conf origin (asks now draw ∷ steps) made hb hw few ordered asked is_made =
      let ks = marks_of steps in
      let (b, state, all, runs, held) =
        run-Holds conf origin steps made hb hw few ordered asked.1 is_made in
      let (s, t) = seen origin (conf.window / conf.bucket) conf.bucket now ks in
      let before = record b { state = state } in
      let answer = decide fl draw s t before in
      let allowed : allow fl now draw before ≡ some answer =
        rw (held.sees now asked.0, ◌>>=◌) refl in
      let next = answer.1.state in
      (
        b,
        next,
        all,
        ap (λ o. o >>= λ b'. allow fl now draw b' >>= λ answer. some answer.1) runs
            ∙ ap (λ o. o >>= λ answer. some answer.1) allowed
            ∙ ap some (decide_state fl exact draw s t before),
        Holds-state fl exact conf origin ks before next
            (decide_not_half fl exact draw s t before held.not_half) held,
      )
