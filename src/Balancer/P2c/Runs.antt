-- ===== src/Balancer/P2c/Runs.antt =====
-- balancer/p2c/p2c.go: the counts of calls over every order of picks and of the callbacks' calls.
use tsf_go.Base.{
  ℕ, suc, ◌+◌, ◌-◌, ◌*◌, ◌^◌, ◌%◌, ◌<◌, ◌≤◌, String, List, [], ◌∷◌, Option, some, Bool, true, false,
  if◌then◌else◌, lookup, text_comparable, int_comparable, ◌==◌, length, get_elem?, modify, ◌≡◌,
  refl, ◌∙◌, ap, ap₂, sym, subst, Bool-cases, inl, inr, some-injective, if-true, if-false, nat_eqb,
  all_modify, arith, ltb, >>=-eq-some, pos, Float, max,
}
use tsf_go.Naming.{Instance}
use tsf_go.Balancer.Hash.{addr}
use tsf_go.Balancer.P2c.{
  SubConn, Picker, Callback, CallError, conn_of, pre_pick, choose, force, begin, pick, pick_of_two,
  refresh_predict, end_call, done, print_stats, reset_stats, set_reqs, call_failed, new_picker,
  load_of, times_word, to_word, penalty,
}
use tsf_go.Balancer.P2c.Outstanding.{
  Fit, AllFit, count, same_calls, Fit-refresh_predict, AllFit-modify, Fit-end_call,
}
use tsf_go.Balancer.P2c.Keeping.{
  AllFit-conn_of, AllFit-pre_pick, AllFit-choose, AllFit-force, AllFit-begin,
}

AllFit-pick_of_two :
    (intn : ℕ → ℕ → ℕ) (start : ℕ) (nodes : List Instance) (p : Picker)
    (got : Instance × Callback × Picker)
    → pick_of_two intn start nodes p ≡ some got
    → AllFit p
    → AllFit got.2
unfolding pick_of_two
AllFit-pick_of_two intn start nodes p got e all =
    let (drawn, is_drawn, e₁) = >>=-eq-some (pre_pick intn nodes p) _ e in
    let (chosen, is_chosen, e₂) = >>=-eq-some (choose start drawn.0 drawn.1 drawn.2) _ e₁ in
    let (forced, is_forced, e₃) = >>=-eq-some (force start chosen.1 chosen.2) _ e₂ in
    let all₁ = AllFit-pre_pick intn nodes p drawn is_drawn all in
    let all₂ = AllFit-choose start drawn.0 drawn.1 drawn.2 chosen is_chosen all₁ in
    let all₃ = AllFit-force start chosen.1 chosen.2 forced is_forced all₂ in
    elim (Bool-cases forced.0) [
      | inl late ↦ AllFit-begin start chosen.1 true forced.1 got (sym (if-true _ _ late) ∙ e₃) all₃
      | inr recent ↦
          AllFit-begin start chosen.0 (chosen.0 == chosen.1) forced.1 got
            (sym (if-false _ _ recent) ∙ e₃) all₃
    ]

same_picked : {x y : Instance × Callback × Picker} → some (some x) ≡ some (some y) → x ≡ y
same_picked {x} {y} e = some-injective x y (some-injective (some x) (some y) e)

AllFit-pick :
    (intn : ℕ → ℕ → ℕ) (start : ℕ) (nodes : List Instance) (p : Picker)
    (got : Instance × Callback × Picker)
    → pick intn start nodes p ≡ some (some got)
    → AllFit p
    → AllFit got.2
unfolding pick
AllFit-pick intn start [] p got e all = absurd (cc)
AllFit-pick intn start (node ∷ []) p got e all =
    let q = conn_of node (lookup (addr node) p.sub_conns) p in
    let (picked, is_picked, e₁) = >>=-eq-some (begin start q.0 false q.1) _ e in
    subst (λ (x : Instance × Callback × Picker). AllFit x.2) (same_picked e₁)
      (AllFit-begin start q.0 false q.1 picked is_picked
        (AllFit-conn_of node (lookup (addr node) p.sub_conns) p all).0)
AllFit-pick intn start (a ∷ b ∷ rest) p got e all =
    let (picked, is_picked, e₁) = >>=-eq-some (pick_of_two intn start (a ∷ b ∷ rest) p) _ e in
    subst (λ (x : Instance × Callback × Picker). AllFit x.2) (same_picked e₁)
      (AllFit-pick_of_two intn start (a ∷ b ∷ rest) p picked is_picked all)

-- A product of words that is a word.
word_product :
    (m k : ℕ)
    → 0 < m
    → m * suc k < 2 ^ 64
    → (times_word (m % 2 ^ 64) (to_word (pos (suc k))) ≡ m * suc k) × (0 < m * suc k)
word_product m k positive fits =
    let large : m ≤ m * suc k = grind arith in
    let large_k : suc k ≤ m * suc k = grind arith in
    let small : m % 2 ^ 64 ≡ m = omega arith in
    let small_k : suc k % 2 ^ 64 ≡ suc k = omega arith in
    let same : times_word (m % 2 ^ 64) (to_word (pos (suc k))) ≡ m * suc k % 2 ^ 64 =
      ap₂ (λ a b. a * b % 2 ^ 64) small small_k in
    (same ∙ omega arith, omega arith)

load_product :
    (sc : SubConn) (k : ℕ)
    → sc.inflight ≡ pos (suc k)
    → max (sc.lag + 1) sc.predict * suc k < 2 ^ 64
    → load_of sc ≡ max (sc.lag + 1) sc.predict * suc k
unfolding load_of
load_product sc k counts fits =
    let m = if ltb (sc.lag + 1) sc.predict then sc.predict else sc.lag + 1 in
    let is_max : m ≡ max (sc.lag + 1) sc.predict = ground arith in
    let (product, positive) = word_product (max (sc.lag + 1) sc.predict) k (omega arith) fits in
    let load = times_word (m % 2 ^ 64) (to_word sc.inflight) in
    let is_load : load ≡ max (sc.lag + 1) sc.predict * suc k =
      ap₂ (λ a i. times_word (a % 2 ^ 64) (to_word i)) is_max counts ∙ product in
    if-false (times_word penalty (to_word sc.inflight)) load
      (ap (λ l. nat_eqb l 0) is_load ∙ ground arith)
    ∙ is_load

module _ (fl : Float) (exp : fl.F → fl.F) where
  Fit-reset_stats :
      (n now : ℕ) (entries : List (String × ℕ)) (heap : List SubConn)
      → ((c : ℕ) (sc : SubConn) → get_elem? heap c ≡ some sc → Fit n sc)
      → (c : ℕ) (sc : SubConn) → get_elem? (reset_stats fl exp now entries heap) c ≡ some sc
      → Fit n sc
  unfolding reset_stats
  Fit-reset_stats n now [] heap all c sc at = all c sc at
  Fit-reset_stats n now (entry ∷ rest) heap all c sc at =
      let f = λ (x : SubConn). refresh_predict now (set_reqs fl exp x) in
      Fit-reset_stats n now rest (modify heap entry.1 f)
        (all_modify (Fit n) heap entry.1 f
          (λ x here.
            Fit-refresh_predict n now (set_reqs fl exp x)
              (same_calls n x (set_reqs fl exp x) refl refl (all entry.1 x here)))
          all)
        c sc at

  AllFit-done :
      (handler : Option (CallError → Bool)) (now : ℕ) (err : Option CallError) (cb : Callback)
      (sc : SubConn) (p : Picker)
      → get_elem? p.heap cb.conn ≡ some sc
      → count cb.element sc.inflights ≡ 1
      → AllFit p
      → AllFit (done fl exp handler now err cb p)
  unfolding done print_stats
  AllFit-done handler now err cb sc p at out all =
      let f = end_call fl exp now cb.start cb.element (call_failed handler err) in
      let ended =
        AllFit-modify cb.conn f p
          (λ x here fit.
            Fit-end_call fl exp p.elements now cb.start cb.element (call_failed handler err) x
              (ap (λ y. count cb.element y.inflights) (some-injective x sc (sym here ∙ at)) ∙ out)
              fit)
          all in
      elim (Bool-cases (ltb 3000000000 (now - p.log_ts))) [
        | inl late ↦
            rw (done, late, if◌then◌else◌)
              (Fit-reset_stats p.elements now p.sub_conns (modify p.heap cb.conn f) ended)
        | inr recent ↦ rw (done, recent, if◌then◌else◌) ended
      ]

  -- A step: a Pick that gives an instance, or the call of a callback whose call is out.
  pub data Step : Picker → Picker → Type 0 where
    picks :
        (intn : ℕ → ℕ → ℕ) (start : ℕ) (nodes : List Instance) (p : Picker)
        (got : Instance × Callback × Picker)
        → pick intn start nodes p ≡ some (some got)
        → Step p got.2
    dones :
        (handler : Option (CallError → Bool)) (now : ℕ) (err : Option CallError) (cb : Callback)
        (sc : SubConn) (p : Picker)
        → get_elem? p.heap cb.conn ≡ some sc
        → count cb.element sc.inflights ≡ 1
        → Step p (done fl exp handler now err cb p)

  pub data Reaches : Picker → Picker → Type 0 where
    here : (p : Picker) → Reaches p p
    steps : (a b c : Picker) → Reaches a b → Step b c → Reaches a c

  AllFit-Step : (p q : Picker) → Step p q → AllFit p → AllFit q
  AllFit-Step _ _ (picks intn start nodes p got e) all = AllFit-pick intn start nodes p got e all
  AllFit-Step _ _ (dones handler now err cb sc p at out) all =
      AllFit-done handler now err cb sc p at out all

  AllFit-Reaches : (p q : Picker) → Reaches p q → AllFit p → AllFit q
  AllFit-Reaches _ _ (here p) all = all
  AllFit-Reaches _ _ (steps a b c before step) all =
      AllFit-Step b c step (AllFit-Reaches a b before all)

  -- In every state that picks and callbacks reach, a node's `inflight` is one more than the calls that
  -- are out, so it stays positive; each of these calls has an element of its own.
  pub inflight-Reaches :
      (p : Picker) (c : ℕ) (sc : SubConn)
      → Reaches new_picker p
      → get_elem? p.heap c ≡ some sc
      → (sc.inflight ≡ pos (suc (length sc.inflights))) × ((e : ℕ) → count e sc.inflights ≤ 1)
  inflight-Reaches p c sc reached at =
      let fit = AllFit-Reaches new_picker p reached (λ d x none_there. absurd (cc)) c sc at in
      (fit.counts, fit.single)

  -- So the load is the greater of the prediction and the lag and one, times one more than the calls that
  -- are out, if that is a word: it is never 0, and the penalty for a node without statistics is never
  -- used.
  pub load_of-Reaches :
      (p : Picker) (c : ℕ) (sc : SubConn)
      → Reaches new_picker p
      → get_elem? p.heap c ≡ some sc
      → max (sc.lag + 1) sc.predict * suc (length sc.inflights) < 2 ^ 64
      → load_of sc ≡ max (sc.lag + 1) sc.predict * suc (length sc.inflights)
  unfolding load_of
  load_of-Reaches p c sc reached at fits =
      let (counts, single) = inflight-Reaches p c sc reached at in
      load_product sc (length sc.inflights) counts fits
