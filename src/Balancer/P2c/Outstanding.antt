-- ===== src/Balancer/P2c/Outstanding.antt =====
-- balancer/p2c/p2c.go: the counts of calls that have not come back.
use tsf_go.Base.{
  ℕ, suc, ◌+◌, ◌-◌, ◌≤◌, List, [], ◌∷◌, ◌++◌, some, Bool, if◌then◌else◌, text_comparable,
  int_comparable, ◌==◌, length, get_elem?, modify, ◌≡◌, refl, ◌∙◌, ap, sym, subst, Bool-cases, inl,
  inr, if-true, if-false, all_modify, length-append, arith, ltb, pos, Float,
}
use tsf_go.Balancer.P2c.{
  SubConn, Inflight, Picker, refresh_predict, begin_call, end_call, without, add_one, sub_one,
}

-- How often an element stands in a list of calls.
abbrev pub count : ℕ → List Inflight → ℕ
count e [] = 0
count e (call ∷ calls) = let later = count e calls in if call.element == e then suc later else later

count-append : (e : ℕ) (xs ys : List Inflight) → count e (xs ++ ys) ≡ count e xs + count e ys
count-append e [] ys = omega arith
count-append e (call ∷ xs) ys = let later = count-append e xs ys in ground arith

length-without :
    (e : ℕ) (calls : List Inflight) → length (without e calls) + count e calls ≡ length calls
length-without e [] = refl
length-without e (call ∷ calls) = let later = length-without e calls in ground arith

count-without : (d e : ℕ) (calls : List Inflight) → count d (without e calls) ≤ count d calls
count-without d e [] = omega arith
count-without d e (call ∷ calls) = let later = count-without d e calls in ground arith

-- The statistics count one more than the calls that are out, and each of these has its own element,
-- of those that were given so far.
pub record Fit (n : ℕ) (sc : SubConn) : Type 0 where
  pub counts : sc.inflight ≡ pos (suc (length sc.inflights))
  pub single : (e : ℕ) → count e sc.inflights ≤ 1
  pub given : (e : ℕ) → n ≤ e → count e sc.inflights ≡ 0

abbrev pub AllFit : Picker → Type 0
AllFit p = (c : ℕ) (sc : SubConn) → get_elem? p.heap c ≡ some sc → Fit p.elements sc

pub Fit-suc : (n : ℕ) (sc : SubConn) → Fit n sc → Fit (n + 1) sc
Fit-suc n sc fit = record {
  counts = fit.counts;
  single = fit.single;
  given = λ e later. fit.given e (omega arith);
}

-- A change that keeps the calls.
pub same_calls :
    (n : ℕ) (sc next : SubConn)
    → next.inflight ≡ sc.inflight
    → next.inflights ≡ sc.inflights
    → Fit n sc
    → Fit n next
same_calls n sc next same calls fit = record {
  counts = same ∙ fit.counts ∙ ap (λ cs. pos (suc (length cs))) (sym calls);
  single = λ e. subst (λ cs. count e cs ≤ 1) (sym calls) (fit.single e);
  given = λ e later. ap (count e) calls ∙ fit.given e later;
}

pub Fit-refresh_predict : (n now : ℕ) (sc : SubConn) → Fit n sc → Fit n (refresh_predict now sc)
unfolding refresh_predict
Fit-refresh_predict n now sc fit = elim (Bool-cases (ltb 10000000 (now - sc.predict_ts))) [
  | inl old ↦ rw (refresh_predict, old, if◌then◌else◌) (same_calls n sc _ refl refl fit)
  | inr fresh ↦ rw (refresh_predict, fresh, if◌then◌else◌) fit
]

pub AllFit-modify :
    (i : ℕ) (f : SubConn → SubConn) (p : Picker)
    → ((sc : SubConn) → get_elem? p.heap i ≡ some sc → Fit p.elements sc → Fit p.elements (f sc))
    → AllFit p
    → AllFit (record p { heap = modify p.heap i f })
AllFit-modify i f p keeps all =
    all_modify (Fit p.elements) p.heap i f (λ sc at. keeps sc at (all i sc at)) all

abbrev call_of : ℕ → ℕ → Inflight
call_of n start = record { element = n; started = start }

-- A new call's element was in no list.
count_new :
    (n start e : ℕ) (calls : List Inflight)
    → count e calls ≤ 1
    → (n ≤ e → count e calls ≡ 0)
    → count e (calls ++ (call_of n start ∷ [])) ≤ 1
count_new n start e calls single given =
    let sum = count-append e calls (call_of n start ∷ []) in
    elim (Bool-cases (n == e)) [
      | inl same ↦
          let is_e = (int_comparable.same_iff n e).0 same in
          let none_before = given (omega arith) in
          let one : count e (call_of n start ∷ []) ≡ 1 = if-true 1 0 same in omega arith
      | inr other ↦
          let no_more : count e (call_of n start ∷ []) ≡ 0 = if-false 1 0 other in omega arith
    ]

count_later :
    (n start e : ℕ) (calls : List Inflight)
    → n + 1 ≤ e
    → count e calls ≡ 0
    → count e (calls ++ (call_of n start ∷ [])) ≡ 0
count_later n start e calls later nothing =
    let sum = count-append e calls (call_of n start ∷ []) in
    elim (Bool-cases (n == e)) [
      | inl same ↦ absurd (let is_e = (int_comparable.same_iff n e).0 same in omega arith)
      | inr other ↦
          let no_more : count e (call_of n start ∷ []) ≡ 0 = if-false 1 0 other in omega arith
    ]

length_new :
    (n start : ℕ) (calls : List Inflight)
    → suc (suc (length calls)) ≡ suc (length (calls ++ (call_of n start ∷ [])))
length_new n start calls =
    let sum = length-append calls (call_of n start ∷ []) in
    let one : length (call_of n start ∷ []) ≡ 1 = refl in omega arith

pub Fit-begin_call : (n start : ℕ) (sc : SubConn) → Fit n sc → Fit (n + 1) (begin_call n start sc)
Fit-begin_call n start sc fit = record {
  counts = ap add_one fit.counts ∙ ap pos (length_new n start sc.inflights);
  single = λ e. count_new n start e sc.inflights (fit.single e) (fit.given e);
  given = λ e later. count_later n start e sc.inflights later (fit.given e (omega arith));
}

-- The end of a call that is out.
pub Fit-end_call :
    (fl : Float) (exp : fl.F → fl.F) (n now start e : ℕ) (failed : Bool) (sc : SubConn)
    → count e sc.inflights ≡ 1
    → Fit n sc
    → Fit n (end_call fl exp now start e failed sc)
unfolding end_call
Fit-end_call fl exp n now start e failed sc out fit = record {
  counts = ap sub_one fit.counts ∙ ap pos (one_less e sc.inflights out);
  single = λ d. let fewer = count-without d e sc.inflights in let old = fit.single d in omega arith;
  given = λ d later.
      let fewer = count-without d e sc.inflights in let old = fit.given d later in omega arith;
}
  where
    one_less :
        (e : ℕ) (calls : List Inflight)
        → count e calls ≡ 1
        → length calls ≡ suc (length (without e calls))
    one_less e calls out = let sum = length-without e calls in omega arith
