-- ===== src/Balancer/P2c/Keeping.antt =====
-- balancer/p2c/p2c.go: Pick keeps the counts of calls in order.
use tsf_go.Base.{
  ℕ, ◌+◌, ◌-◌, List, Option, none, some, Bool, true, false, lookup, text_comparable, int_comparable,
  length, get_elem?, modify, ◌≡◌, refl, ◌∙◌, sym, subst, Bool-cases, inl, inr, some-injective,
  if-true, if-false, all_modify, of_append, arith, ltb, >>=-eq-some, ◌||◌,
}
use tsf_go.Naming.{Instance}
use tsf_go.Balancer.Hash.{addr}
use tsf_go.Balancer.P2c.{
  SubConn, Picker, Callback, new_sub_conn, conn_of, conns_of, draw_two, pre_pick, choose, force,
  begin, mark_pick, load, refresh_predict, put, set_pick, begin_call, is_valid, times_word,
  force_gap,
}
use tsf_go.Balancer.P2c.Outstanding.{
  Fit, AllFit, Fit-suc, same_calls, Fit-refresh_predict, AllFit-modify, Fit-begin_call,
}

pub AllFit-conn_of :
    (node : Instance) (found : Option ℕ) (p : Picker)
    → AllFit p
    → AllFit (conn_of node found p).1 × ((conn_of node found p).1.elements ≡ p.elements)
unfolding conn_of
AllFit-conn_of node (some c) p all = (all, refl)
AllFit-conn_of node none p all = (
  λ c sc at. elim (of_append p.heap (new_sub_conn node) c at) [
    | inl old ↦ all c sc old
    | inr new ↦
        subst (Fit p.elements) (sym new.1)
          (record { counts = refl; single = λ e. omega arith; given = λ e later. refl })
  ],
  refl,
)

AllFit-draw_two :
    (intn : ℕ → ℕ → ℕ) (i : ℕ) (nodes : List Instance) (p : Picker) (got : ℕ × ℕ × Picker)
    → draw_two intn i nodes p ≡ some got
    → AllFit p
    → AllFit got.2
unfolding draw_two conns_of
AllFit-draw_two intn i nodes p got e all =
    let (a, at_a, e₁) = >>=-eq-some (get_elem? nodes (intn i (length nodes))) _ e in
    let (b, at_b, e₂) = >>=-eq-some (get_elem? nodes _) _ e₁ in
    let q = conn_of a (lookup (addr a) p.sub_conns) p in
    let all_q = (AllFit-conn_of a (lookup (addr a) p.sub_conns) p all).0 in
    subst (λ (x : ℕ × ℕ × Picker). AllFit x.2) (some-injective _ got e₂)
      (AllFit-conn_of b (lookup (addr b) p.sub_conns) q.1 all_q).0

pub AllFit-pre_pick :
    (intn : ℕ → ℕ → ℕ) (nodes : List Instance) (p : Picker) (got : ℕ × ℕ × Picker)
    → pre_pick intn nodes p ≡ some got
    → AllFit p
    → AllFit got.2
unfolding pre_pick
AllFit-pre_pick intn nodes p got e all =
    let (one, is_one, e₁) = >>=-eq-some (draw_two intn 0 nodes p) _ e in
    let all_one = AllFit-draw_two intn 0 nodes p one is_one all in
    elim (Bool-cases (is_valid one.0 one.2 || is_valid one.1 one.2)) [
      | inl fine ↦
          subst (λ (x : ℕ × ℕ × Picker). AllFit x.2)
            (some-injective one got (sym (if-true (some one) _ fine) ∙ e₁)) all_one
      | inr bad ↦
          AllFit-draw_two intn 2 nodes one.2 got (sym (if-false (some one) _ bad) ∙ e₁) all_one
    ]

AllFit-put-load :
    (c start : ℕ) (sc : SubConn) (p : Picker)
    → get_elem? p.heap c ≡ some sc
    → AllFit p
    → AllFit (put c (load start sc).1 p)
unfolding load
AllFit-put-load c start sc p at all =
    AllFit-modify c (λ _. refresh_predict start sc) p
      (λ x here fit. Fit-refresh_predict p.elements start sc (all c sc at)) all

pub AllFit-choose :
    (start a b : ℕ) (p : Picker) (got : ℕ × ℕ × Picker)
    → choose start a b p ≡ some got
    → AllFit p
    → AllFit got.2
unfolding choose
AllFit-choose start a b p got e all =
    let (conn_a, at_a, e₁) = >>=-eq-some (get_elem? p.heap a) _ e in
    let p₁ = put a (load start conn_a).1 p in
    let all₁ = AllFit-put-load a start conn_a p at_a all in
    let (conn_b, at_b, e₂) = >>=-eq-some (get_elem? p₁.heap b) _ e₁ in
    let p₂ = put b (load start conn_b).1 p₁ in
    let all₂ = AllFit-put-load b start conn_b p₁ at_b all₁ in
    elim (Bool-cases (
      ltb (times_word (load start conn_b).0 conn_a.success)
        (times_word (load start conn_a).0 conn_b.success))) [
          | inl less ↦
              subst (λ (x : ℕ × ℕ × Picker). AllFit x.2)
                (some-injective _ got (sym (if-true (some (b, a, p₂)) _ less) ∙ e₂)) all₂
          | inr more ↦
              subst (λ (x : ℕ × ℕ × Picker). AllFit x.2)
                (some-injective _ got (sym (if-false _ (some (a, b, p₂)) more) ∙ e₂)) all₂
        ]

AllFit-set_pick :
    (c start : ℕ) (p : Picker)
    → AllFit p
    → AllFit (record p { heap = modify p.heap c (set_pick start) })
AllFit-set_pick c start p all =
    AllFit-modify c (set_pick start) p
      (λ sc at fit. same_calls p.elements sc (set_pick start sc) refl refl fit) all

pub AllFit-force :
    (start upc : ℕ) (p : Picker) (got : Bool × Picker)
    → force start upc p ≡ some got
    → AllFit p
    → AllFit got.1
unfolding force
AllFit-force start upc p got e all =
    let (sc, at, e₁) = >>=-eq-some (get_elem? p.heap upc) _ e in
    elim (Bool-cases (ltb force_gap (start - sc.pick))) [
      | inl late ↦
          subst (λ (x : Bool × Picker). AllFit x.1)
            (some-injective _ got (sym (if-true _ (some (false, p)) late) ∙ e₁))
            (AllFit-set_pick upc start p all)
      | inr recent ↦
          subst (λ (x : Bool × Picker). AllFit x.1)
            (some-injective _ got (sym (if-false _ (some (false, p)) recent) ∙ e₁)) all
    ]

AllFit-mark_pick :
    (start pc : ℕ) (switched : Bool) (p : Picker)
    → AllFit p
    → AllFit (mark_pick start pc switched p)
      × ((mark_pick start pc switched p).elements ≡ p.elements)
unfolding mark_pick
AllFit-mark_pick start pc true p all = (all, refl)
AllFit-mark_pick start pc false p all = (AllFit-set_pick pc start p all, refl)

pub AllFit-begin :
    (start pc : ℕ) (switched : Bool) (p : Picker) (got : Instance × Callback × Picker)
    → begin start pc switched p ≡ some got
    → AllFit p
    → AllFit got.2
unfolding begin
AllFit-begin start pc switched p got e all =
    let q = mark_pick start pc switched p in
    let (all_q, same) = AllFit-mark_pick start pc switched p all in
    let (sc, at, e₁) = >>=-eq-some (get_elem? q.heap pc) _ e in
    let fits = λ (c : ℕ) (x : SubConn) (at_x : get_elem? q.heap c ≡ some x).
      subst (λ n. Fit n x) same (all_q c x at_x) in
    subst (λ (x : Instance × Callback × Picker). AllFit x.2) (some-injective _ got e₁)
      (all_modify (Fit (p.elements + 1)) q.heap pc (begin_call p.elements start)
        (λ x at_x. Fit-begin_call p.elements start x (fits pc x at_x))
        (λ c x at_x. Fit-suc p.elements x (fits c x at_x)))
