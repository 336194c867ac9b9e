-- ===== src/Balancer/P2c/Choice.antt =====
-- balancer/p2c/p2c.go: which of the two nodes is chosen.
use tsf_go.Base.{
  ℕ, ◌*◌, ◌^◌, ◌<◌, ◌≤◌, some, get_elem?, ◌≡◌, ◌≢◌, ◌⊎◌, ◌∙◌, Bool-cases, inl, inr, if-true,
  if-false, arith, ltb, modify_other,
}
use tsf_go.Balancer.P2c.{SubConn, Picker, choose, load, put, times_word}

-- Of two different nodes, whose products of load and health are words, the chosen one stands first, and
-- the products say that its load for its health is not greater than the other one's; the first of the
-- draw is chosen if they are equal.
pub choose_lem :
    (start a b : ℕ) (conn_a conn_b : SubConn) (p : Picker)
    → a ≢ b
    → get_elem? p.heap a ≡ some conn_a
    → get_elem? p.heap b ≡ some conn_b
    → (load start conn_a).0 * conn_b.success < 2 ^ 64
    → (load start conn_b).0 * conn_a.success < 2 ^ 64
    → (q : Picker) × (((choose start a b p ≡ some (a, b, q))
          × ((load start conn_a).0 * conn_b.success ≤ (load start conn_b).0 * conn_a.success))
        ⊎ ((choose start a b p ≡ some (b, a, q))
            × ((load start conn_b).0 * conn_a.success < (load start conn_a).0 * conn_b.success)))
unfolding choose
choose_lem start a b conn_a conn_b p differ at_a at_b fits_a fits_b =
    let load_a = load start conn_a in
    let load_b = load start conn_b in
    let p₁ = put a load_a.1 p in
    let at₁ = modify_other p.heap a b (λ _. load_a.1) differ ∙ at_b in
    let p₂ = put b load_b.1 p₁ in
    let word_a : times_word load_a.0 conn_b.success ≡ load_a.0 * conn_b.success = omega arith in
    let word_b : times_word load_b.0 conn_a.success ≡ load_b.0 * conn_a.success = omega arith in
    elim (Bool-cases
      (ltb (times_word load_b.0 conn_a.success) (times_word load_a.0 conn_b.success))) [
        | inl less ↦ (p₂, inr (rw (choose, at_a) (rw (at₁) (if-true _ _ less)), ground arith))
        | inr more ↦ (p₂, inl (rw (choose, at_a) (rw (at₁) (if-false _ _ more)), ground arith))
      ]
