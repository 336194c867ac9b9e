-- ===== src/Naming/Discovery/Clients.antt =====
-- naming/consul/discovery.go: what a client sees of Watch, of a round and of Next.
use tsf_go.Base.{
  ℕ, String, List, none, some, true, false, text_comparable, int_comparable, get_elem?, ◌≡◌, ◌≢◌,
  Bool-cases, inl, inr, ap, ◌∙◌, if-true, if-false, same_self, is_empty, modify_at, ℤ, arith,
}
use tsf_go.Hub.{held}
use tsf_go.Naming.{service_comparable}
use tsf_go.Naming.Discovery.{
  Discovery, SvcInfo, Node, Gathered, next, round, has_news, instances, compare_nodes,
}
use tsf_go.Naming.Discovery.Rounds.{Looping, rounded, round_topics}
use tsf_go.Naming.Discovery.Compare.{compare_nodes_self}

no_news :
    (last : List Node) (index : ℤ) (got : Gathered (List Node))
    → has_news last index got ≡ false
    → is_empty got.nodes ≡ false
    → compare_nodes last got.nodes ≡ true
unfolding has_news
no_news last index got same some_node = ground arith

module _ (own : String) (show_tags : List String → String) where
  rounded_shown :
      (got : Gathered (List Node)) (last : List Node) (index : ℤ) (retries : ℕ) (svc : SvcInfo)
      → Looping own show_tags svc
      → svc.loop ≡ next last index retries
      → svc.spec ≢ none
      → got.err ≡ false
      → is_empty got.nodes ≡ false
      → (nodes : List Node) × (compare_nodes nodes got.nodes ≡ true)
        × ((rounded own show_tags got (next last index retries) svc).spec
            ≡ some (instances own show_tags nodes))
  rounded_shown got last index retries svc looping in_loop holds good some_node =
      elim (Bool-cases (has_news last index got)) [
        | inl news ↦ (
          got.nodes,
          compare_nodes_self got.nodes,
          ap (λ (x : SvcInfo). x.spec) (if-false _ _ good ∙ if-true _ _ news),
        )
        | inr same ↦ (
          last,
          no_news last index got same some_node,
          ap (λ (x : SvcInfo). x.spec) (if-false _ _ good ∙ if-false _ _ same)
              ∙ elim (looping.shown last index retries in_loop) [
                | inl nothing ↦ absurd (holds nothing)
                | inr shows ↦ shows
              ],
        )
      ]

  -- After a round without an error that got nodes, a service that holds instances holds those of nodes
  -- that compareNodes finds equal to the ones that it got.
  pub round-compare_nodes :
      (t : ℕ) (got : Gathered (List Node)) (last : List Node) (index : ℤ) (retries : ℕ)
      (svc : SvcInfo) (c : Discovery)
      → get_elem? c.topics t ≡ some svc
      → Looping own show_tags svc
      → svc.loop ≡ next last index retries
      → svc.spec ≢ none
      → got.err ≡ false
      → is_empty got.nodes ≡ false
      → (nodes : List Node) × (compare_nodes nodes got.nodes ≡ true)
        × (held (get_elem? (round own show_tags t got svc.loop c).topics t)
            ≡ some (instances own show_tags nodes))
  round-compare_nodes t got last index retries svc c at looping in_loop holds good some_node =
      let (nodes, equal, shows) =
        rounded_shown got last index retries svc looping in_loop holds good some_node in
      (
        nodes,
        equal,
        ap (λ l. held (get_elem? l t)) (round_topics own show_tags t got svc.loop c)
            ∙ ap held (
                modify_at c.topics t t (rounded own show_tags got svc.loop) at
                ∙ ap some (if-true _ svc (same_self t)))
            ∙ ap (λ l. (rounded own show_tags got l svc).spec) in_loop
            ∙ shows,
      )
