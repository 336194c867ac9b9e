-- ===== src/Breaker/Tests.antt =====
-- The breaker over a short history, and its theorems at an input that meets their hypotheses.
use tsf_go.Base.{
  List, [], ◌∷◌, none, some, true, false, ◌≡◌, refl, arith, whole, whole-IsExact, ◌>>=◌,
}
use tsf_go.Breaker.Sre.{Config, Sre, new_sre, fix, is_closed}
use tsf_go.Breaker.History.{Mark, mark_all}
use tsf_go.Breaker.Allow.{Holds, seen, summary-mark_all}
use tsf_go.Breaker.Runs.{Step, asks}
use tsf_go.Metric.Counter.{new_counter}

-- Three buckets of 10 ns; two requests are enough to open it, and k is 1.
abbrev conf : Config whole
conf = record { switch_off = false; k = 1; window = 30; bucket = 3; request = 2 }

abbrev marks : List Mark
marks =
    record { time = 112; success = false }
    ∷ record { time = 111; success = true }
    ∷ record { time = 105; success = false }
    ∷ []

defaults :
    fix whole (record { switch_off = false; k = 0; window = 0; bucket = 0; request = 0 })
    ≡ record { switch_off = false; k = 1; window = 5000000000; bucket = 10; request = 50 }
unfolding fix
defaults = refl

-- A breaker of no buckets panics when it is made.
no_buckets : new_sre whole (record conf { bucket = 0 }) 100 ≡ none
unfolding new_sre
no_buckets = refl

summary-mark_all_example :
    (b : Sre whole) × ((new_sre whole conf 100 >>= λ b0. mark_all whole marks b0) ≡ some b)
    × Holds whole whole-IsExact conf 100 marks b
    × (b.state ≡ is_closed)
summary-mark_all_example =
    summary-mark_all whole whole-IsExact conf 100 marks (omega arith) (omega arith) (omega arith)
      (omega arith)

seen_example : (seen 100 10 3 119 marks ≡ (1, 3)) × (seen 100 10 3 130 marks ≡ (1, 2))
seen_example = (refl, refl)

-- Allow opens the breaker after three marks and a failure follows; at 145 it is the only mark in the
-- window, and Allow closes the breaker again.
abbrev steps : List (Step whole whole-IsExact)
steps =
    Step.marks (record { time = 120; success = false })
    ∷ asks 119 0
    ∷ Step.marks (record { time = 112; success = false })
    ∷ Step.marks (record { time = 111; success = true })
    ∷ Step.marks (record { time = 105; success = false })
    ∷ []

abbrev fresh : Sre whole
unfolding new_sre
fresh = record {
  stat = new_counter whole (record { size = 3; bucket_duration = 10 }) 100;
  k = 1;
  request = 2;
  state = is_closed;
}
