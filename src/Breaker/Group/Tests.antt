-- ===== src/Breaker/Group/Tests.antt =====
-- A group that has no breaker yet is asked to run a call.
use tsf_go.Base.{String, [], some, ◌≡◌, ◌≢◌, refl, whole, false, lookup}
use tsf_go.Breaker.Sre.{Config, Sre, Verdict, new_sre, allow}
use tsf_go.Breaker.Group.{Group, go, runs}
use tsf_go.Breaker.Group.Names.{IsValid, breaker_of, go-breaker_of, breaker_for}

abbrev conf : Config whole
conf = record { switch_off = false; k = 1; window = 30; bucket = 3; request = 2 }

abbrev empty : Group whole
empty = record { conf = conf; brks = []; heap = [] }

empty-IsValid : IsValid whole empty
unfolding lookup
empty-IsValid = record { in_heap = tt; apart = λ key other a e e'. absurd (cc) }

made : (b : Sre whole) × (new_sre whole conf 100 ≡ some b)
unfolding new_sre
made = (_, refl)

asked : (answer : Verdict × Sre whole) × (allow whole 100 0 made.0 ≡ some answer)
unfolding allow made
asked = (_, refl)

new_breaker : breaker_for whole 100 "shop" empty ≡ some made.0
unfolding lookup
new_breaker = made.1

go-breaker_of_example :
    (g' : Group whole) × (go whole 100 0 "shop" empty ≡ some (runs whole asked.0.0, g'))
    × IsValid whole g'
    × (breaker_of whole "shop" g' ≡ some asked.0.1)
    × ((other : String) → other ≢ "shop" → breaker_of whole other g' ≡ breaker_of whole other empty)
go-breaker_of_example =
    go-breaker_of whole 100 0 "shop" made.0 asked.0 empty empty-IsValid new_breaker asked.1
