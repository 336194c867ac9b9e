-- ===== src/Breaker/Group.antt =====
-- breaker/breaker.go: a group holds a breaker for each name, made when it is first asked for. The
-- breakers stand on a heap, since the callers of Get keep pointers to them; a breaker that Reload
-- drops stays there. Each method is one step.
pub mod Names
mod Tests
use tsf_go.Base.{
  ℕ, String, List, [], ◌∷◌, ◌++◌, Option, none, some, Bool, true, false, ◌≡◌, ◌>>=◌, Float, lookup,
  insert, text_comparable, length, get_elem?, modify,
}
use tsf_go.Breaker.Sre.{Config, Sre, Verdict, allowed, unavailable, fix, new_sre, allow}

module _ (fl : Float) where
  open fl use {F}

  -- A group, and the heap of all breakers.
  pub record Group : Type 0 where
    pub conf : Config fl
    pub brks : List (String × ℕ)
    pub heap : List (Sre fl)

  -- NewGroup: without a configuration it takes the package's, as it is.
  unfoldable pub new_group : Config fl → Option (Config fl) → List (Sre fl) → Group
  unfolding fix
  new_group default none heap = record { conf = default; brks = []; heap = heap }
  new_group default (some conf) heap = record { conf = fix fl conf; brks = []; heap = heap }

  -- Get of a name that the group has, or has not.
  unfoldable pub get_or_make : ℕ → String → Option ℕ → Group → Option (ℕ × Group)
  unfolding insert
  get_or_make now key (some a) g = some (a, g)
  get_or_make now key none g = new_sre fl g.conf now >>= λ b. some (
    length g.heap,
    record g { brks = insert key (length g.heap) g.brks; heap = g.heap ++ (b ∷ []) },
  )

  -- Group.Get: the address of the breaker.
  unfoldable pub get : ℕ → String → Group → Option (ℕ × Group)
  unfolding get_or_make lookup
  get now key g = get_or_make now key (lookup key g.brks) g

  -- Group.Reload
  unfoldable pub reload : Option (Config fl) → Group → Group
  unfolding fix
  reload none g = g
  reload (some conf) g = record g { conf = fix fl conf; brks = [] }

  abbrev pub runs : Verdict → Bool
  runs allowed = true
  runs unavailable = false

  -- Group.Go: whether it runs the function, or the fallback. Neither is marked.
  unfoldable pub go : ℕ → F → String → Group → Option (Bool × Group)
  unfolding get
  go now draw key g = get now key g >>= λ got. get_elem? got.1.heap got.0 >>= λ b.
      allow fl now draw b >>= λ answer.
      some (runs answer.0, record got.1 { heap = modify got.1.heap got.0 (λ _. answer.1) })
