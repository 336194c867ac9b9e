-- ===== src/Route/Router/Pick.antt =====
-- The loop of matchByRule that finds the candidate of a draw.
use tsf_go.Base.{
  ℕ, List, [], ◌∷◌, ◌++◌, some, ◌≡◌, refl, ◌+◌, ◌-◌, ◌≤◌, ◌<◌, leb, if◌then◌else◌, Bool-cases,
  arith, Permᴰ, String, inl, inr, ap, ◌∙◌,
}
use tsf_go.Naming.{Instance}
use tsf_go.Route.Router.{Candidate, Candidates, pick}

-- The total of the candidates' weights.
abbrev pub total : Candidates → ℕ
total [] = 0
total (entry ∷ rest) = entry.1.weight + total rest

-- The candidate of a draw: the totals of the entries behind it and from it on enclose the draw, so
-- that as many draws choose it as its weight says.
pub record Drawn (cur : ℕ) (candidates : Candidates) (inss : List Instance) : Type 0 where
  pub before : Candidates
  pub chosen : String × Candidate
  pub after : Candidates
  pub split : candidates ≡ (before ++ (chosen ∷ after))
  pub from : total after ≤ cur
  pub below : cur < chosen.1.weight + total after
  pub inss_eq : inss ≡ chosen.1.inss

pub total-Permᴰ : (xs ys : Candidates) → Permᴰ xs ys → total xs ≡ total ys
total-Permᴰ xs ys Permᴰ.nil = refl
total-Permᴰ xs ys (Permᴰ.cons {a} {b} {l₁} {l₂} e d) =
    let later = total-Permᴰ l₁ l₂ d in let w = ap (λ c. c.1.weight) e in omega arith
total-Permᴰ xs ys (Permᴰ.swap e₁ e₂) =
    let w = ap (λ c. c.1.weight) e₁ in let w' = ap (λ c. c.1.weight) e₂ in omega arith
total-Permᴰ xs ys (Permᴰ.trans {l₂ = l₂} d₁ d₂) = total-Permᴰ xs l₂ d₁ ∙ total-Permᴰ l₂ ys d₂

later-Drawn :
    (cur : ℕ) (entry : String × Candidate) (rest : Candidates) (inss : List Instance)
    → Drawn cur rest inss
    → Drawn cur (entry ∷ rest) inss
later-Drawn cur entry rest inss d = record {
  before = entry ∷ d.before;
  chosen = d.chosen;
  after = d.after;
  split = ap (λ l. entry ∷ l) d.split;
  from = d.from;
  below = d.below;
  inss_eq = d.inss_eq;
}

-- The loop over candidates whose weights sum up to more than the draw finds the candidate of the draw.
pub pick-Drawn :
    (sum cur : ℕ) (candidates : Candidates)
    → sum ≡ total candidates
    → cur < sum
    → (inss : List Instance) × (pick sum cur candidates ≡ some inss) × Drawn cur candidates inss
unfolding pick
pick-Drawn sum cur [] e h = absurd (omega arith)
pick-Drawn sum cur (entry ∷ rest) e h = elim (Bool-cases (leb (sum - entry.1.weight) cur)) [
  | inl found ↦
      rw (found, if◌then◌else◌)
        (
          entry.1.inss,
          refl,
          record {
            before = [];
            chosen = entry;
            after = rest;
            split = refl;
            from = ground arith;
            below = omega arith;
            inss_eq = refl;
          },
        )
  | inr on ↦
      let smaller : cur < sum - entry.1.weight = ground arith in
      let later = pick-Drawn (sum - entry.1.weight) cur rest (omega arith) smaller in
      rw (on, if◌then◌else◌) (later.0, later.1, later-Drawn cur entry rest later.0 later.2)
]
