-- ===== src/Metric/Events.antt =====
-- What a rolling counter remembers: the adds of the last `size` bucket durations, and no others.
use tsf_go.Base.{
  ℕ, zero, suc, ◌+◌, ◌-◌, ◌/◌, ◌≤◌, ◌<◌, min, List, [], ◌∷◌, ◌++◌, ◌≡◌, refl, sym, ap, ◌∙◌, arith,
  length, drop, replicate, ltb, if◌then◌else◌, drop-drop, drop-nil,
}
use tsf_go.Metric.Ring.{Slot, no_slot}
use tsf_go.Metric.Roll.{expire}
use tsf_go.Metric.Refine.{at_last}

-- One call of Add: when, and what.
pub record Event (A : Type 0) : Type 0 where
  pub time : ℕ
  pub val : A

-- The number of whole bucket durations from `origin` to `now`.
abbrev pub tick : ℕ → ℕ → ℕ → ℕ
tick origin duration now = (now - origin) / duration

-- A slot's weight, and how an add changes it as long as it stays below a limit.
pub record Weight {A : Type 0} (g : A → Slot A → Slot A) : Type 1 where
  pub of_slot : Slot A → ℕ
  pub of_val : A → ℕ
  pub limit : ℕ
  pub Fine : A → Type 0
  pub Good : Slot A → Type 0
  pub none_good : Good no_slot
  pub none_weighs : of_slot no_slot ≡ 0
  pub added_good :
      (val : A) (s : Slot A) → Fine val → of_slot s + of_val val < limit → Good s → Good (g val s)
  pub added_weighs :
      (val : A) (s : Slot A)
      → Fine val
      → of_slot s + of_val val < limit
      → Good s
      → of_slot (g val s) ≡ of_slot s + of_val val

module _ {A : Type 0} {g : A → Slot A → Slot A} (m : Weight g) where
  open m use {of_slot, of_val, limit, Fine, Good, none_good, none_weighs, added_good, added_weighs}

  abbrev pub total : List (Slot A) → ℕ
  total [] = 0
  total (s ∷ rest) = of_slot s + total rest

  abbrev pub AllGood : List (Slot A) → Type 0
  AllGood [] = Unit {0}
  AllGood (s ∷ rest) = Good s × AllGood rest

  -- The weight of the events that a window of `size` buckets still holds at tick `now`.
  abbrev pub weigh : ℕ → ℕ → ℕ → ℕ → List (Event A) → ℕ
  weigh origin duration size now [] = 0
  weigh origin duration size now (e ∷ rest) =
      (if ltb now (tick origin duration e.time + size) then of_val e.val else 0)
      + weigh origin duration size now rest

  total-append : (xs ys : List (Slot A)) → total (xs ++ ys) ≡ total xs + total ys
  total-append [] ys = omega arith
  total-append (x ∷ xs) ys = omega (arith, total-append xs ys)

  total-replicate : (n : ℕ) → total (replicate n no_slot) ≡ 0
  total-replicate zero = refl
  total-replicate (suc n) = omega (arith, none_weighs, total-replicate n)

  pub drop-replicate_weight : (j n : ℕ) → total (drop j (replicate n no_slot)) ≡ 0
  drop-replicate_weight zero n = total-replicate n
  drop-replicate_weight (suc j) zero = refl
  drop-replicate_weight (suc j) (suc n) = drop-replicate_weight j n

  -- Past its first part a list has the weight of what is left of it.
  total-drop-append_zero :
      (j : ℕ) (xs ys : List (Slot A))
      → ((k : ℕ) → total (drop k ys) ≡ 0)
      → total (drop j (xs ++ ys)) ≡ total (drop j xs)
  total-drop-append_zero j [] ys h = h j ∙ sym (ap total (drop-nil j))
  total-drop-append_zero zero (x ∷ xs) ys h =
      ap (λ t. of_slot x + t) (total-drop-append_zero zero xs ys h)
  total-drop-append_zero (suc j) (x ∷ xs) ys h = total-drop-append_zero j xs ys h

  pub total-drop-expire :
      (span j : ℕ) (xs : List (Slot A))
      → total (drop j (expire span xs)) ≡ total (drop (min span (length xs) + j) xs)
  total-drop-expire span j xs =
      total-drop-append_zero j (drop (min span (length xs)) xs)
        (replicate (min span (length xs)) no_slot)
        (λ k. drop-replicate_weight k (min span (length xs)))
      ∙ ap total (drop-drop j (min span (length xs)) xs)

  pub AllGood-drop : (n : ℕ) (xs : List (Slot A)) → AllGood xs → AllGood (drop n xs)
  AllGood-drop zero xs h = h
  AllGood-drop (suc n) [] h = h
  AllGood-drop (suc n) (x ∷ xs) h = AllGood-drop n xs h.1

  pub AllGood-append_none :
      (n : ℕ) (xs : List (Slot A)) → AllGood xs → AllGood (xs ++ replicate n no_slot)
  AllGood-append_none zero [] h = tt
  AllGood-append_none (suc n) [] h = (none_good, AllGood-append_none n [] h)
  AllGood-append_none n (x ∷ xs) h = (h.0, AllGood-append_none n xs h.1)

  pub AllGood-at_last :
      (val : A) (xs : List (Slot A))
      → Fine val
      → total xs + of_val val < limit
      → AllGood xs
      → AllGood (at_last (g val) xs)
  AllGood-at_last val [] f l h = h
  AllGood-at_last val (x ∷ []) f l h = (added_good val x f (omega arith) h.0, tt)
  AllGood-at_last val (x ∷ y ∷ rest) f l h =
      (h.0, AllGood-at_last val (y ∷ rest) f (omega arith) h.1)

  pub total-drop-at_last :
      (val : A) (j : ℕ) (xs : List (Slot A))
      → Fine val
      → total xs + of_val val < limit
      → AllGood xs
      → total (drop j (at_last (g val) xs))
        ≡ total (drop j xs) + (if ltb j (length xs) then of_val val else 0)
  total-drop-at_last val zero [] f l h = ground arith
  total-drop-at_last val (suc j) [] f l h = ground arith
  total-drop-at_last val zero (x ∷ []) f l h = omega (arith, added_weighs val x f (omega arith) h.0)
  total-drop-at_last val (suc zero) (x ∷ []) f l h = ground arith
  total-drop-at_last val (suc (suc j)) (x ∷ []) f l h = ground arith
  total-drop-at_last val zero (x ∷ y ∷ rest) f l h =
      ground (arith, total-drop-at_last val zero (y ∷ rest) f (omega arith) h.1)
  total-drop-at_last val (suc j) (x ∷ y ∷ rest) f l h =
      ground (arith, total-drop-at_last val j (y ∷ rest) f (omega arith) h.1)

  -- Each event adds a fine value.
  abbrev pub AllFine : List (Event A) → Type 0
  AllFine [] = Unit {0}
  AllFine (e ∷ rest) = Fine e.val × AllFine rest

  -- The weight of all the events.
  abbrev pub weigh_all : List (Event A) → ℕ
  weigh_all [] = 0
  weigh_all (e ∷ rest) = of_val e.val + weigh_all rest

  pub weigh-le :
      (origin duration size now : ℕ) (es : List (Event A))
      → weigh origin duration size now es ≤ weigh_all es
  weigh-le origin duration size now [] = omega arith
  weigh-le origin duration size now (e ∷ es) = ground (arith, weigh-le origin duration size now es)
