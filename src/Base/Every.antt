-- ===== src/Base/Every.antt =====
-- A predicate on every element of a list, and how lists, maps and orders keep it.
use mathlib.Core.Path.{◌≡◌, refl, sym, subst, ap₂, ◌∙◌}
use mathlib.Core.List.{List, [], ◌∷◌, ◌++◌, Memᴰ, Permᴰ}
use mathlib.Core.Option.{some}
use mathlib.Core.Logic.{inl, inr, ◌≢◌}
use tsf_go.Base.Tests.{Comparable, ◌==◌, if◌then◌else◌, Bool-cases}
use tsf_go.Base.Assoc.{lookup, insert, delete}

abbrev pub Each {ℓ κ} : {A : Type ℓ} → (A → Type κ) → List A → Type κ
Each P [] = Unit {_}
Each P (x ∷ xs) = P x × Each P xs

module _ {ℓ κ} {A : Type ℓ} (P : A → Type κ) where
  pub Each-snoc : (xs : List A) (x : A) → Each P xs → P x → Each P (xs ++ (x ∷ []))
  Each-snoc [] x h p = (p, tt)
  Each-snoc (y ∷ xs) x h p = (h.0, Each-snoc xs x h.1 p)

  pub Each-Memᴰ : (x : A) (xs : List A) → Each P xs → Memᴰ x xs → P x
  Each-Memᴰ x [] h m = elim m [ ]
  Each-Memᴰ x (y ∷ xs) h (Memᴰ.head e) = subst P (sym e) h.0
  Each-Memᴰ x (y ∷ xs) h (Memᴰ.tail m) = Each-Memᴰ x xs h.1 m

  pub Each_middle : (xs : List A) (x : A) (ys : List A) → Each P (xs ++ (x ∷ ys)) → P x
  Each_middle [] x ys h = h.0
  Each_middle (y ∷ xs) x ys h = Each_middle xs x ys h.1

  pub Each-Permᴰ : (xs ys : List A) → Permᴰ xs ys → Each P xs → Each P ys
  Each-Permᴰ xs ys Permᴰ.nil h = tt
  Each-Permᴰ xs ys (Permᴰ.cons {l₁ = l₁} {l₂ = l₂} e d) h = (subst P e h.0, Each-Permᴰ l₁ l₂ d h.1)
  Each-Permᴰ xs ys (Permᴰ.swap e₁ e₂) h = (subst P e₂ h.1.0, (subst P e₁ h.0, h.1.1))
  Each-Permᴰ xs ys (Permᴰ.trans {l₂ = l₂} d₁ d₂) h = Each-Permᴰ l₂ ys d₂ (Each-Permᴰ xs l₂ d₁ h)

  -- A property of all the elements of a list is one that each of them shares.
  pub Each-tabulate : (xs : List A) → ((x : A) → Memᴰ x xs → P x) → Each P xs
  Each-tabulate [] f = tt
  Each-tabulate (x ∷ xs) f = (f x (Memᴰ.head refl), Each-tabulate xs (λ y m. f y (Memᴰ.tail m)))

pub Each-map {ℓ κ κ'} :
    {A : Type ℓ} (P : A → Type κ) (Q : A → Type κ') (f : (x : A) → P x → Q x) (xs : List A)
    → Each P xs
    → Each Q xs
Each-map P Q f [] h = tt
Each-map P Q f (x ∷ xs) h = (f x h.0, Each-map P Q f xs h.1)

module _ {ℓ κ ι} {K : Type ℓ} {V : Type κ} ⦃c : Comparable K⦄ (P : K × V → Type ι) where
  pub Each-insert :
      (key : K) (v : V) (m : List (K × V)) → Each P m → P (key, v) → Each P (insert key v m)
  unfolding insert
  Each-insert key v [] h p = (p, tt)
  Each-insert key v (entry ∷ m) h p = elim (Bool-cases (key == entry.0)) [
    | inl e ↦ rw (e, if◌then◌else◌) (p, h.1)
    | inr e ↦ rw (e, if◌then◌else◌) (h.0, Each-insert key v m h.1 p)
  ]

  pub Each-lookup :
      (key : K) (v : V) (m : List (K × V)) → Each P m → lookup key m ≡ some v → P (key, v)
  unfolding lookup
  Each-lookup key v [] h e = absurd (cc)
  Each-lookup key v ((k, u) ∷ m) h e = elim (Bool-cases (key == k)) [
    | inl same ↦
        let at_key : k ≡ key = sym ((c.same_iff key k).0 same) in
        let at_value : u ≡ v = cc in subst P (ap₂ (λ a b. (a, b)) at_key at_value) h.0
    | inr other ↦ Each-lookup key v m h.1 (cc)
  ]

  -- What stays after a deletion has another key.
  pub Each-delete :
      (key : K) (m : List (K × V)) → Each P m → Each (λ e. P e × (e.0 ≢ key)) (delete key m)
  unfolding delete
  Each-delete key [] h = tt
  Each-delete key (entry ∷ m) h = elim (Bool-cases (key == entry.0)) [
    | inl same ↦ rw (same, if◌then◌else◌) (Each-delete key m h.1)
    | inr other ↦
        rw (other, if◌then◌else◌)
          ((h.0, λ e. let z = (c.same_iff key entry.0).1 (sym e) in cc), Each-delete key m h.1)
  ]

pub Permᴰ_self {ℓ} : {A : Type ℓ} (xs : List A) → Permᴰ xs xs
Permᴰ_self [] = Permᴰ.nil
Permᴰ_self (x ∷ xs) = Permᴰ.cons refl (Permᴰ_self xs)

pub Permᴰ-Memᴰ {ℓ} : {A : Type ℓ} (x : A) (xs ys : List A) → Permᴰ xs ys → Memᴰ x xs → Memᴰ x ys
Permᴰ-Memᴰ x xs ys Permᴰ.nil m = m
Permᴰ-Memᴰ x xs ys (Permᴰ.cons {l₁ = l₁} {l₂ = l₂} e d) (Memᴰ.head e') = Memᴰ.head (e' ∙ e)
Permᴰ-Memᴰ x xs ys (Permᴰ.cons {l₁ = l₁} {l₂ = l₂} e d) (Memᴰ.tail m) =
    Memᴰ.tail (Permᴰ-Memᴰ x l₁ l₂ d m)
Permᴰ-Memᴰ x xs ys (Permᴰ.swap e₁ e₂) (Memᴰ.head e) = Memᴰ.tail (Memᴰ.head (e ∙ e₁))
Permᴰ-Memᴰ x xs ys (Permᴰ.swap e₁ e₂) (Memᴰ.tail (Memᴰ.head e)) = Memᴰ.head (e ∙ e₂)
Permᴰ-Memᴰ x xs ys (Permᴰ.swap e₁ e₂) (Memᴰ.tail (Memᴰ.tail m)) = Memᴰ.tail (Memᴰ.tail m)
Permᴰ-Memᴰ x xs ys (Permᴰ.trans {l₂ = l₂} d₁ d₂) m = Permᴰ-Memᴰ x l₂ ys d₂ (Permᴰ-Memᴰ x xs l₂ d₁ m)
