-- ===== src/Prelude/Lists.antt =====
-- Lists by recursion: a predicate on every element, absence, and distinctness.
use Prim.Native.String.{String}
use mathlib.Core.Logic.{◌≢◌, inl, inr}
use Prim.Native.Nat.{ℕ, zero, suc, ◌+◌}
use native.Mathlib.Omega.{arith}
use mathlib.Core.Bool.{Bool}
use mathlib.Core.Path.{◌≡◌, ◌∙◌, ap}
use mathlib.Core.Option.{Option, none, some, some_inj}
use mathlib.Core.List.{List, [], ◌∷◌, ◌++◌}
use x402_worker_template.Prelude.Tests.{Option-cases, if◌then◌else◌}

abbrev pub All {ℓ κ} : {A : Type ℓ} → (A → Type κ) → List A → Type κ
All P [] = Unit
All P (x ∷ xs) = P x × All P xs

abbrev pub NotIn : String → List String → Type 0
NotIn k [] = Unit
NotIn k (x ∷ xs) = (x ≢ k) × NotIn k xs

abbrev pub Distinct : List String → Type 0
Distinct [] = Unit
Distinct (x ∷ xs) = NotIn x xs × Distinct xs

unfoldable pub filter {ℓ} : {A : Type ℓ} → (A → Bool) → List A → List A
filter p [] = []
filter p (x ∷ xs) = let rest = filter p xs in if p x then x ∷ rest else rest

unfoldable pub length {ℓ} : {A : Type ℓ} → List A → ℕ
length [] = 0
length (x ∷ xs) = suc (length xs)

-- The element at a position, and the list without it.
unfoldable pub take_out {ℓ} : {A : Type ℓ} → ℕ → List A → Option (A × List A)
take_out n [] = none
take_out zero (x ∷ xs) = some (x, xs)
take_out (suc n) (x ∷ xs) = elim (take_out n xs) [
  | none ↦ none
  | some taken ↦ some (taken.0, x ∷ taken.1)
]

-- What is taken out is one element.
pub length-take_out {ℓ} :
    {A : Type ℓ}
    → (n : ℕ) (xs : List A) (x : A) (rest : List A) → take_out n xs ≡ some (x, rest)
    → length xs ≡ suc (length rest)
unfolding take_out length
length-take_out n [] x rest h = cc h
length-take_out zero (y ∷ xs) x rest h = ap (λ p. suc (length p.1)) (some_inj.0 h)
length-take_out {A = A} (suc n) (y ∷ xs) x rest h = elim (Option-cases (take_out n xs)) [
  | inl e ↦ cc (rw e at h)
  | inr ((z, zs), e) ↦
      let same : (z, y ∷ zs) ≡ (x, rest) = some_inj.0 (rw e at h) in
      let tails : suc (length zs) ≡ length rest = ap length (ap {A = A × List A} (λ p. p.1) same) in
      ap suc (length-take_out n xs z zs e ∙ tails)
]

pub length-append {ℓ} : {A : Type ℓ} → (xs ys : List A) → length (xs ++ ys) ≡ length xs + length ys
unfolding length
length-append [] ys = omega arith
length-append (x ∷ xs) ys = omega (arith, length-append xs ys)

pub All-append {ℓ κ} :
    {A : Type ℓ} → (P : A → Type κ) (xs ys : List A) → All P xs → All P ys → All P (xs ++ ys)
All-append P [] ys f g = g
All-append P (x ∷ xs) ys (p, f) g = (p, All-append P xs ys f g)
