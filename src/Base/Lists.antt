-- ===== src/Base/Lists.antt =====
-- Lists measured by native numbers, and predicates on lists by recursion.
use Prim.Native.Nat.{ℕ, suc, ◌+◌}
use mathlib.Core.Path.{◌≡◌, refl}
use mathlib.Core.Logic.{◌≢◌}
use mathlib.Core.Bool.{Bool, true, false, ◌||◌}
use mathlib.Core.List.{List, [], ◌∷◌, ◌++◌}
use native.Mathlib.Omega.{arith}
use unobin.Base.Tests.{Bytes, eqb, if◌then◌else◌}

module _ {ℓ} {A : Type ℓ} where
  abbrev pub length : List A → ℕ
  length [] = 0
  length (x ∷ xs) = suc (length xs)

  -- `len(s) == 0`
  abbrev pub is_empty : List A → Bool
  is_empty [] = true
  is_empty (x ∷ xs) = false

  pub length-append : (xs ys : List A) → length (xs ++ ys) ≡ length xs + length ys
  length-append [] ys = omega arith
  length-append (x ∷ xs) ys = omega (arith, length-append xs ys)

  pub is_empty-append-cons : (xs : List A) (y : A) (ys : List A) → is_empty (xs ++ y ∷ ys) ≡ false
  is_empty-append-cons [] y ys = refl
  is_empty-append-cons (x ∷ xs) y ys = refl

  pub append-cons-ne-nil : (xs : List A) (y : A) (ys : List A) → xs ++ y ∷ ys ≢ []
  append-cons-ne-nil [] y ys e = cc
  append-cons-ne-nil (x ∷ xs) y ys e = cc

-- Every element satisfies `P`.
abbrev pub All {ℓ κ} : {A : Type ℓ} → (A → Type κ) → List A → Type κ
All P [] = Unit
All P (x ∷ xs) = P x × All P xs

pub All-append {ℓ κ} :
    {A : Type ℓ} (P : A → Type κ) (xs ys : List A) → All P xs → All P ys → All P (xs ++ ys)
All-append P [] ys hx hy = hy
All-append P (x ∷ xs) ys hx hy = (hx.0, All-append P xs ys hx.1 hy)

pub All-append-left {ℓ κ} :
    {A : Type ℓ} (P : A → Type κ) (xs ys : List A) → All P (xs ++ ys) → All P xs
All-append-left P [] ys h = tt
All-append-left P (x ∷ xs) ys h = (h.0, All-append-left P xs ys h.1)

pub All-append-right {ℓ κ} :
    {A : Type ℓ} (P : A → Type κ) (xs ys : List A) → All P (xs ++ ys) → All P ys
All-append-right P [] ys h = h
All-append-right P (x ∷ xs) ys h = All-append-right P xs ys h.1

-- Whether a list of strings holds `a`; how often.
unfoldable pub mem : Bytes → List Bytes → Bool
mem a [] = false
mem a (x ∷ xs) = eqb x a || mem a xs

unfoldable pub count : Bytes → List Bytes → ℕ
count a [] = 0
count a (x ∷ xs) = (if eqb x a then 1 else 0) + count a xs

pub mem-count_zero : (b : Bytes) (xs : List Bytes) → count b xs ≡ 0 → mem b xs ≡ false
unfolding count mem
mem-count_zero b [] h = refl
mem-count_zero b (x ∷ xs) h = ground (arith, mem-count_zero b xs)

pub count-mem-false : (b : Bytes) (xs : List Bytes) → mem b xs ≡ false → count b xs ≡ 0
unfolding count mem
count-mem-false b [] h = refl
count-mem-false b (x ∷ xs) h = ground (arith, count-mem-false b xs)

pub mem-length_zero : (b : Bytes) (xs : List Bytes) → length xs ≡ 0 → mem b xs ≡ false
unfolding mem
mem-length_zero b [] h = refl
mem-length_zero b (x ∷ xs) h = absurd (omega arith)

pub mem-append : (a : Bytes) (xs ys : List Bytes) → mem a (xs ++ ys) ≡ (mem a xs || mem a ys)
unfolding mem
mem-append a [] ys = refl
mem-append a (x ∷ xs) ys = ground (arith, mem-append a xs ys)

pub count-append : (a : Bytes) (xs ys : List Bytes) → count a (xs ++ ys) ≡ count a xs + count a ys
unfolding count
count-append a [] ys = omega arith
count-append a (x ∷ xs) ys = omega (arith, count-append a xs ys)
