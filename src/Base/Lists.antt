-- ===== src/Base/Lists.antt =====
-- Lists over the native numbers, and predicates by recursion, which the tactics read.
use Prim.Native.Nat.{ℕ, suc, ◌+◌}
use mathlib.Core.Path.{◌≡◌}
use mathlib.Core.Logic.{◌≢◌, ◌⊎◌}
use mathlib.Core.List.{List, [], ◌∷◌, ◌++◌}
use native.Mathlib.Omega.{arith}
use atros.Base.Tests.{◌==◌, if◌then◌else◌}

module _ {ℓ} {A : Type ℓ} where
  abbrev pub length : List A → ℕ
  length [] = 0
  length (x ∷ xs) = suc (length xs)

  pub length-append : (xs ys : List A) → length (xs ++ ys) ≡ length xs + length ys
  length-append [] ys = omega arith
  length-append (x ∷ xs) ys = omega (arith, length-append xs ys)

abbrev pub NotIn : ℕ → List ℕ → Type 0
NotIn a [] = Unit {0}
NotIn a (x ∷ xs) = (a ≢ x) × NotIn a xs

abbrev pub In : ℕ → List ℕ → Type 0
In a [] = ⊥
In a (x ∷ xs) = (a ≡ x) ⊎ In a xs

abbrev pub Distinct : List ℕ → Type 0
Distinct [] = Unit {0}
Distinct (x ∷ xs) = NotIn x xs × Distinct xs

-- Removes the first occurrence.
abbrev pub erase : ℕ → List ℕ → List ℕ
erase a [] = []
erase a (x ∷ xs) = if x == a then xs else x ∷ erase a xs

pub NotIn-snoc : (a : ℕ) (xs : List ℕ) (b : ℕ) → NotIn a xs → a ≢ b → NotIn a (xs ++ b ∷ [])
NotIn-snoc a [] b h ne = (ne, tt)
NotIn-snoc a (x ∷ xs) b h ne = (h.0, NotIn-snoc a xs b h.1 ne)

pub Distinct-snoc : (xs : List ℕ) (b : ℕ) → Distinct xs → NotIn b xs → Distinct (xs ++ b ∷ [])
Distinct-snoc [] b d n = (tt, tt)
Distinct-snoc (x ∷ xs) b d n = (NotIn-snoc x xs b d.0 (omega arith), Distinct-snoc xs b d.1 n.1)

pub NotIn-erase : (a b : ℕ) (xs : List ℕ) → NotIn a xs → NotIn a (erase b xs)
NotIn-erase a b [] h = tt
NotIn-erase a b (x ∷ xs) h = ground (arith, NotIn-erase a b xs h.1)

pub Distinct-erase : (b : ℕ) (xs : List ℕ) → Distinct xs → Distinct (erase b xs)
Distinct-erase b [] d = tt
Distinct-erase b (x ∷ xs) d = ground (arith, NotIn-erase x b xs d.0, Distinct-erase b xs d.1)

pub ne_of_In : (a b : ℕ) (xs : List ℕ) → In a xs → NotIn b xs → a ≢ b
ne_of_In a b [] i n = elim i [ ]
ne_of_In a b (x ∷ xs) i n = ground (arith, ne_of_In a b xs)

pub In-snoc : (a : ℕ) (xs : List ℕ) (b : ℕ) → In a (xs ++ b ∷ []) → In a xs ⊎ (a ≡ b)
In-snoc a [] b i = ground arith
In-snoc a (x ∷ xs) b i = ground (arith, In-snoc a xs b)
