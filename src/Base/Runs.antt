-- ===== src/Base/Runs.antt =====
-- How a run of kernel code ends, and commands over a state. `panic` is a call of panic(), which
-- halts the machine; `fault` is behaviour that C leaves undefined, such as a read through NULL;
-- `out_of_fuel` is a loop that used up the rounds that the model gives it.
use mathlib.Core.Bool.{Bool, true, false}
use mathlib.Core.Path.{◌≡◌, ap}

pub data Outcome {ℓ} (A : Type ℓ) : Type ℓ where
  ok : A → Outcome A
  panic : Outcome A
  fault : Outcome A
  out_of_fuel : Outcome A

module _ {ℓ κ} {A : Type ℓ} {B : Type κ} where
  abbrev pub and_then : Outcome A → (A → Outcome B) → Outcome B
  and_then (ok a) k = k a
  and_then panic k = panic
  and_then fault k = fault
  and_then out_of_fuel k = out_of_fuel

-- A command reads and updates a state.
abbrev pub Cmd : Type 0 → Type 0 → Type 0
Cmd S A = S → Outcome (A × S)

abbrev pub pure : {S A : Type 0} → A → Cmd S A
pure a s = ok (a, s)

abbrev pub bind_step : {S A B : Type 0} → (A → Cmd S B) → A × S → Outcome (B × S)
bind_step k (a, s) = k a s

infixl 5 ◌>>=◌ ◌>>◌
abbrev pub ◌>>=◌ : {S A B : Type 0} → Cmd S A → (A → Cmd S B) → Cmd S B
◌>>=◌ m k s = and_then (m s) (bind_step k)

abbrev pub ◌>>◌ : {S B : Type 0} → Cmd S (Unit {0}) → Cmd S B → Cmd S B
m >> k = m >>= λ _. k

-- KASSERT (panic.h): the assertions are compiled in every build.
abbrev pub kassert : {S : Type 0} → Bool → Cmd S (Unit {0})
kassert true s = ok (tt, s)
kassert false s = panic

abbrev pub get : {S : Type 0} → Cmd S S
get s = ok (s, s)

abbrev pub put : {S : Type 0} → S → Cmd S (Unit {0})
put s _ = ok (tt, s)

abbrev pub die : {S A : Type 0} → Cmd S A
die s = panic

-- The first command succeeds, so the second one runs on what it leaves.
pub after_ok :
    {S A B : Type 0} (m : Cmd S A) (f : A → Cmd S B) {s s' : S} {a : A}
    → m s ≡ ok (a, s')
    → (m >>= f) s ≡ f a s'
after_ok m f e = ap (λ o. and_then o (bind_step f)) e
