-- ===== src/Libc/Format/Digits.antt =====
-- The digits that the loop of u_to_nstr of src/libc/stdarg.c writes.
use atros.Base.{
  ℕ, zero, suc, ◌+◌, ◌-◌, ◌*◌, ◌/◌, ◌%◌, ◌^◌, ◌<◌, ◌≤◌, ◌≡◌, ◌≢◌, refl, sym, ap, ◌∙◌, arith, inl,
  inr, ok, Outcome, ne→==, ltb, lt→ltb, eq_or_ne, if◌then◌else◌,
}
use native.Mathlib.Nat.{div-add-mod, mod-lt, pow-suc, pow-zero, div-lt_iff_lt-mul}
use atros.LinkedLists.Links.{Ptr, update, update_eq, update_ne}
use atros.Libc.Memory.{Bytes}
use atros.Libc.Format.{digit, Written, digits_loop}

-- The value of a digit.
abbrev pub digit_value : ℕ → ℕ
digit_value c = if ltb c 58 then c - 48 else c - 55

pub digit_value-digit : (r : ℕ) → r < 36 → digit_value (digit r) ≡ r
unfolding digit
digit_value-digit r h = ground arith

-- The number whose digits stand in the bytes, the last digit first.
abbrev pub reversed_number : ℕ → Bytes → Ptr → ℕ → ℕ
reversed_number base mem p zero = 0
reversed_number base mem p (suc k) = digit_value (mem p) + base * reversed_number base mem (p + 1) k

pub reversed_number-frame :
    (base : ℕ) (mem mem' : Bytes) (p k : ℕ)
    → ((a : Ptr) → p ≤ a → a < p + k → mem' a ≡ mem a)
    → reversed_number base mem' p k ≡ reversed_number base mem p k
reversed_number-frame base mem mem' p zero f = refl
reversed_number-frame base mem mem' p (suc k) f =
    rw
      (
        f p (omega arith) (omega arith),
        reversed_number-frame base mem mem' (p + 1) k (λ a h h'. f a (omega arith) (omega arith)),
      )
      refl

abbrev pub IsDigit : ℕ → ℕ → Type 0
IsDigit base c = (r : ℕ) × (r < base) × (c ≡ digit r)

-- The loop ends with `suc count` digits of the value from index `i` on, and writes nothing else.
pub record WritesDigits (value i m base : ℕ) (str : Ptr) (mem : Bytes) (r : Outcome Written)
    : Type 0 where
  pub count : ℕ
  pub mem' : Bytes
  pub done : r ≡ ok (record { value = 0; count = i + suc count; mem = mem' })
  pub few : suc count ≤ m
  pub number : reversed_number base mem' (str + i) (suc count) ≡ value
  pub digits : (x : ℕ) → x < suc count → IsDigit base (mem' (str + i + x))
  pub below : (a : Ptr) → a < str + i → mem' a ≡ mem a
  pub above : (a : Ptr) → str + i + suc count ≤ a → mem' a ≡ mem a

quotient_lt : (value base m : ℕ) → 0 < base → value < base ^ suc m → value / base < base ^ m
quotient_lt value base m pos h = (div-lt_iff_lt-mul pos).1 (rw (sym (pow-suc base m)) h)

module _ (fuel m value i n : ℕ) (str : Ptr) (base : ℕ) (mem : Bytes) (two : 2 ≤ base)
    (most : base ≤ 36) where
  abbrev stored : Bytes
  stored = update mem (str + i) (digit (value % base))

  stored-digit : digit_value (stored (str + i)) ≡ value % base
  stored-digit =
      let small : value % base < base = mod-lt value (omega arith) in
      rw (update_eq mem (str + i) (str + i) (digit (value % base)) refl)
        (digit_value-digit (value % base) (omega arith))

  stored-other : (a : Ptr) → a ≢ str + i → stored a ≡ mem a
  stored-other a ne = update_ne mem (str + i) a (digit (value % base)) ne

  -- The last round of the loop.
  digits_loop-last :
      value / base ≡ 0
      → WritesDigits value i (suc m) base str mem (digits_loop (suc fuel) value i n str base mem)
  unfolding digits_loop
  digits_loop-last e =
      let split : base * 0 + value % base ≡ value = (rw e at (div-add-mod value base)) in
      record {
        count = 0;
        mem' = stored;
        done = rw e refl;
        few = omega arith;
        number = rw stored-digit (omega (arith, split));
        digits = λ x h.
            let first : x ≡ 0 = omega arith in
            let here : str + i + x ≡ str + i = omega arith in
            rw here (
              value % base,
              mod-lt value (omega arith),
              update_eq mem (str + i) (str + i) (digit (value % base)) refl,
            );
        below = λ a h. stored-other a (λ z. omega arith);
        above = λ a h. stored-other a (λ z. omega arith);
      }

  -- A round that other rounds follow.
  digits_loop-next :
      value / base ≢ 0
      → i + 1 < n
      → WritesDigits
          (value / base)
          (i + 1)
          (suc m)
          base
          str
          stored
          (digits_loop fuel (value / base) (i + 1) n str base stored)
      → WritesDigits value i
          (suc (suc m))
          base
          str
          mem
          (digits_loop (suc fuel) value i n str base mem)
  unfolding digits_loop
  digits_loop-next ne room w =
      let next : i + 1 + suc w.count ≡ i + suc (suc w.count) = omega arith in
      let place : str + (i + 1) ≡ str + i + 1 = omega arith in
      let split = div-add-mod value base in
      let number : reversed_number base w.mem' (str + i + 1) (suc w.count) ≡ value / base =
        rw (sym place) w.number in
      let here : w.mem' (str + i) ≡ stored (str + i) = w.below (str + i) (omega arith) in
      record {
        count = suc w.count;
        mem' = w.mem';
        done =
            rw (ne→== (value / base) 0 ne, lt→ltb (i + 1) n room, w.done)
              (ap (λ (t : ℕ). ok (record { value = 0; count = t; mem = w.mem' })) next);
        few = omega (arith, w.few);
        number = rw (here, stored-digit, number) (omega (arith, split));
        digits = λ x h. elim (eq_or_ne x 0) [
          | inl z ↦
              let first : str + i + x ≡ str + i = omega arith in
              rw first (
                value % base,
                mod-lt value (omega arith),
                here ∙ update_eq mem (str + i) (str + i) (digit (value % base)) refl,
              )
          | inr nz ↦
              let later : str + i + x ≡ str + (i + 1) + (x - 1) = omega arith in
              rw later (w.digits (x - 1) (omega arith))
        ];
        below = λ a h. w.below a (omega arith) ∙ stored-other a (λ z. omega arith);
        above = λ a h. w.above a (omega arith) ∙ stored-other a (λ z. omega arith);
      }

-- With room for as many digits as a value may have, the loop writes its digits.
pub digits_loop-WritesDigits :
    (fuel m value i n : ℕ) (str : Ptr) (base : ℕ) (mem : Bytes)
    → 2 ≤ base
    → base ≤ 36
    → value < base ^ suc m
    → suc m ≤ fuel
    → i + suc m ≤ n
    → WritesDigits value i (suc m) base str mem (digits_loop fuel value i n str base mem)
digits_loop-WritesDigits zero m value i n str base mem two most small fuel room =
    absurd (omega arith)
digits_loop-WritesDigits (suc fuel) zero value i n str base mem two most small enough room =
    let q = quotient_lt value base 0 (omega arith) small in
    digits_loop-last fuel 0 value i n str base mem two most (omega (arith, rw (pow-zero base) at q))
digits_loop-WritesDigits (suc fuel) (suc m) value i n str base mem two most small enough room =
    let q = quotient_lt value base (suc m) (omega arith) small in
    elim (eq_or_ne (value / base) 0) [
      | inl e ↦ digits_loop-last fuel (suc m) value i n str base mem two most e
      | inr ne ↦ digits_loop-next fuel m value i n str base mem two most ne (omega arith) (
          digits_loop-WritesDigits fuel m (value / base) (i + 1) n str base
            (update mem (str + i) (digit (value % base))) two most q (omega arith) (omega arith))
    ]
