-- ===== src/Libc/Format/Numbers.antt =====
-- u_to_nstr of src/libc/stdarg.c writes a number that reads back as the value.
use atros.Base.{
  ℕ, zero, suc, ◌+◌, ◌-◌, ◌*◌, ◌^◌, ◌<◌, ◌≤◌, ◌≡◌, refl, ap, ◌∙◌, arith, inl, inr, ◌⊎◌, ok, Outcome,
  ne→==, lt→ltb, ge→ltb, eq_or_ne, ◌==◌, ltb, ◌||◌, if◌then◌else◌, Bool-cases, true, false, leb,
  leb→le, leb→gt,
}
use native.Mathlib.Nat.{pow-le-pow_left}
use atros.LinkedLists.Links.{Ptr, update, update_eq, update_ne}
use atros.Libc.Memory.{Bytes}
use atros.Libc.Format.{reverse_loop, finish_number, write_number, write_prefixed, u_to_nstr}
use atros.Libc.Format.Digits.{digit_value, reversed_number, IsDigit, digits_loop-WritesDigits}
use atros.Libc.Format.Reverse.{reverse_loop-outside, reverse_loop-inside}

-- The number whose digits stand in the bytes, the first digit first.
abbrev pub read_number : ℕ → Bytes → Ptr → ℕ → ℕ
read_number base mem p zero = 0
read_number base mem p (suc k) = base * read_number base mem p k + digit_value (mem (p + k))

read_number-reversed_number :
    (base : ℕ) (mem mem' : Bytes) (p q k : ℕ)
    → ((x : ℕ) → x < k → mem' (p + x) ≡ mem (q + (k - suc x)))
    → read_number base mem' p k ≡ reversed_number base mem q k
read_number-reversed_number base mem mem' p q zero f = refl
read_number-reversed_number base mem mem' p q (suc k) f =
    let first : q + (suc k - suc k) ≡ q = omega arith in
    let last : mem' (p + k) ≡ mem q = f k (omega arith) ∙ ap mem first in
    let rest : read_number base mem' p k ≡ reversed_number base mem (q + 1) k =
      read_number-reversed_number base mem mem' p (q + 1) k (λ x h.
        let place : q + (suc k - suc x) ≡ q + 1 + (k - suc x) = omega arith in
        f x (omega arith) ∙ ap mem place) in
    rw (last, rest) (omega arith)

-- A run that writes the digits of the value from index `start` on and a byte 0 behind them, returns
-- the length of the string, and writes nothing else.
pub record Prints (value base start n : ℕ) (str : Ptr) (mem : Bytes) (r : Outcome (ℕ × Bytes))
    : Type 0 where
  pub count : ℕ
  pub mem' : Bytes
  pub done : r ≡ ok (start + count, mem')
  pub some_digits : 0 < count
  pub fits : start + count ≤ n
  pub number : read_number base mem' (str + start) count ≡ value
  pub digits : (x : ℕ) → x < count → IsDigit base (mem' (str + start + x))
  pub ends : mem' (str + start + count) ≡ 0
  pub below : (a : Ptr) → a < str + start → mem' a ≡ mem a
  pub above : (a : Ptr) → str + start + count < a → mem' a ≡ mem a

module _ (value base j n : ℕ) (str : Ptr) (mem : Bytes) (c : ℕ) (mem1 : Bytes) where
  abbrev ended : Bytes
  ended = update mem1 (str + (j + suc c)) 0

  abbrev turned : Bytes
  turned = reverse_loop (j + suc c - 1) j str ended

  turned-digit : (x : ℕ) → x < suc c → turned (str + j + x) ≡ mem1 (str + j + (suc c - suc x))
  turned-digit x h =
      let place : str + j + x ≡ str + (j + x) = omega arith in
      let from : str + (j + suc c - 1 + j - (j + x)) ≡ str + j + (suc c - suc x) = omega arith in
      rw place (
        reverse_loop-inside (j + suc c - 1) j str ended (j + x) (omega arith) (omega arith)
        ∙ rw from
            (update_ne mem1 (str + (j + suc c)) (str + j + (suc c - suc x)) 0 (λ z. omega arith)))

  turned-end : turned (str + j + suc c) ≡ 0
  turned-end =
      reverse_loop-outside (j + suc c - 1) j str ended (str + j + suc c) (inr (omega arith))
      ∙ update_eq mem1 (str + (j + suc c)) (str + j + suc c) 0 (omega arith)

  turned-outside : (a : Ptr) → (a < str + j) ⊎ (str + j + suc c < a) → turned a ≡ mem1 a
  turned-outside a out =
      reverse_loop-outside (j + suc c - 1) j str ended a
        (elim out [ inl z ↦ inl z | inr z ↦ inr (omega arith) ])
      ∙ update_ne mem1 (str + (j + suc c)) a 0 (λ z. ground arith)

-- The rounds of the loop that a value below 2 ^ 32 may need: the digits that fit, 32 at most.
abbrev rounds : ℕ → ℕ
rounds room = if leb room 32 then room - 1 else 31

two_pow_le : (base : ℕ) → 2 ≤ base → 2 ^ 32 ≤ base ^ 32
two_pow_le base h = pow-le-pow_left h 32

rounds-enough :
    (value base room : ℕ)
    → 2 ≤ base
    → 0 < room
    → value < 2 ^ 32
    → value < base ^ room
    → (value < base ^ suc (rounds room)) × (suc (rounds room) ≤ 32) × (suc (rounds room) ≤ room)
rounds-enough value base room two some small fits = elim (Bool-cases (leb room 32)) [
  | inl e ↦
      let same : suc (room - 1) ≡ room = omega arith in
      rw (e, same) (fits, leb→le room 32 e, omega arith)
  | inr e ↦
      let big = two_pow_le base two in
      rw e (omega (arith, big), omega arith, omega (arith, leb→gt room 32 e))
]

-- The digits of a value that has room for them.
write_number-Prints :
    (value base j n : ℕ) (str : Ptr) (mem : Bytes)
    → 2 ≤ base
    → base ≤ 36
    → value < 2 ^ 32
    → j < n
    → value < base ^ (n - j)
    → Prints value base j n str mem (write_number value n str base j mem)
unfolding write_number finish_number
write_number-Prints value base j n str mem two most small start fits =
    let (enough, few, room) = rounds-enough value base (n - j) two (omega arith) small fits in
    let w =
      digits_loop-WritesDigits 32 (rounds (n - j)) value j n str base mem two most enough few
        (omega (arith, room)) in
    let c = w.count in
    let mem2 = turned value base j n str mem c w.mem' in
    let digit_at = turned-digit value base j n str mem c w.mem' in
    record {
      count = suc c;
      mem' = mem2;
      done = rw w.done refl;
      some_digits = omega arith;
      fits = omega (arith, w.few, room);
      number =
          read_number-reversed_number base w.mem' mem2 (str + j) (str + j) (suc c) digit_at
          ∙ w.number;
      digits = λ x h. rw (digit_at x h) (w.digits (suc c - suc x) (omega arith));
      ends = turned-end value base j n str mem c w.mem';
      below = λ a h. turned-outside value base j n str mem c w.mem' a (inl h) ∙ w.below a h;
      above =
          λ a h. turned-outside value base j n str mem c w.mem' a (inr h) ∙ w.above a (omega arith);
    }

-- The characters in front of the digits: 0b for base 2, 0x for base 16.
abbrev pub prefix_length : ℕ → ℕ
prefix_length base = if (base == 2) || (base == 16) then 2 else 0

abbrev pub with_prefix : ℕ → Ptr → Bytes → Bytes
with_prefix base str mem =
    if base == 2
    then update (update mem str 48) (str + 1) 98
    else if base == 16
    then update (update mem str 48) (str + 1) 120
    else mem

u_to_nstr-write :
    (value base n : ℕ) (str : Ptr) (mem : Bytes)
    → 2 ≤ base
    → base ≤ 36
    → prefix_length base < n
    → u_to_nstr value n str base mem
      ≡ write_number value n str base (prefix_length base) (with_prefix base str mem)
unfolding u_to_nstr write_prefixed
u_to_nstr-write value base n str mem two most start =
    let some : (n == 0) ≡ false = ne→== n 0 (λ z. omega arith) in
    elim (eq_or_ne base 2) [
      | inl e ↦ let room : ltb 2 n ≡ true = lt→ltb 2 n (rw e at start) in rw (some, e, room) refl
      | inr ne ↦ elim (eq_or_ne base 16) [
        | inl e ↦ let room : ltb 2 n ≡ true = lt→ltb 2 n (rw e at start) in rw (some, e, room) refl
        | inr ne' ↦
            rw (some, ge→ltb base 2 two, ge→ltb 36 base most, ne→== base 2 ne, ne→== base 16 ne')
              refl
      ]
    ]

-- For a base from 2 to 36 and a value below 2^32 whose digits, behind the prefix 0b or 0x of the
-- bases 2 and 16, have room in the n characters, u_to_nstr writes the prefix and digits that read
-- back as the value, with a byte 0 behind them, returns the length, and changes no other byte. The
-- byte 0 comes behind the n characters when the digits fill them.
pub u_to_nstr-Prints :
    (value base n : ℕ) (str : Ptr) (mem : Bytes)
    → 2 ≤ base
    → base ≤ 36
    → value < 2 ^ 32
    → prefix_length base < n
    → value < base ^ (n - prefix_length base)
    → Prints value base
        (prefix_length base)
        n
        str
        (with_prefix base str mem)
        (u_to_nstr value n str base mem)
u_to_nstr-Prints value base n str mem two most small start fits =
    rw (u_to_nstr-write value base n str mem two most start) (
      write_number-Prints value base (prefix_length base) n str (with_prefix base str mem) two most
        small start fits)
