-- ===== src/Arithmetic.antt =====
-- most_significant_bit_of of src/include/bits.h.
mod Tests
use native.Mathlib.Nat.{pow-suc, pow-succ', one-le-pow, div-div-eq-div-mul, div-lt_iff_lt-mul}
use atros.Base.{
  ℕ, zero, suc, ◌+◌, ◌-◌, ◌*◌, ◌/◌, ◌^◌, ◌<◌, ◌≤◌, ◌≡◌, ltb, if◌then◌else◌, arith, Bool-cases, inl,
  inr, ltb→lt, ltb→ge, refl, sym, ap, ◌∙◌, eq_or_ne, lt→ltb, true, false,
}

-- What is left of the word, and the bits counted.
abbrev pub Counted : Type 0
Counted = ℕ × ℕ

-- One test: a word above the limit is shifted to the right.
unfoldable pub shift_above : ℕ → ℕ → Counted → Counted
shift_above limit k (i, bits) = if ltb limit i then (i / 2 ^ k, bits + k) else (i, bits)

unfoldable pub count_last : Counted → ℕ
count_last (i, bits) = if ltb 0 i then bits + 1 else bits

unfoldable pub most_significant_bit_of : ℕ → ℕ
most_significant_bit_of i =
    count_last (shift_above 1 2 (shift_above 7 4 (shift_above 127 8 (shift_above 32767 16 (i, 0)))))

-- A number has `m` binary digits.
abbrev pub HasBits : ℕ → ℕ → Type 0
HasBits i zero = i ≡ 0
HasBits i (suc m) = (0 < i) × HasBits (i / 2) m

HasBits-shift : (k i m : ℕ) → 2 ^ k ≤ i → HasBits (i / 2 ^ suc k) m → HasBits i (suc k + m)
HasBits-shift zero i m h w = let sum : 1 + m ≡ suc m = omega arith in rw sum (omega arith, w)
HasBits-shift (suc k) i m h w =
    let sum : suc (suc k) + m ≡ suc (suc k + m) = omega arith in
    let twice : 2 ^ suc k ≡ 2 ^ k * 2 = pow-suc 2 k in
    let next : 2 ^ suc (suc k) ≡ 2 * 2 ^ suc k = pow-succ' 2 (suc k) in
    let less : i / 2 / 2 ^ suc k ≡ i / 2 ^ suc (suc k) =
      div-div-eq-div-mul i 2 (2 ^ suc k) ∙ ap (λ (t : ℕ). i / t) (sym next) in
    let one = one-le-pow k 2 (omega arith) in
    rw sum (
      omega (arith, twice, one),
      HasBits-shift k (i / 2) m (omega (arith, twice)) (rw (sym less) at w),
    )

-- A test of a word of which some bits are counted.
module _ (i bits limit k : ℕ) (fits : limit + 1 ≡ 2 ^ k) where
  HasBits-shift_above :
      (r : ℕ)
      → HasBits (shift_above limit (suc k) (i, bits)).0 r
      → (r' : ℕ) × HasBits i r' × (bits + r' ≡ (shift_above limit (suc k) (i, bits)).1 + r)
  unfolding shift_above
  HasBits-shift_above r w = elim (Bool-cases (ltb limit i)) [
    | inl e ↦
        let less = ltb→lt limit i e in
        let w' : HasBits (i / 2 ^ suc k) r = (rw e at w) in
        rw e (suc k + r, HasBits-shift k i r (omega (arith, fits)) w', omega arith)
    | inr e ↦ let w' : HasBits i r = (rw e at w) in rw e (r, w', refl)
  ]

  -- What is left of a word below 2 ^ k * 2 ^ suc k.
  shift_above-small :
      (top : ℕ)
      → top ≡ 2 ^ k * 2 ^ suc k
      → i < top
      → (shift_above limit (suc k) (i, bits)).0 < 2 ^ k
  unfolding shift_above
  shift_above-small top product h = elim (Bool-cases (ltb limit i)) [
    | inl e ↦ rw e (
        (div-lt_iff_lt-mul (omega (arith, one-le-pow (suc k) 2 (omega arith)))).1
          (omega (arith, product)))
    | inr e ↦ rw e (omega (arith, fits, ltb→ge limit i e))
  ]

count_last-HasBits :
    (i bits : ℕ) → i < 2 → (r : ℕ) × HasBits i r × (bits + r ≡ count_last (i, bits))
unfolding count_last
count_last-HasBits i bits h = elim (eq_or_ne i 0) [
  | inl e ↦ rw e (0, refl, omega arith)
  | inr ne ↦ let one : i ≡ 1 = omega arith in rw one (1, (omega arith, refl), refl)
]

-- For a word below 2^31 the result of most_significant_bit_of is the number of its binary digits.
pub most_significant_bit_of-HasBits : (i : ℕ) → i < 2 ^ 31 → HasBits i (most_significant_bit_of i)
unfolding most_significant_bit_of
most_significant_bit_of-HasBits i small =
    let c1 = shift_above 32767 16 (i, 0) in
    let c2 = shift_above 127 8 c1 in
    let c3 = shift_above 7 4 c2 in
    let c4 = shift_above 1 2 c3 in
    let s1 = shift_above-small i 0 32767 15 refl (2 ^ 31) refl small in
    let s2 = shift_above-small c1.0 c1.1 127 7 refl (2 ^ 15) refl s1 in
    let s3 = shift_above-small c2.0 c2.1 7 3 refl (2 ^ 7) refl s2 in
    let s4 = shift_above-small c3.0 c3.1 1 1 refl (2 ^ 3) refl s3 in
    let (r, w, e) = count_last-HasBits c4.0 c4.1 s4 in
    let (r3, w3, e3) = HasBits-shift_above c3.0 c3.1 1 1 refl r w in
    let (r2, w2, e2) = HasBits-shift_above c2.0 c2.1 7 3 refl r3 w3 in
    let (r1, w1, e1) = HasBits-shift_above c1.0 c1.1 127 7 refl r2 w2 in
    let (r0, w0, e0) = HasBits-shift_above i 0 32767 15 refl r1 w1 in
    let total : r0 ≡ count_last c4 = omega (arith, e, e3, e2, e1, e0) in rw (sym total) w0

-- For a word from 2^31 on, which has 32 binary digits, the result of most_significant_bit_of is 31.
pub most_significant_bit_of-top : (i : ℕ) → 2 ^ 31 ≤ i → i < 2 ^ 32 → most_significant_bit_of i ≡ 31
unfolding most_significant_bit_of shift_above count_last
most_significant_bit_of-top i large small =
    rw
      (
        lt→ltb 32767 i (omega arith),
        lt→ltb 127 (i / 65536) (omega arith),
        lt→ltb 7 (i / 65536 / 256) (omega arith),
        lt→ltb 1 (i / 65536 / 256 / 16) (omega arith),
        lt→ltb 0 (i / 65536 / 256 / 16 / 4) (omega arith),
      )
      refl
