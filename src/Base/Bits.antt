-- ===== src/Base/Bits.antt =====
-- Bitwise operations split along bit fields: masks, shifts and flags as arithmetic.
use Prim.Native.Nat.{
  ℕ, zero, suc, ◌+◌, ◌-◌, ◌*◌, ◌/◌, ◌%◌, ◌^◌, ◌≤◌, ◌<◌, min, max, bit_and, bit_or, bitwise, digits,
  bit_and-bitwise, bit_or-bitwise,
}
use mathlib.Core.Path.{◌≡◌, refl, ap, ap₂, sym, ◌∙◌}
use native.Mathlib.Nat.{pow-suc, mod-lt, div-add-mod}
use native.Mathlib.Omega.{arith}

pub pow-positive : (k : ℕ) → 0 < 2 ^ k
pow-positive zero = omega arith
pow-positive (suc k) = omega (arith, pow-suc 2 k, pow-positive k)

parts : (k a : ℕ) → a ≡ a / 2 ^ k * 2 ^ k + a % 2 ^ k
parts k a = omega (arith, div-add-mod a (2 ^ k))

digits_fuel :
    (z : ℕ → ℕ) (f : ℕ → ℕ → ℕ) (n m a b : ℕ) → a ≤ n → a ≤ m → digits z f n a b ≡ digits z f m a b
digits_fuel z f zero zero zero b h k = refl
digits_fuel z f zero (suc m) zero b h k = refl
digits_fuel z f (suc n) zero zero b h k = refl
digits_fuel z f (suc n) (suc m) zero b h k = refl
digits_fuel z f zero m (suc a) b h k = absurd (omega arith)
digits_fuel z f (suc n) zero (suc a) b h k = absurd (omega arith)
digits_fuel z f (suc n) (suc m) (suc a) b h k =
    ap (λ (t : ℕ). t * 2 + f (suc a % 2) (b % 2))
      (digits_fuel z f n m (suc a / 2) (b / 2) (omega arith) (omega arith))

bitwise_step :
    (z : ℕ → ℕ) (f : ℕ → ℕ → ℕ) (a b : ℕ)
    → (z b ≡ z (b / 2) * 2 + f 0 (b % 2))
    → bitwise z f a b ≡ bitwise z f (a / 2) (b / 2) * 2 + f (a % 2) (b % 2)
bitwise_step z f zero b h = h
bitwise_step z f (suc a) b h =
    ap (λ (t : ℕ). t * 2 + f (suc a % 2) (b % 2))
      (digits_fuel z f a (suc a / 2) (suc a / 2) (b / 2) (omega arith) (omega arith))

and_step : (a b : ℕ) → bit_and a b ≡ bit_and (a / 2) (b / 2) * 2 + min (a % 2) (b % 2)
and_step a b =
    bit_and-bitwise a b
    ∙ bitwise_step (λ b. zero) min a b (omega arith)
    ∙ ap (λ (t : ℕ). t * 2 + min (a % 2) (b % 2)) (sym (bit_and-bitwise (a / 2) (b / 2)))

or_step : (a b : ℕ) → bit_or a b ≡ bit_or (a / 2) (b / 2) * 2 + max (a % 2) (b % 2)
or_step a b =
    bit_or-bitwise a b
    ∙ bitwise_step (λ b. b) max a b (omega arith)
    ∙ ap (λ (t : ℕ). t * 2 + max (a % 2) (b % 2)) (sym (bit_or-bitwise (a / 2) (b / 2)))

double_field : (q k r : ℕ) → (q * 2 ^ suc k + r) / 2 ≡ q * 2 ^ k + r / 2
double_field q k r = omega (arith, ap (λ (t : ℕ). q * t) (pow-suc 2 k))

double_field_low : (q k r : ℕ) → (q * 2 ^ suc k + r) % 2 ≡ r % 2
double_field_low q k r = omega (arith, ap (λ (t : ℕ). q * t) (pow-suc 2 k))

-- An operation on single bits works on the fields above and below any bit apart.
module _ (op f : ℕ → ℕ → ℕ) (step : (a b : ℕ) → op a b ≡ op (a / 2) (b / 2) * 2 + f (a % 2) (b % 2))
    (zeros : op 0 0 ≡ 0) where
  split_fields :
      (k q q' r r' : ℕ)
      → r < 2 ^ k
      → r' < 2 ^ k
      → op (q * 2 ^ k + r) (q' * 2 ^ k + r') ≡ op q q' * 2 ^ k + op r r'
  split_fields zero zero zero zero zero h h' = omega arith
  split_fields zero q q' r r' h h' =
      let e : r ≡ 0 = omega arith in
      let e' : r' ≡ 0 = omega arith in rw (e, e', zeros) (omega (arith, ap₂ op (one q) (one q')))
    where
      one : (n : ℕ) → n * 2 ^ 0 + 0 ≡ n
      one n = omega arith
  split_fields (suc k) q q' r r' h h' = omega (
    arith,
    step (q * 2 ^ suc k + r) (q' * 2 ^ suc k + r'),
    ap₂ op (double_field q k r) (double_field q' k r'),
    ap₂ f (double_field_low q k r) (double_field_low q' k r'),
    split_fields k q q' (r / 2) (r' / 2) (omega (arith, pow-suc 2 k)) (omega (arith, pow-suc 2 k)),
    step r r',
    ap (λ (t : ℕ). op q q' * t) (pow-suc 2 k),
  )

and_fields :
    (k q q' r r' : ℕ)
    → r < 2 ^ k
    → r' < 2 ^ k
    → bit_and (q * 2 ^ k + r) (q' * 2 ^ k + r') ≡ bit_and q q' * 2 ^ k + bit_and r r'
and_fields = split_fields bit_and min and_step refl

or_fields :
    (k q q' r r' : ℕ)
    → r < 2 ^ k
    → r' < 2 ^ k
    → bit_or (q * 2 ^ k + r) (q' * 2 ^ k + r') ≡ bit_or q q' * 2 ^ k + bit_or r r'
or_fields = split_fields bit_or max or_step refl

pub zero-bit_and : (b : ℕ) → bit_and 0 b ≡ 0
zero-bit_and b = bit_and-bitwise 0 b

pub zero-bit_or : (b : ℕ) → bit_or 0 b ≡ b
zero-bit_or b = bit_or-bitwise 0 b

and_zero_fuel : (n a : ℕ) → a ≤ n → bit_and a 0 ≡ 0
and_zero_fuel n zero h = refl
and_zero_fuel zero (suc a) h = absurd (omega arith)
and_zero_fuel (suc n) (suc a) h =
    omega (arith, and_step (suc a) 0, and_zero_fuel n (suc a / 2) (omega arith))

pub bit_and-zero : (a : ℕ) → bit_and a 0 ≡ 0
bit_and-zero a = and_zero_fuel a a (omega arith)

or_zero_fuel : (n a : ℕ) → a ≤ n → bit_or a 0 ≡ a
or_zero_fuel n zero h = refl
or_zero_fuel zero (suc a) h = absurd (omega arith)
or_zero_fuel (suc n) (suc a) h =
    omega (arith, or_step (suc a) 0, or_zero_fuel n (suc a / 2) (omega arith))

pub bit_or-zero : (a : ℕ) → bit_or a 0 ≡ a
bit_or-zero a = or_zero_fuel a a (omega arith)

and_ones : (k r : ℕ) → r < 2 ^ k → bit_and r (2 ^ k - 1) ≡ r
and_ones zero r h = let e : r ≡ 0 = omega arith in rw e refl
and_ones (suc k) r h =
    let half : (2 ^ suc k - 1) / 2 ≡ 2 ^ k - 1 = omega (arith, pow-suc 2 k) in
    let odd : (2 ^ suc k - 1) % 2 ≡ 1 = omega (arith, pow-suc 2 k, pow-positive k) in
    omega (
      arith,
      and_step r (2 ^ suc k - 1),
      ap (bit_and (r / 2)) half,
      odd,
      and_ones k (r / 2) (omega (arith, pow-suc 2 k)),
    )

-- A mask of `k` ones keeps the low field.
pub bit_and_mask : (k a : ℕ) → bit_and a (2 ^ k - 1) ≡ a % 2 ^ k
bit_and_mask k a =
    let low : a % 2 ^ k < 2 ^ k = mod-lt a (pow-positive k) in
    ap₂ bit_and (parts k a) (omega arith)
    ∙ and_fields k (a / 2 ^ k) 0 (a % 2 ^ k) (2 ^ k - 1) low (omega (arith, pow-positive k))
    ∙ omega
        (arith, ap (λ (t : ℕ). t * 2 ^ k) (bit_and-zero (a / 2 ^ k)), and_ones k (a % 2 ^ k) low)

-- A mask of ones above `k` zeros clears the low field.
pub bit_and_align :
    (n k a : ℕ) → a / 2 ^ k < 2 ^ n → bit_and a ((2 ^ n - 1) * 2 ^ k) ≡ a / 2 ^ k * 2 ^ k
bit_and_align n k a h =
    let low : a % 2 ^ k < 2 ^ k = mod-lt a (pow-positive k) in
    ap₂ bit_and (parts k a) (omega arith)
    ∙ and_fields k (a / 2 ^ k) (2 ^ n - 1) (a % 2 ^ k) 0 low (pow-positive k)
    ∙ omega (arith, ap (λ (t : ℕ). t * 2 ^ k) (and_ones n (a / 2 ^ k) h), bit_and-zero (a % 2 ^ k))

pub bit_or_field : (k q r : ℕ) → r < 2 ^ k → bit_or (q * 2 ^ k) r ≡ q * 2 ^ k + r
bit_or_field k q r h =
    ap₂ bit_or (omega arith) (omega arith)
    ∙ or_fields k q 0 0 r (pow-positive k) h
    ∙ omega (arith, ap (λ (t : ℕ). t * 2 ^ k) (bit_or-zero q), zero-bit_or r)

pub bit_and_one_bit : (k a : ℕ) → bit_and a (2 ^ k) ≡ a / 2 ^ k % 2 * 2 ^ k
bit_and_one_bit k a =
    let low : a % 2 ^ k < 2 ^ k = mod-lt a (pow-positive k) in
    ap₂ bit_and (parts k a) (omega arith)
    ∙ and_fields k (a / 2 ^ k) 1 (a % 2 ^ k) 0 low (pow-positive k)
    ∙ omega
        (arith, ap (λ (t : ℕ). t * 2 ^ k) (bit_and_mask 1 (a / 2 ^ k)), bit_and-zero (a % 2 ^ k))
