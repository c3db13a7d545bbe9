-- ===== src/PhysicalPages/Orders.antt =====
-- The arithmetic on orders in src/kernel/mm/physical_pages.c: the order that ppages_alloc asks
-- for, and the page that the merging loop takes for a block's buddy.
use atros.Base.{
  ℕ, zero, suc, ◌+◌, ◌-◌, ◌*◌, ◌/◌, ◌%◌, ◌^◌, ◌≤◌, ◌<◌, ◌≡◌, ◌⊎◌, refl, ap, ◌∙◌, inl, inr, arith,
  panic, leb, eq_or_ne, leb→le, leb→gt, gt→leb, Bool-cases, bit_and, bit_and, bit_and_one_bit,
  pow-positive,
}
use native.Mathlib.Nat.{pow-suc, mul-div_cancel, mul-le-mul_right, pow-le-pow_right}
use atros.PhysicalPages.State.{Memory}
use atros.PhysicalPages.Blocks.{
  order_for, ppages_alloc, ppage_block_alloc, ppage_block_alloc_dscr, block_alloc_at, find_buddy,
}

-- What the search returns when it starts at an order: the first of the `left` orders that is large
-- enough, or the order after them.
IsFirst : ℕ → ℕ → ℕ → ℕ → Type 0
IsFirst left order n r =
    (order ≤ r)
    × (r ≤ order + left)
    × ((r < order + left) → n ≤ 2 ^ r)
    × ((j : ℕ) → order ≤ j → j < r → 2 ^ j < n)

order_for-later :
    (left order n r : ℕ)
    → 2 ^ order < n
    → IsFirst left (suc order) n r
    → IsFirst (suc left) order n r
unfolding IsFirst
order_for-later left order n r h (a, b, f, g) = (
  omega arith,
  omega arith,
  λ lt. f (omega arith),
  λ j le lt. elim (eq_or_ne j order) [ inl e ↦ rw e h | inr ne ↦ g j (omega arith) lt ],
)

order_for-IsFirst : (left order n : ℕ) → IsFirst left order n (order_for left order n)
unfolding IsFirst order_for
order_for-IsFirst zero order n =
    (omega arith, omega arith, λ h. absurd (omega arith), λ j h h'. absurd (omega arith))
order_for-IsFirst (suc left) order n = elim (Bool-cases (leb n (2 ^ order))) [
  | inl h ↦
      rw h (omega arith, omega arith, λ _. leb→le n (2 ^ order) h, λ j a b. absurd (omega arith))
  | inr h ↦ rw h (
      order_for-later left order n (order_for left (suc order) n) (leb→gt n (2 ^ order) h)
        (order_for-IsFirst left (suc order) n))
]

-- For at most 512 pages the order that ppages_alloc asks for is below MAX_PPAGE_BLOCK_ORDER, its
-- blocks hold the pages, and those of the order below, if there is one, do not.
pub order_for_least :
    (n : ℕ)
    → n ≤ 512
    → (order_for 10 0 n < 10)
      × (n ≤ 2 ^ order_for 10 0 n)
      × ((order_for 10 0 n ≡ 0) ⊎ (2 ^ (order_for 10 0 n - 1) < n))
unfolding IsFirst
order_for_least n h = least (order_for 10 0 n) (order_for-IsFirst 10 0 n)
  where
    least : (r : ℕ) → IsFirst 10 0 n r → (r < 10) × (n ≤ 2 ^ r) × ((r ≡ 0) ⊎ (2 ^ (r - 1) < n))
    least r (a, b, f, g) =
        let found : r < 10 = elim (eq_or_ne r 10) [
          | inl e ↦ absurd (omega (arith, g 9 (omega arith) (omega arith)))
          | inr ne ↦ omega arith
        ] in
        (
          found,
          f (omega arith),
          elim (eq_or_ne r 0) [
            | inl e ↦ inl e
            | inr ne ↦ inr (g (r - 1) (omega arith) (omega arith))
          ],
        )

-- From 513 to 1023 pages ppages_alloc gets past its own test, asks for blocks of order 10, and
-- panics in the assertion of _ppage_block_alloc, whatever is free.
pub ppages_alloc_too_many : (n : ℕ) (m : Memory) → 512 < n → n < 1024 → ppages_alloc n m ≡ panic
unfolding IsFirst ppages_alloc ppage_block_alloc ppage_block_alloc_dscr block_alloc_at
ppages_alloc_too_many n m h h' =
    let capped : order_for 10 0 n ≡ 10 = too_large (order_for 10 0 n) (order_for-IsFirst 10 0 n) in
    rw (gt→leb 1024 n h', capped) refl
  where
    too_large : (r : ℕ) → IsFirst 10 0 n r → r ≡ 10
    too_large r (a, b, f, g) = elim (eq_or_ne r 10) [
      | inl e ↦ e
      | inr ne ↦ absurd (
          omega (
            arith,
            f (omega arith),
            pow-le-pow_right {n = 2} (omega arith) {i = r} {j = 9} (omega arith),
          ))
    ]

-- For the block `i` of an order, find_buddy gives page 0 if `i` is even, and the page with the
-- number 2 ^ order if `i` is odd. From the third block on, that page lies below the block of the
-- next order that holds both the block and its other half.
pub find_buddy_wrong :
    (i k : ℕ)
    → (find_buddy (i * 2 ^ k) k ≡ i % 2 * 2 ^ k)
      × ((i < 2) ⊎ (find_buddy (i * 2 ^ k) k + 2 ^ k ≤ i / 2 * 2 ^ suc k))
unfolding find_buddy
find_buddy_wrong i k =
    let p : 0 < 2 ^ k = pow-positive k in
    let e : bit_and (i * 2 ^ k) (2 ^ k) ≡ i % 2 * 2 ^ k =
      bit_and_one_bit k (i * 2 ^ k) ∙ ap (λ (t : ℕ). t % 2 * 2 ^ k) (mul-div_cancel i p) in
    (
      e,
      elim (Bool-cases (leb 2 i)) [
        | inl h ↦ inr (
            omega (
              arith,
              e,
              leb→le 2 i h,
              pow-suc 2 k,
              mul-le-mul_right {m = i % 2} {n = 1} (2 ^ k) (omega arith),
              mul-le-mul_right {m = 1} {n = i / 2} (2 ^ suc k) (omega (arith, leb→le 2 i h)),
            ))
        | inr h ↦ inl (leb→gt 2 i h)
      ],
    )
