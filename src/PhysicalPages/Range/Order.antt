-- ===== src/PhysicalPages/Range/Order.antt =====
-- The order that the inner loop of _range_ppages_set_status picks for a page of a range.
use atros.Base.{
  ℕ, zero, suc, ◌+◌, ◌-◌, ◌%◌, ◌^◌, ◌≤◌, ◌<◌, ◌≡◌, inl, inr, arith, true, Bool, Bool-cases, ◌&&◌,
  leb, ◌==◌, pow-positive, ==_iff, leb→le,
}
use native.Mathlib.Nat.{pow-le-pow_right}
use atros.PhysicalPages.State.{is_buddy_block}
use atros.PhysicalPages.Range.{block_fits, largest_order}

-- A block of the order starts at the page and ends in the range.
abbrev pub Fits : ℕ → ℕ → ℕ → Type 0
Fits ppn last order = (ppn % 2 ^ order ≡ 0) × (ppn + 2 ^ order ≤ last + 1)

both : (a b : Bool) → (a && b) ≡ true → (a ≡ true) × (b ≡ true)
both a b h = ground arith

pub block_fits-Fits :
    (ppn last order : ℕ)
    → ppn + 2 ^ order < 2 ^ 32
    → block_fits ppn last order ≡ true
    → Fits ppn last order
unfolding block_fits is_buddy_block
block_fits-Fits ppn last order small h =
    let (a, b) = both (ppn % 2 ^ order == 0) (leb ((ppn + 2 ^ order - 1) % 2 ^ 32) last) h in
    (
      (==_iff (ppn % 2 ^ order) 0).0 a,
      omega (arith, leb→le ((ppn + 2 ^ order - 1) % 2 ^ 32) last b, pow-positive order),
    )

-- For a page of a range the loop finds a block that fits.
pub largest_order-Fits :
    (n ppn last : ℕ)
    → n ≤ 9
    → ppn ≤ last
    → last < 2 ^ 31
    → (largest_order n ppn last ≤ n) × Fits ppn last (largest_order n ppn last)
unfolding largest_order
largest_order-Fits zero ppn last h le small = (omega arith, (omega arith, omega arith))
largest_order-Fits (suc n) ppn last h le small = elim (Bool-cases (block_fits ppn last (suc n))) [
  | inl e ↦ rw e (
    omega arith,
    block_fits-Fits ppn last (suc n)
        (omega (arith, pow-le-pow_right {n = 2} (omega arith) {i = suc n} {j = 9} h)) e,
  )
  | inr e ↦
      let (a, b) = largest_order-Fits n ppn last (omega arith) le small in rw e (omega arith, b)
]
