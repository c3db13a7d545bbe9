-- ===== src/Libc/Format/Reverse.antt =====
-- The loop of u_to_nstr of src/libc/stdarg.c that turns the digits round.
use atros.Base.{
  ℕ, zero, suc, ◌+◌, ◌-◌, ◌<◌, ◌≤◌, ◌≡◌, ◌≢◌, refl, ap, ◌∙◌, arith, inl, inr, ◌⊎◌, ltb, lt→ltb,
  ge→ltb, eq_or_ne, Bool-cases, ltb→lt, ltb→ge,
}
use atros.LinkedLists.Links.{Ptr, update, update_eq, update_ne}
use atros.Libc.Memory.{Bytes}
use atros.Libc.Format.{swap_chars, reverse_loop}

module _ (p q : Ptr) (mem : Bytes) where
  swap_chars-second : swap_chars p q mem q ≡ mem p
  unfolding swap_chars
  swap_chars-second = update_eq (update mem p (mem q)) q q (mem p) refl

  swap_chars-first : p ≢ q → swap_chars p q mem p ≡ mem q
  unfolding swap_chars
  swap_chars-first ne =
      update_ne (update mem p (mem q)) q p (mem p) ne ∙ update_eq mem p p (mem q) refl

  swap_chars-other : (a : Ptr) → a ≢ p → a ≢ q → swap_chars p q mem a ≡ mem a
  unfolding swap_chars
  swap_chars-other a ne ne' =
      update_ne (update mem p (mem q)) q a (mem p) ne' ∙ update_ne mem p a (mem q) ne

reverse_loop-step :
    (i j : ℕ) (str : Ptr) (mem : Bytes)
    → j < suc i
    → reverse_loop (suc i) j str mem
      ≡ reverse_loop i (j + 1) str (swap_chars (str + j) (str + suc i) mem)
unfolding reverse_loop
reverse_loop-step i j str mem h = rw (lt→ltb j (suc i) h) refl

reverse_loop-end :
    (i j : ℕ) (str : Ptr) (mem : Bytes) → suc i ≤ j → reverse_loop (suc i) j str mem ≡ mem
unfolding reverse_loop
reverse_loop-end i j str mem h = rw (ge→ltb j (suc i) h) refl

-- Bytes outside the digits are kept.
pub reverse_loop-outside :
    (i j : ℕ) (str : Ptr) (mem : Bytes) (a : Ptr)
    → (a < str + j) ⊎ (str + i < a)
    → reverse_loop i j str mem a ≡ mem a
unfolding reverse_loop
reverse_loop-outside zero j str mem a out = refl
reverse_loop-outside (suc i) j str mem a out = elim (Bool-cases (ltb j (suc i))) [
  | inl e ↦
      let h = ltb→lt j (suc i) e in
      let other =
        swap_chars-other (str + j) (str + suc i) mem a (λ z. ground arith) (λ z. ground arith) in
      rw (reverse_loop-step i j str mem h) (
        reverse_loop-outside i (j + 1) str (swap_chars (str + j) (str + suc i) mem) a
          (elim out [ inl z ↦ inl (omega arith) | inr z ↦ inr (omega arith) ])
        ∙ other)
  | inr e ↦ let h = ltb→ge j (suc i) e in rw (reverse_loop-end i j str mem h) refl
]

-- The digits from index `j` to `i` are turned round.
pub reverse_loop-inside :
    (i j : ℕ) (str : Ptr) (mem : Bytes) (x : ℕ)
    → j ≤ x
    → x ≤ i
    → reverse_loop i j str mem (str + x) ≡ mem (str + (i + j - x))
unfolding reverse_loop
reverse_loop-inside zero j str mem x low high = ap (λ (t : ℕ). mem (str + t)) (omega arith)
reverse_loop-inside (suc i) j str mem x low high = elim (Bool-cases (ltb j (suc i))) [
  | inr e ↦
      let h = ltb→ge j (suc i) e in
      rw (reverse_loop-end i j str mem h) (ap (λ (t : ℕ). mem (str + t)) (omega arith))
  | inl e ↦
      let h = ltb→lt j (suc i) e in
      let mem1 = swap_chars (str + j) (str + suc i) mem in
      let outside = reverse_loop-outside i (j + 1) str mem1 (str + x) in
      rw (reverse_loop-step i j str mem h) (elim (eq_or_ne x j) [
        | inl z ↦
            let opposite : suc i + j - x ≡ suc i = omega arith in
            let swapped : mem1 (str + x) ≡ mem (str + (suc i + j - x)) =
              rw (opposite, z) (swap_chars-first (str + j) (str + suc i) mem (λ z'. omega arith)) in
            outside (inl (omega arith)) ∙ swapped
        | inr ne ↦ elim (eq_or_ne x (suc i)) [
          | inl z ↦
              let opposite : suc i + j - x ≡ j = omega arith in
              let swapped : mem1 (str + x) ≡ mem (str + (suc i + j - x)) =
                rw (opposite, z) (swap_chars-second (str + j) (str + suc i) mem) in
              outside (inr (omega arith)) ∙ swapped
          | inr ne' ↦
              let opposite : i + (j + 1) - x ≡ suc i + j - x = omega arith in
              reverse_loop-inside i (j + 1) str mem1 x (omega arith) (omega arith)
              ∙ swap_chars-other (str + j) (str + suc i) mem (str + (i + (j + 1) - x))
                  (λ z. omega arith) (λ z. omega arith)
              ∙ ap (λ (t : ℕ). mem (str + t)) opposite
        ]
      ])
]
