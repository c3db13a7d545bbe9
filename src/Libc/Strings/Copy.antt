-- ===== src/Libc/Strings/Copy.antt =====
-- What strncpy of src/libc/string.c leaves in the memory.
use atros.Base.{
  ℕ, zero, suc, ◌+◌, ◌≤◌, ◌<◌, ◌≡◌, ◌≢◌, refl, sym, ◌∙◌, arith, ◌⊎◌, inl, inr, eq_or_ne, ne→==,
}
use atros.LinkedLists.Links.{Ptr, update, update_eq, update_ne}
use atros.Libc.Memory.{Bytes}
use atros.Libc.Strings.{strncpy_fill, strncpy_loop, strncpy}

-- The bytes of the string at `s` from `i` on, up to `hi`, are copied to `d`; from the first byte 0
-- on, the target is cleared. All other bytes are as they were.
pub record Pads (d s i hi : ℕ) (mem after : Bytes) : Type 0 where
  pub copied :
      (k : ℕ)
      → i ≤ k
      → k < hi
      → ((j : ℕ) → i ≤ j → j ≤ k → mem (s + j) ≢ 0)
      → after (d + k) ≡ mem (s + k)
  pub cleared : (j k : ℕ) → i ≤ j → j ≤ k → k < hi → mem (s + j) ≡ 0 → after (d + k) ≡ 0
  pub outside : (q : Ptr) → (q < d + i) ⊎ (d + hi ≤ q) → after q ≡ mem q

strncpy_fill-outside :
    (left i d : ℕ) (mem : Bytes) (q : Ptr)
    → (q < d + i) ⊎ (d + (i + left) ≤ q)
    → strncpy_fill left i d mem q ≡ mem q
unfolding strncpy_fill
strncpy_fill-outside zero i d mem q h = refl
strncpy_fill-outside (suc left) i d mem q h =
    strncpy_fill-outside left (i + 1) d (update mem (d + i) 0) q (ground arith)
    ∙ update_ne mem (d + i) q 0 (λ z. ground arith)

strncpy_fill-inside :
    (left i d : ℕ) (mem : Bytes) (k : ℕ)
    → i ≤ k
    → k < i + left
    → strncpy_fill left i d mem (d + k) ≡ 0
unfolding strncpy_fill
strncpy_fill-inside zero i d mem k h h' = absurd (omega arith)
strncpy_fill-inside (suc left) i d mem k h h' = elim (eq_or_ne k i) [
  | inl z ↦ rw z (
      strncpy_fill-outside left (i + 1) d (update mem (d + i) 0) (d + i) (inl (omega arith))
      ∙ update_eq mem (d + i) (d + i) 0 refl)
  | inr ne ↦ strncpy_fill-inside left (i + 1) d (update mem (d + i) 0) k (omega arith) (omega arith)
]

strncpy_loop-Pads :
    (left i d s : ℕ) (mem : Bytes)
    → (s + (i + left) ≤ d) ⊎ (d + (i + left) ≤ s)
    → Pads d s i (i + left) mem (strncpy_loop left i d s mem)
unfolding strncpy_loop
strncpy_loop-Pads zero i d s mem apart = record {
  copied = λ k h h' f. absurd (omega arith);
  cleared = λ j k h h' h'' z. absurd (omega arith);
  outside = λ q h. refl;
}
strncpy_loop-Pads (suc left) i d s mem apart = elim (eq_or_ne (mem (s + i)) 0) [
  | inl z ↦ rw z (record {
    copied = λ k h h' f. absurd (f i (omega arith) h z);
    cleared = λ j k h h' h'' z'. strncpy_fill-inside (suc left) i d mem k (omega arith) h'';
    outside = λ q h. strncpy_fill-outside (suc left) i d mem q h;
  })
  | inr ne ↦
      let v = mem (s + i) in
      let f = strncpy_loop-Pads left (i + 1) d s (update mem (d + i) v) (ground arith) in
      let source : (j : ℕ) → j < i + suc left → update mem (d + i) v (s + j) ≡ mem (s + j) =
        λ j h. update_ne mem (d + i) (s + j) v (λ z. ground arith) in
      rw (ne→== v 0 ne) (record {
        copied = λ k h h' g. elim (eq_or_ne k i) [
          | inl z ↦
              rw z (f.outside (d + i) (inl (omega arith)) ∙ update_eq mem (d + i) (d + i) v refl)
          | inr ne' ↦
              f.copied k (omega arith) (omega arith)
                (λ j a b. rw (source j (omega arith)) (g j (omega arith) b))
              ∙ source k h'
        ];
        cleared = λ j k h h' h'' z. elim (eq_or_ne j i) [
          | inl e ↦ absurd (ne (rw (sym e) z))
          | inr ne' ↦ f.cleared j k (omega arith) h' (omega arith) (source j (omega arith) ∙ z)
        ];
        outside = λ q h. f.outside q (ground arith) ∙ update_ne mem (d + i) q v (λ z. ground arith);
      })
]

-- For buffers of the size that do not overlap, strncpy returns the target, copies the string up to
-- its first byte 0 or the size, clears the rest of the target, and changes no other byte.
pub strncpy-Pads :
    (d s num : ℕ) (mem : Bytes)
    → (s + num ≤ d) ⊎ (d + num ≤ s)
    → ((strncpy d s num mem).0 ≡ d) × Pads d s 0 num mem (strncpy d s num mem).1
unfolding strncpy
strncpy-Pads d s num mem apart =
    let f = strncpy_loop-Pads num 0 d s mem (ground arith) in
    (
      refl,
      record {
        copied = λ k h h' g. f.copied k h (omega arith) g;
        cleared = λ j k h h' h'' z. f.cleared j k h h' (omega arith) z;
        outside = λ q h. f.outside q (ground arith);
      },
    )
