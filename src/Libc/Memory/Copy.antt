-- ===== src/Libc/Memory/Copy.antt =====
-- What memcpy, memmove and memset of src/libc/string.c leave in the memory.
use atros.Base.{
  ℕ, zero, suc, ◌+◌, ◌-◌, ◌%◌, ◌^◌, ◌≤◌, ◌<◌, ◌≡◌, ◌≢◌, refl, subst, arith, ◌⊎◌, inl, inr, leb,
  Bool-cases, leb→le, leb→gt, eq_or_ne, ◌∙◌,
}
use atros.LinkedLists.Links.{Ptr, update, update_eq, update_ne}
use atros.Libc.Memory.{Bytes, memcpy_loop, memcpy, memmove_loop, memmove, memset_loop, memset}

-- The `num` bytes from `d` on are those that stood from `s` on, and all others are as they were.
pub record Copies (d s num : ℕ) (mem after : Bytes) : Type 0 where
  pub inside : (k : ℕ) → k < num → after (d + k) ≡ mem (s + k)
  pub outside : (q : Ptr) → (q < d) ⊎ (d + num ≤ q) → after q ≡ mem q

-- The same for a loop that has still to copy the bytes from `i` up to `hi`.
record CopiesPart (d s i hi : ℕ) (mem after : Bytes) : Type 0 where
  pub inside : (k : ℕ) → i ≤ k → k < hi → after (d + k) ≡ mem (s + k)
  pub outside : (q : Ptr) → (q < d + i) ⊎ (d + hi ≤ q) → after q ≡ mem q

-- A byte is copied that no later round reads.
forward :
    (num i d s : ℕ) (mem : Bytes)
    → d ≤ s
    → i + num < 2 ^ 32
    → CopiesPart d s i (i + num) mem (memmove_loop num i 1 d s mem)
unfolding memmove_loop
forward zero i d s mem le small = record {
  inside = λ k h h'. absurd (omega arith);
  outside = λ q h. refl;
}
forward (suc num) i d s mem le small =
    let v = mem (s + i) in
    let e : (i + 1) % 2 ^ 32 ≡ i + 1 = omega arith in
    let f = forward num (i + 1) d s (update mem (d + i) v) le (omega arith) in
    rw e (record {
      inside = λ k h h'. elim (eq_or_ne k i) [
        | inl z ↦
            rw z (f.outside (d + i) (inl (omega arith)) ∙ update_eq mem (d + i) (d + i) v refl)
        | inr ne ↦
            f.inside k (omega arith) (omega arith)
            ∙ update_ne mem (d + i) (s + k) v (λ z. omega arith)
      ];
      outside = λ q h. f.outside q (ground arith) ∙ update_ne mem (d + i) q v (λ z. ground arith);
    })

-- The loop that goes down copies the bytes below an index; the source must not start in the part
-- of the target behind its own start.
down :
    (num d s : ℕ) (mem after : Bytes)
    → ((k : ℕ) → k < num → s + k ≢ d + num)
    → Copies d s num (update mem (d + num) (mem (s + num))) after
    → Copies d s (suc num) mem after
down num d s mem after apart f =
    let v = mem (s + num) in
    record {
      inside = λ k h. elim (eq_or_ne k num) [
        | inl z ↦
            rw z
              (f.outside (d + num) (inr (omega arith)) ∙ update_eq mem (d + num) (d + num) v refl)
        | inr ne ↦
            f.inside k (omega arith) ∙ update_ne mem (d + num) (s + k) v (apart k (omega arith))
      ];
      outside = λ q h. f.outside q (ground arith) ∙ update_ne mem (d + num) q v (λ z. ground arith);
    }

backward :
    (num d s : ℕ) (mem : Bytes)
    → s < d
    → num < 2 ^ 32
    → Copies d s num mem (memmove_loop num ((num + 2 ^ 32 - 1) % 2 ^ 32) (2 ^ 32 - 1) d s mem)
unfolding memmove_loop
backward zero d s mem lt small = record {
  inside = λ k h. absurd (omega arith);
  outside = λ q h. refl;
}
backward (suc num) d s mem lt small =
    let e : (suc num + 2 ^ 32 - 1) % 2 ^ 32 ≡ num = omega arith in
    let e' : (num + (2 ^ 32 - 1)) % 2 ^ 32 ≡ (num + 2 ^ 32 - 1) % 2 ^ 32 = omega arith in
    rw (e, e')
      (down num d s mem _ (λ k h z. omega arith)
        (backward num d s (update mem (d + num) (mem (s + num))) lt (omega arith)))

-- memmove returns the target and copies the bytes of the source as they stood before, for all
-- buffers of a size below 2^32, overlapping ones too; no other byte changes.
pub memmove-Copies :
    (d s num : ℕ) (mem : Bytes)
    → num < 2 ^ 32
    → ((memmove d s num mem).0 ≡ d) × Copies d s num mem (memmove d s num mem).1
unfolding memmove
memmove-Copies d s num mem small = elim (Bool-cases (leb d s)) [
  | inl e ↦
      let f = forward num 0 d s mem (leb→le d s e) (omega arith) in
      rw e (
        refl,
        record {
          inside = λ k h. f.inside k (omega arith) (omega arith);
          outside = λ q h. f.outside q (ground arith);
        },
      )
  | inr e ↦ rw e (refl, backward num d s mem (leb→gt d s e) small)
]

memcpy_loop-Copies :
    (num d s : ℕ) (mem : Bytes)
    → (s ≤ d) ⊎ (d + num ≤ s)
    → Copies d s num mem (memcpy_loop num d s mem)
unfolding memcpy_loop
memcpy_loop-Copies zero d s mem h = record {
  inside = λ k h. absurd (omega arith);
  outside = λ q h. refl;
}
memcpy_loop-Copies (suc num) d s mem h =
    down num d s mem _ (λ k lt z. ground (arith, h))
      (memcpy_loop-Copies num d s (update mem (d + num) (mem (s + num))) (ground arith))

-- memcpy returns the target and copies the bytes of the source, and no other byte changes, if the
-- source does not start behind the target inside it.
pub memcpy-Copies :
    (d s num : ℕ) (mem : Bytes)
    → (s ≤ d) ⊎ (d + num ≤ s)
    → ((memcpy d s num mem).0 ≡ d) × Copies d s num mem (memcpy d s num mem).1
unfolding memcpy
memcpy-Copies d s num mem h = (refl, memcpy_loop-Copies num d s mem h)

memset_loop-outside :
    (num d value : ℕ) (mem : Bytes) (q : Ptr)
    → (q < d) ⊎ (d + num ≤ q)
    → memset_loop num d value mem q ≡ mem q
unfolding memset_loop
memset_loop-outside zero d value mem q h = refl
memset_loop-outside (suc num) d value mem q h =
    memset_loop-outside num (d + 1) value (update mem d (value % 256)) q (ground arith)
    ∙ update_ne mem d q (value % 256) (λ z. ground arith)

memset_loop-inside :
    (num d value : ℕ) (mem : Bytes) (k : ℕ)
    → k < num
    → memset_loop num d value mem (d + k) ≡ value % 256
unfolding memset_loop
memset_loop-inside zero d value mem k h = absurd (omega arith)
memset_loop-inside (suc num) d value mem k h = elim (eq_or_ne k 0) [
  | inl z ↦ rw z (
      subst (λ (t : ℕ). memset_loop num (d + 1) value (update mem d (value % 256)) t ≡ value % 256)
        (omega arith)
        (memset_loop-outside num (d + 1) value (update mem d (value % 256)) d (inl (omega arith))
          ∙ update_eq mem d d (value % 256) refl))
  | inr ne ↦
      subst (λ (t : ℕ). memset_loop num (d + 1) value (update mem d (value % 256)) t ≡ value % 256)
        (omega arith)
        (memset_loop-inside num (d + 1) value (update mem d (value % 256)) (k - 1) (omega arith))
]

-- memset returns the buffer, sets its bytes to the value cut to a byte, and no other byte.
pub memset-fills :
    (d value num : ℕ) (mem : Bytes)
    → ((memset d value num mem).0 ≡ d)
      × ((k : ℕ) → k < num → (memset d value num mem).1 (d + k) ≡ value % 256)
      × ((q : Ptr) → (q < d) ⊎ (d + num ≤ q) → (memset d value num mem).1 q ≡ mem q)
unfolding memset
memset-fills d value num mem = (
  refl,
  λ k h. memset_loop-inside num d value mem k h,
  λ q h. memset_loop-outside num d value mem q h,
)
