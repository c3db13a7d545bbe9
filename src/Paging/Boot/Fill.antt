-- ===== src/Paging/Boot/Fill.antt =====
-- The loops of paging_boot_init of src/arch/x86/paging.c that fill the tables.
use atros.Base.{
  ℕ, zero, suc, ◌+◌, ◌-◌, ◌*◌, ◌/◌, ◌%◌, ◌^◌, ◌<◌, ◌≤◌, ◌≡◌, refl, ap, ◌∙◌, arith, ◌⊎◌, inl, inr,
  eq_or_ne, bit_or, bit_or-zero, bit_or_field,
}
use atros.LinkedLists.Links.{update, update_eq, update_ne}
use atros.Paging.Boot.{Words, clear_words, boot_entry, identity_entries}

pub clear_words-outside :
    (n a : ℕ) (phys : Words) (p : ℕ) → (p < a) ⊎ (a + 4 * n ≤ p) → clear_words n a phys p ≡ phys p
unfolding clear_words
clear_words-outside zero a phys p h = refl
clear_words-outside (suc n) a phys p h =
    clear_words-outside n (a + 4) (update phys a 0) p (ground arith)
    ∙ update_ne phys a p 0 (λ z. ground arith)

pub clear_words-inside :
    (n a : ℕ) (phys : Words) (t p : ℕ) → t < n → p ≡ a + 4 * t → clear_words n a phys p ≡ 0
unfolding clear_words
clear_words-inside zero a phys t p h e = absurd (omega arith)
clear_words-inside (suc n) a phys t p h e = elim (eq_or_ne t 0) [
  | inl z ↦
      clear_words-outside n (a + 4) (update phys a 0) p (inl (omega arith))
      ∙ update_eq phys a p 0 (omega arith)
  | inr ne ↦ clear_words-inside n (a + 4) (update phys a 0) (t - 1) p (omega arith) (omega arith)
]

pub boot_entry_lem : (a : ℕ) → a % 4096 ≡ 0 → boot_entry a ≡ a + 3
unfolding boot_entry
boot_entry_lem a h =
    let q = a / 4096 in
    let e : a ≡ q * 2 ^ 12 = omega arith in
    rw (bit_or-zero a) (
      ap (λ (t : ℕ). bit_or (bit_or t 2) 1) e
      ∙ ap (λ (t : ℕ). bit_or t 1) (bit_or_field 12 q 2 (omega arith) ∙ odd q)
      ∙ bit_or_field 1 (q * 2048 + 1) 1 (omega arith)
      ∙ omega arith)
  where
    odd : (q : ℕ) → q * 2 ^ 12 + 2 ≡ (q * 2048 + 1) * 2 ^ 1
    odd q = omega arith

pub identity_entries-outside :
    (left i base : ℕ) (phys : Words) (p : ℕ)
    → (p < base + 4 * i) ⊎ (base + 4 * (i + left) ≤ p)
    → identity_entries left i base phys p ≡ phys p
unfolding identity_entries
identity_entries-outside zero i base phys p h = refl
identity_entries-outside (suc left) i base phys p h =
    let v = boot_entry (i * 2 ^ 12 % 2 ^ 32) in
    identity_entries-outside left (i + 1) base (update phys (base + 4 * i) v) p (ground arith)
    ∙ update_ne phys (base + 4 * i) p v (λ z. ground arith)

pub identity_entries-inside :
    (left i base : ℕ) (phys : Words) (t p : ℕ)
    → i ≤ t
    → t < i + left
    → t < 2 ^ 20
    → p ≡ base + 4 * t
    → identity_entries left i base phys p ≡ t * 4096 + 3
unfolding identity_entries
identity_entries-inside zero i base phys t p h h' small e = absurd (omega arith)
identity_entries-inside (suc left) i base phys t p h h' small e = elim (eq_or_ne t i) [
  | inl z ↦
      let v = boot_entry (i * 2 ^ 12 % 2 ^ 32) in
      identity_entries-outside left (i + 1) base (update phys (base + 4 * i) v) p
        (inl (omega arith))
      ∙ update_eq phys (base + 4 * i) p v (omega arith)
      ∙ boot_entry_lem (i * 2 ^ 12 % 2 ^ 32) (omega arith)
      ∙ omega arith
  | inr ne ↦
      identity_entries-inside left (i + 1) base
        (update phys (base + 4 * i) (boot_entry (i * 2 ^ 12 % 2 ^ 32))) t p (omega arith)
        (omega arith) small e
]
