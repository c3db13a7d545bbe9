-- ===== src/Paging/Boot/Layout.antt =====
-- The address space that paging_boot_init of src/arch/x86/paging.c sets up.
use atros.Base.{
  ℕ, ◌+◌, ◌-◌, ◌*◌, ◌/◌, ◌%◌, ◌^◌, ◌<◌, ◌≤◌, ◌≡◌, ◌≢◌, refl, sym, ap, ◌∙◌, arith, ◌⊎◌, inl, inr,
  eq_or_ne, some, none, if◌then◌else◌, ◌==◌, ne→==, Bool-cases, leb, ltb, ltb→lt, ltb→ge, Bool,
  Option, ◌||◌, ◌&&◌,
}
use atros.LinkedLists.Links.{update, update_eq, update_ne}
use atros.PhysicalPages.Address.{paddr_to_ppn}
use atros.Paging.Processor.{Machine, walk}
use atros.Paging.Window.{pde_of, IsRecursive}
use atros.Paging.Mapping.{HasTable, IsPaged}
use atros.Paging.Boot.{Words, clear_words, boot_entry, identity_entries, paging_boot_init, round_up}
use atros.Paging.Boot.Fill.{
  clear_words-outside, clear_words-inside, boot_entry_lem, identity_entries-outside,
  identity_entries-inside,
}

-- The two tables are aligned and apart, and the image is not empty and ends below 4 MB.
pub record IsLoaded (kpgd first_kpgt boot_pa_start kernel_pa_end : ℕ) : Type 0 where
  pub directory : kpgd % 4096 ≡ 0
  pub table : first_kpgt % 4096 ≡ 0
  pub apart : kpgd ≢ first_kpgt
  pub start : boot_pa_start < kernel_pa_end
  pub end : kernel_pa_end ≤ 2 ^ 22

-- The pages that the first table maps: those of the first megabyte and of the image.
abbrev pub is_boot_page : ℕ → ℕ → ℕ → Bool
is_boot_page boot_pa_start kernel_pa_end t =
    ltb t 256 || (leb (boot_pa_start / 4096) t && ltb (t * 4096) kernel_pa_end)

-- Where a virtual address outside the window leads: from 3 GB on, to the same place of the first
-- 4 MB, if the page is one of these.
abbrev pub boot_translation : ℕ → ℕ → ℕ → Option ℕ
boot_translation boot_pa_start kernel_pa_end v =
    if (v / 2 ^ 22 == 768) && is_boot_page boot_pa_start kernel_pa_end (v / 4096 % 1024)
    then some (v % 2 ^ 22)
    else none

module _ (kpgd first_kpgt boot_pa_start kernel_pa_end : ℕ) (m : Machine)
    (w : IsLoaded kpgd first_kpgt boot_pa_start kernel_pa_end) where
  abbrev booted : Machine
  booted = paging_boot_init kpgd first_kpgt boot_pa_start kernel_pa_end m

  abbrev last : ℕ
  last = paddr_to_ppn (round_up kernel_pa_end 4096) - 1

  last_lem : (last * 4096 < kernel_pa_end) × (kernel_pa_end ≤ (last + 1) * 4096)
  unfolding paddr_to_ppn round_up
  last_lem = elim (eq_or_ne (kernel_pa_end % 4096) 0) [
    | inl e ↦ rw e (omega (arith, w.start), omega (arith, w.start))
    | inr ne ↦
        rw (ne→== (kernel_pa_end % 4096) 0 ne) (omega (arith, w.start), omega (arith, w.start))
  ]

  abbrev cleared : Words
  cleared = clear_words 1024 first_kpgt (clear_words 1024 kpgd m.phys)

  abbrev recursive : Words
  recursive =
      update (update cleared (kpgd + 4 * 768) (boot_entry first_kpgt)) (kpgd + 4 * 1023)
        (boot_entry kpgd)

  abbrev image : Words
  image =
      identity_entries (last + 1 - paddr_to_ppn boot_pa_start) (paddr_to_ppn boot_pa_start)
        first_kpgt recursive

  tables_apart : (kpgd + 4096 ≤ first_kpgt) ⊎ (first_kpgt + 4096 ≤ kpgd)
  tables_apart = elim (Bool-cases (ltb kpgd first_kpgt)) [
    | inl e ↦ inl (omega (arith, ltb→lt kpgd first_kpgt e, w.directory, w.table))
    | inr e ↦ inr (omega (arith, ltb→ge kpgd first_kpgt e, w.directory, w.table, ne_of w.apart))
  ]
    where
      ne_of : kpgd ≢ first_kpgt → (kpgd < first_kpgt) ⊎ (first_kpgt < kpgd)
      ne_of h = ground arith

  -- The loops over the first table leave the directory.
  directory_kept : (d : ℕ) → d < 1024 → pde_of booted d ≡ recursive (kpgd + 4 * d)
  unfolding paging_boot_init paddr_to_ppn
  directory_kept d h =
      identity_entries-outside 256 0 first_kpgt image (kpgd + 4 * d) (ground (arith, tables_apart))
      ∙ identity_entries-outside (last + 1 - boot_pa_start / 4096) (boot_pa_start / 4096) first_kpgt
          recursive (kpgd + 4 * d) (ground (arith, tables_apart, last_lem, w.end, w.start))

  cleared_directory : (d : ℕ) → d < 1024 → cleared (kpgd + 4 * d) ≡ 0
  cleared_directory d h =
      clear_words-outside 1024 first_kpgt (clear_words 1024 kpgd m.phys) (kpgd + 4 * d)
        (ground (arith, tables_apart))
      ∙ clear_words-inside 1024 kpgd m.phys d (kpgd + 4 * d) h refl

  booted-pde : (d : ℕ) → d < 1024 → d ≢ 768 → d ≢ 1023 → pde_of booted d ≡ 0
  booted-pde d h ne ne' =
      directory_kept d h
      ∙ update_ne (update cleared (kpgd + 4 * 768) (boot_entry first_kpgt)) (kpgd + 4 * 1023)
          (kpgd + 4 * d) (boot_entry kpgd) (λ z. ne' (omega arith))
      ∙ update_ne cleared (kpgd + 4 * 768) (kpgd + 4 * d) (boot_entry first_kpgt)
          (λ z. ne (omega arith))
      ∙ cleared_directory d h

  booted-pde_kernel : pde_of booted 768 ≡ first_kpgt + 3
  booted-pde_kernel =
      directory_kept 768 (omega arith)
      ∙ update_ne (update cleared (kpgd + 4 * 768) (boot_entry first_kpgt)) (kpgd + 4 * 1023)
          (kpgd + 4 * 768) (boot_entry kpgd) (λ z. omega arith)
      ∙ update_eq cleared (kpgd + 4 * 768) (kpgd + 4 * 768) (boot_entry first_kpgt) refl
      ∙ boot_entry_lem first_kpgt w.table

  booted-pde_recursive : pde_of booted 1023 ≡ kpgd + 3
  booted-pde_recursive =
      directory_kept 1023 (omega arith)
      ∙ update_eq (update cleared (kpgd + 4 * 768) (boot_entry first_kpgt)) (kpgd + 4 * 1023)
          (kpgd + 4 * 1023) (boot_entry kpgd) refl
      ∙ boot_entry_lem kpgd w.directory

  booted-cr3 : booted.cr3 ≡ kpgd
  unfolding paging_boot_init
  booted-cr3 = refl

  -- Only two entries of the directory are present.
  HasTable-of : (d : ℕ) → d < 1024 → HasTable booted d → (d ≡ 768) ⊎ (d ≡ 1023)
  HasTable-of d h has = elim (eq_or_ne d 768) [
    | inl e ↦ inl e
    | inr ne ↦ elim (eq_or_ne d 1023) [
      | inl e ↦ inr e
      | inr ne' ↦ absurd (omega (arith, has.0, booted-pde d h ne ne'))
    ]
  ]

  booted-IsRecursive : IsRecursive booted
  booted-IsRecursive = record {
    aligned = rw booted-cr3 w.directory;
    to_itself = rw (booted-pde_recursive, booted-cr3) (omega (arith, w.directory));
    present = rw booted-pde_recursive (omega (arith, w.directory));
    small = rw booted-pde_recursive (omega (arith, w.directory));
  }

  pub booted-IsPaged : IsPaged booted
  booted-IsPaged = record {
    window = booted-IsRecursive;
    lone = λ d d' h h' ne has has' z. elim (HasTable-of d h has) [
      | inl e ↦ elim (HasTable-of d' h' has') [
        | inl e' ↦ ne (e ∙ sym e')
        | inr e' ↦ w.apart (
            omega (
              arith,
              w.directory,
              w.table,
              booted-pde_kernel,
              booted-pde_recursive,
              ap (λ (x : ℕ). pde_of booted x) e,
              ap (λ (x : ℕ). pde_of booted x) e',
            ))
      ]
      | inr e ↦ elim (HasTable-of d' h' has') [
        | inr e' ↦ ne (e ∙ sym e')
        | inl e' ↦ w.apart (
            omega (
              arith,
              w.directory,
              w.table,
              booted-pde_kernel,
              booted-pde_recursive,
              ap (λ (x : ℕ). pde_of booted x) e,
              ap (λ (x : ℕ). pde_of booted x) e',
            ))
      ]
    ];
  }

  abbrev entry_of : ℕ → ℕ
  entry_of t = booted.phys (first_kpgt + 4 * t)

  low_entry : (t : ℕ) → t < 256 → entry_of t ≡ t * 4096 + 3
  unfolding paging_boot_init paddr_to_ppn
  low_entry t h =
      identity_entries-inside 256 0 first_kpgt image t (first_kpgt + 4 * t) (omega arith)
        (omega arith) (omega arith) refl

  above_low : (t : ℕ) → 256 ≤ t → entry_of t ≡ image (first_kpgt + 4 * t)
  unfolding paging_boot_init paddr_to_ppn
  above_low t h =
      identity_entries-outside 256 0 first_kpgt image (first_kpgt + 4 * t) (inr (omega arith))

  image_entry :
      (t : ℕ)
      → 256 ≤ t
      → boot_pa_start / 4096 ≤ t
      → t * 4096 < kernel_pa_end
      → entry_of t ≡ t * 4096 + 3
  unfolding paddr_to_ppn
  image_entry t low h h' =
      above_low t low
      ∙ identity_entries-inside (last + 1 - boot_pa_start / 4096) (boot_pa_start / 4096) first_kpgt
          recursive t (first_kpgt + 4 * t) h (omega (arith, last_lem)) (omega (arith, w.end)) refl

  other_entry :
      (t : ℕ)
      → 256 ≤ t
      → t < 1024
      → (t < boot_pa_start / 4096) ⊎ (kernel_pa_end ≤ t * 4096)
      → entry_of t ≡ 0
  unfolding paddr_to_ppn
  other_entry t low high h =
      above_low t low
      ∙ identity_entries-outside (last + 1 - boot_pa_start / 4096) (boot_pa_start / 4096) first_kpgt
          recursive (first_kpgt + 4 * t) (ground (arith, last_lem, w.start))
      ∙ update_ne (update cleared (kpgd + 4 * 768) (boot_entry first_kpgt)) (kpgd + 4 * 1023)
          (first_kpgt + 4 * t) (boot_entry kpgd) (λ z. ground (arith, tables_apart))
      ∙ update_ne cleared (kpgd + 4 * 768) (first_kpgt + 4 * t) (boot_entry first_kpgt)
          (λ z. ground (arith, tables_apart))
      ∙ clear_words-inside 1024 first_kpgt (clear_words 1024 kpgd m.phys) t (first_kpgt + 4 * t)
          high refl

  booted-entry :
      (t : ℕ)
      → t < 1024
      → entry_of t ≡ (if is_boot_page boot_pa_start kernel_pa_end t then t * 4096 + 3 else 0)
  booted-entry t h = ground (arith, low_entry t, image_entry t, other_entry t)

  booted-walk-kernel :
      (v : ℕ) → v / 2 ^ 22 ≡ 768 → walk booted v ≡ boot_translation boot_pa_start kernel_pa_end v
  unfolding walk
  booted-walk-kernel v e =
      let t = v / 4096 % 1024 in
      let odd : (first_kpgt + 3) % 2 ≡ 1 = omega (arith, w.table) in
      let kind : (first_kpgt + 3) / 128 % 2 ≡ 0 = omega (arith, w.table) in
      let at : (first_kpgt + 3) / 4096 * 4096 ≡ first_kpgt = omega (arith, w.table) in
      elim (Bool-cases (is_boot_page boot_pa_start kernel_pa_end t)) [
        | inl y ↦
            let p : entry_of t ≡ t * 4096 + 3 = rw y at (booted-entry t (omega arith)) in
            let odd' : (t * 4096 + 3) % 2 ≡ 1 = omega arith in
            let whole : (t * 4096 + 3) / 4096 * 4096 + v % 4096 ≡ v % 2 ^ 22 = omega arith in
            rw (e, booted-pde_kernel, odd, kind, at, p, y, odd', whole) refl
        | inr n ↦
            let p : entry_of t ≡ 0 = rw n at (booted-entry t (omega arith)) in
            rw (e, booted-pde_kernel, odd, kind, at, p, n) refl
      ]

  booted-walk-none :
      (v : ℕ) → v < 2 ^ 32 → v / 2 ^ 22 ≢ 768 → v / 2 ^ 22 ≢ 1023 → walk booted v ≡ none
  unfolding walk
  booted-walk-none v h ne ne' = rw (booted-pde (v / 2 ^ 22) (omega arith) ne ne') refl

-- With the two tables aligned and apart, and an image that is not empty and ends below 4 MB, after
-- paging_boot_init the tables are well formed, and outside the window exactly the pages of the
-- first megabyte and of the kernel image are mapped, 3 GB above their physical addresses.
pub paging_boot_init-translation :
    (kpgd first_kpgt boot_pa_start kernel_pa_end : ℕ) (m : Machine) (v : ℕ)
    → IsLoaded kpgd first_kpgt boot_pa_start kernel_pa_end
    → v < 2 ^ 32
    → v / 2 ^ 22 ≢ 1023
    → IsPaged (paging_boot_init kpgd first_kpgt boot_pa_start kernel_pa_end m)
      × (walk (paging_boot_init kpgd first_kpgt boot_pa_start kernel_pa_end m) v
          ≡ boot_translation boot_pa_start kernel_pa_end v)
paging_boot_init-translation kpgd first_kpgt boot_pa_start kernel_pa_end m v w h ne = (
  booted-IsPaged kpgd first_kpgt boot_pa_start kernel_pa_end m w,
  elim (eq_or_ne (v / 2 ^ 22) 768) [
    | inl e ↦ booted-walk-kernel kpgd first_kpgt boot_pa_start kernel_pa_end m w v e
    | inr ne' ↦
        rw (ne→== (v / 2 ^ 22) 768 ne')
          (booted-walk-none kpgd first_kpgt boot_pa_start kernel_pa_end m w v h ne' ne)
  ],
)
