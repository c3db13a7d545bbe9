-- ===== src/Paging/Mapping.antt =====
-- map_page of src/arch/x86/paging.c: which virtual addresses it maps where.
use atros.Base.{
  ℕ, ◌+◌, ◌*◌, ◌/◌, ◌%◌, ◌^◌, ◌<◌, ◌≤◌, ◌≡◌, ◌≢◌, refl, sym, ap, ◌∙◌, arith, ok, some, Outcome,
  ◌==◌, ne→==, bit_or_field, Bool-cases, eq_or_ne, ◌⊎◌, inl, inr,
}
use atros.LinkedLists.Links.{update, update_eq, update_ne}
use atros.PhysicalPages.Address.{ppn_to_paddr}
use atros.VirtualPages.Regions.{vpn_to_vaddr}
use atros.Paging.Processor.{Machine, walk}
use atros.Paging.Entries.{map_page, map_small_page, get_pde_index_of}
use atros.Paging.Window.{pde_of, frame, IsPresent, NamesTable, IsRecursive, get_pde-ok, set_pte-ok}
use atros.Paging.Translation.{present_bit, size_bit, get_pte_index_of_lem}

-- An entry of the page directory that names a page table.
abbrev pub HasTable : Machine → ℕ → Type 0
HasTable m d = IsPresent (pde_of m d) × NamesTable (pde_of m d)

-- The window is open, and no page table is shared: not with another entry, and not with the
-- directory, which is the table of the last entry.
pub record IsPaged (m : Machine) : Type 0 where
  pub window : IsRecursive m
  pub lone :
      (d d' : ℕ)
      → d < 1024
      → d' < 1024
      → d ≢ d'
      → HasTable m d
      → HasTable m d'
      → frame (pde_of m d) ≢ frame (pde_of m d')

-- The flags of an entry that is present and names no 4 MB page.
abbrev pub AreFlags : ℕ → Type 0
AreFlags flags = (flags < 4096) × IsPresent flags × NamesTable flags

-- A run that maps the pages from `vpn` on to the frames from `ppn` on, and changes no other
-- translation.
pub record Maps (m : Machine) (ppn vpn n : ℕ) (r : Outcome (Unit {0} × Machine)) : Type 0 where
  pub after : Machine
  pub done : r ≡ ok (tt, after)
  pub paged : IsPaged after
  pub directory : (d : ℕ) → d < 1024 → pde_of after d ≡ pde_of m d
  pub mapped :
      (i offset : ℕ)
      → i < n
      → offset < 4096
      → walk after ((vpn + i) * 4096 + offset) ≡ some ((ppn + i) * 4096 + offset)
  pub others :
      (v : ℕ) → v < 2 ^ 32 → (v / 4096 < vpn) ⊎ (vpn + n ≤ v / 4096) → walk after v ≡ walk m v

-- An entry of a page table is written.
abbrev pub place : Machine → ℕ → ℕ → ℕ
place m d t = frame (pde_of m d) + 4 * t

abbrev pub written : Machine → ℕ → ℕ → ℕ → ℕ → Machine
written m d t ppn flags = record m { phys = update m.phys (place m d t) (ppn * 4096 + flags) }

module _ (m : Machine) (d t ppn flags : ℕ) (w : IsPaged m) (small : d < 1023) (small' : t < 1024)
    (has : HasTable m d) (are : AreFlags flags) where
  frame-ne_cr3 : frame (pde_of m d) ≢ m.cr3
  frame-ne_cr3 e =
      w.lone d 1023 (omega arith) (omega arith) (λ z. omega arith) has
        (w.window.present, w.window.small) (e ∙ sym w.window.to_itself)

  pub written-directory : (d' : ℕ) → d' < 1024 → pde_of (written m d t ppn flags) d' ≡ pde_of m d'
  written-directory d' h =
      update_ne m.phys (place m d t) (m.cr3 + 4 * d') (ppn * 4096 + flags)
        (λ e. frame-ne_cr3 (omega (arith, w.window.aligned)))

  pub written-IsPaged : IsPaged (written m d t ppn flags)
  written-IsPaged =
      let e = written-directory 1023 (omega arith) in
      record {
        window = record {
          aligned = w.window.aligned;
          to_itself = rw e w.window.to_itself;
          present = rw e w.window.present;
          small = rw e w.window.small;
        };
        lone = λ a b h h' ne p q.
            let ea = written-directory a h in
            let eb = written-directory b h' in
            rw (ea, eb) (w.lone a b h h' ne (rw ea at p) (rw eb at q));
      }

  -- The processor reads the written m d t ppn flags entry for the one page only.
  pub written-walk :
      (offset : ℕ)
      → offset < 4096
      → walk (written m d t ppn flags) ((d * 1024 + t) * 4096 + offset) ≡ some (ppn * 4096 + offset)
  unfolding walk
  written-walk offset h =
      let v = (d * 1024 + t) * 4096 + offset in
      let ed : v / 2 ^ 22 ≡ d = omega arith in
      let et : v / 4096 % 1024 ≡ t = omega arith in
      let eo : v % 4096 ≡ offset = omega arith in
      let new : update m.phys (place m d t) (ppn * 4096 + flags) (place m d t)
          ≡ ppn * 4096 + flags =
        update_eq m.phys (place m d t) (place m d t) (ppn * 4096 + flags) refl in
      let odd : (ppn * 4096 + flags) % 2 ≡ 1 = omega (arith, are.1) in
      let base : (ppn * 4096 + flags) / 4096 ≡ ppn = omega (arith, are.0) in
      rw (ed, et, eo, written-directory d (omega arith), has.0, has.1, new, odd, base) refl

  pub written-walk_others :
      (v : ℕ) → v < 2 ^ 32 → v / 4096 ≢ d * 1024 + t → walk (written m d t ppn flags) v ≡ walk m v
  unfolding walk
  written-walk_others v h ne =
      let d' = v / 2 ^ 22 in
      let e = pde_of m d' in
      let same : pde_of (written m d t ppn flags) d' ≡ e = written-directory d' (omega arith) in
      elim (Bool-cases (e % 2 == 0)) [
        | inl z ↦ rw (same, z) refl
        | inr z ↦ elim (Bool-cases (e / 128 % 2 == 0)) [
          | inr s ↦ rw (same, z, s) refl
          | inl s ↦
              let has' : HasTable m d' = (ground arith, ground arith) in
              let apart : frame e + 4 * (v / 4096 % 1024) ≢ place m d t = λ z'.
                elim (eq_or_ne d d') [
                  | inl same_d ↦ ne (omega (arith, ap (λ (x : ℕ). frame (pde_of m x)) same_d))
                  | inr ne_d ↦ w.lone d d' (omega arith) (omega arith) ne_d has has' (omega arith)
                ] in
              rw
                (
                  same,
                  z,
                  s,
                  update_ne m.phys (place m d t) (frame e + 4 * (v / 4096 % 1024))
                      (ppn * 4096 + flags) apart,
                )
                refl
        ]
      ]

-- For a page number below 2^20, flags of a present page of 4 KB, and a virtual page that is not 0,
-- not in the window, and in the reach of a page table, map_page maps the page to the frame, and
-- changes no other translation.
pub map_page-Maps :
    (m : Machine) (ppn vpn flags : ℕ)
    → IsPaged m
    → AreFlags flags
    → ppn < 2 ^ 20
    → 0 < vpn
    → vpn < 1023 * 1024
    → HasTable m (vpn / 1024)
    → Maps m ppn vpn 1 (map_page ppn vpn flags m)
unfolding map_page map_small_page ppn_to_paddr vpn_to_vaddr get_pde_index_of
map_page-Maps m ppn vpn flags w are small pos below has =
    let d = vpn / 1024 in
    let t = vpn % 1024 in
    let va : vpn * 2 ^ 12 % 2 ^ 32 ≡ vpn * 4096 = omega arith in
    let pa : ppn * 2 ^ 12 % 2 ^ 32 ≡ ppn * 2 ^ 12 = omega arith in
    let ed : vpn * 4096 / 2 ^ 22 ≡ d = omega arith in
    let et : vpn * 4096 / 4096 % 1024 ≡ t = omega arith in
    let whole : d * 1024 + t ≡ vpn = omega arith in
    record {
      after = written m d t ppn flags;
      done =
          rw
            (
              va,
              ne→== (vpn * 4096) 0 (λ z. omega arith),
              size_bit flags,
              are.2,
              pa,
              ed,
              get_pde-ok m d w.window (omega arith),
              present_bit (pde_of m d),
              has.0,
              get_pte_index_of_lem (vpn * 4096),
              et,
              bit_or_field 12 ppn flags are.0,
            )
            (set_pte-ok m d t (ppn * 4096 + flags) w.window (omega arith) (omega arith) has.0);
      paged = written-IsPaged m d t ppn flags w (omega arith) (omega arith) has are;
      directory = written-directory m d t ppn flags w (omega arith) (omega arith) has are;
      mapped = λ i offset h h'.
          let z : i ≡ 0 = omega arith in
          let va' : (vpn + i) * 4096 + offset ≡ (d * 1024 + t) * 4096 + offset = omega arith in
          let pa' : (ppn + i) * 4096 + offset ≡ ppn * 4096 + offset = omega arith in
          rw (va', pa')
            (written-walk m d t ppn flags w (omega arith) (omega arith) has are offset h');
      others = λ v h out.
          written-walk_others m d t ppn flags w (omega arith) (omega arith) has are v h
            (λ z. ground arith);
    }
