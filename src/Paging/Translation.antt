-- ===== src/Paging/Translation.antt =====
-- virt_to_phys_addr of src/arch/x86/paging.c against the processor's translation.
use atros.Base.{
  ℕ, ◌+◌, ◌-◌, ◌*◌, ◌/◌, ◌%◌, ◌^◌, ◌<◌, ◌≡◌, ◌⊎◌, inl, inr, refl, arith, ok, some, none, Option,
  ◌==◌, bit_and, bit_and_mask, bit_and_align, bit_and_one_bit, false, Bool-cases, ==_iff,
}
use atros.Paging.Processor.{Machine, walk, walk_pte}
use atros.Paging.Entries.{
  virt_to_phys_addr, get_pde_index_of, get_pte_index_of, get_addr_of_pte, get_addr_of_pde,
  phys_addr_of_pte,
}
use atros.Paging.Window.{pde_of, frame, IsPresent, NamesTable, IsRecursive, get_pde-ok, get_pte-ok}

abbrev pub IsWords : Machine → Type 0
IsWords m = (a : ℕ) → m.phys a < 2 ^ 32

-- NULL stands for no address.
abbrev pub or_null : Option ℕ → ℕ
or_null none = 0
or_null (some a) = a

pub present_bit : (e : ℕ) → bit_and e 1 ≡ e % 2
present_bit e = bit_and_mask 1 e

pub size_bit : (e : ℕ) → bit_and e 128 ≡ e / 128 % 2 * 128
size_bit e = bit_and_one_bit 7 e

pub get_pte_index_of_lem : (v : ℕ) → get_pte_index_of v ≡ v / 4096 % 1024
unfolding get_pte_index_of
get_pte_index_of_lem v = bit_and_mask 10 (v / 2 ^ 12)

frame_mask : (e : ℕ) → e < 2 ^ 32 → bit_and e (2 ^ 32 - 1 - (2 ^ 12 - 1)) ≡ e / 4096 * 4096
frame_mask e h = bit_and_align 20 12 e (omega arith)

phys_addr_of_pte-walk_pte :
    (v pte : ℕ) → v < 2 ^ 32 → pte < 2 ^ 32 → phys_addr_of_pte v pte ≡ or_null (walk_pte pte v)
unfolding phys_addr_of_pte get_addr_of_pte
phys_addr_of_pte-walk_pte v pte h h' = elim (Bool-cases (pte % 2 == 0)) [
  | inl e ↦ rw (present_bit pte, e) refl
  | inr e ↦ rw (present_bit pte, e, frame_mask pte h', bit_and_mask 12 v) (omega arith)
]

-- With the recursive entry set, virt_to_phys_addr finds the address that the processor translates
-- to, and NULL where there is none, except for pages of 4 MB whose entry has one of the bits 12 to
-- 21 set; and it changes nothing.
pub virt_to_phys_addr-walk :
    (m : Machine) (v : ℕ)
    → IsRecursive m
    → IsWords m
    → v < 2 ^ 32
    → NamesTable (pde_of m (v / 2 ^ 22)) ⊎ (pde_of m (v / 2 ^ 22) / 4096 % 1024 ≡ 0)
    → virt_to_phys_addr v m ≡ ok (or_null (walk m v), m)
unfolding virt_to_phys_addr walk get_pde_index_of get_addr_of_pde
virt_to_phys_addr-walk m v r w h kind =
    let d = v / 2 ^ 22 in
    let pde = pde_of m d in
    let get = get_pde-ok m d r (omega arith) in
    elim (Bool-cases (pde % 2 == 0)) [
      | inl e ↦ rw (get, present_bit pde, e) refl
      | inr e ↦ elim (Bool-cases (pde / 128 % 2 == 0)) [
        | inl s ↦
            let s' : pde / 128 % 2 ≡ 0 = (==_iff (pde / 128 % 2) 0).0 s in
            let p : IsPresent pde = ground arith in
            let t = v / 4096 % 1024 in
            rw
              (
                get,
                present_bit pde,
                e,
                size_bit pde,
                s',
                get_pte_index_of_lem v,
                get_pte-ok m d t r (omega arith) (omega arith) p,
                phys_addr_of_pte-walk_pte v (m.phys (frame pde + 4 * t)) h (w (frame pde + 4 * t)),
              )
              refl
        | inr s ↦
            let k : pde / 4096 % 1024 ≡ 0 = ground arith in
            let b : (bit_and pde 128 == 0) ≡ false = rw (size_bit pde) (ground arith) in
            let sum : (pde / 4096 * 4096 + v % 2 ^ 22) % 2 ^ 32
                ≡ pde / 2 ^ 22 * 2 ^ 22 + v % 2 ^ 22 =
              omega (arith, w (m.cr3 + 4 * d)) in
            rw
              (
                get,
                present_bit pde,
                e,
                b,
                frame_mask pde (w (m.cr3 + 4 * d)),
                bit_and_mask 22 v,
                s,
                sum,
              )
              refl
      ]
    ]
