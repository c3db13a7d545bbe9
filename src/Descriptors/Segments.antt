-- ===== src/Descriptors/Segments.antt =====
-- What set_gdt_entry of src/arch/x86/gdt.c means to the processor.
use atros.Base.{
  ℕ, ◌+◌, ◌-◌, ◌*◌, ◌/◌, ◌%◌, ◌^◌, ◌<◌, ◌≡◌, ◌≢◌, refl, sym, arith, lt→ltb, bit_and, bit_and_mask,
  bit_or_field,
}
use atros.LinkedLists.Links.{update, update_eq, update_ne}
use atros.Descriptors.Gdt.{GdtEntry, Gdt, gdt_entry, set_gdt_entry, nbr_gdt_entries}

-- A descriptor as the manual of the processor reads it: base, limit, access byte and the four flags
-- of the size.
abbrev pub base_of : GdtEntry → ℕ
base_of e = e.base_addr_0_15 + 2 ^ 16 * e.base_addr_16_23 + 2 ^ 24 * e.base_addr_24_31

abbrev pub limit_of : GdtEntry → ℕ
limit_of e = e.seg_limit_0_15 + 2 ^ 16 * (e.flags2 % 2 ^ 4)

abbrev pub size_flags_of : GdtEntry → ℕ
size_flags_of e = e.flags2 / 2 ^ 4

-- An entry of the table describes a segment, and the others are kept.
pub record Describes (n base limit flags1 flags2 : ℕ) (kgdt kgdt' : Gdt) : Type 0 where
  pub base_is : base_of (kgdt' n) ≡ base
  pub limit_is : limit_of (kgdt' n) ≡ limit
  pub access_is : (kgdt' n).flags1 ≡ flags1
  pub size_is : size_flags_of (kgdt' n) ≡ flags2 / 2 ^ 4
  pub others : (m : ℕ) → m ≢ n → kgdt' m ≡ kgdt m

module _ (base limit flags1 flags2 : ℕ) (fits : limit < 2 ^ 20) (free : flags2 % 2 ^ 4 ≡ 0) where
  gdt_entry-flags2 : (gdt_entry base limit flags1 flags2).flags2 ≡ flags2 + limit / 2 ^ 16
  unfolding gdt_entry
  gdt_entry-flags2 =
      let high : bit_and (limit / 2 ^ 16) (2 ^ 8 - 1) ≡ limit / 2 ^ 16 % 2 ^ 8 =
        bit_and_mask 8 (limit / 2 ^ 16) in
      let cut : limit / 2 ^ 16 % 2 ^ 8 % 2 ^ 8 ≡ limit / 2 ^ 16 = omega arith in
      let aligned : flags2 ≡ flags2 / 2 ^ 4 * 2 ^ 4 = omega arith in
      let joined = bit_or_field 4 (flags2 / 2 ^ 4) (limit / 2 ^ 16) (omega arith) in
      rw (high, cut) ((rw (sym aligned) at joined))

  gdt_entry-limit : limit_of (gdt_entry base limit flags1 flags2) ≡ limit
  unfolding gdt_entry
  gdt_entry-limit =
      let low : bit_and limit (2 ^ 16 - 1) ≡ limit % 2 ^ 16 = bit_and_mask 16 limit in
      rw (low, gdt_entry-flags2) (omega arith)

  gdt_entry-base : base < 2 ^ 32 → base_of (gdt_entry base limit flags1 flags2) ≡ base
  unfolding gdt_entry
  gdt_entry-base h =
      let low : bit_and base (2 ^ 16 - 1) ≡ base % 2 ^ 16 = bit_and_mask 16 base in
      let middle : bit_and (base / 2 ^ 16) (2 ^ 8 - 1) ≡ base / 2 ^ 16 % 2 ^ 8 =
        bit_and_mask 8 (base / 2 ^ 16) in
      let high : bit_and (base / 2 ^ 24) (2 ^ 8 - 1) ≡ base / 2 ^ 24 % 2 ^ 8 =
        bit_and_mask 8 (base / 2 ^ 24) in
      rw (low, middle, high) (omega arith)

gdt_entry-access :
    (base limit flags1 flags2 : ℕ) → (gdt_entry base limit flags1 flags2).flags1 ≡ flags1
unfolding gdt_entry
gdt_entry-access base limit flags1 flags2 = refl

-- For an index in the table, a 32-bit base, a limit of 20 bits and flags whose low 4 bits are clear,
-- set_gdt_entry writes a descriptor that the processor reads as this base, this limit and these
-- flags, and keeps all other entries.
pub set_gdt_entry-Describes :
    (n base limit flags1 flags2 : ℕ) (kgdt : Gdt)
    → n < nbr_gdt_entries
    → base < 2 ^ 32
    → limit < 2 ^ 20
    → flags2 % 2 ^ 4 ≡ 0
    → Describes n base limit flags1 flags2 kgdt (set_gdt_entry n base limit flags1 flags2 kgdt)
unfolding set_gdt_entry
set_gdt_entry-Describes n base limit flags1 flags2 kgdt h word fits free =
    let e = gdt_entry base limit flags1 flags2 in
    let here : update kgdt n e n ≡ e = update_eq kgdt n n e refl in
    rw (lt→ltb n 16 h) (record {
      base_is = rw here (gdt_entry-base base limit flags1 flags2 fits free word);
      limit_is = rw here (gdt_entry-limit base limit flags1 flags2 fits free);
      access_is = rw here (gdt_entry-access base limit flags1 flags2);
      size_is = rw (here, gdt_entry-flags2 base limit flags1 flags2 fits free) (omega arith);
      others = λ m ne. update_ne kgdt n m e ne;
    })
