-- ===== src/Paging/Examples.antt =====
-- A concrete machine for the tests of src/arch/x86/paging.c and of its users.
use atros.Base.{ℕ, ◌+◌, ◌*◌, ◌≡◌, ◌<◌, refl, sym, ◌∙◌, inl, inr, arith, ◌⊎◌, if◌then◌else◌, ◌==◌}
use atros.Paging.Processor.{Machine}
use atros.Paging.Window.{IsRecursive}
use atros.Paging.Mapping.{HasTable, IsPaged}

-- The directory at page 1 names the table at page 2 for the entry 768, and itself.
abbrev pub two_tables : Machine
two_tables = record {
  phys = λ a. if a == 4096 + 4 * 768 then 8195 else if a == 4096 + 4 * 1023 then 4099 else 0;
  cr3 = 4096;
}

pub two_tables-IsRecursive : IsRecursive two_tables
two_tables-IsRecursive = record { aligned = refl; to_itself = refl; present = refl; small = refl }

two_tables-HasTable : (d : ℕ) → d < 1024 → HasTable two_tables d → (d ≡ 768) ⊎ (d ≡ 1023)
two_tables-HasTable d h has = ground arith

pub two_tables-IsPaged : IsPaged two_tables
two_tables-IsPaged = record {
  window = two_tables-IsRecursive;
  lone = λ d d' h h' ne has has' z. elim (two_tables-HasTable d h has) [
    | inl e ↦ elim (two_tables-HasTable d' h' has') [
      | inl e' ↦ ne (e ∙ sym e')
      | inr e' ↦ let z' = rw (e, e') at (z) in omega arith
    ]
    | inr e ↦ elim (two_tables-HasTable d' h' has') [
      | inl e' ↦ let z' = rw (e, e') at (z) in omega arith
      | inr e' ↦ ne (e ∙ sym e')
    ]
  ];
}
