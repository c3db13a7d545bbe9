-- ===== src/Descriptors/Tests.antt =====
-- The theorems about the descriptor tables of src/arch/x86 at concrete tables.
use atros.Base.{◌+◌, ◌*◌, arith, refl}
use atros.Descriptors.Gdt.{Gdt, set_gdt_entry}
use atros.Descriptors.Idt.{Idt, idt_init}
use atros.Descriptors.Segments.{Describes, set_gdt_entry-Describes}
use atros.Descriptors.Gates.{IsGate, level_of, idt_init-IsGate}

abbrev no_segments : Gdt
no_segments = λ _. record {
  seg_limit_0_15 = 0;
  base_addr_0_15 = 0;
  base_addr_16_23 = 0;
  flags1 = 0;
  flags2 = 0;
  base_addr_24_31 = 0;
}

abbrev no_gates : Idt
no_gates =
    λ _. record { offset_0_15 = 0; seg_selector = 0; flags1 = 0; flags2 = 0; offset_16_31 = 0 }

set_gdt_entry-Describes_example :
    Describes 2 0x12345678 0xfffff 146 192 no_segments
      (set_gdt_entry 2 0x12345678 0xfffff 146 192 no_segments)
set_gdt_entry-Describes_example =
    set_gdt_entry-Describes 2 0x12345678 0xfffff 146 192 no_segments (omega arith) (omega arith)
      (omega arith) refl

idt_init-IsGate_example :
    IsGate (idt_init (λ n. 0xc0100000 + 16 * n) no_gates 4) (0xc0100000 + 16 * 4) (level_of 4)
idt_init-IsGate_example =
    idt_init-IsGate (λ n. 0xc0100000 + 16 * n) no_gates 4 (omega arith) (omega arith)
