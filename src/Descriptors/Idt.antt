-- ===== src/Descriptors/Idt.antt =====
-- src/arch/x86/idt.c: the table of gates.
use atros.Base.{ℕ, zero, suc, ◌+◌, ◌-◌, ◌*◌, ◌/◌, ◌%◌, ◌^◌, ltb, if◌then◌else◌, bit_and, bit_or}
use atros.LinkedLists.Links.{update}

pub record IdtEntry : Type 0 where
  pub offset_0_15 : ℕ
  pub seg_selector : ℕ
  pub flags1 : ℕ
  pub flags2 : ℕ
  pub offset_16_31 : ℕ

-- The table idt.
abbrev pub Idt : Type 0
Idt = ℕ → IdtEntry

abbrev pub nbr_idt_entries : ℕ
nbr_idt_entries = 256

-- KERNEL_CS of gdt.h.
abbrev pub kernel_cs : ℕ
kernel_cs = 1 * 2 ^ 3

-- SYSCALL_VECTOR of kernel.h.
abbrev pub syscall_vector : ℕ
syscall_vector = 0x80

-- The flags of a gate, joined by '|'.
abbrev pub gate_flags : ℕ → ℕ → ℕ
gate_flags kind dpl = bit_or (bit_or (bit_or kind dpl) (2 ^ 7)) (2 ^ 3)

abbrev pub idt_interrupt : ℕ
idt_interrupt = 6

abbrev pub idt_trap : ℕ
idt_trap = 7

abbrev pub idt_dpl0 : ℕ
idt_dpl0 = 0

abbrev pub idt_dpl3 : ℕ
idt_dpl3 = 3 * 2 ^ 5

unfoldable pub idt_entry : ℕ → ℕ → ℕ → ℕ → IdtEntry
idt_entry seg_sel offset flags1 flags2 = record {
  offset_0_15 = bit_and offset (2 ^ 16 - 1) % 2 ^ 16;
  seg_selector = seg_sel % 2 ^ 16;
  flags1 = flags1;
  flags2 = flags2;
  offset_16_31 = bit_and (offset / 2 ^ 16) (2 ^ 16 - 1) % 2 ^ 16;
}

unfoldable pub set_idt_entry : ℕ → ℕ → ℕ → ℕ → ℕ → Idt → Idt
set_idt_entry n seg_sel offset flags1 flags2 idt =
    if ltb n nbr_idt_entries then update idt n (idt_entry seg_sel offset flags1 flags2) else idt

unfoldable pub set_intr_gate : ℕ → ℕ → Idt → Idt
set_intr_gate n addr = set_idt_entry n kernel_cs addr 0 (gate_flags idt_interrupt idt_dpl0)

unfoldable pub set_trap_gate : ℕ → ℕ → Idt → Idt
set_trap_gate n addr = set_idt_entry n kernel_cs addr 0 (gate_flags idt_trap idt_dpl0)

unfoldable pub set_system_gate : ℕ → ℕ → Idt → Idt
set_system_gate n addr = set_idt_entry n kernel_cs addr 0 (gate_flags idt_interrupt idt_dpl3)

-- The loop of idt_init, with `left` entries to go from entry `i`.
unfoldable pub set_intr_gates : ℕ → ℕ → (ℕ → ℕ) → Idt → Idt
set_intr_gates zero i isr_entries idt = idt
set_intr_gates (suc left) i isr_entries idt =
    set_intr_gates left (i + 1) isr_entries (set_intr_gate i (isr_entries i) idt)

-- idt_init without load_idtr, which is assembly.
unfoldable pub idt_init : (ℕ → ℕ) → Idt → Idt
idt_init isr_entries idt =
    let gates = set_intr_gates nbr_idt_entries 0 isr_entries idt in
    let g3 = set_system_gate 3 (isr_entries 3) gates in
    let g4 = set_system_gate 4 (isr_entries 4) g3 in
    let g5 = set_system_gate 5 (isr_entries 5) g4 in
    set_system_gate syscall_vector (isr_entries syscall_vector) g5
