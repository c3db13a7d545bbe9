-- ===== src/Descriptors/Gates.antt =====
-- What idt_init of src/arch/x86/idt.c means to the processor.
use atros.Base.{
  ℕ, zero, suc, ◌+◌, ◌-◌, ◌*◌, ◌/◌, ◌%◌, ◌^◌, ◌<◌, ◌≤◌, ◌≡◌, ◌≢◌, refl, ◌∙◌, arith, lt→ltb, ◌==◌,
  if◌then◌else◌, bit_and, bit_and_mask, ne→==, ==_refl, eq_or_ne, inl, inr,
}
use atros.LinkedLists.Links.{update, update_eq, update_ne}
use atros.Descriptors.Idt.{
  IdtEntry, Idt, idt_entry, set_idt_entry, set_intr_gate, set_system_gate, set_intr_gates, idt_init,
  nbr_idt_entries, kernel_cs,
}

-- A gate as the manual of the processor reads it: the address of the handler, the selector of its
-- segment, the kind (14 is a 32-bit interrupt gate), the privilege level, and the present bit.
pub record IsGate (e : IdtEntry) (handler level : ℕ) : Type 0 where
  pub offset : e.offset_0_15 + 2 ^ 16 * e.offset_16_31 ≡ handler
  pub selector : e.seg_selector ≡ 8
  pub kind : e.flags2 % 2 ^ 4 ≡ 14
  pub privilege : e.flags2 / 2 ^ 5 % 4 ≡ level
  pub present : e.flags2 / 2 ^ 7 ≡ 1

-- The level from which an interrupt may be called: 3 for breakpoints, overflow, bounds and system
-- calls, and else 0.
abbrev pub level_of : ℕ → ℕ
level_of n =
    if n == 128 then 3 else if n == 5 then 3 else if n == 4 then 3 else if n == 3 then 3 else 0

idt_entry-IsGate :
    (addr flags level : ℕ)
    → addr < 2 ^ 32
    → flags % 2 ^ 4 ≡ 14
    → flags / 2 ^ 5 % 4 ≡ level
    → flags / 2 ^ 7 ≡ 1
    → IsGate (idt_entry kernel_cs addr 0 flags) addr level
unfolding idt_entry
idt_entry-IsGate addr flags level word kind privilege present =
    let low : bit_and addr (2 ^ 16 - 1) ≡ addr % 2 ^ 16 = bit_and_mask 16 addr in
    let high : bit_and (addr / 2 ^ 16) (2 ^ 16 - 1) ≡ addr / 2 ^ 16 % 2 ^ 16 =
      bit_and_mask 16 (addr / 2 ^ 16) in
    record {
      offset = rw (low, high) (omega arith);
      selector = refl;
      kind = kind;
      privilege = privilege;
      present = present;
    }

abbrev intr_gate : ℕ → IdtEntry
intr_gate addr = idt_entry kernel_cs addr 0 142

abbrev system_gate : ℕ → IdtEntry
system_gate addr = idt_entry kernel_cs addr 0 238

set_intr_gate-update :
    (n addr : ℕ) (idt : Idt) → n < 256 → set_intr_gate n addr idt ≡ update idt n (intr_gate addr)
unfolding set_intr_gate set_idt_entry
set_intr_gate-update n addr idt h = rw (lt→ltb n 256 h) refl

module _ (m addr : ℕ) (idt : Idt) (h : m < 256) where
  set_system_gate-here : set_system_gate m addr idt m ≡ system_gate addr
  unfolding set_system_gate set_idt_entry
  set_system_gate-here = rw (lt→ltb m 256 h) (update_eq idt m m (system_gate addr) refl)

  set_system_gate-other : (n : ℕ) → n ≢ m → set_system_gate m addr idt n ≡ idt n
  unfolding set_system_gate set_idt_entry
  set_system_gate-other n ne = rw (lt→ltb m 256 h) (update_ne idt m n (system_gate addr) ne)

-- The loop leaves the entries before `i`.
set_intr_gates-before :
    (left i : ℕ) (isr_entries : ℕ → ℕ) (idt : Idt) (n : ℕ)
    → i + left ≤ 256
    → n < i
    → set_intr_gates left i isr_entries idt n ≡ idt n
unfolding set_intr_gates
set_intr_gates-before zero i isr_entries idt n room h = refl
set_intr_gates-before (suc left) i isr_entries idt n room h =
    set_intr_gates-before left (i + 1) isr_entries (set_intr_gate i (isr_entries i) idt) n
      (omega arith) (omega arith)
    ∙ rw (set_intr_gate-update i (isr_entries i) idt (omega arith))
        (update_ne idt i n (intr_gate (isr_entries i)) (λ z. omega arith))

set_intr_gates-entry :
    (left i : ℕ) (isr_entries : ℕ → ℕ) (idt : Idt) (n : ℕ)
    → i + left ≤ 256
    → i ≤ n
    → n < i + left
    → set_intr_gates left i isr_entries idt n ≡ intr_gate (isr_entries n)
unfolding set_intr_gates
set_intr_gates-entry zero i isr_entries idt n room low high = absurd (omega arith)
set_intr_gates-entry (suc left) i isr_entries idt n room low high =
    let idt1 = set_intr_gate i (isr_entries i) idt in
    elim (eq_or_ne n i) [
      | inl e ↦
          set_intr_gates-before left (i + 1) isr_entries idt1 n (omega arith) (omega arith)
          ∙ rw (set_intr_gate-update i (isr_entries i) idt (omega arith), e)
              (update_eq idt i i (intr_gate (isr_entries i)) refl)
      | inr ne ↦
          set_intr_gates-entry left (i + 1) isr_entries idt1 n (omega arith) (omega arith)
            (omega arith)
    ]

-- A system gate at `m` in front of what holds without it.
set_system_gate-IsGate :
    (m n level : ℕ) (isr_entries : ℕ → ℕ) (idt : Idt)
    → m < 256
    → isr_entries n < 2 ^ 32
    → IsGate (idt n) (isr_entries n) level
    → IsGate (set_system_gate m (isr_entries m) idt n) (isr_entries n) (if n == m then 3 else level)
set_system_gate-IsGate m n level isr_entries idt h word w = elim (eq_or_ne n m) [
  | inl e ↦
      rw (e, ==_refl m, set_system_gate-here m (isr_entries m) idt h)
        (idt_entry-IsGate (isr_entries m) 238 3 (rw e at word) refl refl refl)
  | inr ne ↦ rw (ne→== n m ne, set_system_gate-other m (isr_entries m) idt h n ne) w
]

-- With 32-bit addresses of the handlers, after idt_init every entry of the table is a present 32-bit
-- interrupt gate in the kernel's code segment to the handler of its number, which programs may call
-- for breakpoints, overflow, bounds and system calls, and for no other.
pub idt_init-IsGate :
    (isr_entries : ℕ → ℕ) (idt : Idt) (n : ℕ)
    → n < nbr_idt_entries
    → isr_entries n < 2 ^ 32
    → IsGate (idt_init isr_entries idt n) (isr_entries n) (level_of n)
unfolding idt_init
idt_init-IsGate isr_entries idt n h word =
    let g = set_intr_gates nbr_idt_entries 0 isr_entries idt in
    let g3 = set_system_gate 3 (isr_entries 3) g in
    let g4 = set_system_gate 4 (isr_entries 4) g3 in
    let g5 = set_system_gate 5 (isr_entries 5) g4 in
    let w0 : IsGate (g n) (isr_entries n) 0 =
      rw (set_intr_gates-entry 256 0 isr_entries idt n (omega arith) (omega arith) (omega arith))
        (idt_entry-IsGate (isr_entries n) 142 0 word refl refl refl) in
    let w3 = set_system_gate-IsGate 3 n 0 isr_entries g (omega arith) word w0 in
    let w4 =
      set_system_gate-IsGate 4 n (if n == 3 then 3 else 0) isr_entries g3 (omega arith) word w3 in
    let w5 =
      set_system_gate-IsGate 5 n (if n == 4 then 3 else if n == 3 then 3 else 0) isr_entries g4
        (omega arith) word w4 in
    set_system_gate-IsGate 128 n
      (if n == 5 then 3 else if n == 4 then 3 else if n == 3 then 3 else 0) isr_entries g5
      (omega arith) word w5
