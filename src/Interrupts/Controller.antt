-- ===== src/Interrupts/Controller.antt =====
-- src/arch/x86/8259a.c, src/arch/x86/pit.c and set_interrupt_handler of src/arch/x86/interrupts.c.
use atros.Base.{
  ℕ, zero, suc, ◌+◌, ◌-◌, ◌/◌, ◌%◌, ◌^◌, leb, ltb, ◌==◌, if◌then◌else◌, Cmd, ok, fault, out_of_fuel,
  pure, ◌>>=◌, ◌>>◌, get, put, die, not, bit_and, bit_or,
}
use atros.LinkedLists.Links.{Ptr, null, update}
use atros.Interrupts.Ports.{Board, outb, inb, pic1_command, pic1_data, pic2_command, pic2_data}

abbrev pub vector_irq0 : ℕ
vector_irq0 = 32

abbrev pub vector_irq8 : ℕ
vector_irq8 = 40

-- ICW1_INIT + ICW1_ICW4_NEEDED
abbrev icw1 : ℕ
icw1 = 17

unfoldable pub pic_8259a_init : Cmd Board (Unit {0})
pic_8259a_init = do
  outb icw1 pic1_command
  outb icw1 pic2_command
  outb vector_irq0 pic1_data
  outb vector_irq8 pic2_data
  outb 4 pic1_data
  outb 2 pic2_data
  outb 1 pic1_data
  outb 1 pic2_data
  outb 0xff pic1_data
  outb 0xff pic2_data

unfoldable pub irq_ack : ℕ → Cmd Board (Unit {0})
irq_ack irq = if leb 8 irq then outb 0x20 pic2_command else outb 0x20 pic1_command

-- (uint8_t)(1U << n). A shift by 32 or more is undefined.
unfoldable pub line_bit : ℕ → Cmd Board ℕ
line_bit n = if ltb n 32 then pure (2 ^ n % 256) else (λ b. fault)

-- (uint8_t)~(1U << n)
unfoldable pub other_bits : ℕ → Cmd Board ℕ
other_bits n = if ltb n 32 then pure ((2 ^ 32 - 1 - 2 ^ n) % 256) else (λ b. fault)

unfoldable pub irq_disable : ℕ → Cmd Board (Unit {0})
irq_disable irq =
    if leb 8 irq
    then (do mask ← inb pic2_data; bit ← line_bit (irq - 8); outb (bit_or mask bit) pic2_data)
    else (do mask ← inb pic1_data; bit ← line_bit irq; outb (bit_or mask bit) pic1_data)

unfoldable pub irq_enable : ℕ → Cmd Board (Unit {0})
irq_enable irq =
    if leb 8 irq
    then (do mask ← inb pic2_data; bits ← other_bits (irq - 8); outb (bit_and mask bits) pic2_data)
    else (do mask ← inb pic1_data; bits ← other_bits irq; outb (bit_and mask bits) pic1_data)

-- The parameter is a byte.
unfoldable pub set_interrupt_handler : ℕ → Ptr → Cmd Board (Unit {0})
set_interrupt_handler n handler b =
    ok (tt, record b { interrupts_handlers = update b.interrupts_handlers (n % 256) handler })

unfoldable pub pit_irq_handler : Cmd Board (Unit {0})
pit_irq_handler = do b ← get; put (record b { pit_tick = (b.pit_tick + 1) % 2 ^ 32 }); irq_ack 0

-- `handler` is the address of pit_irq_handler.
unfoldable pub pit_init : Ptr → Cmd Board (Unit {0})
pit_init handler = set_interrupt_handler vector_irq0 handler

abbrev pub clock_tick_rate : ℕ
clock_tick_rate = 1193180

unfoldable pub pit_set_frequency : ℕ → Cmd Board (Unit {0})
pit_set_frequency hz =
    if ltb 0 hz
    then (do
      let divisor = clock_tick_rate / hz % 2 ^ 16
      outb 0x36 0x43
      outb (divisor % 256) 0x40
      outb (divisor / 256 % 256) 0x40)
    else pure tt

-- Of the registers that a low level handler saves, interrupt_dispatcher depends on one; what it does
-- with the others is to print them.
pub record Context : Type 0 where
  pub int_number : ℕ

abbrev pub nbr_interrupts : ℕ
nbr_interrupts = 256

abbrev pub vector_last_exception : ℕ
vector_last_exception = 31

-- The inner loop of the breakpoint: it waits until the keyboard has a key. Both loops run on fuel.
unfoldable pub wait_key : ℕ → Cmd Board (Unit {0})
wait_key zero = λ b. out_of_fuel
wait_key (suc fuel) = do i ← inb 0x64; if i % 2 == 0 then wait_key fuel else pure tt

-- The outer loop: until the key is Enter.
unfoldable pub wait_enter : ℕ → Cmd Board (Unit {0})
wait_enter zero = λ b. out_of_fuel
wait_enter (suc fuel) = do wait_key fuel; i ← inb 0x60; if i == 28 then pure tt else wait_enter fuel

-- `call` is what the function at an address does. The texts that it prints are left out, so the
-- system call, which only prints, does nothing. The table ends at its last entry.
unfoldable pub interrupt_dispatcher :
    ℕ → (Ptr → Cmd Board (Unit {0})) → Context → Cmd Board (Unit {0})
interrupt_dispatcher fuel call c =
    if c.int_number == 3
    then wait_enter fuel
    else if leb nbr_interrupts c.int_number
    then (λ b. fault)
    else (do
      b ← get
      let handler = b.interrupts_handlers c.int_number
      if not (handler == null)
          then call handler
          else if leb c.int_number vector_last_exception
          then die
          else pure tt)
