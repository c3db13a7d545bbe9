-- ===== src/Interrupts/Ports.antt =====
-- The devices behind the I/O ports that src/arch/x86/8259a.c and src/arch/x86/pit.c use, as their data
-- sheets describe them: two interrupt controllers 8259A and the channel 0 of the timer 8254.
use atros.Base.{
  ℕ, suc, ◌+◌, ◌-◌, ◌*◌, ◌/◌, ◌%◌, Bool, true, false, ◌==◌, if◌then◌else◌, Cmd, ok, bit_and,
}

-- Where a controller is in its initialisation: after ICW1 it expects three more words at its data
-- port; when it is ready, a word there is the mask of its eight lines.
pub data Stage : Type 0 where
  ready : Stage
  icw2 : Stage
  icw3 : Stage
  icw4 : Stage

-- The bits of `in_service` are the lines whose interrupt is being served.
pub record Chip : Type 0 where
  pub stage : Stage
  pub vector : ℕ
  pub cascade : ℕ
  pub mode : ℕ
  pub mask : ℕ
  pub in_service : ℕ

abbrev data_write : Stage → ℕ → Chip → Chip
data_write ready v c = record c { mask = v }
data_write icw2 v c = record c { stage = icw3; vector = v / 8 * 8 }
data_write icw3 v c = record c { stage = icw4; cascade = v }
data_write icw4 v c = record c { stage = ready; mode = v }

-- A word with bit 4 is ICW1, which clears the mask; 0x20 is the end of the most urgent interrupt in
-- service, the one with the lowest bit.
abbrev command_write : ℕ → Chip → Chip
command_write v c =
    if v / 16 % 2 == 1
    then record c { stage = icw2; mask = 0; in_service = 0 }
    else if v == 0x20
    then record c { in_service = bit_and c.in_service (c.in_service - 1) }
    else c

-- Channel 0 of the timer takes its counter in two bytes, the low one first, after the control word
-- 0x36. The counter 0 stands for 65536.
pub record Timer : Type 0 where
  pub control : ℕ
  pub has_low : Bool
  pub low : ℕ
  pub counter : ℕ

abbrev counter_write : ℕ → Timer → Timer
counter_write v t =
    if t.has_low
    then record t { has_low = false; counter = v * 256 + t.low }
    else record t { has_low = true; low = v }

-- The devices, with the bytes that the keyboard controller will give to the reads of its ports, in
-- the order of the reads; the handlers by the number of the interrupt, as addresses of functions; and
-- the number of ticks.
pub record Board : Type 0 where
  pub master : Chip
  pub slave : Chip
  pub timer : Timer
  pub keyboard : ℕ → ℕ
  pub interrupts_handlers : ℕ → ℕ
  pub pit_tick : ℕ

abbrev pub pic1_command : ℕ
pic1_command = 0x20

abbrev pub pic1_data : ℕ
pic1_data = 0x21

abbrev pub pic2_command : ℕ
pic2_command = 0xa0

abbrev pub pic2_data : ℕ
pic2_data = 0xa1

-- outb of x86.h. Writes to other ports have no effect on these devices.
abbrev port_write : ℕ → ℕ → Board → Board
port_write v port b =
    if port == pic1_command
    then record b { master = command_write v b.master }
    else if port == pic1_data
    then record b { master = data_write b.master.stage v b.master }
    else if port == pic2_command
    then record b { slave = command_write v b.slave }
    else if port == pic2_data
    then record b { slave = data_write b.slave.stage v b.slave }
    else if port == 0x43
    then record b { timer = record b.timer { control = v; has_low = false } }
    else if port == 0x40
    then record b { timer = counter_write v b.timer }
    else b

unfoldable pub outb : ℕ → ℕ → Cmd Board (Unit {0})
outb v port b = ok (tt, port_write v port b)

-- inb of x86.h, for the mask registers and the two ports of the keyboard controller.
unfoldable pub inb : ℕ → Cmd Board ℕ
inb port b =
    if port == pic2_data
    then ok (b.slave.mask, b)
    else if port == pic1_data
    then ok (b.master.mask, b)
    else ok (b.keyboard 0, record b { keyboard = λ i. b.keyboard (suc i) })
