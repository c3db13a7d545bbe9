-- ===== src/Interrupts/Tests.antt =====
-- The theorem about the masks of src/arch/x86/8259a.c at a concrete state of the devices.
use atros.Base.{ℕ, false, arith, refl}
use atros.Interrupts.Ports.{Board, Chip, ready}
use atros.Interrupts.Controller.{irq_enable}
use atros.Interrupts.Masks.{MasksLine, irq_enable-MasksLine}

abbrev all_masked : ℕ → ℕ → Chip
all_masked vector cascade = record {
  stage = ready;
  vector = vector;
  cascade = cascade;
  mode = 1;
  mask = 255;
  in_service = 0;
}

abbrev some_board : Board
some_board = record {
  master = all_masked 32 4;
  slave = all_masked 40 2;
  timer = record { control = 0; has_low = false; low = 0; counter = 0 };
  keyboard = λ _. 0;
  interrupts_handlers = λ _. 0;
  pit_tick = 0;
}

-- Line 14, of the slave.
irq_enable-MasksLine_example : MasksLine some_board 0 14 (irq_enable 14 some_board)
irq_enable-MasksLine_example =
    irq_enable-MasksLine some_board 14
      (record { master = refl; slave = refl; master_byte = omega arith; slave_byte = omega arith })
      (omega arith)
