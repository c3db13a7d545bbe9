-- ===== src/Interrupts/Setup.antt =====
-- What pic_8259a_init, pit_set_frequency and pit_init of src/arch/x86 set up.
use atros.Base.{
  ℕ, ◌+◌, ◌-◌, ◌*◌, ◌/◌, ◌%◌, ◌^◌, ◌≤◌, ◌<◌, ◌≡◌, ◌≢◌, refl, ap, ◌∙◌, false, ◌==◌, if◌then◌else◌,
  arith, ok, Outcome, bit_and, leb, lt→ltb, ne→==, ==_iff, Cmd, Bool-cases, inl, inr, leb→le,
  leb→gt, gt→leb, panic, ◌⊎◌,
}
use native.Mathlib.Nat.{div-add-mod, mod-lt, div-lt_iff_lt-mul, le-div_iff_mul-le}
use atros.LinkedLists.Links.{Ptr, null, update, update_eq, update_ne}
use atros.Interrupts.Ports.{Board, Chip, Timer, ready, outb}
use atros.Interrupts.Controller.{
  pic_8259a_init, irq_ack, set_interrupt_handler, pit_irq_handler, pit_init, pit_set_frequency,
  interrupt_dispatcher, clock_tick_rate,
}
use atros.Interrupts.Masks.{AreReady, masked, bit_at, all_below-at}

-- The number of the interrupt that a line raises: that of the first line of its controller, and the
-- place of the line in it.
abbrev pub vector_of : Board → ℕ → ℕ
vector_of b irq = if leb 8 irq then b.slave.vector + (irq - 8) else b.master.vector + irq

-- Both controllers are ready, the slave at line 2 of the master; the lines raise the interrupts from
-- 32 on, and all are masked.
pub record IsSetUp (b : Board) (r : Outcome (Unit {0} × Board)) : Type 0 where
  pub after : Board
  pub done : r ≡ ok (tt, after)
  pub are_ready : AreReady after
  pub cascade : (after.master.cascade ≡ 2 ^ 2) × (after.slave.cascade ≡ 2)
  pub mode : (after.master.mode ≡ 1) × (after.slave.mode ≡ 1)
  pub vectors : (irq : ℕ) → irq < 16 → vector_of after irq ≡ 32 + irq
  pub all_masked : (irq : ℕ) → irq < 16 → masked after irq ≡ 1
  pub none_served : (after.master.in_service ≡ 0) × (after.slave.in_service ≡ 0)
  pub others :
      (after.timer ≡ b.timer)
      × (after.interrupts_handlers ≡ b.interrupts_handlers)
      × (after.pit_tick ≡ b.pit_tick)

abbrev chip : ℕ → ℕ → Chip
chip vector cascade = record {
  stage = ready;
  vector = vector;
  cascade = cascade;
  mode = 1;
  mask = 255;
  in_service = 0;
}

abbrev initialised : Board → Board
initialised b = record b { master = chip 32 4; slave = chip 40 2 }

pic_8259a_init-ok : (b : Board) → pic_8259a_init b ≡ ok (tt, initialised b)
unfolding pic_8259a_init outb
pic_8259a_init-ok b = refl

ones : (j : ℕ) → j < 8 → bit_at 255 j ≡ 1
ones j h = (==_iff (bit_at 255 j) 1).0 (all_below-at 8 (λ i. bit_at 255 i == 1) refl j h)

-- From every state of the devices, in the middle of another initialisation too, pic_8259a_init makes
-- both controllers ready, with the 16 lines at the interrupts from 32 to 47, the slave at line 2 of
-- the master, all lines masked and none in service, and changes nothing else.
pub pic_8259a_init-IsSetUp : (b : Board) → IsSetUp b (pic_8259a_init b)
pic_8259a_init-IsSetUp b = record {
  after = initialised b;
  done = pic_8259a_init-ok b;
  are_ready = record {
    master = refl;
    slave = refl;
    master_byte = omega arith;
    slave_byte = omega arith;
  };
  cascade = (refl, refl);
  mode = (refl, refl);
  vectors = λ irq h. elim (Bool-cases (leb 8 irq)) [
    | inl e ↦ rw e (omega (arith, leb→le 8 irq e))
    | inr e ↦ rw e refl
  ];
  all_masked = λ irq h. elim (Bool-cases (leb 8 irq)) [
    | inl e ↦ rw e (ones (irq - 8) (omega arith))
    | inr e ↦ rw e (ones irq (leb→gt 8 irq e))
  ];
  none_served = (refl, refl);
  others = (refl, refl, refl);
}

-- The timer counts down from its counter at the clock's rate: it has the frequency asked for, as
-- near as a counter can have it, and only its counter and control word have changed.
pub record HasFrequency (b : Board) (hz : ℕ) (r : Outcome (Unit {0} × Board)) : Type 0 where
  pub timer' : Timer
  pub done : r ≡ ok (tt, record b { timer = timer' })
  pub control : timer'.control ≡ 0x36
  pub positive : 0 < timer'.counter
  pub small : timer'.counter < 2 ^ 16
  pub not_slower : timer'.counter * hz ≤ clock_tick_rate
  pub not_faster : clock_tick_rate < timer'.counter * hz + hz

pit_set_frequency-ok :
    (b : Board) (hz n : ℕ)
    → 0 < hz
    → clock_tick_rate / hz % 2 ^ 16 ≡ n
    → pit_set_frequency hz b
      ≡ ok (
        tt,
        record b {
          timer = record {
            control = 0x36;
            has_low = false;
            low = n % 256;
            counter = n / 256 % 256 * 256 + n % 256;
          };
        },
      )
unfolding pit_set_frequency outb
pit_set_frequency-ok b hz n pos e = rw (lt→ltb 0 hz pos, e) refl

-- For a frequency from 19 Hz up to the clock's rate pit_set_frequency loads the timer with the
-- largest counter that is not slower than the frequency: one more would be slower. The counter is
-- above 0 and has 16 bits.
pub pit_set_frequency-HasFrequency :
    (b : Board) (hz : ℕ)
    → 19 ≤ hz
    → hz ≤ clock_tick_rate
    → HasFrequency b hz (pit_set_frequency hz b)
pit_set_frequency-HasFrequency b hz h h' =
    let pos : 0 < hz = omega arith in
    let n = clock_tick_rate / hz in
    let whole = div-add-mod clock_tick_rate hz in
    let rest : clock_tick_rate % hz < hz = mod-lt clock_tick_rate (omega arith) in
    let small : n < 2 ^ 16 = (div-lt_iff_lt-mul pos).1 (omega arith) in
    let e : n % 2 ^ 16 ≡ n = omega (arith, small) in
    let bytes : n / 256 % 256 * 256 + n % 256 ≡ n = omega (arith, small) in
    record {
      timer' = record {
        control = 0x36;
        has_low = false;
        low = n % 256;
        counter = n / 256 % 256 * 256 + n % 256;
      };
      done = pit_set_frequency-ok b hz n pos e;
      control = refl;
      positive = rw bytes ((le-div_iff_mul-le pos).1 (omega arith));
      small = rw bytes small;
      not_slower = rw bytes (omega (arith, whole));
      not_faster = rw bytes (omega (arith, whole, rest));
    }

-- One tick: the counter of ticks, of 32 bits, goes on by one, the most urgent interrupt in service at
-- the master ends, and nothing else changes.
abbrev pub ticked : Board → Board
ticked b = record b {
  pit_tick = (b.pit_tick + 1) % 2 ^ 32;
  master = record b.master { in_service = bit_and b.master.in_service (b.master.in_service - 1) };
}

pit_irq_handler-ok : (b : Board) → pit_irq_handler b ≡ ok (tt, ticked b)
unfolding pit_irq_handler irq_ack outb
pit_irq_handler-ok b = refl

interrupt_dispatcher-calls :
    (fuel n : ℕ) (call : Ptr → Cmd Board (Unit {0})) (handler : Ptr) (b : Board)
    → n < 256
    → n ≢ 3
    → handler ≢ null
    → b.interrupts_handlers n ≡ handler
    → interrupt_dispatcher fuel call (record { int_number = n }) b ≡ call handler b
unfolding interrupt_dispatcher
interrupt_dispatcher-calls fuel n call handler b h ne ne' e =
    rw (ne→== n 3 ne, gt→leb 256 n h, e, ne→== handler null ne') refl

-- The state after the timer's handler is registered.
abbrev pub registered : Board → Ptr → Board
registered b handler = record b { interrupts_handlers = update b.interrupts_handlers 32 handler }

-- After pit_init has registered the function at an address other than NULL that runs the timer's
-- handler, the interrupt of line 0 is dispatched to it: it counts one tick and ends the most urgent
-- interrupt in service at the master; and interrupts with another number than 32 and the breakpoint's
-- are still dispatched to the handlers they had.
pub pit_init-ticks :
    (b : Board) (handler : Ptr) (call : Ptr → Cmd Board (Unit {0})) (fuel : ℕ)
    → handler ≢ null
    → call handler ≡ pit_irq_handler
    → (pit_init handler b ≡ ok (tt, registered b handler))
      × (interrupt_dispatcher fuel call (record { int_number = 32 }) (registered b handler)
          ≡ ok (tt, ticked (registered b handler)))
      × ((n : ℕ) (old : Ptr)
          → n < 256
          → n ≢ 3
          → n ≢ 32
          → old ≢ null
          → b.interrupts_handlers n ≡ old
          → interrupt_dispatcher fuel call (record { int_number = n }) (registered b handler)
            ≡ call old (registered b handler))
unfolding pit_init set_interrupt_handler
pit_init-ticks b handler call fuel ne e =
    let at_32 : (registered b handler).interrupts_handlers 32 ≡ handler =
      update_eq b.interrupts_handlers 32 32 handler refl in
    (
      refl,
      interrupt_dispatcher-calls fuel 32 call handler (registered b handler) (omega arith)
            (λ z. omega arith) ne at_32
          ∙ ap (λ (c : Cmd Board (Unit {0})). c (registered b handler)) e
          ∙ pit_irq_handler-ok (registered b handler),
      λ n old h ne' ne'' ne_old e'.
          interrupt_dispatcher-calls fuel n call old (registered b handler) h ne' ne_old
            (update_ne b.interrupts_handlers 32 n handler ne'' ∙ e'),
    )

-- Without a handler, an exception other than the breakpoint panics, and every other interrupt of the
-- table is ignored.
pub interrupt_dispatcher-unhandled :
    (fuel n : ℕ) (call : Ptr → Cmd Board (Unit {0})) (b : Board)
    → n < 256
    → n ≢ 3
    → b.interrupts_handlers n ≡ null
    → ((n < 32) × (interrupt_dispatcher fuel call (record { int_number = n }) b ≡ panic))
      ⊎ ((32 ≤ n) × (interrupt_dispatcher fuel call (record { int_number = n }) b ≡ ok (tt, b)))
unfolding interrupt_dispatcher
interrupt_dispatcher-unhandled fuel n call b h ne e = elim (Bool-cases (leb n 31)) [
  | inl e' ↦ inl (omega (arith, leb→le n 31 e'), rw (ne→== n 3 ne, gt→leb 256 n h, e, e') refl)
  | inr e' ↦ inr (omega (arith, leb→gt n 31 e'), rw (ne→== n 3 ne, gt→leb 256 n h, e, e') refl)
]
