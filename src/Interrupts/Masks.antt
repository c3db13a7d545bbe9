-- ===== src/Interrupts/Masks.antt =====
-- Which lines irq_enable and irq_disable of src/arch/x86/8259a.c mask.
use atros.Base.{
  ℕ, zero, suc, ◌-◌, ◌/◌, ◌%◌, ◌^◌, ◌≤◌, ◌<◌, ◌≡◌, refl, Bool, true, false, ◌&&◌, ◌==◌, ==_iff,
  if◌then◌else◌, arith, ok, bit_and, bit_or, inl, inr, eq_or_ne, ltb, leb, ltb→lt, leb→le, leb→gt,
  Bool-cases, ne→==, Outcome, ==_refl, lt→ltb,
}
use atros.Interrupts.Ports.{Board, ready, outb, inb, pic1_data, pic2_data}
use atros.Interrupts.Controller.{irq_enable, irq_disable, line_bit, other_bits}

-- A test of all numbers below a bound.
abbrev pub all_below : ℕ → (ℕ → Bool) → Bool
all_below zero f = true
all_below (suc n) f = f n && all_below n f

and_true : (a b : Bool) → (a && b) ≡ true → (a ≡ true) × (b ≡ true)
and_true true b h = (refl, h)
and_true false true h = (h, refl)
and_true false false h = (h, h)

pub all_below-at : (n : ℕ) (f : ℕ → Bool) → all_below n f ≡ true → (i : ℕ) → i < n → f i ≡ true
all_below-at zero f h i lt = absurd (omega arith)
all_below-at (suc n) f h i lt =
    let (here, rest) = and_true (f n) (all_below n f) h in
    elim (eq_or_ne i n) [ inl e ↦ rw e here | inr ne ↦ all_below-at n f rest i (omega arith) ]

abbrev pub bit_at : ℕ → ℕ → ℕ
bit_at mask j = mask / 2 ^ j % 2

-- A word for the mask is a byte in which one bit is set to a value and the others are kept.
abbrev sets_bit : ℕ → ℕ → ℕ → ℕ → Bool
sets_bit value n m m' =
    ltb m' 256 && all_below 8 (λ j. bit_at m' j == (if j == n then value else bit_at m j))

abbrev enabled : ℕ → ℕ → ℕ
enabled n m = bit_and m ((2 ^ 32 - 1 - 2 ^ n) % 256)

abbrev disabled : ℕ → ℕ → ℕ
disabled n m = bit_or m (2 ^ n % 256)

all_enabled : all_below 8 (λ n. all_below 256 (λ m. sets_bit 0 n m (enabled n m))) ≡ true
all_enabled = refl

all_disabled : all_below 8 (λ n. all_below 256 (λ m. sets_bit 1 n m (disabled n m))) ≡ true
all_disabled = refl

pub record SetsBit (value n m m' : ℕ) : Type 0 where
  pub small : m' < 256
  pub bits : (j : ℕ) → j < 8 → bit_at m' j ≡ (if j == n then value else bit_at m j)

SetsBit-of : (value n m m' : ℕ) → sets_bit value n m m' ≡ true → SetsBit value n m m'
SetsBit-of value n m m' h =
    let (a, b) =
      and_true (ltb m' 256)
        (all_below 8 (λ j. bit_at m' j == (if j == n then value else bit_at m j))) h in
    record {
      small = ltb→lt m' 256 a;
      bits = λ j lt.
          (==_iff (bit_at m' j) (if j == n then value else bit_at m j)).0
            (all_below-at 8 (λ j. bit_at m' j == (if j == n then value else bit_at m j)) b j lt);
    }

enabled-SetsBit : (n m : ℕ) → n < 8 → m < 256 → SetsBit 0 n m (enabled n m)
enabled-SetsBit n m h h' = SetsBit-of 0 n m (enabled n m) (
    all_below-at 256 (λ m. sets_bit 0 n m (enabled n m))
      (all_below-at 8 (λ n. all_below 256 (λ m. sets_bit 0 n m (enabled n m))) all_enabled n h) m
      h')

disabled-SetsBit : (n m : ℕ) → n < 8 → m < 256 → SetsBit 1 n m (disabled n m)
disabled-SetsBit n m h h' = SetsBit-of 1 n m (disabled n m) (
    all_below-at 256 (λ m. sets_bit 1 n m (disabled n m))
      (all_below-at 8 (λ n. all_below 256 (λ m. sets_bit 1 n m (disabled n m))) all_disabled n h) m
      h')

==-behind : (j irq : ℕ) → 8 ≤ j → 8 ≤ irq → (j == irq) ≡ (j - 8 == irq - 8)
==-behind j irq h h' = elim (eq_or_ne j irq) [
  | inl e ↦ rw (e, ==_refl irq, ==_refl (irq - 8)) refl
  | inr ne ↦ rw (ne→== j irq ne, ne→== (j - 8) (irq - 8) (λ z. ne (omega arith))) refl
]

-- Both controllers are ready and hold a byte as their mask.
pub record AreReady (b : Board) : Type 0 where
  pub master : b.master.stage ≡ ready
  pub slave : b.slave.stage ≡ ready
  pub master_byte : b.master.mask < 256
  pub slave_byte : b.slave.mask < 256

-- 1 if an interrupt line of the 16 is masked.
abbrev pub masked : Board → ℕ → ℕ
masked b irq = if leb 8 irq then bit_at b.slave.mask (irq - 8) else bit_at b.master.mask irq

-- The board with other masks.
abbrev pub with_masks : Board → ℕ → ℕ → Board
with_masks b m m' = record b {
  master = record b.master { mask = m };
  slave = record b.slave { mask = m' };
}

-- One line is masked (1) or not (0), the others stay, and nothing but the masks changes.
pub record MasksLine (b : Board) (value irq : ℕ) (r : Outcome (Unit {0} × Board)) : Type 0 where
  pub m : ℕ
  pub m' : ℕ
  pub done : r ≡ ok (tt, with_masks b m m')
  pub are_ready : AreReady (with_masks b m m')
  pub lines :
      (j : ℕ) → j < 16 → masked (with_masks b m m') j ≡ (if j == irq then value else masked b j)

module _ (b : Board) (w : AreReady b) (irq : ℕ) where
  MasksLine-master :
      (value m : ℕ) (r : Outcome (Unit {0} × Board))
      → irq < 8
      → SetsBit value irq b.master.mask m
      → r ≡ ok (tt, with_masks b m b.slave.mask)
      → MasksLine b value irq r
  MasksLine-master value m r h f e = record {
    m = m;
    m' = b.slave.mask;
    done = e;
    are_ready = record {
      master = w.master;
      slave = w.slave;
      master_byte = f.small;
      slave_byte = w.slave_byte;
    };
    lines = λ j lt. elim (Bool-cases (leb 8 j)) [
      | inl e' ↦
          let ne : (j == irq) ≡ false = ne→== j irq (λ z. omega (arith, leb→le 8 j e')) in
          rw (e', ne) refl
      | inr e' ↦ rw e' (f.bits j (leb→gt 8 j e'))
    ];
  }

  MasksLine-slave :
      (value m : ℕ) (r : Outcome (Unit {0} × Board))
      → 8 ≤ irq
      → SetsBit value (irq - 8) b.slave.mask m
      → r ≡ ok (tt, with_masks b b.master.mask m)
      → MasksLine b value irq r
  MasksLine-slave value m r h f e = record {
    m = b.master.mask;
    m' = m;
    done = e;
    are_ready = record {
      master = w.master;
      slave = w.slave;
      master_byte = w.master_byte;
      slave_byte = f.small;
    };
    lines = λ j lt. elim (Bool-cases (leb 8 j)) [
      | inl e' ↦ rw (e', ==-behind j irq (leb→le 8 j e') h) (f.bits (j - 8) (omega arith))
      | inr e' ↦
          let ne : (j == irq) ≡ false = ne→== j irq (λ z. omega (arith, leb→gt 8 j e')) in
          rw (e', ne) refl
    ];
  }

  outb-master : (m : ℕ) → outb m pic1_data b ≡ ok (tt, with_masks b m b.slave.mask)
  unfolding outb
  outb-master m = rw w.master refl

  outb-slave : (m : ℕ) → outb m pic2_data b ≡ ok (tt, with_masks b b.master.mask m)
  unfolding outb
  outb-slave m = rw w.slave refl

-- For each of the 16 interrupt lines, when both controllers are ready and their masks are bytes,
-- irq_enable ends without a fault, unmasks that line at the controller it belongs to, and changes neither another line nor
-- anything else.
pub irq_enable-MasksLine :
    (b : Board) (irq : ℕ) → AreReady b → irq < 16 → MasksLine b 0 irq (irq_enable irq b)
unfolding irq_enable other_bits inb
irq_enable-MasksLine b irq w h = elim (Bool-cases (leb 8 irq)) [
  | inl e ↦
      rw (e, lt→ltb (irq - 8) 32 (omega arith))
        (MasksLine-slave b w irq 0 (enabled (irq - 8) b.slave.mask) _ (leb→le 8 irq e)
          (enabled-SetsBit (irq - 8) b.slave.mask (omega arith) w.slave_byte)
          (outb-slave b w irq (enabled (irq - 8) b.slave.mask)))
  | inr e ↦
      rw (e, lt→ltb irq 32 (omega arith))
        (MasksLine-master b w irq 0 (enabled irq b.master.mask) _ (leb→gt 8 irq e)
          (enabled-SetsBit irq b.master.mask (leb→gt 8 irq e) w.master_byte)
          (outb-master b w irq (enabled irq b.master.mask)))
]

-- In the same way irq_disable masks the line.
pub irq_disable-MasksLine :
    (b : Board) (irq : ℕ) → AreReady b → irq < 16 → MasksLine b 1 irq (irq_disable irq b)
unfolding irq_disable line_bit inb
irq_disable-MasksLine b irq w h = elim (Bool-cases (leb 8 irq)) [
  | inl e ↦
      rw (e, lt→ltb (irq - 8) 32 (omega arith))
        (MasksLine-slave b w irq 1 (disabled (irq - 8) b.slave.mask) _ (leb→le 8 irq e)
          (disabled-SetsBit (irq - 8) b.slave.mask (omega arith) w.slave_byte)
          (outb-slave b w irq (disabled (irq - 8) b.slave.mask)))
  | inr e ↦
      rw (e, lt→ltb irq 32 (omega arith))
        (MasksLine-master b w irq 1 (disabled irq b.master.mask) _ (leb→gt 8 irq e)
          (disabled-SetsBit irq b.master.mask (leb→gt 8 irq e) w.master_byte)
          (outb-master b w irq (disabled irq b.master.mask)))
]
