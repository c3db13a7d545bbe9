-- ===== src/Interrupts.antt =====
-- The interrupts of src/arch/x86: the interrupt controllers (8259a.c), the timer (pit.c) and the
-- dispatching of interrupts to their handlers (interrupts.c).
pub mod Ports
pub mod Controller
pub mod Masks
pub mod Setup
mod Tests
