-- ===== src/Console/Tests.antt =====
-- A run of the model of kprintf of src/kernel/kprintf.c.
use atros.Base.{ℕ, ◌≡◌, ◌<◌, ◌⊎◌, refl, arith, [], inl, inr, if◌then◌else◌, ◌==◌}
use atros.Libc.Memory.{Bytes}
use atros.Libc.Printf.Plain.{IsPlain}
use atros.Console.{Console, kprintf}
use atros.Console.Output.{PrintsOnScreen, kprintf-PrintsOnScreen}

-- "A" and a newline at 5000.
abbrev letter : Bytes
letter p = if p == 5000 then 65 else if p == 5001 then 10 else 0

-- The cursor is at the end of the last line.
abbrev at_end : Console
at_end = record { line = 24; column = 79; printed_characters = 0; mem = letter }

zero_or_one : (x : ℕ) → x < 2 → (x ≡ 0) ⊎ (x ≡ 1)
zero_or_one x h = ground arith

letter-IsPlain : IsPlain letter 100 1024 5000 2
letter-IsPlain = record {
  chars = λ x h. elim (zero_or_one x h) [
    | inl e ↦ rw e ((λ z. omega arith), (λ z. omega arith))
    | inr e ↦ rw e ((λ z. omega arith), (λ z. omega arith))
  ];
  ends = refl;
  apart = inl (omega arith);
}

kprintf-PrintsOnScreen_example : PrintsOnScreen at_end 100 (kprintf 5 100 5000 [] at_end)
kprintf-PrintsOnScreen_example =
    kprintf-PrintsOnScreen 5 100 5000 [] 2 at_end
      (record { line_small = omega arith; column_small = omega arith }) letter-IsPlain
      (inl (omega arith))
