-- ===== src/Libc/Format/Tests.antt =====
-- Numbers written by the model of src/libc/stdarg.c.
use atros.Base.{ℕ, ◌≡◌, refl, arith, Outcome, ok}
use atros.LinkedLists.Links.{update}
use atros.Libc.Memory.{Bytes}
use atros.Libc.Format.{
  u_to_nstr, write_number, digits_loop, finish_number, reverse_loop, swap_chars,
}
use atros.Libc.Format.Numbers.{Prints, with_prefix, u_to_nstr-Prints}

abbrev spaces : Bytes
spaces = λ _. 32

u_to_nstr-Prints_example :
    Prints 255 16 2 20 100 (with_prefix 16 100 spaces) (u_to_nstr 255 20 100 16 spaces)
u_to_nstr-Prints_example =
    u_to_nstr-Prints 255 16 20 100 spaces (omega arith) (omega arith) (omega arith) (omega arith)
      (omega arith)

abbrev byte_at : ℕ → Outcome (ℕ × Bytes) → ℕ
byte_at a r = elim r [ ok (n, mem) ↦ mem a | _ ↦ 1000 ]

-- Five digits in five characters: the byte 0 is behind them.
number_end : byte_at 105 (u_to_nstr 12345 5 100 10 spaces) ≡ 0
unfolding u_to_nstr write_number digits_loop finish_number reverse_loop swap_chars update
number_end = refl
