-- ===== src/Console.antt =====
-- src/kernel/kprintf.c, over a memory of bytes that holds the screen.
pub mod Screen
pub mod Output
mod Tests
use atros.Base.{
  ℕ, zero, suc, ◌+◌, ◌-◌, ◌*◌, ◌%◌, ◌^◌, ◌==◌, ltb, if◌then◌else◌, List, Outcome, ok, out_of_fuel,
  and_then,
}
use atros.LinkedLists.Links.{Ptr, update}
use atros.Libc.Memory.{Bytes, memmove, memset}
use atros.Libc.Printf.{vsnprintf}

-- KERNEL_SPACE + 0xb8000
abbrev pub screen : Ptr
screen = 0xC0000000 + 0xb8000

-- The static variables of kprintf, the count of printed characters, and the memory.
pub record Console : Type 0 where
  pub line : ℕ
  pub column : ℕ
  pub printed_characters : ℕ
  pub mem : Bytes

unfoldable pub put_on_screen : ℕ → Console → Console
put_on_screen c s =
    let p = screen + 160 * s.line + 2 * s.column in
    record {
      line = s.line;
      column = (s.column + 1) % 2 ^ 32;
      printed_characters = (s.printed_characters + 1) % 2 ^ 32;
      mem = update (update s.mem p c) (p + 1) 7;
    }

-- The switch on a character: carriage return, newline, tabulator, backspace, and others.
unfoldable pub print_char : ℕ → Console → Console
print_char c s =
    if c == 13
    then record s { column = 0 }
    else if c == 10
    then record s { line = (s.line + 1) % 2 ^ 32; column = 0 }
    else if c == 9
    then record s { column = (s.column + 4) % 2 ^ 32 }
    else if c == 8
    then (if ltb 0 s.column then record s { column = s.column - 1 } else s)
    else put_on_screen c s

unfoldable pub wrap_line : Console → Console
wrap_line s =
    if ltb 79 s.column then record s { line = (s.line + 1) % 2 ^ 32; column = s.column % 80 } else s

unfoldable pub scroll : Console → Console
scroll s =
    if ltb 24 s.line
    then record s {
      line = 24;
      mem =
          (memset (screen + 2 * 80 * 24) 0 160
            (memmove screen (screen + 160) (2 * 80 * 24) s.mem).1).1;
    }
    else s

-- The loop over the buffer, on fuel.
unfoldable pub print_loop : ℕ → ℕ → Ptr → Console → Outcome Console
print_loop zero i buffer s = out_of_fuel
print_loop (suc fuel) i buffer s =
    let rest =
      print_loop fuel (i + 1) buffer (scroll (wrap_line (print_char (s.mem (buffer + i)) s))) in
    if s.mem (buffer + i) == 0 then ok s else rest

-- The buffer has 1024 characters. The result is the count of printed characters and the new state.
unfoldable pub kprintf : ℕ → Ptr → Ptr → List ℕ → Console → Outcome Console
kprintf fuel buffer format args s =
    and_then (vsnprintf fuel buffer 1024 format args s.mem)
      (λ (n, mem'). print_loop 1024 0 buffer (record s { printed_characters = 0; mem = mem' }))
