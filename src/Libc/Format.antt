-- ===== src/Libc/Format.antt =====
-- The functions of src/libc/stdarg.c that write numbers, over a memory of bytes.
pub mod Digits
pub mod Reverse
pub mod Numbers
mod Tests
use atros.Base.{
  ℕ, zero, suc, ◌+◌, ◌-◌, ◌*◌, ◌/◌, ◌%◌, ◌^◌, ◌==◌, not, ◌&&◌, ◌||◌, ltb, leb, if◌then◌else◌,
  Outcome, ok, out_of_fuel, and_then, Cmd,
}
use atros.LinkedLists.Links.{Ptr, update}
use atros.Libc.Memory.{Bytes}

-- The character at an index of the string of digits: 0 to 9, then A to Z.
unfoldable pub digit : ℕ → ℕ
digit r = if ltb r 10 then 48 + r else 55 + r

-- What the loop that computes the digits leaves: the value, the index behind the digits and the
-- memory.
pub record Written : Type 0 where
  pub value : ℕ
  pub count : ℕ
  pub mem : Bytes

-- The loop that computes the digits from the last to the first, on fuel.
unfoldable pub digits_loop : ℕ → ℕ → ℕ → ℕ → Ptr → ℕ → Bytes → Outcome Written
digits_loop zero value i n str base mem = out_of_fuel
digits_loop (suc fuel) value i n str base mem =
    let mem' = update mem (str + i) (digit (value % base)) in
    let rest = digits_loop fuel (value / base) (i + 1) n str base mem' in
    if not (value / base == 0) && ltb (i + 1) n
    then rest
    else ok (record { value = value / base; count = i + 1; mem = mem' })

unfoldable pub swap_chars : Ptr → Ptr → Bytes → Bytes
swap_chars p q mem = update (update mem p (mem q)) q (mem p)

-- The loop that turns the digits round.
unfoldable pub reverse_loop : ℕ → ℕ → Ptr → Bytes → Bytes
reverse_loop zero j str mem = mem
reverse_loop (suc i) j str mem =
    let rest = reverse_loop i (j + 1) str (swap_chars (str + j) (str + suc i) mem) in
    if ltb j (suc i) then rest else mem

-- The end of u_to_nstr: the digits start at `j`.
unfoldable pub finish_number : ℕ → Ptr → Written → Outcome (ℕ × Bytes)
finish_number j str w =
    if w.value == 0
    then ok (w.count, reverse_loop (w.count - 1) j str (update w.mem (str + w.count) 0))
    else ok (0, update w.mem str 0)

-- A value below 2 ^ 32 has at most 32 digits.
unfoldable pub write_number : ℕ → ℕ → Ptr → ℕ → ℕ → Cmd Bytes ℕ
write_number value n str base j mem =
    and_then (digits_loop 32 value j n str base mem) (finish_number j str)

-- A number with the prefix 0b or 0x.
unfoldable pub write_prefixed : ℕ → ℕ → Ptr → ℕ → ℕ → Cmd Bytes ℕ
write_prefixed letter value n str base mem =
    if ltb 2 n
    then write_number value n str base 2 (update (update mem str 48) (str + 1) letter)
    else ok (0, update mem str 0)

unfoldable pub u_to_nstr : ℕ → ℕ → Ptr → ℕ → Cmd Bytes ℕ
u_to_nstr value n str base mem =
    if n == 0
    then ok (0, mem)
    else if ltb base 2 || ltb 36 base
    then ok (0, update mem str 0)
    else if base == 2
    then write_prefixed 98 value n str base mem
    else if base == 16
    then write_prefixed 120 value n str base mem
    else write_number value n str base 0 mem

-- The sign in front of the digits.
unfoldable pub put_sign : Ptr → ℕ × Bytes → Outcome (ℕ × Bytes)
put_sign str (width, mem) = if ltb 0 width then ok (width + 1, update mem str 45) else ok (0, mem)

-- The value is the 32-bit word of a signed number.
unfoldable pub i_to_nstr : ℕ → ℕ → Ptr → ℕ → Cmd Bytes ℕ
i_to_nstr value n str base mem =
    if leb (2 ^ 31) value
    then and_then
        (u_to_nstr ((2 ^ 32 - value) % 2 ^ 32) ((n + 2 ^ 32 - 1) % 2 ^ 32) (str + 1) base mem)
        (put_sign str)
    else u_to_nstr value n str base mem
