-- ===== src/Libc/Printf.antt =====
-- vsnprintf of src/libc/stdarg.c, over a memory of bytes. The arguments are a list of words; va_arg
-- without an argument left is a fault.
pub mod Plain
mod Tests
use atros.Base.{
  ℕ, zero, suc, ◌+◌, ◌-◌, ◌%◌, ◌^◌, ◌==◌, Bool, true, false, ◌||◌, if◌then◌else◌, List, [], ◌∷◌,
  Cmd, pure, ◌>>=◌, ◌>>◌, fault, ok, out_of_fuel, get,
}
use atros.LinkedLists.Links.{Ptr, update}
use atros.Libc.Memory.{Bytes}
use atros.Libc.Format.{i_to_nstr, u_to_nstr}

unfoldable pub put_char : Ptr → ℕ → Cmd Bytes (Unit {0})
put_char p c mem = ok (tt, update mem p c)

unfoldable pub va_arg : List ℕ → Cmd Bytes (ℕ × List ℕ)
va_arg [] mem = fault
va_arg (a ∷ args) mem = ok ((a, args), mem)

-- The characters left, as a 32-bit word.
abbrev pub left_of : ℕ → ℕ → ℕ
left_of n j = (n + 2 ^ 32 - j) % 2 ^ 32

-- A signed number, from index `j` on; the result is the index behind it.
unfoldable pub convert_int : ℕ → Ptr → ℕ → ℕ → List ℕ → Cmd Bytes (ℕ × List ℕ)
convert_int base str n j args = do
  (a, rest) ← va_arg args
  width ← i_to_nstr a (left_of n j) (str + j) base
  pure ((j + width) % 2 ^ 32, rest)

unfoldable pub convert_uint : ℕ → Ptr → ℕ → ℕ → List ℕ → Cmd Bytes (ℕ × List ℕ)
convert_uint base str n j args = do
  (a, rest) ← va_arg args
  width ← u_to_nstr a (left_of n j) (str + j) base
  pure ((j + width) % 2 ^ 32, rest)

-- The loop over a string argument, on fuel.
unfoldable pub copy_string : ℕ → Ptr → ℕ → ℕ → Ptr → Cmd Bytes ℕ
copy_string zero str n j p mem = out_of_fuel
copy_string (suc fuel) str n j p mem =
    let rest = copy_string fuel str n ((j + 1) % 2 ^ 32) (p + 1) (update mem (str + j) (mem p)) in
    if (mem p == 0) || (left_of n (j + 1) == 0) then ok (j, mem) else rest

unfoldable pub convert_string : ℕ → Ptr → ℕ → ℕ → List ℕ → Cmd Bytes (ℕ × List ℕ)
convert_string fuel str n j args = do
  (a, rest) ← va_arg args
  j' ← copy_string fuel str n j a
  pure (j', rest)

unfoldable pub convert_char : Ptr → ℕ → List ℕ → Cmd Bytes (ℕ × List ℕ)
convert_char str j args = do
  (a, rest) ← va_arg args
  put_char (str + j) (a % 256)
  pure ((j + 1) % 2 ^ 32, rest)

-- The switch on the character behind a '%'.
unfoldable pub convert : ℕ → ℕ → Ptr → ℕ → ℕ → List ℕ → Cmd Bytes (ℕ × List ℕ)
convert fuel c str n j args =
    -- d, i, o, x, X
    if (c == 100) || (c == 105)
    then convert_int 10 str n j args
    else if c == 111
    then convert_int 8 str n j args
    else if (c == 120) || (c == 88)
    then convert_int 16 str n j args
    else
        -- b, u, p
        if c == 98
    then convert_uint 2 str n j args
    else if c == 117
    then convert_uint 10 str n j args
    else if c == 112
    then convert_uint 16 str n j args
    else
        -- c, s, %
        if c == 99
    then convert_char str j args
    else if c == 115
    then convert_string fuel str n j args
    else if c == 37
    then (do put_char (str + j) 37; pure ((j + 1) % 2 ^ 32, args))
    else pure (j, args)

unfoldable pub end_string : Ptr → ℕ → Cmd Bytes ℕ
end_string str j = do put_char (str + j) 0; pure j

-- The loop over the format from index `i` on, with `left` characters to go before n - 1.
unfoldable pub format_loop : ℕ → ℕ → ℕ → ℕ → Bool → Ptr → ℕ → Ptr → List ℕ → Cmd Bytes ℕ
format_loop zero fuel i j specifier_expected str n format args = end_string str j
format_loop (suc left) fuel i j specifier_expected str n format args = do
  mem ← get
  let c = mem (format + i)
  if c == 0
      then end_string str j
      else if specifier_expected
      then (do
        (j', rest) ← convert fuel c str n j args
        format_loop left fuel (i + 1) j' false str n format rest)
      else if c == 37
      then format_loop left fuel (i + 1) j true str n format args
      else (do
        put_char (str + j) c
        format_loop left fuel (i + 1) ((j + 1) % 2 ^ 32) false str n format args)

unfoldable pub vsnprintf : ℕ → Ptr → ℕ → Ptr → List ℕ → Cmd Bytes ℕ
vsnprintf fuel str n format args =
    format_loop ((n + 2 ^ 32 - 1) % 2 ^ 32) fuel 0 0 false str n format args
