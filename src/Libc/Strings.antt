-- ===== src/Libc/Strings.antt =====
-- The functions of src/libc/string.c on strings that end in the byte 0.
pub mod Copy
pub mod Comparison
mod Tests
use atros.Base.{
  ℕ, zero, suc, ◌+◌, ◌-◌, ◌%◌, ◌^◌, ◌==◌, not, ◌&&◌, ltb, if◌then◌else◌, Outcome, ok, out_of_fuel,
}
use atros.LinkedLists.Links.{Ptr, update}
use atros.Libc.Memory.{Bytes}

-- The second loop of strncpy, with `left` bytes from `i` on to clear.
unfoldable pub strncpy_fill : ℕ → ℕ → Ptr → Bytes → Bytes
strncpy_fill zero i dest mem = mem
strncpy_fill (suc left) i dest mem = strncpy_fill left (i + 1) dest (update mem (dest + i) 0)

-- The first loop, with `left` bytes to go.
unfoldable pub strncpy_loop : ℕ → ℕ → Ptr → Ptr → Bytes → Bytes
strncpy_loop zero i dest src mem = mem
strncpy_loop (suc left) i dest src mem =
    if mem (src + i) == 0
    then strncpy_fill (suc left) i dest mem
    else strncpy_loop left (i + 1) dest src (update mem (dest + i) (mem (src + i)))

unfoldable pub strncpy : Ptr → Ptr → ℕ → Bytes → Ptr × Bytes
strncpy dest src num mem = (dest, strncpy_loop num 0 dest src mem)

-- A char is signed: the 32-bit word of its value.
unfoldable pub char_word : ℕ → ℕ
char_word b = if ltb b 128 then b else b + (2 ^ 32 - 256)

-- strcmp on fuel: the result is the word of the difference at the first place where the strings
-- differ or one ends.
unfoldable pub strcmp_loop : ℕ → ℕ → Ptr → Ptr → Bytes → Outcome ℕ
strcmp_loop zero i str1 str2 mem = out_of_fuel
strcmp_loop (suc fuel) i str1 str2 mem =
    let rest = strcmp_loop fuel (i + 1) str1 str2 mem in
    if (mem (str1 + i) == mem (str2 + i)) && not (mem (str1 + i) == 0) && not (mem (str2 + i) == 0)
    then rest
    else ok ((char_word (mem (str1 + i)) + 2 ^ 32 - char_word (mem (str2 + i))) % 2 ^ 32)

unfoldable pub strcmp : ℕ → Ptr → Ptr → Bytes → Outcome ℕ
strcmp fuel str1 str2 mem = strcmp_loop fuel 0 str1 str2 mem
