-- ===== src/Libc/Memory.antt =====
-- The functions of src/libc/string.c on buffers, over a memory of bytes. A buffer is the address of
-- its first byte; each function returns its buffer and the memory.
pub mod Copy
mod Tests
use atros.Base.{ℕ, zero, suc, ◌+◌, ◌-◌, ◌%◌, ◌^◌, leb, if◌then◌else◌}
use atros.LinkedLists.Links.{Ptr, update}

abbrev pub Bytes : Type 0
Bytes = Ptr → ℕ

-- memcpy copies from the last byte to the first.
unfoldable pub memcpy_loop : ℕ → Ptr → Ptr → Bytes → Bytes
memcpy_loop zero d s mem = mem
memcpy_loop (suc num) d s mem = memcpy_loop num d s (update mem (d + num) (mem (s + num)))

unfoldable pub memcpy : Ptr → Ptr → ℕ → Bytes → Ptr × Bytes
memcpy dest src num mem = (dest, memcpy_loop num dest src mem)

-- The loop of memmove: the index moves by `delta`, which is 1 or the word of -1.
unfoldable pub memmove_loop : ℕ → ℕ → ℕ → Ptr → Ptr → Bytes → Bytes
memmove_loop zero i delta d s mem = mem
memmove_loop (suc num) i delta d s mem =
    memmove_loop num ((i + delta) % 2 ^ 32) delta d s (update mem (d + i) (mem (s + i)))

unfoldable pub memmove : Ptr → Ptr → ℕ → Bytes → Ptr × Bytes
memmove dest src num mem =
    if leb dest src
    then (dest, memmove_loop num 0 1 dest src mem)
    else (dest, memmove_loop num ((num + 2 ^ 32 - 1) % 2 ^ 32) (2 ^ 32 - 1) dest src mem)

-- The value is cut to a byte.
unfoldable pub memset_loop : ℕ → Ptr → ℕ → Bytes → Bytes
memset_loop zero d value mem = mem
memset_loop (suc num) d value mem = memset_loop num (d + 1) value (update mem d (value % 256))

unfoldable pub memset : Ptr → ℕ → ℕ → Bytes → Ptr × Bytes
memset ptr value num mem = (ptr, memset_loop num ptr value mem)
