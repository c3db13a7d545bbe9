-- ===== src/Libc/Memory/Tests.antt =====
-- The theorems about the buffer functions of src/libc/string.c at a concrete memory.
use atros.Base.{ℕ, ◌+◌, ◌≡◌, ◌<◌, ◌≤◌, ◌⊎◌, inl, arith}
use atros.Libc.Memory.{Bytes, memcpy, memmove, memset}
use atros.Libc.Memory.Copy.{Copies, memmove-Copies, memcpy-Copies, memset-fills}

-- The byte at an address is the address.
abbrev own_address : Bytes
own_address p = p

-- Overlapping buffers, in both directions.
memmove-Copies_example :
    ((memmove 102 100 5 own_address).0 ≡ 102)
    × Copies 102 100 5 own_address (memmove 102 100 5 own_address).1
memmove-Copies_example = memmove-Copies 102 100 5 own_address (omega arith)

memcpy-Copies_example :
    ((memcpy 200 100 5 own_address).0 ≡ 200)
    × Copies 200 100 5 own_address (memcpy 200 100 5 own_address).1
memcpy-Copies_example = memcpy-Copies 200 100 5 own_address (inl (omega arith))

memset-fills_example :
    ((memset 100 511 3 own_address).0 ≡ 100)
    × ((k : ℕ) → k < 3 → (memset 100 511 3 own_address).1 (100 + k) ≡ 255)
    × ((q : ℕ) → (q < 100) ⊎ (103 ≤ q) → (memset 100 511 3 own_address).1 q ≡ q)
memset-fills_example = memset-fills 100 511 3 own_address
