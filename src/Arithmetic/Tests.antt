-- ===== src/Arithmetic/Tests.antt =====
-- The theorem about most_significant_bit_of of src/include/bits.h at a concrete word.
use atros.Base.{arith}
use atros.Arithmetic.{HasBits, most_significant_bit_of, most_significant_bit_of-HasBits}

most_significant_bit_of-HasBits_example : HasBits 1000 (most_significant_bit_of 1000)
most_significant_bit_of-HasBits_example = most_significant_bit_of-HasBits 1000 (omega arith)
