-- ===== src/Libc/Strings/Tests.antt =====
-- The theorems about the string functions of src/libc/string.c at a concrete memory.
use atros.Base.{◌≡◌, refl, inl, [], ◌∷◌, arith, if◌then◌else◌, ◌==◌}
use atros.Libc.Memory.{Bytes}
use atros.Libc.Strings.{strncpy, strcmp}
use atros.Libc.Strings.Copy.{Pads, strncpy-Pads}
use atros.Libc.Strings.Comparison.{Answers, strcmp-Answers}

-- "hi" at 100 and "ho" at 200.
abbrev two_strings : Bytes
two_strings p =
    if p == 100
    then 104
    else if p == 101
    then 105
    else if p == 200
    then 104
    else if p == 201
    then 111
    else 0

strncpy-Pads_example :
    ((strncpy 300 100 4 two_strings).0 ≡ 300)
    × Pads 300 100 0 4 two_strings (strncpy 300 100 4 two_strings).1
strncpy-Pads_example = strncpy-Pads 300 100 4 two_strings (inl (omega arith))

strcmp-Answers_example : Answers (strcmp 3 100 200 two_strings) (104 ∷ 105 ∷ []) (104 ∷ 111 ∷ [])
strcmp-Answers_example =
    strcmp-Answers 3 100 200 two_strings (104 ∷ 105 ∷ []) (104 ∷ 111 ∷ [])
      (refl, omega arith, omega arith, (refl, omega arith, omega arith, refl))
      (refl, omega arith, omega arith, (refl, omega arith, omega arith, refl)) (omega arith)
