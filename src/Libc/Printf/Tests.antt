-- ===== src/Libc/Printf/Tests.antt =====
-- A run of the model of vsnprintf of src/libc/stdarg.c.
use atros.Base.{ℕ, ◌≡◌, refl, arith, [], inl, inr, ◌⊎◌, ◌<◌, if◌then◌else◌, ◌==◌}
use atros.Libc.Memory.{Bytes}
use atros.Libc.Printf.{vsnprintf}
use atros.Libc.Printf.Plain.{IsPlain, CopiesFormat, vsnprintf-CopiesFormat}

-- "hi" at 200.
abbrev hi : Bytes
hi p = if p == 200 then 104 else if p == 201 then 105 else 0

below_two : (x : ℕ) → x < 2 → (x ≡ 0) ⊎ (x ≡ 1)
below_two x h = ground arith

hi-IsPlain : IsPlain hi 100 8 200 2
hi-IsPlain = record {
  chars = λ x h. elim (below_two x h) [
    | inl e ↦ rw e ((λ z. omega arith), (λ z. omega arith))
    | inr e ↦ rw e ((λ z. omega arith), (λ z. omega arith))
  ];
  ends = refl;
  apart = inl (omega arith);
}

vsnprintf-CopiesFormat_example : CopiesFormat 0 2 100 200 hi (vsnprintf 5 100 8 200 [] hi)
vsnprintf-CopiesFormat_example =
    vsnprintf-CopiesFormat 5 8 2 100 200 [] hi hi-IsPlain (omega arith) (omega arith)
