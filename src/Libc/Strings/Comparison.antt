-- ===== src/Libc/Strings/Comparison.antt =====
-- strcmp of src/libc/string.c on two strings.
use atros.Base.{
  ℕ, zero, suc, ◌+◌, ◌-◌, ◌%◌, ◌^◌, ◌<◌, ◌≡◌, ◌≢◌, ◌↔◌, refl, ap, subst, List, [], ◌∷◌, length,
  arith, inl, inr, eq_or_ne, Outcome, ok, ne→==, ==_refl,
}
use atros.LinkedLists.Links.{Ptr}
use atros.Libc.Memory.{Bytes}
use atros.Libc.Strings.{char_word, strcmp_loop, strcmp}

-- The bytes of a string, and the 0 behind them.
abbrev pub IsString : Bytes → Ptr → List ℕ → Type 0
IsString mem p [] = mem p ≡ 0
IsString mem p (x ∷ xs) = (mem p ≡ x) × (0 < x) × (x < 256) × IsString mem (p + 1) xs

pub IsString-next :
    (mem : Bytes) (a i : ℕ) (xs : List ℕ)
    → IsString mem (a + i + 1) xs
    → IsString mem (a + (i + 1)) xs
IsString-next mem a i xs h = subst (λ (t : ℕ). IsString mem t xs) (omega arith) h

-- Different bytes have different words.
word_differs :
    (x y : ℕ) → x < 256 → y < 256 → x ≢ y → (char_word x + 2 ^ 32 - char_word y) % 2 ^ 32 ≢ 0
unfolding char_word
word_differs x y h h' ne z = ground arith

same_word : (x : ℕ) → x < 256 → (char_word x + 2 ^ 32 - char_word x) % 2 ^ 32 ≡ 0
unfolding char_word
same_word x h = ground arith

abbrev head_or : List ℕ → ℕ
head_or [] = 0
head_or (x ∷ xs) = x

abbrev tail_of : List ℕ → List ℕ
tail_of [] = []
tail_of (x ∷ xs) = xs

-- The answer of strcmp: a word that is 0 exactly if the strings are equal.
abbrev pub Answers : Outcome ℕ → List ℕ → List ℕ → Type 0
Answers r xs ys = (w : ℕ) × (r ≡ ok w) × ((w ≡ 0) ↔ (xs ≡ ys))

strcmp_loop-Answers :
    (fuel i a b : ℕ) (mem : Bytes) (xs ys : List ℕ)
    → IsString mem (a + i) xs
    → IsString mem (b + i) ys
    → length xs < fuel
    → Answers (strcmp_loop fuel i a b mem) xs ys
unfolding strcmp_loop
strcmp_loop-Answers zero i a b mem xs ys h h' enough = absurd (omega arith)
strcmp_loop-Answers (suc fuel) i a b mem [] [] h h' enough = (
  (char_word 0 + 2 ^ 32 - char_word 0) % 2 ^ 32,
  rw (h, h') refl,
  (λ _. refl, λ _. same_word 0 (omega arith)),
)
strcmp_loop-Answers (suc fuel) i a b mem [] (y ∷ ys) h (e', pos', small', h') enough = (
  (char_word 0 + 2 ^ 32 - char_word y) % 2 ^ 32,
  rw (h, e', ne→== 0 y (λ z. omega arith)) refl,
  (
    λ z. absurd (word_differs 0 y (omega arith) small' (λ z'. omega arith) z),
    λ z. absurd (let d = ap (λ (t : List ℕ). length t) z in omega (arith, d)),
  ),
)
strcmp_loop-Answers (suc fuel) i a b mem (x ∷ xs) [] (e, pos, small, h) h' enough = (
  (char_word x + 2 ^ 32 - char_word 0) % 2 ^ 32,
  rw (e, h', ne→== x 0 (λ z. omega arith)) refl,
  (
    λ z. absurd (word_differs x 0 small (omega arith) (λ z'. omega arith) z),
    λ z. absurd (let d = ap (λ (t : List ℕ). length t) z in omega (arith, d)),
  ),
)
strcmp_loop-Answers (suc fuel) i a b mem (x ∷ xs) (y ∷ ys) (e, pos, small, h) (e', pos', small', h')
      enough =
    elim (eq_or_ne x y) [
      | inl z ↦
          let (w, done, iff) =
            strcmp_loop-Answers fuel (i + 1) a b mem xs ys (IsString-next mem a i xs h)
              (IsString-next mem b i ys h') (omega arith) in
          (
            w,
            rw (e, e', z, ==_refl y, ne→== y 0 (λ z'. omega arith)) done,
            (λ z'. cc (z, iff.0 z'), λ z'. iff.1 (ap tail_of z')),
          )
      | inr ne ↦ (
        (char_word x + 2 ^ 32 - char_word y) % 2 ^ 32,
        rw (e, e', ne→== x y ne) refl,
        (λ z. absurd (word_differs x y small small' ne z), λ z. absurd (ne (ap head_or z))),
      )
    ]

-- For two strings in memory, with fuel above the length of the first, strcmp ends, and its result
-- is 0 exactly if the strings are equal.
pub strcmp-Answers :
    (fuel a b : ℕ) (mem : Bytes) (xs ys : List ℕ)
    → IsString mem a xs
    → IsString mem b ys
    → length xs < fuel
    → Answers (strcmp fuel a b mem) xs ys
unfolding strcmp
strcmp-Answers fuel a b mem xs ys h h' enough =
    strcmp_loop-Answers fuel 0 a b mem xs ys (subst (λ (t : ℕ). IsString mem t xs) (omega arith) h)
      (subst (λ (t : ℕ). IsString mem t ys) (omega arith) h') enough
