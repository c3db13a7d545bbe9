-- ===== src/Libc/Printf/Plain.antt =====
-- vsnprintf of src/libc/stdarg.c on a format without conversions.
use atros.Base.{
  ℕ, zero, suc, ◌+◌, ◌-◌, ◌%◌, ◌^◌, ◌<◌, ◌≤◌, ◌≡◌, ◌≢◌, refl, ap, ◌∙◌, arith, inl, inr, ◌⊎◌, List,
  ok, Outcome, ne→==, eq_or_ne, leb, if◌then◌else◌, false,
}
use atros.LinkedLists.Links.{Ptr, update, update_eq, update_ne}
use atros.Libc.Memory.{Bytes}
use atros.Libc.Printf.{put_char, end_string, format_loop, vsnprintf}

abbrev pub shorter : ℕ → ℕ → ℕ
shorter a b = if leb a b then a else b

-- The format has `len` characters, none of them '%', and does not overlap the string.
pub record IsPlain (mem : Bytes) (str n format len : ℕ) : Type 0 where
  pub chars : (x : ℕ) → x < len → (mem (format + x) ≢ 0) × (mem (format + x) ≢ 37)
  pub ends : mem (format + len) ≡ 0
  pub apart : (str + n ≤ format) ⊎ (format + len < str)

-- A run that writes the characters of the format from index `i` to `stop` and a byte 0, returns
-- `stop`, and writes nothing else.
pub record CopiesFormat (i stop : ℕ) (str format : Ptr) (mem : Bytes) (r : Outcome (ℕ × Bytes))
    : Type 0 where
  pub mem' : Bytes
  pub done : r ≡ ok (stop, mem')
  pub copied : (x : ℕ) → i ≤ x → x < stop → mem' (str + x) ≡ mem (format + x)
  pub ended : mem' (str + stop) ≡ 0
  pub below : (a : Ptr) → a < str + i → mem' a ≡ mem a
  pub above : (a : Ptr) → str + stop < a → mem' a ≡ mem a

module _ (i : ℕ) (str format : Ptr) (mem : Bytes) where
  end_string-CopiesFormat : CopiesFormat i i str format mem (end_string str i mem)
  unfolding end_string put_char
  end_string-CopiesFormat = record {
    mem' = update mem (str + i) 0;
    done = refl;
    copied = λ x h h'. absurd (omega arith);
    ended = update_eq mem (str + i) (str + i) 0 refl;
    below = λ a h. update_ne mem (str + i) a 0 (λ z. omega arith);
    above = λ a h. update_ne mem (str + i) a 0 (λ z. omega arith);
  }

format_loop-char :
    (left fuel i n : ℕ) (str format : Ptr) (args : List ℕ) (mem : Bytes)
    → i + 1 < 2 ^ 32
    → mem (format + i) ≢ 0
    → mem (format + i) ≢ 37
    → format_loop (suc left) fuel i i false str n format args mem
      ≡ format_loop left fuel
          (i + 1)
          (i + 1)
          false
          str
          n
          format
          args
          (update mem (str + i) (mem (format + i)))
unfolding format_loop put_char
format_loop-char left fuel i n str format args mem small ne ne' =
    let next : (i + 1) % 2 ^ 32 ≡ i + 1 = omega arith in
    rw (ne→== (mem (format + i)) 0 ne, ne→== (mem (format + i)) 37 ne', next) refl

format_loop-end :
    (left fuel i n : ℕ) (str format : Ptr) (args : List ℕ) (mem : Bytes)
    → mem (format + i) ≡ 0
    → format_loop left fuel i i false str n format args mem ≡ end_string str i mem
unfolding format_loop
format_loop-end zero fuel i n str format args mem e = refl
format_loop-end (suc left) fuel i n str format args mem e = rw e refl

shorter_here : (i len left : ℕ) → i ≤ len → (left ≡ 0) ⊎ (i ≡ len) → shorter len (i + left) ≡ i
shorter_here i len left h e = ground arith

shorter_le : (a b : ℕ) → shorter a b ≤ a
shorter_le a b = ground arith

-- Writing into the string keeps the format.
IsPlain-put :
    (mem : Bytes) (str n format len i c : ℕ)
    → IsPlain mem str n format len
    → i < n
    → IsPlain (update mem (str + i) c) str n format len
IsPlain-put mem str n format len i c w h =
    let kept : (x : ℕ) → x ≤ len → update mem (str + i) c (format + x) ≡ mem (format + x) = λ x h'.
      update_ne mem (str + i) (format + x) c
        (λ z. elim w.apart [ inl a ↦ omega arith | inr a ↦ omega arith ]) in
    record {
      chars = λ x h'. rw (kept x (omega arith)) (w.chars x h');
      ends = rw (kept len (omega arith)) w.ends;
      apart = w.apart;
    }

module _ (left fuel i n len : ℕ) (str format : Ptr) (args : List ℕ) (mem : Bytes)
    (w : IsPlain mem str n format len) (more : i < len) (room : i + suc left < n)
    (small : n < 2 ^ 32) where
  abbrev put : Bytes
  put = update mem (str + i) (mem (format + i))

  -- One character, and then the others.
  format_loop-next :
      CopiesFormat
        (i + 1)
        (shorter len (i + 1 + left))
        str
        format
        put
        (format_loop left fuel (i + 1) (i + 1) false str n format args put)
      → CopiesFormat i
          (shorter len (i + suc left))
          str
          format
          mem
          (format_loop (suc left) fuel i i false str n format args mem)
  format_loop-next f =
      let (ne, ne') = w.chars i more in
      let stop : shorter len (i + suc left) ≡ shorter len (i + 1 + left) =
        ap (λ (t : ℕ). shorter len t) (omega arith) in
      let later : i + 1 ≤ shorter len (i + 1 + left) = ground arith in
      let kept : (a : Ptr) → a ≢ str + i → put a ≡ mem a =
        λ a z. update_ne mem (str + i) a (mem (format + i)) z in
      rw stop (record {
        mem' = f.mem';
        done = format_loop-char left fuel i n str format args mem (omega arith) ne ne' ∙ f.done;
        copied = λ x h h'. elim (eq_or_ne x i) [
          | inl z ↦ rw z (
              f.below (str + i) (omega arith)
              ∙ update_eq mem (str + i) (str + i) (mem (format + i)) refl)
          | inr z ↦
              f.copied x (omega arith) h'
              ∙ kept (format + x) (λ z'. elim w.apart [
                | inl a ↦ omega arith
                | inr a ↦ omega (arith, shorter_le len (i + 1 + left))
              ])
        ];
        ended = f.ended;
        below = λ a h. f.below a (omega arith) ∙ kept a (λ z. omega arith);
        above = λ a h. f.above a h ∙ kept a (λ z. omega (arith, later));
      })

format_loop-CopiesFormat :
    (left fuel i n len : ℕ) (str format : Ptr) (args : List ℕ) (mem : Bytes)
    → IsPlain mem str n format len
    → i ≤ len
    → i + left < n
    → n < 2 ^ 32
    → CopiesFormat i
        (shorter len (i + left))
        str
        format
        mem
        (format_loop left fuel i i false str n format args mem)
unfolding format_loop
format_loop-CopiesFormat zero fuel i n len str format args mem w h room small =
    rw (shorter_here i len 0 h (inl refl)) (end_string-CopiesFormat i str format mem)
format_loop-CopiesFormat (suc left) fuel i n len str format args mem w h room small =
    elim (eq_or_ne i len) [
      | inl e ↦
          rw
            (
              shorter_here i len (suc left) h (inr e),
              format_loop-end (suc left) fuel i n str format args mem (rw e w.ends),
            )
            (end_string-CopiesFormat i str format mem)
      | inr ne ↦ format_loop-next left fuel i n len str format args mem w (omega arith) room small (
          format_loop-CopiesFormat left fuel (i + 1) n len str format args
            (update mem (str + i) (mem (format + i)))
            (IsPlain-put mem str n format len i (mem (format + i)) w (omega arith)) (omega arith)
            (omega arith) small)
    ]

-- On a format without '%' that does not overlap the n characters of the string, for n of at least 1,
-- vsnprintf copies the format, cut to n - 1 characters, puts a byte 0 behind it, returns the length
-- of what it wrote, and changes no other byte.
pub vsnprintf-CopiesFormat :
    (fuel n len : ℕ) (str format : Ptr) (args : List ℕ) (mem : Bytes)
    → IsPlain mem str n format len
    → 0 < n
    → n < 2 ^ 32
    → CopiesFormat 0 (shorter len (n - 1)) str format mem (vsnprintf fuel str n format args mem)
unfolding vsnprintf
vsnprintf-CopiesFormat fuel n len str format args mem w some small =
    let left : (n + 2 ^ 32 - 1) % 2 ^ 32 ≡ n - 1 = omega arith in
    let start : 0 + (n - 1) ≡ n - 1 = omega arith in
    rw left (
      rw start at (
        format_loop-CopiesFormat (n - 1) fuel 0 n len str format args mem w (omega arith)
          (omega arith) small))
