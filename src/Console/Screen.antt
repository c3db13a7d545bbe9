-- ===== src/Console/Screen.antt =====
-- A character that kprintf of src/kernel/kprintf.c prints keeps to the screen.
use atros.Base.{
  ℕ, ◌+◌, ◌-◌, ◌*◌, ◌%◌, ◌^◌, ◌<◌, ◌≤◌, ◌≡◌, ◌≢◌, refl, ◌∙◌, arith, ◌==◌, ltb, ltb→lt, ltb→ge, inl,
  inr, ◌⊎◌, Bool-cases,
}
use atros.LinkedLists.Links.{Ptr, update, update_ne}
use atros.Libc.Memory.{Bytes, memmove}
use atros.Libc.Memory.Copy.{memmove-Copies, memset-fills}
use atros.Console.{screen, Console, put_on_screen, print_char, wrap_line, scroll}

-- The cursor is on a screen of 25 lines of 80 characters.
pub record IsOnScreen (s : Console) : Type 0 where
  pub line_small : s.line ≤ 24
  pub column_small : s.column ≤ 79

-- A state that differs from another one on the screen only.
abbrev pub KeepsRest : Bytes → Bytes → Type 0
KeepsRest mem mem' = (a : Ptr) → (a < screen) ⊎ (screen + 4000 ≤ a) → mem' a ≡ mem a

-- After the switch the cursor may stand behind its line, or the line be the next one.
record IsMoved (s s' : Console) : Type 0 where
  line_small : s'.line ≤ 25
  column_small : s'.column ≤ 83
  last : s'.line ≡ 25 → s'.column ≡ 0
  kept : KeepsRest s.mem s'.mem

put_on_screen-IsMoved : (c : ℕ) (s : Console) → IsOnScreen s → IsMoved s (put_on_screen c s)
unfolding put_on_screen
put_on_screen-IsMoved c s w =
    let p = screen + 160 * s.line + 2 * s.column in
    record {
      line_small = omega (arith, w.line_small);
      column_small = omega (arith, w.column_small);
      last = λ e. absurd (omega (arith, w.line_small));
      kept = λ a out.
          update_ne (update s.mem p c) (p + 1) a 7 (λ z. elim out [
            | inl h ↦ omega (arith, h)
            | inr h ↦ omega (arith, w.line_small, w.column_small, h)
          ])
          ∙ update_ne s.mem p a c (λ z. elim out [
            | inl h ↦ omega (arith, h)
            | inr h ↦ omega (arith, w.line_small, w.column_small, h)
          ]);
    }

-- A step that leaves the memory.
still :
    (s : Console) (line column : ℕ)
    → line ≤ 25
    → column ≤ 83
    → (line ≡ 25 → column ≡ 0)
    → IsMoved s (record s { line = line; column = column })
still s line column h h' last = record {
  line_small = h;
  column_small = h';
  last = last;
  kept = λ a _. refl;
}

print_char-IsMoved : (c : ℕ) (s : Console) → IsOnScreen s → IsMoved s (print_char c s)
unfolding print_char
print_char-IsMoved c s w = elim (Bool-cases (c == 13)) [
  | inl e ↦ rw e (still s s.line 0 (omega (arith, w.line_small)) (omega arith) (λ _. refl))
  | inr e ↦ elim (Bool-cases (c == 10)) [
    | inl e' ↦
        let next : (s.line + 1) % 2 ^ 32 ≤ 25 = omega (arith, w.line_small) in
        rw (e, e') (still s ((s.line + 1) % 2 ^ 32) 0 next (omega arith) (λ _. refl))
    | inr e' ↦ elim (Bool-cases (c == 9)) [
      | inl e'' ↦
          let next : (s.column + 4) % 2 ^ 32 ≤ 83 = omega (arith, w.column_small) in
          rw (e, e', e'')
            (still s s.line ((s.column + 4) % 2 ^ 32) (omega (arith, w.line_small)) next
              (λ z. absurd (omega (arith, w.line_small))))
      | inr e'' ↦ elim (Bool-cases (c == 8)) [
        | inl e''' ↦ elim (Bool-cases (ltb 0 s.column)) [
          | inl z ↦
              rw (e, e', e'', e''', z)
                (still s s.line (s.column - 1) (omega (arith, w.line_small))
                  (omega (arith, w.column_small)) (λ z'. absurd (omega (arith, w.line_small))))
          | inr z ↦
              rw (e, e', e'', e''', z)
                (still s s.line s.column (omega (arith, w.line_small))
                  (omega (arith, w.column_small)) (λ z'. absurd (omega (arith, w.line_small))))
        ]
        | inr e''' ↦ rw (e, e', e'', e''') (put_on_screen-IsMoved c s w)
      ]
    ]
  ]
]

-- The scrolling changes the screen only.
scroll-IsOnScreen :
    (s : Console)
    → s.line ≤ 25
    → s.column ≤ 79
    → IsOnScreen (scroll s) × KeepsRest s.mem (scroll s).mem
unfolding scroll
scroll-IsOnScreen s h h' = elim (Bool-cases (ltb 24 s.line)) [
  | inl e ↦
      let up = (memmove screen (screen + 160) (2 * 80 * 24) s.mem).1 in
      let (_, moved) = memmove-Copies screen (screen + 160) (2 * 80 * 24) s.mem (omega arith) in
      let (_, _, cleared) = memset-fills (screen + 2 * 80 * 24) 0 160 up in
      rw e (
        record { line_small = omega arith; column_small = h' },
        λ a out.
            cleared a (elim out [ inl z ↦ inl (omega (arith, z)) | inr z ↦ inr (omega (arith, z)) ])
            ∙ moved.outside a (elim out [ inl z ↦ inl z | inr z ↦ inr (omega (arith, z)) ]),
      )
  | inr e ↦
      let below = ltb→ge 24 s.line e in
      rw e (record { line_small = below; column_small = h' }, λ a _. refl)
]

wrap_line-IsMoved :
    (s s' : Console)
    → IsMoved s s'
    → ((wrap_line s').line ≤ 25) × ((wrap_line s').column ≤ 79) × KeepsRest s.mem (wrap_line s').mem
unfolding wrap_line
wrap_line-IsMoved s s' w = elim (Bool-cases (ltb 79 s'.column)) [
  | inl e ↦
      let behind = ltb→lt 79 s'.column e in
      let not_last : s'.line ≢ 25 = λ z. omega (arith, w.last z, behind) in
      rw e (omega (arith, w.line_small), omega arith, w.kept)
  | inr e ↦ rw e (w.line_small, ltb→ge 79 s'.column e, w.kept)
]

pub print_char-IsOnScreen :
    (c : ℕ) (s : Console)
    → IsOnScreen s
    → IsOnScreen (scroll (wrap_line (print_char c s)))
      × KeepsRest s.mem (scroll (wrap_line (print_char c s))).mem
print_char-IsOnScreen c s w =
    let (h, h', kept) = wrap_line-IsMoved s (print_char c s) (print_char-IsMoved c s w) in
    let (on, kept') = scroll-IsOnScreen (wrap_line (print_char c s)) h h' in
    (on, λ a out. kept' a out ∙ kept a out)
