-- ===== src/Console/Output.antt =====
-- kprintf of src/kernel/kprintf.c ends and keeps to the screen.
use atros.Base.{
  ℕ, zero, suc, ◌+◌, ◌<◌, ◌≤◌, ◌≡◌, ◌≢◌, refl, ◌∙◌, arith, Outcome, ok, inl, inr, ◌⊎◌, eq_or_ne,
  ne→==, List,
}
use atros.LinkedLists.Links.{Ptr}
use atros.Libc.Memory.{Bytes}
use atros.Libc.Printf.Plain.{IsPlain, shorter, vsnprintf-CopiesFormat}
use atros.Console.{screen, Console, print_char, wrap_line, scroll, print_loop, kprintf}
use atros.Console.Screen.{IsOnScreen, KeepsRest, print_char-IsOnScreen}

-- A text of `len` characters in the buffer, which is apart from the screen.
record IsText (mem : Bytes) (buffer i len : ℕ) : Type 0 where
  chars : (x : ℕ) → i ≤ x → x < len → mem (buffer + x) ≢ 0
  ends : mem (buffer + len) ≡ 0
  apart : (buffer + len < screen) ⊎ (screen + 4000 ≤ buffer)

-- A run that ends with the cursor on the screen and changes no byte outside the screen.
record StaysOnScreen (mem : Bytes) (r : Outcome Console) : Type 0 where
  after : Console
  done : r ≡ ok after
  on_screen : IsOnScreen after
  kept : KeepsRest mem after.mem

in_buffer :
    (buffer len x : ℕ)
    → x ≤ len
    → (buffer + len < screen) ⊎ (screen + 4000 ≤ buffer)
    → (buffer + x < screen) ⊎ (screen + 4000 ≤ buffer + x)
in_buffer buffer len x h apart = ground arith

IsText-next :
    (mem mem' : Bytes) (buffer i len : ℕ)
    → IsText mem buffer i len
    → i ≤ len
    → KeepsRest mem mem'
    → IsText mem' buffer (i + 1) len
IsText-next mem mem' buffer i len w h kept = record {
  chars = λ x low high.
      rw (kept (buffer + x) (in_buffer buffer len x (omega arith) w.apart))
        (w.chars x (omega arith) high);
  ends = kept (buffer + len) (in_buffer buffer len len (omega arith) w.apart) ∙ w.ends;
  apart = w.apart;
}

print_loop-StaysOnScreen :
    (fuel i : ℕ) (buffer : Ptr) (len : ℕ) (s : Console)
    → IsOnScreen s
    → IsText s.mem buffer i len
    → i ≤ len
    → len < i + fuel
    → StaysOnScreen s.mem (print_loop fuel i buffer s)
unfolding print_loop
print_loop-StaysOnScreen zero i buffer len s on w h enough = absurd (omega arith)
print_loop-StaysOnScreen (suc fuel) i buffer len s on w h enough = elim (eq_or_ne i len) [
  | inl e ↦
      let stop : s.mem (buffer + i) ≡ 0 = rw e w.ends in
      rw stop (record { after = s; done = refl; on_screen = on; kept = λ a _. refl })
  | inr ne ↦
      let c = s.mem (buffer + i) in
      let s1 = scroll (wrap_line (print_char c s)) in
      let (on1, kept1) = print_char-IsOnScreen c s on in
      let go = ne→== c 0 (w.chars i (omega arith) (omega arith)) in
      let f =
        print_loop-StaysOnScreen fuel (i + 1) buffer len s1 on1
          (IsText-next s.mem s1.mem buffer i len w h kept1) (omega arith) (omega arith) in
      rw go (record {
        after = f.after;
        done = f.done;
        on_screen = f.on_screen;
        kept = λ a out. f.kept a out ∙ kept1 a out;
      })
]

-- A run of kprintf that ends with the cursor on the screen and changes no byte outside the screen and
-- the buffer.
pub record PrintsOnScreen (s : Console) (buffer : Ptr) (r : Outcome Console) : Type 0 where
  pub after : Console
  pub done : r ≡ ok after
  pub on_screen : IsOnScreen after
  pub kept :
      (a : Ptr)
      → (a < screen) ⊎ (screen + 4000 ≤ a)
      → (a < buffer) ⊎ (buffer + 1024 ≤ a)
      → after.mem a ≡ s.mem a

shorter_bound : (len : ℕ) → (shorter len 1023 ≤ len) × (shorter len 1023 ≤ 1023)
shorter_bound len = (ground arith, ground arith)

-- With the cursor on the screen, on a format without '%' that does not overlap the buffer, and with
-- the buffer apart from the screen, kprintf ends without a fault, leaves the cursor on the screen,
-- and changes no byte outside the screen and the buffer.
pub kprintf-PrintsOnScreen :
    (fuel : ℕ) (buffer format : Ptr) (args : List ℕ) (len : ℕ) (s : Console)
    → IsOnScreen s
    → IsPlain s.mem buffer 1024 format len
    → (buffer + 1024 ≤ screen) ⊎ (screen + 4000 ≤ buffer)
    → PrintsOnScreen s buffer (kprintf fuel buffer format args s)
unfolding kprintf
kprintf-PrintsOnScreen fuel buffer format args len s on plain apart =
    let v =
      vsnprintf-CopiesFormat fuel 1024 len buffer format args s.mem plain (omega arith)
        (omega arith) in
    let (short, short') = shorter_bound len in
    let s1 : Console = record s { printed_characters = 0; mem = v.mem' } in
    let text : IsText v.mem' buffer 0 (shorter len 1023) = record {
      chars = λ x low high. rw (v.copied x low high) ((plain.chars x (omega (arith, short))).0);
      ends = v.ended;
      apart = elim apart [ inl z ↦ inl (omega (arith, short', z)) | inr z ↦ inr z ];
    } in
    let f =
      print_loop-StaysOnScreen 1024 0 buffer (shorter len 1023) s1
        (record { line_small = on.line_small; column_small = on.column_small }) text (omega arith)
        (omega (arith, short')) in
    record {
      after = f.after;
      done = rw v.done f.done;
      on_screen = f.on_screen;
      kept = λ a out out'. f.kept a out ∙ elim out' [
        | inl z ↦ v.below a (omega (arith, z))
        | inr z ↦ v.above a (omega (arith, z, short'))
      ];
    }
