-- ===== src/PhysicalPages/Boot.antt =====
-- The allocator of the boot phase of src/kernel/mm/physical_pages.c, which hands out the pages of
-- one range from the first to the last.
use atros.Base.{
  ℕ, ◌+◌, ◌-◌, ◌%◌, ◌^◌, ◌≤◌, ◌<◌, ◌≡◌, refl, ap, List, [], ◌∷◌, Cmd, pure, ◌>>=◌, ok, arith,
  le→leb,
}
use atros.PhysicalPages.Range.{BootPages, boot_physical_pages_alloc}

-- Requests one after the other.
unfoldable pub serve : List ℕ → Cmd BootPages (List ℕ)
serve [] = pure []
serve (n ∷ ns) = do p ← boot_physical_pages_alloc n; ps ← serve ns; pure (p ∷ ps)

abbrev pub total : List ℕ → ℕ
total [] = 0
total (n ∷ ns) = n + total ns

-- The ranges asked for, laid out one behind the other.
abbrev pub laid_out : ℕ → List ℕ → List ℕ
laid_out p [] = []
laid_out p (n ∷ ns) = p ∷ laid_out (p + n) ns

abbrev pub Positive : List ℕ → Type 0
Positive [] = Unit {0}
Positive (n ∷ ns) = (0 < n) × Positive ns

pub boot_physical_pages_alloc-ok :
    (n : ℕ) (b : BootPages)
    → 0 < n
    → b.first_free_ppn + n ≤ b.last_free_ppn + 1
    → b.last_free_ppn + 1 < 2 ^ 32
    → boot_physical_pages_alloc n b
      ≡ ok (b.first_free_ppn, record b { first_free_ppn = b.first_free_ppn + n })
unfolding boot_physical_pages_alloc
boot_physical_pages_alloc-ok n b pos h small =
    let e : (b.first_free_ppn + n + 2 ^ 32 - 1) % 2 ^ 32 ≡ b.first_free_ppn + n - 1 = omega arith in
    let e' : (b.first_free_ppn + n) % 2 ^ 32 ≡ b.first_free_ppn + n = omega arith in
    rw (e, le→leb (b.first_free_ppn + n - 1) b.last_free_ppn (omega arith), e') refl

-- For any sequence of requests of at least one page each, together at most the pages that are
-- left, the boot allocator serves them all, with ranges that follow one another from the first
-- free page on, and leaves the pages behind them.
pub boot_physical_pages_alloc-laid_out :
    (ns : List ℕ) (b : BootPages)
    → Positive ns
    → b.first_free_ppn + total ns ≤ b.last_free_ppn + 1
    → b.last_free_ppn + 1 < 2 ^ 32
    → serve ns b
      ≡ ok (laid_out b.first_free_ppn ns, record b { first_free_ppn = b.first_free_ppn + total ns })
unfolding serve
boot_physical_pages_alloc-laid_out [] b pos h small =
    let e : b.first_free_ppn ≡ b.first_free_ppn + 0 = omega arith in
    ap (λ (t : ℕ). ok ([], record b { first_free_ppn = t })) e
boot_physical_pages_alloc-laid_out (n ∷ ns) b pos h small =
    let b' = record b { first_free_ppn = b.first_free_ppn + n } in
    let e : b.first_free_ppn + n + total ns ≡ b.first_free_ppn + (n + total ns) = omega arith in
    rw
      (
        boot_physical_pages_alloc-ok n b pos.0 (omega arith) small,
        boot_physical_pages_alloc-laid_out ns b' pos.1 (omega arith) small,
      )
      (ap
        (λ (t : ℕ).
          ok (
            b.first_free_ppn ∷ laid_out (b.first_free_ppn + n) ns,
            record b { first_free_ppn = t },
          ))
        e)
