-- ===== src/Paging/Range.antt =====
-- map_pages of src/arch/x86/paging.c: a run of pages.
use atros.Base.{
  ℕ, zero, suc, ◌+◌, ◌-◌, ◌*◌, ◌/◌, ◌%◌, ◌^◌, ◌<◌, ◌≤◌, ◌≡◌, refl, ◌∙◌, arith, ok, Outcome, ne→==,
  inl, inr, eq_or_ne,
}
use atros.Paging.Processor.{Machine}
use atros.Paging.Entries.{map_pages_loop, map_pages}
use atros.Paging.Mapping.{HasTable, IsPaged, AreFlags, Maps, map_page-Maps}

Maps-none : (m : Machine) (ppn vpn : ℕ) → IsPaged m → Maps m ppn vpn 0 (ok (tt, m))
Maps-none m ppn vpn w = record {
  after = m;
  done = refl;
  paged = w;
  directory = λ d h. refl;
  mapped = λ i offset h h'. absurd (omega arith);
  others = λ v h out. refl;
}

-- A page, and then a run of pages behind it.
Maps-cons :
    {m : Machine} {ppn vpn n : ℕ} {r r' r'' : Outcome (Unit {0} × Machine)}
    → (f : Maps m ppn vpn 1 r) → (g : Maps f.after (ppn + 1) (vpn + 1) n r') → r'' ≡ r'
    → vpn + suc n ≤ 2 ^ 20
    → Maps m ppn vpn (suc n) r''
Maps-cons {ppn} {vpn} {n} f g e h = record {
  after = g.after;
  done = e ∙ g.done;
  paged = g.paged;
  directory = λ d h'. g.directory d h' ∙ f.directory d h';
  mapped = λ i offset h' h''. elim (eq_or_ne i 0) [
    | inl z ↦
        let first = (vpn + i) * 4096 + offset in
        g.others first (omega arith) (inl (omega arith)) ∙ f.mapped i offset (omega arith) h''
    | inr ne ↦
        let ev : (vpn + i) * 4096 + offset ≡ (vpn + 1 + (i - 1)) * 4096 + offset = omega arith in
        let ep : (ppn + i) * 4096 + offset ≡ (ppn + 1 + (i - 1)) * 4096 + offset = omega arith in
        rw (ev, ep) (g.mapped (i - 1) offset (omega arith) h'')
  ];
  others = λ v h' out. g.others v h' (ground arith) ∙ f.others v h' (ground arith);
}

-- Every page of the run is in the reach of a page table.
abbrev pub HaveTables : Machine → ℕ → ℕ → Type 0
HaveTables m vpn n = (v : ℕ) → vpn ≤ v → v < vpn + n → HasTable m (v / 1024)

map_pages_loop-Maps :
    (n ppn vpn flags : ℕ) (m : Machine)
    → IsPaged m
    → AreFlags flags
    → ppn + n ≤ 2 ^ 20
    → 0 < vpn
    → vpn + n ≤ 1023 * 1024
    → HaveTables m vpn n
    → Maps m ppn vpn n (map_pages_loop n ppn vpn flags m)
unfolding map_pages_loop
map_pages_loop-Maps zero ppn vpn flags m w are small pos below has = Maps-none m ppn vpn w
map_pages_loop-Maps (suc n) ppn vpn flags m w are small pos below has =
    let f =
      map_page-Maps m ppn vpn flags w are (omega arith) pos (omega arith)
        (has vpn (omega arith) (omega arith)) in
    let ep : (ppn + 1) % 2 ^ 32 ≡ ppn + 1 = omega arith in
    let ev : (vpn + 1) % 2 ^ 32 ≡ vpn + 1 = omega arith in
    let has' : HaveTables f.after (vpn + 1) n =
      λ v h h'. rw (f.directory (v / 1024) (omega arith)) (has v (omega arith) (omega arith)) in
    let g =
      map_pages_loop-Maps n (ppn + 1) (vpn + 1) flags f.after f.paged are (omega arith)
        (omega arith) (omega arith) has' in
    Maps-cons f g (rw (f.done, ep, ev) refl) (omega arith)

-- For flags of a present page of 4 KB, page numbers below 2^20, and a run of virtual pages that
-- starts above page 0, ends before the window, and is in the reach of page tables, map_pages ends
-- without a fault, maps every page of the run to the frame at the same place of the run of frames,
-- keeps the tables well formed, and changes no other translation.
pub map_pages-Maps :
    (n ppn vpn flags : ℕ) (m : Machine)
    → IsPaged m
    → AreFlags flags
    → ppn + n ≤ 2 ^ 20
    → 0 < vpn
    → vpn + n ≤ 1023 * 1024
    → HaveTables m vpn n
    → Maps m ppn vpn n (map_pages ppn vpn n flags m)
unfolding map_pages
map_pages-Maps n ppn vpn flags m w are small pos below has =
    rw (ne→== vpn 0 (λ z. omega arith))
      (map_pages_loop-Maps n ppn vpn flags m w are small pos below has)
