-- ===== src/PhysicalPages/Range/Loop.antt =====
-- The loop of _range_ppages_set_status of src/kernel/mm/physical_pages.c over a whole range.
use atros.Base.{
  ℕ, zero, suc, ◌+◌, ◌-◌, ◌*◌, ◌%◌, ◌^◌, ◌≤◌, ◌<◌, ◌≡◌, refl, sym, ◌∙◌, subst, List, arith, ok,
  Outcome, inl, inr, Bool-cases, leb, leb→le, leb→gt, pow-positive,
}
use atros.LinkedLists.Links.{Ptr}
use atros.PhysicalPages.State.{Memory, sizeof_ppage}
use atros.PhysicalPages.Pool.{Free, IsPool}
use atros.PhysicalPages.Range.{init_block, range_loop, range_ppages_set_status, largest_order}
use atros.PhysicalPages.Range.Init.{IsStatus}
use atros.PhysicalPages.Range.Order.{Fits, largest_order-Fits}
use atros.PhysicalPages.Range.Fill.{Fills, Fits-IsBlock, IsVacant, init_block-Fills, addr}

-- Two runs one after the other.
Fills-join :
    {m : Memory} {free : Free} {c : List Ptr} {status lo mid hi n n' n'' : ℕ}
    {r r' r'' : Outcome (Unit {0} × Memory)}
    → (f : Fills m free c status lo mid n r) → (g : Fills f.after f.free' f.c' status mid hi n' r')
    → r'' ≡ r'
    → lo ≤ mid
    → mid ≤ hi
    → n'' ≡ n + n'
    → Fills m free c status lo hi n'' r''
Fills-join {status} f g e h h' count = record {
  after = g.after;
  free' = g.free';
  c' = g.c';
  done = e ∙ g.done;
  pool = g.pool;
  shape = (g.shape.0 ∙ f.shape.0, g.shape.1 ∙ f.shape.1, g.shape.2 ∙ f.shape.2);
  new_free = λ k p i. elim (g.new_free k p i) [
    | inl old ↦ ground (arith, f.new_free k p old)
    | inr new ↦ inr (new.0, omega arith, new.2)
  ];
  new_used = λ p i. elim (g.new_used p i) [
    | inl old ↦ ground (arith, f.new_used p old)
    | inr new ↦ inr (new.0, omega arith, new.2)
  ];
  pages = ground (arith, f.pages, g.pages, count);
}

-- What is vacant behind a block stays so when the block is filled.
IsVacant-behind :
    {m : Memory} {free : Free} {c : List Ptr} {status lo mid hi n : ℕ}
    {r : Outcome (Unit {0} × Memory)}
    → (f : Fills m free c status lo mid n r) → IsVacant free c lo hi
    → lo ≤ mid
    → IsVacant f.free' f.c' mid hi
IsVacant-behind f v h = record {
  free_out = λ k p i. elim (f.new_free k p i) [
    | inl old ↦ ground (arith, v.free_out k p old)
    | inr new ↦ inl (omega arith)
  ];
  used_out = λ p i. elim (f.new_used p i) [
    | inl old ↦ ground (arith, v.used_out p old)
    | inr new ↦ inl (omega arith)
  ];
}

-- Nothing to do.
Fills-none :
    (m : Memory) (free : Free) (c : List Ptr) (status lo hi n : ℕ)
    → IsPool m free c
    → n ≡ 0
    → Fills m free c status lo hi n (ok (tt, m))
Fills-none m free c status lo hi n pool e = record {
  after = m;
  free' = free;
  c' = c;
  done = refl;
  pool = pool;
  shape = (refl, refl, refl);
  new_free = λ k p i. inl i;
  new_used = λ p i. inl i;
  pages = ground (arith, e);
}

-- The first block, with the address of the array by itself.
Fills-first :
    (status ppn last base k : ℕ) (m : Memory) (free : Free) (c : List Ptr)
    → IsPool m free c
    → IsStatus status
    → m.ppages_dscrs ≡ base
    → m.first_ppn ≤ ppn
    → last ≤ m.last_ppn
    → k < 10
    → Fits ppn last k
    → IsVacant free c (base + sizeof_ppage * ppn) (base + sizeof_ppage * (last + 1))
    → Fills m free c status
        (base + sizeof_ppage * ppn)
        (base + sizeof_ppage * (ppn + 2 ^ k))
        (2 ^ k)
        (init_block status k ppn m)
Fills-first status ppn last base k m free c pool st eb h h' small fits v =
    subst
      (λ (b : ℕ).
        Fills m free c status (b + sizeof_ppage * ppn) (b + sizeof_ppage * (ppn + 2 ^ k)) (2 ^ k)
          (init_block status k ppn m))
      eb
      (init_block-Fills status k ppn last m free c pool st small
        (Fits-IsBlock m ppn last k h h' fits) fits
        (subst (λ (b : ℕ). IsVacant free c (b + sizeof_ppage * ppn) (b + sizeof_ppage * (last + 1)))
          (sym eb) v))

range_loop-Fills :
    (fuel status ppn last base : ℕ) (m : Memory) (free : Free) (c : List Ptr)
    → IsPool m free c
    → IsStatus status
    → m.ppages_dscrs ≡ base
    → m.first_ppn ≤ ppn
    → last ≤ m.last_ppn
    → ppn ≤ last + 1
    → last + 1 < fuel + ppn
    → IsVacant free c (base + sizeof_ppage * ppn) (base + sizeof_ppage * (last + 1))
    → Fills m free c status
        (base + sizeof_ppage * ppn)
        (base + sizeof_ppage * (last + 1))
        (last + 1 - ppn)
        (range_loop fuel status ppn last m)
unfolding range_loop
range_loop-Fills zero status ppn last base m free c pool st eb h h' le enough v =
    absurd (omega arith)
range_loop-Fills (suc fuel) status ppn last base m free c pool st eb h h' le enough v =
    elim (Bool-cases (leb ppn last)) [
      | inl e ↦
          let in_range : ppn ≤ last = leb→le ppn last e in
          let k = largest_order 9 ppn last in
          let (small, fits) =
            largest_order-Fits 9 ppn last (omega arith) in_range (omega (arith, pool.array.fits)) in
          let f : Fills m free c status (base + sizeof_ppage * ppn)
              (base + sizeof_ppage * (ppn + 2 ^ k)) (2 ^ k) (init_block status k ppn m) =
            Fills-first status ppn last base k m free c pool st eb h h' (omega arith) fits v in
          let next : (ppn + 2 ^ k) % 2 ^ 32 ≡ ppn + 2 ^ k =
            omega (arith, pool.array.fits, fits.1) in
          let g =
            range_loop-Fills fuel status (ppn + 2 ^ k) last base f.after f.free' f.c' f.pool st
              (f.shape.0 ∙ eb) (omega (arith, f.shape.1)) (omega (arith, f.shape.2))
              (omega (arith, fits.1)) (omega (arith, pow-positive k))
              (IsVacant-behind f v (omega arith)) in
          rw (e, f.done, next)
            (Fills-join f g refl (omega arith) (omega (arith, fits.1)) (omega (arith, fits.1)))
      | inr e ↦ rw e (
          Fills-none m free c status (base + sizeof_ppage * ppn) (base + sizeof_ppage * (last + 1))
            (last + 1 - ppn) pool (omega (arith, leb→gt ppn last e)))
    ]

-- On a well-formed state, for the status free or used and a range of pages of the array in which
-- no block is free and no descriptor is in a used list, _range_ppages_set_status ends without a
-- fault, keeps the state well formed, puts new blocks only inside the range, free ones only for the
-- status free and used ones only for the status used, and adds to the free pages exactly the pages
-- of the range if the status is free, and none if it is used.
pub range_ppages_set_status-Fills :
    (first last status : ℕ) (m : Memory) (free : Free) (c : List Ptr)
    → IsPool m free c
    → IsStatus status
    → m.first_ppn ≤ first
    → first ≤ last + 1
    → last ≤ m.last_ppn
    → IsVacant free c (addr m first) (addr m (last + 1))
    → Fills m free c status
        (addr m first)
        (addr m (last + 1))
        (last + 1 - first)
        (range_ppages_set_status first last status m)
unfolding range_ppages_set_status
range_ppages_set_status-Fills first last status m free c pool (inl e) h le h' v = rw e (
    range_loop-Fills (suc (last + 1 - first)) 0 first last m.ppages_dscrs m free c pool (inl refl)
      refl h h' le (omega arith) v)
range_ppages_set_status-Fills first last status m free c pool (inr e) h le h' v = rw e (
    range_loop-Fills (suc (last + 1 - first)) 1 first last m.ppages_dscrs m free c pool (inr refl)
      refl h h' le (omega arith) v)
