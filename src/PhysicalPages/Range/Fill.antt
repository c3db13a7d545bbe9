-- ===== src/PhysicalPages/Range/Fill.antt =====
-- _range_ppages_set_status of src/kernel/mm/physical_pages.c adds a range of pages to the pool, or
-- to the used pages.
use atros.Base.{
  ℕ, ◌+◌, ◌-◌, ◌*◌, ◌/◌, ◌^◌, ◌≤◌, ◌<◌, ◌≡◌, refl, ap, List, ◌∷◌, [], ◌++◌, In, arith, ok, Outcome,
  ◌⊎◌, inl, inr, length-append, pow-positive, if◌then◌else◌, ◌==◌,
}
use native.Mathlib.Nat.{div-add-mod}
use atros.LinkedLists.Links.{Ptr}
use atros.PhysicalPages.State.{Memory, sizeof_ppage}
use atros.PhysicalPages.Pool.{Free, span, IsBlock, IsPool}
use atros.PhysicalPages.Pool.Count.{free_pages, free_pages-update}
use atros.PhysicalPages.Pool.Release.{
  IsApart, released, added, released-IsPool, enlisted, enlisted-IsPool, now_free,
}
use atros.PhysicalPages.Pool.Take.{span-positive}
use atros.PhysicalPages.Range.{init_block}
use atros.PhysicalPages.Range.Init.{
  head_page, init_head_free, init_head_used, IsStatus, SameShape, IsClear, inner_loop-IsPool,
}
use atros.PhysicalPages.Range.Order.{Fits}

abbrev pub addr : Memory → ℕ → Ptr
addr m n = m.ppages_dscrs + sizeof_ppage * n

-- A run that adds `n` pages, between two addresses of descriptors, to the pool if the status is
-- free and to the used ones if not.
pub record Fills (m : Memory) (free : Free) (c : List Ptr) (status lo hi n : ℕ)
    (r : Outcome (Unit {0} × Memory)) : Type 0 where
  pub after : Memory
  pub free' : Free
  pub c' : List Ptr
  pub done : r ≡ ok (tt, after)
  pub pool : IsPool after free' c'
  pub shape : SameShape m after
  pub new_free :
      (k : ℕ) (p : Ptr)
      → In p (free' k)
      → In p (free k) ⊎ ((status ≡ 0) × (lo ≤ p) × (p + span k ≤ hi))
  pub new_used : (p : Ptr) → In p c' → In p c ⊎ ((status ≡ 1) × (lo ≤ p) × (p < hi))
  pub pages : free_pages 10 free' ≡ free_pages 10 free + (if status == 0 then n else 0)

pub Fits-IsBlock :
    (m : Memory) (ppn last k : ℕ)
    → m.first_ppn ≤ ppn
    → last ≤ m.last_ppn
    → Fits ppn last k
    → IsBlock m (addr m ppn) k
Fits-IsBlock m ppn last k h h' (a, b) =
    let e : ppn / 2 ^ k * 2 ^ k ≡ ppn = omega (arith, div-add-mod ppn (2 ^ k)) in
    record { index = ppn / 2 ^ k; place = rw e refl; above = rw e h; below = rw e (omega arith) }

-- No free block overlaps the descriptors between two addresses, and no used one is among them.
pub record IsVacant (free : Free) (c : List Ptr) (lo hi : ℕ) : Type 0 where
  pub free_out : (k : ℕ) (p : Ptr) → In p (free k) → (p + span k ≤ lo) ⊎ (hi ≤ p)
  pub used_out : (p : Ptr) → In p c → (p < lo) ⊎ (hi ≤ p)

-- One block of the range.
module _ (k ppn last : ℕ) (m : Memory) (free : Free) (c : List Ptr) (pool : IsPool m free c)
    (small : k < 10) (block : IsBlock m (addr m ppn) k) (fits : Fits ppn last k)
    (vacant : IsVacant free c (addr m ppn) (addr m (last + 1))) where
  abbrev u : Ptr
  u = addr m ppn

  out : IsApart free c u k
  out = record {
    free_apart = λ j q i. ground (arith, vacant.free_out j q i, fits.1);
    used_apart = λ q i. ground (arith, vacant.used_out q i, fits.1);
  }

  abbrev m_free : Memory
  m_free = released m free c pool k u block out (head_page 0 k)

  abbrev more : Free
  more = added m free c pool k u block out (head_page 0 k)

  m_free-IsPool : IsPool m_free more c
  m_free-IsPool =
      released-IsPool m free c pool k u block out (head_page 0 k) (omega arith) refl refl

  more-new :
      (j : ℕ) (p : Ptr)
      → In p (more j)
      → In p (free j) ⊎ ((u ≤ p) × (p + span j ≤ addr m (ppn + 2 ^ k)))
  more-new j p i = elim (now_free m free c pool k u block out (head_page 0 k) j p i) [
    | inl old ↦ inl old
    | inr (e, h) ↦ rw (e, h) (inr (omega arith, omega arith))
  ]

  used-IsClear : (p : Ptr) → In p c → (p < u + 24) ⊎ (u + span k ≤ p)
  used-IsClear p i = ground (arith, out.used_apart p i)

  old-IsClear : (j : ℕ) (p : Ptr) → In p (free j) → (p < u + 24) ⊎ (u + span k ≤ p)
  old-IsClear j p i = ground (arith, out.free_apart j p i, span-positive j)

  more-IsClear : IsClear more c (u + 24) (u + span k)
  more-IsClear = (
    λ j p i. elim (now_free m free c pool k u block out (head_page 0 k) j p i) [
      | inl old ↦ old-IsClear j p old
      | inr (e, h) ↦ rw e (inl (omega arith))
    ],
    used-IsClear,
  )

  more-pages : free_pages 10 more ≡ free_pages 10 free + 2 ^ k
  more-pages = omega (
    arith,
    free_pages-update 10 free k (free k ++ u ∷ []) small,
    ap (λ (t : ℕ). t * 2 ^ k) (length-append (free k) (u ∷ [])),
  )

  init_block_free : Fills m free c 0 u (addr m (ppn + 2 ^ k)) (2 ^ k) (init_block 0 k ppn m)
  unfolding init_block
  init_block_free =
      let (m2, e2, pool2, shape2) =
        inner_loop-IsPool (2 ^ k - 1) 0 k (ppn + 1) (u + 24) (u + span k) m_free more c
          m_free-IsPool (inl refl) more-IsClear (omega arith) (omega (arith, pow-positive k)) in
      record {
        after = m2;
        free' = more;
        c' = c;
        done = rw (init_head_free m free c pool k u block out) e2;
        pool = pool2;
        shape = shape2;
        new_free = λ j p i. elim (more-new j p i) [
          | inl old ↦ inl old
          | inr new ↦ inr (refl, new.0, new.1)
        ];
        new_used = λ p i. inl i;
        pages = more-pages;
      }

  abbrev m_used : Memory
  m_used = enlisted m free c pool k u block out (head_page 1 k)

  init_block_used : Fills m free c 1 u (addr m (ppn + 2 ^ k)) (2 ^ k) (init_block 1 k ppn m)
  unfolding init_block
  init_block_used =
      let clear : IsClear free (u ∷ c) (u + 24) (u + span k) = (
        old-IsClear,
        λ p i. elim i [ inl e ↦ rw e (inl (omega arith)) | inr i' ↦ used-IsClear p i' ],
      ) in
      let (m2, e2, pool2, shape2) =
        inner_loop-IsPool (2 ^ k - 1) 1 k (ppn + 1) (u + 24) (u + span k) m_used free (u ∷ c)
          (enlisted-IsPool m free c pool k u block out (head_page 1 k)) (inr refl) clear
          (omega arith) (omega (arith, pow-positive k)) in
      record {
        after = m2;
        free' = free;
        c' = u ∷ c;
        done = rw (init_head_used m free c pool k u block out) e2;
        pool = pool2;
        shape = shape2;
        new_free = λ j p i. inl i;
        new_used = λ p i. elim i [
          | inl e ↦ rw e (inr (refl, omega arith, omega (arith, pow-positive k)))
          | inr i' ↦ inl i'
        ];
        pages = omega arith;
      }

pub init_block-Fills :
    (status k ppn last : ℕ) (m : Memory) (free : Free) (c : List Ptr)
    → IsPool m free c
    → IsStatus status
    → k < 10
    → IsBlock m (addr m ppn) k
    → Fits ppn last k
    → IsVacant free c (addr m ppn) (addr m (last + 1))
    → Fills m free c status (addr m ppn) (addr m (ppn + 2 ^ k)) (2 ^ k) (init_block status k ppn m)
init_block-Fills status k ppn last m free c pool (inl e) small block fits vacant =
    rw e (init_block_free k ppn last m free c pool small block fits vacant)
init_block-Fills status k ppn last m free c pool (inr e) small block fits vacant =
    rw e (init_block_used k ppn last m free c pool small block fits vacant)
