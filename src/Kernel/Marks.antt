-- ===== src/Kernel/Marks.antt =====
-- The end of physical_page_boot_init of src/kernel/mm/physical_pages.c: which pages it marks as used
-- and as free, from a state in which no list knows of a page.
use atros.Base.{
  ℕ, ◌+◌, ◌-◌, ◌*◌, ◌%◌, ◌^◌, ◌≤◌, ◌<◌, ◌≡◌, refl, sym, ◌∙◌, subst, List, [], In, arith, ok,
  Outcome, Cmd, ◌>>◌, inl, inr, ◌⊎◌, after_ok, if◌then◌else◌, ◌==◌,
}
use atros.LinkedLists.Links.{Ptr, null}
use atros.PhysicalPages.State.{Memory, sizeof_ppage}
use atros.PhysicalPages.Address.{paddr_to_ppn}
use atros.PhysicalPages.Pool.{Free, span, IsPool, IsArray}
use atros.PhysicalPages.Pool.Count.{free_pages}
use atros.PhysicalPages.Range.{range_ppages_set_status, ppage_status_free, ppage_status_used}
use atros.PhysicalPages.Range.Init.{IsStatus, SameShape}
use atros.PhysicalPages.Range.Fill.{Fills, IsVacant, addr}
use atros.PhysicalPages.Range.Loop.{range_ppages_set_status-Fills}

-- n - 1 on 32-bit words.
abbrev pub before : ℕ → ℕ
before n = (n + 2 ^ 32 - 1) % 2 ^ 32

-- `image` and `image_end` are the first page of the kernel image and the one behind it, `boot` is
-- the page of the address behind the image, and `first_free` the first page that the boot allocator
-- has not given out.
unfoldable pub mark_ppages : ℕ → ℕ → ℕ → ℕ → ℕ → Cmd Memory (Unit {0})
mark_ppages image image_end boot first_free last = do
  range_ppages_set_status 0 (before (paddr_to_ppn (2 ^ 20))) ppage_status_used
  range_ppages_set_status (paddr_to_ppn (2 ^ 20)) (before image) ppage_status_free
  range_ppages_set_status image (before image_end) ppage_status_used
  range_ppages_set_status boot (before first_free) ppage_status_used
  range_ppages_set_status first_free last ppage_status_free

-- No free block and no used descriptor reaches an address.
record IsBelow (free : Free) (c : List Ptr) (hi : ℕ) : Type 0 where
  free_below : (k : ℕ) (p : Ptr) → In p (free k) → p + span k ≤ hi
  used_below : (p : Ptr) → In p c → p < hi

IsBelow-IsVacant :
    (free : Free) (c : List Ptr) (lo hi : ℕ) → IsBelow free c lo → IsVacant free c lo hi
IsBelow-IsVacant free c lo hi b = record {
  free_out = λ k p i. inl (b.free_below k p i);
  used_out = λ p i. inl (b.used_below p i);
}

Fills-IsBelow :
    {m : Memory} {free : Free} {c : List Ptr} {status lo hi n : ℕ} {r : Outcome (Unit {0} × Memory)}
    → (f : Fills m free c status lo hi n r) → IsBelow free c lo
    → lo ≤ hi
    → IsBelow f.free' f.c' hi
Fills-IsBelow f b h = record {
  free_below = λ k p i. ground (arith, f.new_free k p i, b.free_below k p);
  used_below = λ p i. ground (arith, f.new_used p i, b.used_below p);
}

-- A range behind all that is listed, with the address of the array by itself.
range-Fills :
    (base first last first' status : ℕ) (m : Memory) (free : Free) (c : List Ptr)
    → IsPool m free c
    → IsStatus status
    → m.ppages_dscrs ≡ base
    → m.first_ppn ≡ 0
    → first ≤ last + 1
    → last ≤ m.last_ppn
    → last + 1 ≡ first'
    → IsBelow free c (base + sizeof_ppage * first)
    → Fills m free c status
        (base + sizeof_ppage * first)
        (base + sizeof_ppage * first')
        (first' - first)
        (range_ppages_set_status first last status m)
range-Fills base first last first' status m free c pool st eb e0 h h' e b =
    subst
      (λ (t : ℕ).
        Fills m free c status (base + sizeof_ppage * first) (base + sizeof_ppage * t) (t - first)
          (range_ppages_set_status first last status m))
      e
      (subst
        (λ (t : ℕ).
          Fills m free c status (t + sizeof_ppage * first) (t + sizeof_ppage * (last + 1))
            (last + 1 - first) (range_ppages_set_status first last status m))
        eb
        (range_ppages_set_status-Fills first last status m free c pool st (omega arith) h h' (
          IsBelow-IsVacant free c (addr m first) (addr m (last + 1))
            (subst (λ (t : ℕ). IsBelow free c (t + sizeof_ppage * first)) (sym eb) b))))

-- The pages are marked: the state is well formed, the free blocks lie behind the first MB and before
-- the image or behind all that is in use, and they have all pages of these two ranges.
pub record Marks (m : Memory) (image first_free last : ℕ) (r : Outcome (Unit {0} × Memory))
    : Type 0 where
  pub after : Memory
  pub free : Free
  pub c : List Ptr
  pub done : r ≡ ok (tt, after)
  pub pool : IsPool after free c
  pub shape : SameShape m after
  pub where_free :
      (k : ℕ) (p : Ptr)
      → In p (free k)
      → ((addr m 256 ≤ p) × (p + span k ≤ addr m image))
        ⊎ ((addr m first_free ≤ p) × (p + span k ≤ addr m (last + 1)))
  pub where_used :
      (p : Ptr) → In p c → (p < addr m 256) ⊎ ((addr m image ≤ p) × (p < addr m first_free))
  pub pages : free_pages 10 free ≡ image - 256 + (last + 1 - first_free)

-- No list knows of a page.
abbrev pub none_free : Free
none_free k = []

pub record IsUnlisted (m : Memory) : Type 0 where
  pub array : IsArray m
  pub no_free : (k : ℕ) → m.free_lists k ≡ null
  pub no_used : (k : ℕ) → m.used_lists k ≡ null

IsUnlisted-IsPool : (m : Memory) → IsUnlisted m → IsPool m none_free []
IsUnlisted-IsPool m u = record {
  array = u.array;
  rings = u.no_free;
  blocks = λ k p i. absurd i;
  orders = λ k p i. absurd i;
  apart = λ j k p q i i'. absurd i;
  closed = record { head = λ k. inl (u.no_used k); back = λ p i. i; ne_null = λ p i. absurd i };
  used_apart = λ k p q i. absurd i;
}

none_free-pages : free_pages 10 none_free ≡ 0
unfolding free_pages
none_free-pages = refl

-- The ranges up to the page `hi` are done, and have added `n` free pages.
record IsLaid (m0 : Memory) (image first_free last hi n : ℕ) (m : Memory) (free : Free)
    (c : List Ptr) : Type 0 where
  pool : IsPool m free c
  shape : SameShape m0 m
  below : IsBelow free c (addr m0 hi)
  where_free :
      (k : ℕ) (p : Ptr)
      → In p (free k)
      → ((addr m0 256 ≤ p) × (p + span k ≤ addr m0 image))
        ⊎ ((addr m0 first_free ≤ p) × (p + span k ≤ addr m0 (last + 1)))
  where_used :
      (p : Ptr) → In p c → (p < addr m0 256) ⊎ ((addr m0 image ≤ p) × (p < addr m0 first_free))
  pages : free_pages 10 free ≡ n

module _ (m0 : Memory) (image first_free last : ℕ) where
  -- A range is for free pages, or for used ones.
  abbrev IsPlaced : ℕ → ℕ → ℕ → Type 0
  IsPlaced status lo hi =
      ((status ≡ 0) × (((256 ≤ lo) × (hi ≤ image)) ⊎ ((first_free ≤ lo) × (hi ≤ last + 1))))
      ⊎ ((status ≡ 1) × ((hi ≤ 256) ⊎ ((image ≤ lo) × (hi ≤ first_free))))

  IsLaid-Fills :
      {m : Memory} {free : Free} {c : List Ptr} {status lo hi n n' : ℕ}
      {r : Outcome (Unit {0} × Memory)}
      → (f : Fills m free c status (addr m0 lo) (addr m0 hi) (hi - lo) r)
      → IsLaid m0 image first_free last lo n m free c
      → lo ≤ hi
      → IsPlaced status lo hi
      → n' ≡ n + (if status == 0 then hi - lo else 0)
      → IsLaid m0 image first_free last hi n' f.after f.free' f.c'
  IsLaid-Fills f a h pl e = record {
    pool = f.pool;
    shape = (f.shape.0 ∙ a.shape.0, f.shape.1 ∙ a.shape.1, f.shape.2 ∙ a.shape.2);
    below = Fills-IsBelow f a.below (omega arith);
    where_free = λ k p i. ground (arith, f.new_free k p i, a.where_free k p);
    where_used = λ p i. ground (arith, f.new_used p i, a.where_used p);
    pages = omega (arith, f.pages, a.pages, e);
  }

  -- One more range, and then the rest.
  mark_then :
      (lo hi last' status n n' : ℕ) (m : Memory) (free : Free) (c : List Ptr)
      (rest : Cmd Memory (Unit {0}))
      → m0.first_ppn ≡ 0
      → hi ≤ m0.last_ppn + 1
      → IsLaid m0 image first_free last lo n m free c
      → lo ≤ hi
      → last' + 1 ≡ hi
      → IsStatus status
      → IsPlaced status lo hi
      → n' ≡ n + (if status == 0 then hi - lo else 0)
      → ((m' : Memory) (free' : Free) (c' : List Ptr)
          → IsLaid m0 image first_free last hi n' m' free' c'
          → Marks m0 image first_free last (rest m'))
      → Marks m0 image first_free last ((range_ppages_set_status lo last' status >> rest) m)
  mark_then lo hi last' status n n' m free c rest e0 el a h e st pl en next =
      let f =
        range-Fills m0.ppages_dscrs lo last' hi status m free c a.pool st a.shape.0 (a.shape.1 ∙ e0)
          (omega arith) (omega (arith, a.shape.2)) e a.below in
      subst (Marks m0 image first_free last)
        (sym (after_ok (range_ppages_set_status lo last' status) (λ _. rest) f.done))
        (next f.after f.free' f.c' (IsLaid-Fills f a h pl en))

  -- The last range.
  mark_last :
      (n : ℕ) (m : Memory) (free : Free) (c : List Ptr)
      → m0.first_ppn ≡ 0
      → last ≡ m0.last_ppn
      → IsLaid m0 image first_free last first_free n m free c
      → first_free ≤ last + 1
      → n ≡ image - 256
      → Marks m0 image first_free last (range_ppages_set_status first_free last 0 m)
  mark_last n m free c e0 el a h e =
      let f =
        range-Fills m0.ppages_dscrs first_free last (last + 1) 0 m free c a.pool (inl refl)
          a.shape.0 (a.shape.1 ∙ e0) h (omega (arith, a.shape.2)) refl a.below in
      let b =
        IsLaid-Fills {n' = image - 256 + (last + 1 - first_free)} f a h
          (inl (refl, inr (omega arith, omega arith))) (omega arith) in
      record {
        after = f.after;
        free = f.free';
        c = f.c';
        done = f.done;
        pool = b.pool;
        shape = b.shape;
        where_free = b.where_free;
        where_used = b.where_used;
        pages = b.pages;
      }

-- For an array of descriptors from page 0 on that no list knows of, an image of the kernel behind
-- the first MB that ends at a page boundary, and boot pages behind it up to `first_free`, the five
-- calls of _range_ppages_set_status in physical_page_boot_init end without a fault and set up the
-- pool: its free blocks have all the pages between the first MB and the image and from
-- `first_free` on, and neither they nor the used descriptors reach into the others' ranges.
pub mark_ppages-Marks :
    (image image_end first_free last : ℕ) (m : Memory)
    → IsUnlisted m
    → m.first_ppn ≡ 0
    → m.last_ppn ≡ last
    → 256 ≤ image
    → image ≤ image_end
    → image_end ≤ first_free
    → first_free ≤ last + 1
    → Marks m image first_free last (mark_ppages image image_end image_end first_free last m)
unfolding mark_ppages paddr_to_ppn
mark_ppages-Marks image image_end first_free last m u e0 el h h1 h2 h3 =
    let start : IsLaid m image first_free last 0 0 m none_free [] = record {
      pool = IsUnlisted-IsPool m u;
      shape = (refl, refl, refl);
      below = record { free_below = λ k p i. absurd i; used_below = λ p i. absurd i };
      where_free = λ k p i. absurd i;
      where_used = λ p i. absurd i;
      pages = none_free-pages;
    } in
    let fits : sizeof_ppage * (last + 1) < 2 ^ 32 = omega (arith, u.array.fits) in
    mark_then m image first_free last 0 256 255 1 0 0 m none_free [] _ e0 (omega arith) start
      (omega arith) refl (inr refl) (inr (refl, inl (omega arith))) refl
      (λ m1 free1 c1 a1.
        mark_then m image first_free last 256 image (before image) 0 0 (image - 256) m1 free1 c1 _
          e0 (omega arith) a1 h (omega arith) (inl refl)
          (inl (refl, inl (omega arith, omega arith))) (omega arith)
          (λ m2 free2 c2 a2.
            mark_then m image first_free last image image_end (before image_end) 1 (image - 256)
              (image - 256) m2 free2 c2 _ e0 (omega arith) a2 h1 (omega arith) (inr refl)
              (inr (refl, inr (omega arith, h2))) (omega arith)
              (λ m3 free3 c3 a3.
                mark_then m image first_free last image_end first_free (before first_free) 1
                  (image - 256) (image - 256) m3 free3 c3 _ e0 (omega arith) a3 h2 (omega arith)
                  (inr refl) (inr (refl, inr (h1, omega arith))) (omega arith)
                  (λ m4 free4 c4 a4.
                    mark_last m image first_free last (image - 256) m4 free4 c4 e0 (sym el) a4 h3
                      refl))))
