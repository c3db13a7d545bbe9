-- ===== src/PhysicalPages/BootTests.antt =====
-- The theorems about the set-up of the pages of src/kernel/mm/physical_pages.c at a concrete state.
use atros.Base.{◌≡◌, refl, [], ◌∷◌, ok, inl, arith, false}
use atros.PhysicalPages.State.{Memory}
use atros.PhysicalPages.Pool.{Free, IsPool}
use atros.PhysicalPages.Range.{range_ppages_set_status, BootPages}
use atros.PhysicalPages.Boot.{serve, boot_physical_pages_alloc-laid_out}
use atros.PhysicalPages.Range.Fill.{Fills, addr}
use atros.PhysicalPages.Range.Loop.{range_ppages_set_status-Fills}

-- Eight pages of which no list knows.
abbrev no_lists : Memory
no_lists = record {
  ppages_dscrs = 1000;
  first_ppn = 0;
  last_ppn = 7;
  page = λ p. record { block_head = false; block_order = 0; count = 0; slab = 0; mapping = 0 };
  links = record { next = λ p. 0; prev = λ p. 0 };
  free_lists = λ k. 0;
  used_lists = λ k. 0;
}

abbrev none_free : Free
none_free k = []

no_lists-IsPool : IsPool no_lists none_free []
no_lists-IsPool = record {
  array = record { base = omega arith; fits = omega arith };
  rings = λ k. refl;
  blocks = λ k p i. absurd i;
  orders = λ k p i. absurd i;
  apart = λ j k p q i i'. absurd i;
  closed = record { head = λ k. inl refl; back = λ p i. i; ne_null = λ p i. absurd i };
  used_apart = λ k p q i. absurd i;
}

range_ppages_set_status-Fills_example :
    Fills no_lists none_free [] 0
      (addr no_lists 1)
      (addr no_lists 7)
      6
      (range_ppages_set_status 1 6 0 no_lists)
range_ppages_set_status-Fills_example =
    range_ppages_set_status-Fills 1 6 0 no_lists none_free [] no_lists-IsPool (inl refl)
      (omega arith) (omega arith) (omega arith)
      (record { free_out = λ k p i. absurd i; used_out = λ p i. absurd i })

-- Pages 10 to 19 are left.
abbrev ten_left : BootPages
ten_left = record { first_free_ppn = 10; last_free_ppn = 19 }

boot_physical_pages_alloc-laid_out_example :
    serve (3 ∷ 7 ∷ []) ten_left ≡ ok (10 ∷ 13 ∷ [], record ten_left { first_free_ppn = 20 })
boot_physical_pages_alloc-laid_out_example =
    boot_physical_pages_alloc-laid_out (3 ∷ 7 ∷ []) ten_left (omega arith, (omega arith, tt))
      (omega arith) (omega arith)
