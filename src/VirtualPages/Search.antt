-- ===== src/VirtualPages/Search.antt =====
-- The search of _vregion_alloc in src/kernel/mm/virtual_pages.c: first fit.
use atros.Base.{
  ℕ, zero, suc, ◌≤◌, ◌<◌, ◌≡◌, ◌≢◌, refl, List, [], ◌∷◌, ◌++◌, arith, ok, le→leb, gt→leb, ne→==,
  length,
}
use atros.LinkedLists.Links.{Ptr, null}
use atros.LinkedLists.Simple.Chain.{IsChain, last_of}
use atros.LinkedLists.Simple.Relink.{follow-ok}
use atros.VirtualPages.Regions.{Regions, Vregion, first_fit, on_next, read_region}

-- No region of these has `n` pages.
abbrev pub AreSmall : (Ptr → Vregion) → ℕ → List Ptr → Type 0
AreSmall region n [] = Unit {0}
AreSmall region n (x ∷ xs) = ((region x).nbr_pages < n) × AreSmall region n xs

module _ {C : Type 0} where
  pub read_region-ok : (p : Ptr) (s : Regions C) → p ≢ null → read_region p s ≡ ok (s.region p, s)
  unfolding read_region
  read_region-ok p s ne = rw (ne→== p null ne) refl

  pub first_fit-finds :
      (fuel n : ℕ) (s : Regions C) (prev current : Ptr) (pre : List Ptr) (x : Ptr) (post : List Ptr)
      → IsChain s.next current (pre ++ x ∷ post)
      → AreSmall s.region n pre
      → n ≤ (s.region x).nbr_pages
      → length pre < fuel
      → first_fit fuel n prev current s ≡ ok ((last_of prev pre, x), s)
  unfolding first_fit on_next
  first_fit-finds zero n s prev current pre x post h small big enough = absurd (omega arith)
  first_fit-finds (suc fuel) n s prev current [] x post (e, ne, h) small big enough =
      rw (e, ne→== x null ne, read_region-ok x s ne, le→leb n (s.region x).nbr_pages big) refl
  first_fit-finds (suc fuel) n s prev current (y ∷ ys) x post (e, ne, h) (lt, small) big enough =
      rw
        (
          e,
          ne→== y null ne,
          read_region-ok y s ne,
          gt→leb n (s.region y).nbr_pages lt,
          follow-ok y s.next ne,
        )
        (first_fit-finds fuel n s y (s.next y) ys x post h small big (omega arith))

  pub first_fit-none :
      (fuel n : ℕ) (s : Regions C) (prev current : Ptr) (xs : List Ptr)
      → IsChain s.next current xs
      → AreSmall s.region n xs
      → length xs < fuel
      → first_fit fuel n prev current s ≡ ok ((last_of prev xs, null), s)
  unfolding first_fit on_next
  first_fit-none zero n s prev current xs h small enough = absurd (omega arith)
  first_fit-none (suc fuel) n s prev current [] h small enough = rw h refl
  first_fit-none (suc fuel) n s prev current (y ∷ ys) (e, ne, h) (lt, small) enough =
      rw
        (
          e,
          ne→== y null ne,
          read_region-ok y s ne,
          gt→leb n (s.region y).nbr_pages lt,
          follow-ok y s.next ne,
        )
        (first_fit-none fuel n s y (s.next y) ys h small (omega arith))
