-- ===== src/VirtualPages/Tests.antt =====
-- The theorems about src/kernel/mm/virtual_pages.c at a concrete state.
use atros.Base.{
  ℕ, ◌+◌, ◌≤◌, ◌≡◌, refl, [], ◌∷◌, ok, panic, arith, if◌then◌else◌, ◌==◌, inl, inr, List, ◌++◌, ◌⊎◌,
  ◌∙◌, sym,
}
use atros.LinkedLists.Links.{Ptr, null}
use atros.VirtualPages.Regions.{Regions, ObjsCache, vregion_alloc_of}
use atros.VirtualPages.Used.{IsRegions}
use atros.VirtualPages.Alloc.{Allocated, vregion_alloc-Allocated}
use atros.VirtualPages.Disjoint.{AreDisjoint, IsListed, vregion_alloc-AreDisjoint}
use atros.VirtualPages.Lowest.{vregion_alloc-none, vregion_alloc-lowest}

-- A cache that counts up through new addresses.
abbrev counting : ObjsCache ℕ
counting = record { retrieve_free_obj = λ c. ok (c, c + 100) }

-- Two free regions, at 100 of ten pages and at 200 of a hundred, and a used one at 300 of 50 pages
-- from the page `start`.
abbrev three_regions : ℕ → Regions ℕ
three_regions start = record {
  region = λ p.
      if p == 100
      then record { first_vpn = 50; nbr_pages = 10 }
      else if p == 200
      then record { first_vpn = 70; nbr_pages = 100 }
      else record { first_vpn = start; nbr_pages = 50 };
  next = λ p. if p == 100 then 200 else 0;
  free_vregions = 100;
  used_vregions = 300;
  cache = 400;
}

three_regions-IsRegions :
    (start : ℕ) → start ≤ 1000 → IsRegions (three_regions start) (100 ∷ 200 ∷ []) (300 ∷ [])
three_regions-IsRegions start h = record {
  free = ground arith;
  free_distinct = ground arith;
  used = ground arith;
  used_distinct = ground arith;
  apart = λ p i. ground arith;
  free_region = λ p i. elim i [
    | inl e ↦ rw e (omega arith, omega arith)
    | inr i' ↦ elim i' [ inl e ↦ rw e (omega arith, omega arith) | inr i'' ↦ absurd i'' ]
  ];
  used_region = λ p i. elim i [ inl e ↦ rw e (omega arith, omega arith) | inr i' ↦ absurd i' ];
}

vregion_alloc-Allocated_example :
    Allocated
      (three_regions 0)
      (100 ∷ [])
      200
      []
      []
      (300 ∷ [])
      20
      400
      (vregion_alloc_of 5 counting 20 (three_regions 0))
vregion_alloc-Allocated_example =
    vregion_alloc-Allocated 5 counting (three_regions 0) (100 ∷ []) 200 [] [] (300 ∷ []) 20 400 500
      (three_regions-IsRegions 0 (omega arith)) (omega arith, tt) (omega arith) (omega arith)
      (record { above = λ q i. absurd i; below = omega arith }) refl (omega arith) (ground arith)
      (ground arith) (omega arith) (omega arith)

vregion_alloc-none_example :
    vregion_alloc_of 5 counting 101 (three_regions 0) ≡ ok (null, three_regions 0)
vregion_alloc-none_example =
    vregion_alloc-none 5 counting (three_regions 0) 100 (200 ∷ []) 101 (ground arith)
      (omega arith, (omega arith, tt)) (omega arith)

vregion_alloc-lowest_example : vregion_alloc_of 5 counting 20 (three_regions 500) ≡ panic
vregion_alloc-lowest_example =
    vregion_alloc-lowest 5 counting (three_regions 500) (100 ∷ []) 200 [] 300 [] 20 400 500
      (three_regions-IsRegions 500 (omega arith)) (omega arith, tt) (omega arith) (omega arith)
      (λ q i. elim i [ inl e ↦ rw e (omega arith) | inr i' ↦ absurd i' ]) refl (omega arith)
      (ground arith) (ground arith) (omega arith) (omega arith)

-- Of the three addresses.
three_regions-listed :
    (p : Ptr) → IsListed (100 ∷ 200 ∷ []) (300 ∷ []) p → (p ≡ 100) ⊎ (p ≡ 200) ⊎ (p ≡ 300)
three_regions-listed p i = ground arith

three_regions-AreDisjoint : AreDisjoint (three_regions 0).region (100 ∷ 200 ∷ []) (300 ∷ [])
three_regions-AreDisjoint p q i i' ne = elim (three_regions-listed p i) [
  | inl e ↦ elim (three_regions-listed q i') [
    | inl e' ↦ absurd (ne (e ∙ sym e'))
    | inr (inl e') ↦ rw (e, e') (inl (omega arith))
    | inr (inr e') ↦ rw (e, e') (inr (omega arith))
  ]
  | inr (inl e) ↦ elim (three_regions-listed q i') [
    | inl e' ↦ rw (e, e') (inr (omega arith))
    | inr (inl e') ↦ absurd (ne (e ∙ sym e'))
    | inr (inr e') ↦ rw (e, e') (inr (omega arith))
  ]
  | inr (inr e) ↦ elim (three_regions-listed q i') [
    | inl e' ↦ rw (e, e') (inl (omega arith))
    | inr (inl e') ↦ rw (e, e') (inl (omega arith))
    | inr (inr e') ↦ absurd (ne (e ∙ sym e'))
  ]
]

vregion_alloc-AreDisjoint_example :
    (after : Regions ℕ) × (rest : List Ptr) × (vregion_alloc_of 5 counting 20 (three_regions 0)
      ≡ ok (200, after))
    × IsRegions after (100 ∷ (rest ++ [])) (200 ∷ 300 ∷ [])
    × AreDisjoint after.region (100 ∷ (rest ++ [])) (200 ∷ 300 ∷ [])
vregion_alloc-AreDisjoint_example =
    vregion_alloc-AreDisjoint 5 counting (three_regions 0) (100 ∷ []) 200 [] [] (300 ∷ []) 20 400
      500 (three_regions-IsRegions 0 (omega arith)) (omega arith, tt) (omega arith) (omega arith)
      (record { above = λ q i. absurd i; below = omega arith }) refl (omega arith) (ground arith)
      (ground arith) (omega arith) (omega arith) three_regions-AreDisjoint
