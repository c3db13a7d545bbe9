-- ===== src/VirtualPages/Lowest.antt =====
-- What _vregion_alloc of src/kernel/mm/virtual_pages.c does where it has no place for a region.
use atros.Base.{
  ℕ, ◌≤◌, ◌<◌, ◌≡◌, ◌≢◌, refl, sym, List, ◌∷◌, ◌++◌, NotIn, In, arith, inl, ok, panic, ne→==,
  length,
}
use atros.LinkedLists.Links.{Ptr, null}
use atros.LinkedLists.Simple.Chain.{
  IsChain, IsChain-ne_null, IsChain-start, NotIn-ne, Distinct-middle, In-middle, NotIn-drop,
}
use atros.LinkedLists.Simple.Ordered.{list_insert_ordered-end}
use atros.VirtualPages.Regions.{Regions, ObjsCache, on_next, enlist_used, vregion_alloc_of}
use atros.VirtualPages.Order.{IsRegion, IsBefore, vregion_cmp-null}
use atros.VirtualPages.Search.{AreSmall, first_fit-finds, first_fit-none}
use atros.VirtualPages.Used.{IsRegions, vregion_cmp-IsBehind}
use atros.VirtualPages.Cut.{unlist_free-ok}
use atros.VirtualPages.Rest.{give_rest-ok}

module _ {C : Type 0} where
  -- If no region of a free list that is not empty has the pages asked for, and the fuel exceeds its
  -- length, _vregion_alloc returns NULL and changes nothing.
  pub vregion_alloc-none :
      (fuel : ℕ) (objs : ObjsCache C) (s : Regions C) (x : Ptr) (xs : List Ptr) (n : ℕ)
      → IsChain s.next s.free_vregions (x ∷ xs)
      → AreSmall s.region n (x ∷ xs)
      → length (x ∷ xs) < fuel
      → vregion_alloc_of fuel objs n s ≡ ok (null, s)
  unfolding vregion_alloc_of
  vregion_alloc-none fuel objs s x xs n h small enough =
      rw
        (
          ne→== s.free_vregions null (IsChain-start s.next s.free_vregions (x ∷ xs) x h (inl refl)),
          first_fit-none fuel n s null s.free_vregions (x ∷ xs) h small enough,
        )
        refl

  enlist_used-end :
      (fuel : ℕ) (s : Regions C) (xs : List Ptr) (p y : Ptr) (ys : List Ptr)
      → IsRegions s xs (y ∷ ys)
      → p ≢ null
      → IsRegion (s.region p)
      → ((q : Ptr) → In q (y ∷ ys) → IsBefore (s.region p) (s.region q))
      → length (y ∷ ys) < fuel
      → enlist_used fuel p s ≡ panic
  unfolding enlist_used on_next
  enlist_used-end fuel s xs p y ys w ne r above enough =
      rw
        (list_insert_ordered-end fuel _ s.next s.used_vregions p y ys w.used
          (vregion_cmp-IsBehind s.region p (y ∷ ys) ne r (λ q i. (
            IsChain-ne_null s.next s.used_vregions (y ∷ ys) q w.used i,
            w.used_region q i,
            above q i,
          )))
          (vregion_cmp-null s.region p ne) enough)
        refl

  -- On well-formed lists, for a request of at least one page, with an object in the cache at a new
  -- address: if the first free region that is large enough ends before all used regions, of which
  -- there is one, and the fuel exceeds both lists, then _vregion_alloc panics.
  pub vregion_alloc-lowest :
      (fuel : ℕ) (objs : ObjsCache C) (s : Regions C) (pre : List Ptr) (p : Ptr) (post : List Ptr)
      (y : Ptr) (ys : List Ptr) (n : ℕ) (upper : Ptr) (c : C)
      → IsRegions s (pre ++ p ∷ post) (y ∷ ys)
      → AreSmall s.region n pre
      → n ≤ (s.region p).nbr_pages
      → 0 < n
      → ((q : Ptr) → In q (y ∷ ys) → IsBefore (s.region p) (s.region q))
      → objs.retrieve_free_obj s.cache ≡ ok (upper, c)
      → upper ≢ null
      → NotIn upper (pre ++ p ∷ post)
      → NotIn upper (y ∷ ys)
      → length pre < fuel
      → length (y ∷ ys) < fuel
      → vregion_alloc_of fuel objs n s ≡ panic
  unfolding vregion_alloc_of
  vregion_alloc-lowest fuel objs s pre p post y ys n upper c w small le pos above e ne_u new new'
        enough enough' =
      let here : In p (pre ++ p ∷ post) = In-middle pre p post in
      let ne : p ≢ null = IsChain-ne_null s.next s.free_vregions (pre ++ p ∷ post) p w.free here in
      let r : IsRegion (s.region p) = w.free_region p here in
      let u = unlist_free-ok s pre p post (y ∷ ys) w in
      let g =
        give_rest-ok objs (record s { next = u.next'; free_vregions = u.free' }) pre post (y ∷ ys) p
          n upper c u.regions e ne ne_u (NotIn-ne upper p (pre ++ p ∷ post) new here) r
          (Distinct-middle pre p post w.free_distinct) (w.apart p here)
          (NotIn-drop upper pre p post new) new' le in
      let above' : (q : Ptr) → In q (y ∷ ys) → IsBefore (g.after.region p) (g.after.region q) =
        λ q i.
          rw
            (
              g.lower_part,
              g.others q (λ z. NotIn-ne p q (y ∷ ys) (w.apart p here) i (sym z))
                  (λ z. NotIn-ne upper q (y ∷ ys) new' i (sym z)),
            )
            (omega (arith, above q i)) in
      rw
        (
          ne→== s.free_vregions null
              (IsChain-start s.next s.free_vregions (pre ++ p ∷ post) p w.free here),
          first_fit-finds fuel n s null s.free_vregions pre p post w.free small le enough,
          ne→== p null ne,
          u.done,
          g.done,
          enlist_used-end fuel g.after (pre ++ (g.rest ++ post)) p y ys g.regions ne
              (rw g.lower_part (pos, omega (arith, r.1))) above' enough',
        )
        refl
