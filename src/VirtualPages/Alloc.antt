-- ===== src/VirtualPages/Alloc.antt =====
-- _vregion_alloc of src/kernel/mm/virtual_pages.c, on a free list and a used list of regions.
use atros.Base.{
  ℕ, ◌≤◌, ◌<◌, ◌≡◌, ◌≢◌, refl, sym, List, [], ◌∷◌, ◌++◌, NotIn, In, arith, inl, inr, ok, Outcome,
  ne→==, length,
}
use atros.LinkedLists.Links.{Ptr, null}
use atros.LinkedLists.Simple.Chain.{
  IsChain-ne_null, NotIn-ne, Distinct-middle, Distinct-insert, In-insert, In-middle, NotIn-insert,
  In-left, NotIn-drop, IsChain-start,
}
use atros.VirtualPages.Regions.{Regions, Vregion, ObjsCache, vregion_alloc_of}
use atros.VirtualPages.Order.{IsRegion}
use atros.VirtualPages.Search.{AreSmall, first_fit-finds}
use atros.VirtualPages.Used.{IsRegions, IsUsedPlace, enlist_used-ok}
use atros.VirtualPages.Cut.{unlist_free-ok}
use atros.VirtualPages.Rest.{IsRest, give_rest-ok}

IsUsedPlace-shrink :
    (region region' : Ptr → Vregion) (p : Ptr) (n : ℕ) (pre post : List Ptr)
    → region' p ≡ record { first_vpn = (region p).first_vpn; nbr_pages = n }
    → n ≤ (region p).nbr_pages
    → ((q : Ptr) → In q (pre ++ post) → region' q ≡ region q)
    → IsUsedPlace region p pre post
    → IsUsedPlace region' p pre post
IsUsedPlace-shrink region region' p n pre [] e le same place = record {
  above = λ q i. rw (e, same q (In-left q pre [] i)) (omega (arith, place.above q i));
  below = place.below;
}
IsUsedPlace-shrink region region' p n pre (y ∷ ys) e le same place = record {
  above = λ q i. rw (e, same q (In-left q pre (y ∷ ys) i)) (omega (arith, place.above q i));
  below = rw (e, same y (In-middle pre y ys)) place.below;
}

module _ {C : Type 0} where
  -- The region `p`, cut to `n` pages, is moved from the free list to its place in the used one.
  pub record Allocated (s : Regions C) (pre : List Ptr) (p : Ptr)
      (post used_pre used_post : List Ptr) (n : ℕ) (upper : Ptr) (r : Outcome (Ptr × Regions C))
      : Type 0 where
    pub rest : List Ptr
    pub after : Regions C
    pub done : r ≡ ok (p, after)
    pub regions : IsRegions after (pre ++ (rest ++ post)) (used_pre ++ p ∷ used_post)
    pub lower_part : after.region p ≡ record { first_vpn = (s.region p).first_vpn; nbr_pages = n }
    pub is_rest : IsRest (s.region p) n after.region upper rest
    pub others : (q : Ptr) → q ≢ p → q ≢ upper → after.region q ≡ s.region q

  -- On well-formed lists, for a request of at least one page: if p is the first free region that
  -- is large enough, the cache has an object at a new address, p has a place in the used list
  -- between regions that start behind its end and one that ends before it, and the fuel exceeds
  -- both searches, then _vregion_alloc returns p cut to exactly the pages asked for, puts the rest
  -- of it, if any, in its place in the free list as a region of the other pages, moves p to its
  -- place in the used list, changes no other region, and keeps the lists well formed.
  pub vregion_alloc-Allocated :
      (fuel : ℕ) (objs : ObjsCache C) (s : Regions C) (pre : List Ptr) (p : Ptr)
      (post used_pre used_post : List Ptr) (n : ℕ) (upper : Ptr) (c : C)
      → IsRegions s (pre ++ p ∷ post) (used_pre ++ used_post)
      → AreSmall s.region n pre
      → n ≤ (s.region p).nbr_pages
      → 0 < n
      → IsUsedPlace s.region p used_pre used_post
      → objs.retrieve_free_obj s.cache ≡ ok (upper, c)
      → upper ≢ null
      → NotIn upper (pre ++ p ∷ post)
      → NotIn upper (used_pre ++ used_post)
      → length pre < fuel
      → length used_pre < fuel
      → Allocated s pre p post used_pre used_post n upper (vregion_alloc_of fuel objs n s)
  unfolding vregion_alloc_of
  vregion_alloc-Allocated fuel objs s pre p post used_pre used_post n upper c w small le pos place e
        ne_u new new' enough enough' =
      let ys = used_pre ++ used_post in
      let here : In p (pre ++ p ∷ post) = In-middle pre p post in
      let ne : p ≢ null = IsChain-ne_null s.next s.free_vregions (pre ++ p ∷ post) p w.free here in
      let start : s.free_vregions ≢ null =
        IsChain-start s.next s.free_vregions (pre ++ p ∷ post) p w.free here in
      let r : IsRegion (s.region p) = w.free_region p here in
      let u = unlist_free-ok s pre p post ys w in
      let s1 : Regions C = record s { next = u.next'; free_vregions = u.free' } in
      let g =
        give_rest-ok objs s1 pre post ys p n upper c u.regions e ne ne_u
          (NotIn-ne upper p (pre ++ p ∷ post) new here) r
          (Distinct-middle pre p post w.free_distinct) (w.apart p here)
          (NotIn-drop upper pre p post new) new' le in
      let same : (q : Ptr) → In q ys → g.after.region q ≡ s.region q = λ q i.
        g.others q (λ z. NotIn-ne p q ys (w.apart p here) i (sym z))
          (λ z. NotIn-ne upper q ys new' i (sym z)) in
      let cut : IsRegion (g.after.region p) = rw g.lower_part (pos, omega (arith, r.1)) in
      let l =
        enlist_used-ok fuel g.after (pre ++ (g.rest ++ post)) used_pre p used_post g.regions ne cut
          g.lone (w.apart p here)
          (IsUsedPlace-shrink s.region g.after.region p n used_pre used_post g.lower_part le same
            place)
          enough' in
      record {
        rest = g.rest;
        after = record g.after { next = l.next'; used_vregions = l.used' };
        done =
            rw
              (
                ne→== s.free_vregions null start,
                first_fit-finds fuel n s null s.free_vregions pre p post w.free small le enough,
                ne→== p null ne,
                u.done,
                g.done,
                l.done,
              )
              refl;
        regions = record {
          free = l.free;
          free_distinct = g.regions.free_distinct;
          used = l.used;
          used_distinct = Distinct-insert used_pre p used_post w.used_distinct (w.apart p here);
          apart = λ q i.
              NotIn-insert q used_pre p used_post (g.regions.apart q i)
                (λ z. NotIn-ne p q (pre ++ (g.rest ++ post)) g.lone i (sym z));
          free_region = g.regions.free_region;
          used_region = λ q i. elim (In-insert q used_pre p used_post i) [
            | inl z ↦ rw z cut
            | inr i' ↦ g.regions.used_region q i'
          ];
        };
        lower_part = g.lower_part;
        is_rest = g.is_rest;
        others = g.others;
      }
