-- ===== src/VirtualPages/Cut.antt =====
-- The steps of _vregion_alloc of src/kernel/mm/virtual_pages.c that take a region out of the free
-- list and cut it.
use atros.Base.{
  ℕ, ◌+◌, ◌-◌, ◌%◌, ◌^◌, ◌<◌, ◌≡◌, ◌≢◌, refl, sym, List, ◌∷◌, ◌++◌, arith, ok, Outcome, ne→==,
  lt→ltb,
}
use atros.LinkedLists.Links.{Ptr, null, update, update_eq, update_ne}
use atros.LinkedLists.Simple.{Nexts}
use atros.LinkedLists.Simple.Chain.{last_of, IsChain-frame, Distinct-drop, In-drop}
use atros.LinkedLists.Simple.Relink.{list_delete_el-removes}
use atros.VirtualPages.Regions.{
  Regions, Vregion, ObjsCache, on_next, edit_region, retrieve, vregion_split, unlist_free,
  vregion_first_vpn,
}
use atros.VirtualPages.Order.{IsRegion}
use atros.VirtualPages.Search.{read_region-ok}
use atros.VirtualPages.Used.{IsApart-sym, IsRegions}

module _ {C : Type 0} where
  pub record Unlisted (s : Regions C) (xs ys : List Ptr) (r : Outcome (Unit {0} × Regions C))
      : Type 0 where
    pub next' : Nexts
    pub free' : Ptr
    pub done : r ≡ ok (tt, record s { next = next'; free_vregions = free' })
    pub regions : IsRegions (record s { next = next'; free_vregions = free' }) xs ys

  pub unlist_free-ok :
      (s : Regions C) (pre : List Ptr) (p : Ptr) (post ys : List Ptr)
      → IsRegions s (pre ++ p ∷ post) ys
      → Unlisted s (pre ++ post) ys (unlist_free (last_of null pre) p s)
  unfolding unlist_free on_next
  unlist_free-ok s pre p post ys w =
      let made = list_delete_el-removes s.next s.free_vregions pre p post w.free w.free_distinct in
      record {
        next' = made.l';
        free' = made.list';
        done = rw made.done refl;
        regions = record {
          free = made.chain;
          free_distinct = Distinct-drop pre p post w.free_distinct;
          used =
              IsChain-frame s.next made.l' s.used_vregions ys w.used
                (λ q i. made.frame q (IsApart-sym (pre ++ p ∷ post) ys w.apart q i));
          used_distinct = w.used_distinct;
          apart = λ q i. w.apart q (In-drop q pre p post i);
          free_region = λ q i. w.free_region q (In-drop q pre p post i);
          used_region = w.used_region;
        };
      }

  edit_region-ok :
      (p : Ptr) (f : Vregion → Vregion) (s : Regions C)
      → p ≢ null
      → edit_region p f s ≡ ok (tt, record s { region = update s.region p (f (s.region p)) })
  unfolding edit_region
  edit_region-ok p f s ne = rw (ne→== p null ne) refl

  -- The region `p` is cut behind `n` pages, and the rest is at `upper`.
  pub record Split (s : Regions C) (p : Ptr) (n : ℕ) (upper : Ptr) (c : C)
      (r : Outcome (Ptr × Regions C)) : Type 0 where
    pub region' : Ptr → Vregion
    pub done : r ≡ ok (upper, record s { region = region'; cache = c })
    pub lower_part : region' p ≡ record { first_vpn = (s.region p).first_vpn; nbr_pages = n }
    pub upper_part :
        region' upper
        ≡ record { first_vpn = (s.region p).first_vpn + n; nbr_pages = (s.region p).nbr_pages - n }
    pub others : (q : Ptr) → q ≢ p → q ≢ upper → region' q ≡ s.region q

  pub vregion_split-ok :
      (objs : ObjsCache C) (s : Regions C) (p : Ptr) (n : ℕ) (upper : Ptr) (c : C)
      → objs.retrieve_free_obj s.cache ≡ ok (upper, c)
      → p ≢ null
      → upper ≢ null
      → upper ≢ p
      → n < (s.region p).nbr_pages
      → IsRegion (s.region p)
      → Split s p n upper c (vregion_split objs p n s)
  unfolding vregion_split retrieve vregion_first_vpn
  vregion_split-ok objs s p n upper c e ne ne_u apart lt (pos, small) =
      let first = (s.region p).first_vpn + n in
      let wrap : first % 2 ^ 32 ≡ first = omega arith in
      let r1 = update s.region upper (record (s.region upper) { first_vpn = first }) in
      let e1 : r1 p ≡ s.region p =
        update_ne s.region upper p (record (s.region upper) { first_vpn = first })
          (λ z. apart (sym z)) in
      let v2 : Vregion = record (r1 upper) { nbr_pages = (r1 p).nbr_pages - n } in
      let r2 = update r1 upper v2 in
      let v3 : Vregion = record (r2 p) { nbr_pages = n } in
      let s0 : Regions C = record s { cache = c } in
      let e2 : r2 p ≡ r1 p = update_ne r1 upper p v2 (λ z. apart (sym z)) in
      record {
        region' = update r2 p v3;
        done =
            rw
              (
                ne→== p null ne,
                read_region-ok p s ne,
                lt→ltb n (s.region p).nbr_pages lt,
                e,
                ne→== upper null ne_u,
                wrap,
                edit_region-ok upper (λ u. record u { first_vpn = first }) s0 ne_u,
                read_region-ok p (record s0 { region = r1 }) ne,
                edit_region-ok upper (λ u. record u { nbr_pages = (r1 p).nbr_pages - n })
                    (record s0 { region = r1 }) ne_u,
                edit_region-ok p (λ u. record u { nbr_pages = n }) (record s0 { region = r2 }) ne,
              )
              refl;
        lower_part = rw (update_eq r2 p p v3 refl, e2, e1) refl;
        upper_part =
            rw
              (
                update_ne r2 p upper v3 apart,
                update_eq r1 upper upper v2 refl,
                update_eq s.region upper upper (record (s.region upper) { first_vpn = first }) refl,
                e1,
              )
              refl;
        others = λ q ne_p ne_u'.
            rw
              (
                update_ne r2 p q v3 ne_p,
                update_ne r1 upper q v2 ne_u',
                update_ne s.region upper q (record (s.region upper) { first_vpn = first }) ne_u',
              )
              refl;
      }
