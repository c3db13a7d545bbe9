-- ===== src/VirtualPages/Rest.antt =====
-- The step of _vregion_alloc of src/kernel/mm/virtual_pages.c that gives back the part of a region
-- that is too big.
use atros.Base.{
  ℕ, ◌+◌, ◌-◌, ◌≤◌, ◌<◌, ◌≡◌, ◌≢◌, refl, sym, List, [], ◌∷◌, ◌++◌, NotIn, In, arith, inl, inr, ◌⊎◌,
  ok, Outcome, ne→==, lt→ltb, ge→ltb, ltb, Bool-cases, ltb→lt, ltb→ge,
}
use atros.LinkedLists.Links.{Ptr, null}
use atros.LinkedLists.Simple.Chain.{
  last_of, IsChain-frame, NotIn-ne, Distinct-insert, In-insert, NotIn-insert,
}
use atros.LinkedLists.Simple.Relink.{list_insert_after-inserts}
use atros.VirtualPages.Regions.{Regions, Vregion, ObjsCache, on_next, give_rest}
use atros.VirtualPages.Order.{IsRegion}
use atros.VirtualPages.Search.{read_region-ok}
use atros.VirtualPages.Used.{IsApart-sym, IsRegions}
use atros.VirtualPages.Cut.{vregion_split-ok}

-- What is left of a region of which `n` pages are taken: nothing, or a region with the other
-- pages at a new address.
abbrev pub IsRest : Vregion → ℕ → (Ptr → Vregion) → Ptr → List Ptr → Type 0
IsRest v n region' upper rest =
    ((rest ≡ []) × (v.nbr_pages ≡ n))
    ⊎ ((rest ≡ upper ∷ [])
        × (region' upper ≡ record { first_vpn = v.first_vpn + n; nbr_pages = v.nbr_pages - n }))

module _ {C : Type 0} where
  pub record Given (s : Regions C) (pre post ys : List Ptr) (p : Ptr) (n : ℕ) (upper : Ptr)
      (r : Outcome (Unit {0} × Regions C)) : Type 0 where
    pub rest : List Ptr
    pub after : Regions C
    pub done : r ≡ ok (tt, after)
    pub regions : IsRegions after (pre ++ (rest ++ post)) ys
    pub lower_part : after.region p ≡ record { first_vpn = (s.region p).first_vpn; nbr_pages = n }
    pub is_rest : IsRest (s.region p) n after.region upper rest
    pub others : (q : Ptr) → q ≢ p → q ≢ upper → after.region q ≡ s.region q
    pub lone : NotIn p (pre ++ (rest ++ post))

  module _ (objs : ObjsCache C) (s : Regions C) (pre post ys : List Ptr) (p : Ptr) (n : ℕ)
      (upper : Ptr) (c : C) (w : IsRegions s (pre ++ post) ys)
      (e : objs.retrieve_free_obj s.cache ≡ ok (upper, c)) (ne : p ≢ null) (ne_u : upper ≢ null)
      (apart : upper ≢ p) (r : IsRegion (s.region p)) (out : NotIn p (pre ++ post))
      (out' : NotIn p ys) (new : NotIn upper (pre ++ post)) (new' : NotIn upper ys) where
    give_rest-exact :
        (s.region p).nbr_pages ≡ n
        → Given s pre post ys p n upper (give_rest objs n (last_of null pre) p s)
    unfolding give_rest
    give_rest-exact h = record {
      rest = [];
      after = s;
      done = rw (read_region-ok p s ne, ge→ltb n (s.region p).nbr_pages (omega arith)) refl;
      regions = w;
      lower_part = rw (sym h) refl;
      is_rest = inl (refl, h);
      others = λ q _ _. refl;
      lone = out;
    }

    give_rest-split :
        n < (s.region p).nbr_pages
        → Given s pre post ys p n upper (give_rest objs n (last_of null pre) p s)
    unfolding give_rest on_next
    give_rest-split lt =
        let cut = vregion_split-ok objs s p n upper c e ne ne_u apart lt r in
        let made =
          list_insert_after-inserts s.next s.free_vregions pre upper post w.free w.free_distinct new
            ne_u in
        let kept : (q : Ptr) → In q ys → cut.region' q ≡ s.region q = λ q i.
          cut.others q (λ z. NotIn-ne p q ys out' i (sym z))
            (λ z. NotIn-ne upper q ys new' i (sym z)) in
        record {
          rest = upper ∷ [];
          after = record s {
            region = cut.region';
            cache = c;
            next = made.l';
            free_vregions = made.list';
          };
          done =
              rw
                (
                  read_region-ok p s ne,
                  lt→ltb n (s.region p).nbr_pages lt,
                  cut.done,
                  ne→== upper null ne_u,
                  made.done,
                )
                refl;
          regions = record {
            free = made.chain;
            free_distinct = Distinct-insert pre upper post w.free_distinct new;
            used = IsChain-frame s.next made.l' s.used_vregions ys w.used (λ q i. made.frame q (
              (λ z. NotIn-ne upper q ys new' i (sym z)),
              IsApart-sym (pre ++ post) ys w.apart q i,
            ));
            used_distinct = w.used_distinct;
            apart = λ q i. elim (In-insert q pre upper post i) [
              | inl z ↦ rw z new'
              | inr i' ↦ w.apart q i'
            ];
            free_region = λ q i. elim (In-insert q pre upper post i) [
              | inl z ↦ rw (z, cut.upper_part) (omega arith, omega (arith, r.1))
              | inr i' ↦
                  rw
                    (cut.others q (λ z. NotIn-ne p q (pre ++ post) out i' (sym z))
                      (λ z. NotIn-ne upper q (pre ++ post) new i' (sym z)))
                    (w.free_region q i')
            ];
            used_region = λ q i. rw (kept q i) (w.used_region q i);
          };
          lower_part = cut.lower_part;
          is_rest = inr (refl, cut.upper_part);
          others = cut.others;
          lone = NotIn-insert p pre upper post out (λ z. apart (sym z));
        }

    pub give_rest-ok :
        n ≤ (s.region p).nbr_pages
        → Given s pre post ys p n upper (give_rest objs n (last_of null pre) p s)
    give_rest-ok le = elim (Bool-cases (ltb n (s.region p).nbr_pages)) [
      | inl h ↦ give_rest-split (ltb→lt n (s.region p).nbr_pages h)
      | inr h ↦ give_rest-exact (omega (arith, le, ltb→ge n (s.region p).nbr_pages h))
    ]
