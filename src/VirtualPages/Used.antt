-- ===== src/VirtualPages/Used.antt =====
-- The lists of src/kernel/mm/virtual_pages.c, and how a region joins the used ones.
use atros.Base.{
  ℕ, ◌<◌, ◌≡◌, ◌≢◌, refl, sym, List, [], ◌∷◌, ◌++◌, NotIn, In, Distinct, inl, inr, ok, Outcome,
  length,
}
use atros.LinkedLists.Links.{Ptr, null}
use atros.LinkedLists.Simple.{Nexts, minus}
use atros.LinkedLists.Simple.Chain.{
  IsChain, IsChain-frame, IsChain-ne_null, NotIn-of_In, NotIn-ne, In-left, In-right,
}
use atros.LinkedLists.Simple.Ordered.{IsBehind, IsPlace, list_insert_ordered-inserts}
use atros.VirtualPages.Regions.{Regions, Vregion, vregion_cmp, on_next, enlist_used}
use atros.VirtualPages.Order.{IsRegion, IsBefore, vregion_cmp-plus, vregion_cmp-minus}

-- No element of the one list is in the other.
abbrev pub IsApart : List Ptr → List Ptr → Type 0
IsApart xs ys = (p : Ptr) → In p xs → NotIn p ys

pub IsApart-sym : (xs ys : List Ptr) → IsApart xs ys → IsApart ys xs
IsApart-sym xs ys a p i = NotIn-of_In p xs (λ q i' e. NotIn-ne q p ys (a q i') i (sym e))

-- The free regions `xs` and the used ones `ys`, each with a page and in the address space.
pub record IsRegions {C : Type 0} (s : Regions C) (xs ys : List Ptr) : Type 0 where
  pub free : IsChain s.next s.free_vregions xs
  pub free_distinct : Distinct xs
  pub used : IsChain s.next s.used_vregions ys
  pub used_distinct : Distinct ys
  pub apart : IsApart xs ys
  pub free_region : (p : Ptr) → In p xs → IsRegion (s.region p)
  pub used_region : (p : Ptr) → In p ys → IsRegion (s.region p)

-- The place of a region in the used list: those in front of it start behind its end, and the one
-- behind it ends before its start.
abbrev pub IsFollowed : (Ptr → Vregion) → Ptr → List Ptr → List Ptr → Type 0
IsFollowed region p pre [] = length pre ≡ 0
IsFollowed region p pre (y ∷ ys) = IsBefore (region y) (region p)

pub record IsUsedPlace (region : Ptr → Vregion) (p : Ptr) (pre post : List Ptr) : Type 0 where
  pub above : (q : Ptr) → In q pre → IsBefore (region p) (region q)
  pub below : IsFollowed region p pre post

pub vregion_cmp-IsBehind :
    (region : Ptr → Vregion) (p : Ptr) (xs : List Ptr)
    → p ≢ null
    → IsRegion (region p)
    → ((q : Ptr) → In q xs → (q ≢ null) × IsRegion (region q) × IsBefore (region p) (region q))
    → IsBehind (vregion_cmp region) p xs
vregion_cmp-IsBehind region p [] ne r f = tt
vregion_cmp-IsBehind region p (x ∷ xs) ne r f =
    let (ne', r', h) = f x (inl refl) in
    (
      vregion_cmp-plus region p x ne ne' r r' h,
      vregion_cmp-IsBehind region p xs ne r (λ q i. f q (inr i)),
    )

vregion_cmp-IsPlace :
    (region : Ptr → Vregion) (p : Ptr) (pre post : List Ptr)
    → p ≢ null
    → IsRegion (region p)
    → ((q : Ptr) → In q post → (q ≢ null) × IsRegion (region q))
    → IsFollowed region p pre post
    → IsPlace (vregion_cmp region) p pre post
vregion_cmp-IsPlace region p pre [] ne r f h = h
vregion_cmp-IsPlace region p pre (y ∷ ys) ne r f h =
    let (ne', r') = f y (inl refl) in (minus, vregion_cmp-minus region p y ne ne' r r' h, refl)

module _ {C : Type 0} where
  -- A region that is in neither list joins the used ones.
  pub record Enlisted (s : Regions C) (xs pre : List Ptr) (p : Ptr) (post : List Ptr)
      (r : Outcome (Unit {0} × Regions C)) : Type 0 where
    pub next' : Nexts
    pub used' : Ptr
    pub done : r ≡ ok (tt, record s { next = next'; used_vregions = used' })
    pub free : IsChain next' s.free_vregions xs
    pub used : IsChain next' used' (pre ++ p ∷ post)

  pub enlist_used-ok :
      (fuel : ℕ) (s : Regions C) (xs pre : List Ptr) (p : Ptr) (post : List Ptr)
      → IsRegions s xs (pre ++ post)
      → p ≢ null
      → IsRegion (s.region p)
      → NotIn p xs
      → NotIn p (pre ++ post)
      → IsUsedPlace s.region p pre post
      → length pre < fuel
      → Enlisted s xs pre p post (enlist_used fuel p s)
  unfolding enlist_used on_next
  enlist_used-ok fuel s xs pre p post w ne r n n' place enough =
      let ok_of : (q : Ptr) → In q (pre ++ post) → (q ≢ null) × IsRegion (s.region q) = λ q i.
        (IsChain-ne_null s.next s.used_vregions (pre ++ post) q w.used i, w.used_region q i) in
      let made =
        list_insert_ordered-inserts fuel (vregion_cmp s.region) s.next s.used_vregions pre p post
          w.used w.used_distinct n' ne
          (vregion_cmp-IsBehind s.region p pre ne r
            (λ q i. let (a, b) = ok_of q (In-left q pre post i) in (a, b, place.above q i)))
          (vregion_cmp-IsPlace s.region p pre post ne r (λ q i. ok_of q (In-right q pre post i))
            place.below)
          enough in
      record {
        next' = made.l';
        used' = made.list';
        done = rw made.done refl;
        free =
            IsChain-frame s.next made.l' s.free_vregions xs w.free
              (λ q i. made.frame q ((λ e. NotIn-ne p q xs n i (sym e)), w.apart q i));
        used = made.chain;
      }
