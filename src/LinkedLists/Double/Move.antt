-- ===== src/LinkedLists/Double/Move.antt =====
-- The first element of a list of src/include/kernel/list.h is moved to another one, with a third
-- list beside them.
use atros.Base.{◌≡◌, ◌≢◌, refl, List, ◌∷◌, NotIn, In, inl, inr, ok}
use atros.LinkedLists.Links.{Links, Ptr, null}
use atros.LinkedLists.Simple.Chain.{NotIn-of_In}
use atros.LinkedLists.Double.{dlist_push_head, dlist_delete_head}
use atros.LinkedLists.Double.Chain.{
  IsDlist, Segment-frame, dlist_push_head-push, dlist_delete_head-delete, ne_of_NotIn,
}

-- Three lists that share no element.
pub record AreDlists (l : Links) (a b c : Ptr) (xs ys zs : List Ptr) : Type 0 where
  pub first : IsDlist l a xs
  pub second : IsDlist l b ys
  pub third : IsDlist l c zs
  pub first_second : (q : Ptr) → In q xs → NotIn q ys
  pub first_third : (q : Ptr) → In q xs → NotIn q zs
  pub second_third : (q : Ptr) → In q ys → NotIn q zs

apart_sym :
    (xs ys : List Ptr) → ((q : Ptr) → In q xs → NotIn q ys) → (q : Ptr) → In q ys → NotIn q xs
apart_sym xs ys f q i = NotIn-of_In q xs (λ b i' e. ne_of_NotIn b q ys (f b i') i e)

-- The lists in another order.
pub AreDlists-swap :
    (l : Links) (a b c : Ptr) (xs ys zs : List Ptr)
    → AreDlists l a b c xs ys zs
    → AreDlists l b a c ys xs zs
AreDlists-swap l a b c xs ys zs w = record {
  first = w.second;
  second = w.first;
  third = w.third;
  first_second = apart_sym xs ys w.first_second;
  first_third = w.second_third;
  second_third = w.first_third;
}

pub AreDlists-rotate :
    (l : Links) (a b c : Ptr) (xs ys zs : List Ptr)
    → AreDlists l a b c xs ys zs
    → AreDlists l b c a ys zs xs
AreDlists-rotate l a b c xs ys zs w = record {
  first = w.second;
  second = w.third;
  third = w.first;
  first_second = w.second_third;
  first_third = apart_sym xs ys w.first_second;
  second_third = apart_sym xs zs w.first_third;
}

pub record Moves (l : Links) (a p b c : Ptr) (xs ys zs : List Ptr) : Type 0 where
  pub a' : Ptr
  pub b' : Ptr
  pub l1 : Links
  pub l2 : Links
  pub deleted : dlist_delete_head a p l ≡ ok (a', l1)
  pub pushed : dlist_push_head b p l1 ≡ ok (b', l2)
  pub lists : AreDlists l2 a' b' c xs (p ∷ ys) zs

IsDlist-frame :
    (l l' : Links) (list : Ptr) (xs : List Ptr)
    → IsDlist l list xs
    → ((q : Ptr) → In q xs → (l'.next q ≡ l.next q) × (l'.prev q ≡ l.prev q))
    → IsDlist l' list xs
IsDlist-frame l l' list xs (h, d) f = (Segment-frame l l' null list xs h f, d)

pub AreDlists-Moves :
    (l : Links) (a p b c : Ptr) (xs ys zs : List Ptr)
    → AreDlists l a b c (p ∷ xs) ys zs
    → Moves l a p b c xs ys zs
AreDlists-Moves l a p b c xs ys zs w =
    let ((e, ne, before, h), (n, d)) = w.first in
    let f = dlist_delete_head-delete l p xs ((refl, ne, before, h), (n, d)) in
    let ys1 : IsDlist f.l' b ys =
      IsDlist-frame l f.l' b ys w.second
        (λ q i. f.frame q (apart_sym (p ∷ xs) ys w.first_second q i)) in
    let zs1 : IsDlist f.l' c zs =
      IsDlist-frame l f.l' c zs w.third
        (λ q i. f.frame q (apart_sym (p ∷ xs) zs w.first_third q i)) in
    let g = dlist_push_head-push f.l' b p ys ys1 (w.first_second p (inl refl)) ne in
    record {
      a' = f.list';
      b' = g.list';
      l1 = f.l';
      l2 = g.l';
      deleted = rw e f.done;
      pushed = g.done;
      lists = record {
        first =
            IsDlist-frame f.l' g.l' f.list' xs f.dlist
              (λ q i. g.frame q (ne_of_NotIn p q xs n i, w.first_second q (inr i)));
        second = g.dlist;
        third = IsDlist-frame f.l' g.l' c zs zs1 (λ q i. g.frame q (
          ne_of_NotIn p q zs (w.first_third p (inl refl)) i,
          apart_sym ys zs w.second_third q i,
        ));
        first_second = λ q i. (ne_of_NotIn p q xs n i, w.first_second q (inr i));
        first_third = λ q i. w.first_third q (inr i);
        second_third = λ q i. elim i [
          | inl e ↦ rw e (w.first_third p (inl refl))
          | inr i' ↦ w.second_third q i'
        ];
      };
    }

-- A new element is pushed on the first list.
pub record Pushes (l : Links) (a p b c : Ptr) (xs ys zs : List Ptr) : Type 0 where
  pub a' : Ptr
  pub l' : Links
  pub pushed : dlist_push_head a p l ≡ ok (a', l')
  pub lists : AreDlists l' a' b c (p ∷ xs) ys zs

pub AreDlists-Pushes :
    (l : Links) (a p b c : Ptr) (xs ys zs : List Ptr)
    → AreDlists l a b c xs ys zs
    → p ≢ null
    → NotIn p xs
    → NotIn p ys
    → NotIn p zs
    → Pushes l a p b c xs ys zs
AreDlists-Pushes l a p b c xs ys zs w ne nx ny nz =
    let g = dlist_push_head-push l a p xs w.first nx ne in
    record {
      a' = g.list';
      l' = g.l';
      pushed = g.done;
      lists = record {
        first = g.dlist;
        second =
            IsDlist-frame l g.l' b ys w.second
              (λ q i. g.frame q (ne_of_NotIn p q ys ny i, apart_sym xs ys w.first_second q i));
        third =
            IsDlist-frame l g.l' c zs w.third
              (λ q i. g.frame q (ne_of_NotIn p q zs nz i, apart_sym xs zs w.first_third q i));
        first_second = λ q i. elim i [ inl e ↦ rw e ny | inr i' ↦ w.first_second q i' ];
        first_third = λ q i. elim i [ inl e ↦ rw e nz | inr i' ↦ w.first_third q i' ];
        second_third = w.second_third;
      };
    }
