-- ===== src/LinkedLists/Double/Chain.antt =====
-- dlist_push_head and dlist_delete_head of src/include/kernel/list.h on lists of elements.
use atros.Base.{
  ◌≡◌, ◌≢◌, refl, sym, List, [], ◌∷◌, NotIn, In, Distinct, arith, inl, inr, Outcome, ok, ne→==,
}
use atros.LinkedLists.Links.{
  Links, Ptr, null, update_eq, update_ne, with_next, with_prev, get_next-ok, set_next-ok,
  set_prev-ok,
}
use atros.LinkedLists.Double.{dlist_push_head, dlist_delete_head}

-- The elements from `p` on, the first with `before` as its previous one.
abbrev pub Segment : Links → Ptr → Ptr → List Ptr → Type 0
Segment l before p [] = p ≡ null
Segment l before p (x ∷ xs) = (p ≡ x) × (x ≢ null) × (l.prev x ≡ before) × Segment l x (l.next x) xs

abbrev pub IsDlist : Links → Ptr → List Ptr → Type 0
IsDlist l list xs = Segment l null list xs × Distinct xs

-- Elements whose links are kept stay a list.
pub Segment-frame :
    (l l' : Links) (before p : Ptr) (xs : List Ptr)
    → Segment l before p xs
    → ((q : Ptr) → In q xs → (l'.next q ≡ l.next q) × (l'.prev q ≡ l.prev q))
    → Segment l' before p xs
Segment-frame l l' before p [] h f = h
Segment-frame l l' before p (x ∷ xs) (e, ne, b, h) f =
    let (fn, fp) = f x (inl refl) in
    (e, ne, rw fp b, rw fn (Segment-frame l l' x (l.next x) xs h (λ q i. f q (inr i))))

pub ne_of_NotIn : (a b : Ptr) (xs : List Ptr) → NotIn a xs → In b xs → b ≢ a
ne_of_NotIn a b [] n i = absurd i
ne_of_NotIn a b (x ∷ xs) n i = ground (arith, ne_of_NotIn a b xs)

-- A run that makes the list `xs` and leaves the links of the elements outside `old`.
pub record MakesDlist (l : Links) (old xs : List Ptr) (r : Outcome (Ptr × Links)) : Type 0 where
  pub list' : Ptr
  pub l' : Links
  pub done : r ≡ ok (list', l')
  pub dlist : IsDlist l' list' xs
  pub frame : (q : Ptr) → NotIn q old → (l'.next q ≡ l.next q) × (l'.prev q ≡ l.prev q)

pub dlist_push_head-push :
    (l : Links) (list el : Ptr) (xs : List Ptr)
    → IsDlist l list xs
    → NotIn el xs
    → el ≢ null
    → MakesDlist l (el ∷ xs) (el ∷ xs) (dlist_push_head list el l)
unfolding dlist_push_head
dlist_push_head-push l list el [] (e, d) n ne =
    let l1 = with_prev l el null in
    record {
      list' = el;
      l' = with_next l1 el null;
      done = rw (e, set_prev-ok el ne l null, set_next-ok el ne l1 null) refl;
      dlist = (
        (refl, ne, update_eq l.prev el el null refl, update_eq l.next el el null refl),
        (tt, tt),
      );
      frame = λ q (out, _). (update_ne l.next el q null out, update_ne l.prev el q null out);
    }
dlist_push_head-push l list el (x ∷ xs) ((e, ne', b, h), (nx, d)) (n, ns) ne =
    let l1 = with_prev l x el in
    let l2 = with_prev l1 el null in
    let l3 = with_next l2 el x in
    let prev_x : l3.prev x ≡ el =
      rw (update_ne l1.prev el x null (λ z. n (sym z))) (update_eq l.prev x x el refl) in
    let prev_of : (q : Ptr) → q ≢ el → q ≢ x → l3.prev q ≡ l.prev q =
      λ q a c. rw (update_ne l1.prev el q null a) (update_ne l.prev x q el c) in
    let rest : Segment l3 x (l.next x) xs = Segment-frame l l3 x (l.next x) xs h (λ q i. (
      update_ne l.next el q x (ne_of_NotIn el q xs ns i),
      prev_of q (ne_of_NotIn el q xs ns i) (ne_of_NotIn x q xs nx i),
    )) in
    record {
      list' = el;
      l' = l3;
      done =
          rw
            (
              e,
              ne→== x null ne',
              set_prev-ok x ne' l el,
              set_prev-ok el ne l1 null,
              set_next-ok el ne l2 x,
            )
            refl;
      dlist = (
        (
          refl,
          ne,
          update_eq l1.prev el el null refl,
          (
            update_eq l.next el el x refl,
            ne',
            prev_x,
            rw (update_ne l.next el x x (λ z. n (sym z))) rest,
          ),
        ),
        ((n, ns), (nx, d)),
      );
      frame = λ q (out, (out', _)). (update_ne l.next el q x out, prev_of q out out');
    }

pub dlist_delete_head-delete :
    (l : Links) (x : Ptr) (xs : List Ptr)
    → IsDlist l x (x ∷ xs)
    → MakesDlist l (x ∷ xs) xs (dlist_delete_head x x l)
unfolding dlist_delete_head
dlist_delete_head-delete l x [] ((e, ne, b, h), d) = record {
  list' = null;
  l' = l;
  done = rw (get_next-ok x ne l, h) refl;
  dlist = (refl, tt);
  frame = λ q _. (refl, refl);
}
dlist_delete_head-delete l x (y ∷ ys) ((e, ne, b, (ey, ne', by, h)), ((n, ns), (ny, d))) =
    let l1 = with_prev l y null in
    let l2 = with_prev l1 x null in
    let l3 = with_next l2 x null in
    let prev_of : (q : Ptr) → q ≢ x → q ≢ y → l3.prev q ≡ l.prev q =
      λ q a c. rw (update_ne l1.prev x q null a) (update_ne l.prev y q null c) in
    record {
      list' = y;
      l' = l3;
      done =
          rw
            (
              get_next-ok x ne l,
              ey,
              ne→== y null ne',
              get_next-ok x ne l,
              ey,
              set_prev-ok y ne' l null,
              set_prev-ok x ne l1 null,
              set_next-ok x ne l2 null,
            )
            refl;
      dlist = (
        (
          refl,
          ne',
          rw (update_ne l1.prev x y null (λ z. n (sym z))) (update_eq l.prev y y null refl),
          rw (update_ne l.next x y null (λ z. n (sym z))) (
              Segment-frame l l3 y (l.next y) ys h (λ q i. (
                update_ne l.next x q null (ne_of_NotIn x q ys ns i),
                prev_of q (ne_of_NotIn x q ys ns i) (ne_of_NotIn y q ys ny i),
              ))),
        ),
        (ny, d),
      );
      frame = λ q (out, (out', _)). (update_ne l.next x q null out, prev_of q out out');
    }
