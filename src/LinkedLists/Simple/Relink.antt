-- ===== src/LinkedLists/Simple/Relink.antt =====
-- list_delete_el and list_insert_after of src/include/kernel/list.h on chains.
use atros.Base.{
  ◌≡◌, ◌≢◌, refl, List, [], ◌∷◌, ◌++◌, NotIn, In, Distinct, Outcome, ok, ==_refl, ne→==,
}
use atros.LinkedLists.Links.{Ptr, null, update, update_eq, update_ne}
use atros.LinkedLists.Simple.{
  Nexts, follow, link, list_push_head, list_delete_el, list_insert_after,
}
use atros.LinkedLists.Simple.Chain.{
  IsChain, last_of, last_of-In, NotIn-ne, IsChain-update, IsChain-splice, IsChain-rest,
  IsChain-last, IsChain-ne_null, NotIn-left, NotIn-right, Distinct-left, Distinct-apart,
  Distinct-middle, In-left, In-middle,
}

pub follow-ok : (p : Ptr) (l : Nexts) → p ≢ null → follow p l ≡ ok (l p, l)
unfolding follow
follow-ok p l ne = rw (ne→== p null ne) refl

pub link-ok : (p v : Ptr) (l : Nexts) → p ≢ null → link p v l ≡ ok (tt, update l p v)
unfolding link
link-ok p v l ne = rw (ne→== p null ne) refl

untouched : (l : Nexts) (a b v w p : Ptr) → p ≢ a → p ≢ b → update (update l a v) b w p ≡ l p
untouched l a b v w p ne ne' = rw (update_ne (update l a v) b p w ne') (update_ne l a p v ne)

-- A run that makes the chain `xs` out of elements `old`, and leaves all others.
pub record Makes (l : Nexts) (old xs : List Ptr) (r : Outcome (Ptr × Nexts)) : Type 0 where
  pub list' : Ptr
  pub l' : Nexts
  pub done : r ≡ ok (list', l')
  pub chain : IsChain l' list' xs
  pub frame : (p : Ptr) → NotIn p old → l' p ≡ l p

-- On a chain of distinct elements list_delete_el, given an element and the one before it (NULL
-- for the first), takes exactly that element out and leaves the links of all elements outside.
pub list_delete_el-removes :
    (l : Nexts) (list : Ptr) (pre : List Ptr) (el : Ptr) (post : List Ptr)
    → IsChain l list (pre ++ el ∷ post)
    → Distinct (pre ++ el ∷ post)
    → Makes l (pre ++ el ∷ post) (pre ++ post) (list_delete_el list (last_of null pre) el l)
unfolding list_delete_el
list_delete_el-removes l list [] el post (e, ne, h) (n, d) = record {
  list' = l el;
  l' = update l el null;
  done = rw (e, ==_refl el, follow-ok el l ne, link-ok el null l ne) refl;
  chain = IsChain-update l (l el) post el null h n;
  frame = λ p (z, _). update_ne l el p null z;
}
list_delete_el-removes l list (x ∷ xs) el post (e, ne, h) (n, d) =
    let all : IsChain l x (x ∷ xs ++ el ∷ post) = (refl, ne, h) in
    let last = last_of x xs in
    let i : In last (x ∷ xs) = last_of-In x xs in
    let last_ne : last ≢ null =
      IsChain-ne_null l x (x ∷ xs ++ el ∷ post) last all (In-left last (x ∷ xs) (el ∷ post) i) in
    let el_ne : el ≢ null =
      IsChain-ne_null l x (x ∷ xs ++ el ∷ post) el all (In-middle (x ∷ xs) el post) in
    let apart : NotIn last (el ∷ post) = Distinct-apart last (x ∷ xs) (el ∷ post) (n, d) i in
    let first_ne : x ≢ el = (NotIn-right x xs (el ∷ post) n).0 in
    let l1 = update l last (l el) in
    let c1 : IsChain l1 x (x ∷ xs ++ post) =
      IsChain-splice l x xs (el ∷ post) post (l el) all (Distinct-left (x ∷ xs) (el ∷ post) (n, d))
        (IsChain-update l (l el) post last (l el) (IsChain-rest l x (x ∷ xs) el post all)
          apart.1) in
    record {
      list' = x;
      l' = update l1 el null;
      done =
          rw
            (
              e,
              ne→== x el first_ne,
              ne→== last null last_ne,
              follow-ok el l el_ne,
              link-ok last (l el) l last_ne,
              link-ok el null l1 el_ne,
            )
            refl;
      chain =
          IsChain-update l1 x (x ∷ xs ++ post) el null c1 (Distinct-middle (x ∷ xs) el post (n, d));
      frame = λ p out.
          untouched l last el (l el) null p
            (NotIn-ne p last (x ∷ xs ++ el ∷ post) out (In-left last (x ∷ xs) (el ∷ post) i))
            (NotIn-ne p el (x ∷ xs ++ el ∷ post) out (In-middle (x ∷ xs) el post));
    }

-- On a chain of distinct elements list_insert_after puts an element that is not NULL and not in
-- the chain behind the given one, or first if that is NULL, and leaves the links of all others.
pub list_insert_after-inserts :
    (l : Nexts) (list : Ptr) (pre : List Ptr) (el : Ptr) (post : List Ptr)
    → IsChain l list (pre ++ post)
    → Distinct (pre ++ post)
    → NotIn el (pre ++ post)
    → el ≢ null
    → Makes l (el ∷ pre ++ post) (pre ++ el ∷ post) (list_insert_after list (last_of null pre) el l)
unfolding list_insert_after list_push_head
list_insert_after-inserts l list [] el post h d n ne = record {
  list' = el;
  l' = update l el list;
  done = rw (link-ok el list l ne) refl;
  chain = (refl, ne, rw (update_eq l el el list refl) (IsChain-update l list post el list h n));
  frame = λ p (z, _). update_ne l el p list z;
}
list_insert_after-inserts l list (x ∷ xs) el post (e, ne', h) d n ne =
    let all : IsChain l x (x ∷ xs ++ post) = (refl, ne', h) in
    let last = last_of x xs in
    let i : In last (x ∷ xs) = last_of-In x xs in
    let last_ne : last ≢ null =
      IsChain-ne_null l x (x ∷ xs ++ post) last all (In-left last (x ∷ xs) post i) in
    let el_last : el ≢ last = NotIn-ne el last (x ∷ xs) (NotIn-left el (x ∷ xs) post n) i in
    let apart : NotIn last post = Distinct-apart last (x ∷ xs) post d i in
    let l1 = update l el (l last) in
    let l2 = update l1 last el in
    let rest : IsChain l2 (l last) post =
      IsChain-update l1 (l last) post last el
        (IsChain-update l (l last) post el (l last) (IsChain-last l x xs post all)
          (NotIn-right el (x ∷ xs) post n))
        apart in
    let e_el : l2 el ≡ l last =
      rw (update_ne l1 last el el el_last) (update_eq l el el (l last) refl) in
    record {
      list' = x;
      l' = l2;
      done =
          rw
            (
              e,
              ne→== last null last_ne,
              follow-ok last l last_ne,
              link-ok el (l last) l ne,
              link-ok last el l1 last_ne,
            )
            refl;
      chain =
          IsChain-splice l1 x xs post (el ∷ post) el
            (IsChain-update l x (x ∷ xs ++ post) el (l last) all n) (Distinct-left (x ∷ xs) post d)
            (refl, ne, rw e_el rest);
      frame = λ p out.
          untouched l el last (l last) el p out.0
            (NotIn-ne p last (x ∷ xs ++ post) out.1 (In-left last (x ∷ xs) post i));
    }
