-- ===== src/LinkedLists/Circular/Tests.antt =====
-- Runs of the circular lists of src/include/kernel/list.h, and their theorems at a ring of three.
use atros.Base.{◌≡◌, ◌≢◌, refl, [], ◌∷◌, NotIn, ok, inl, inr, arith, if◌then◌else◌, ◌==◌, ◌>>=◌}
use atros.LinkedLists.Links.{Links, Ptr, null, update, get_prev, get_next, set_next, set_prev}
use atros.LinkedLists.Circular.{
  clist_is_singleton, clist_push_tail, clist_delete_el, clist_pop_head, unlink, clear_element,
}
use atros.LinkedLists.Circular.Walk.{IsClist}
use atros.LinkedLists.Circular.Frame.{Same}
use atros.LinkedLists.Circular.Rings.{clist_push_tail-append, clist_delete_el-erase}

abbrev three : Links
three = record {
  next = λ p. if p == 10 then 20 else if p == 20 then 30 else 10;
  prev = λ p. if p == 10 then 30 else if p == 20 then 10 else 20;
}

three-IsClist : IsClist three 10 (10 ∷ 20 ∷ 30 ∷ [])
three-IsClist = ground arith

-- Two pushes on an empty list, then a pop: the first element comes out, the second is left.
push_push_pop :
    (list' : Ptr) × (l' : Links) × ((do
      a ← clist_push_tail null 40
      b ← clist_push_tail a 50
      clist_pop_head b)
        three
      ≡ ok ((40, list'), l'))
    × (list' ≡ 50)
unfolding clist_push_tail clist_pop_head clist_delete_el clist_is_singleton unlink clear_element
    get_prev get_next set_next set_prev update
push_push_pop = (50, _, refl, refl)

clist_push_tail-append_example :
    (list' : Ptr) × (l' : Links) × (clist_push_tail 10 40 three ≡ ok (list', l'))
    × IsClist l' list' (10 ∷ 20 ∷ 30 ∷ 40 ∷ [])
    × ((p : Ptr) → p ≢ 40 → NotIn p (10 ∷ 20 ∷ 30 ∷ []) → Same three l' p)
clist_push_tail-append_example =
    clist_push_tail-append three 10 (10 ∷ 20 ∷ 30 ∷ []) 40 three-IsClist (omega arith) (omega arith)

clist_delete_el-erase_example :
    (list' : Ptr) × (l' : Links) × (clist_delete_el 10 20 three ≡ ok (list', l'))
    × IsClist l' list' (10 ∷ 30 ∷ [])
    × ((p : Ptr) → NotIn p (10 ∷ 20 ∷ 30 ∷ []) → Same three l' p)
clist_delete_el-erase_example =
    clist_delete_el-erase three 10 (10 ∷ 20 ∷ 30 ∷ []) 20 three-IsClist (inr (inl refl))
