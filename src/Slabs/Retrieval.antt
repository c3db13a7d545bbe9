-- ===== src/Slabs/Retrieval.antt =====
-- The runs of _retrieve_free_obj_from_objs_cache of src/kernel/mm/slab.c, case by case.
use atros.Base.{◌≡◌, ◌≢◌, refl, true, false, ok, ne→==, ◌==◌}
use atros.LinkedLists.Links.{Links, Ptr, null}
use atros.LinkedLists.Double.{dlist_is_empty, dlist_push_head, dlist_delete_head}
use atros.Slabs.State.{ObjsCache, Slabs, inc, dec}
use atros.Slabs.Objects.{alloc_obj_from_slab}
use atros.Slabs.Caches.{retrieve_partial, retrieve_free, retrieve_free_obj}
use atros.Slabs.Steps.{
  at, read_cache-ok, edit_cache-at, push_partial_slab-at, push_full_slab-at, delete_free_slab-at,
  delete_partial_slab-at, one_taken, count_taken-at, is_slab_full-ok,
}

-- The cache after the last free object of a slab in use is taken.
abbrev pub partial_full : ObjsCache → Ptr → Ptr → ObjsCache
partial_full k a b = record (one_taken k) {
  partial_slabs = a;
  full_slabs = b;
  partial_slabs_count = dec k.partial_slabs_count;
  full_slabs_count = inc k.full_slabs_count;
}

-- The cache after the first object of a slab is taken.
abbrev pub free_partial : ObjsCache → Ptr → Ptr → ObjsCache
free_partial k a b = record (one_taken k) {
  free_slabs = a;
  partial_slabs = b;
  free_slabs_count = dec k.free_slabs_count;
  partial_slabs_count = inc k.partial_slabs_count;
}

-- The cache after the only object of a slab is taken.
abbrev pub free_full : ObjsCache → Ptr → Ptr → ObjsCache
free_full k a b = record (one_taken k) {
  free_slabs = a;
  full_slabs = b;
  free_slabs_count = dec k.free_slabs_count;
  full_slabs_count = inc k.full_slabs_count;
}

module _ (s s1 : Slabs) (c p x : Ptr) (ne : c ≢ null) (ne' : p ≢ null) (nx : x ≢ null)
    (taken : alloc_obj_from_slab p s ≡ ok (x, s1)) where
  pub retrieve_partial-some :
      (((s1.slab p).free_objs_count == 0) ≡ false)
      → retrieve_partial c p s ≡ ok (x, at s1 c s1.slab_links (one_taken (s1.cache c)))
  unfolding retrieve_partial
  retrieve_partial-some some_left =
      rw
        (
          ne→== p null ne',
          taken,
          ne→== x null nx,
          count_taken-at s1 c ne,
          is_slab_full-ok p (at s1 c s1.slab_links (one_taken (s1.cache c))) ne',
          some_left,
        )
        refl

  module _ (a b : Ptr) (l1 l2 : Links) where
    pub retrieve_partial-last :
        (((s1.slab p).free_objs_count == 0) ≡ true)
        → dlist_delete_head (s1.cache c).partial_slabs p s1.slab_links ≡ ok (a, l1)
        → dlist_push_head (s1.cache c).full_slabs p l1 ≡ ok (b, l2)
        → retrieve_partial c p s ≡ ok (x, at s1 c l2 (partial_full (s1.cache c) a b))
    unfolding retrieve_partial
    retrieve_partial-last none_left del push =
        let k1 = one_taken (s1.cache c) in
        let k2 : ObjsCache = record k1 { partial_slabs = a } in
        let k3 : ObjsCache = record k2 { full_slabs = b } in
        let k4 : ObjsCache = record k3 { partial_slabs_count = dec k3.partial_slabs_count } in
        rw
          (
            ne→== p null ne',
            taken,
            ne→== x null nx,
            count_taken-at s1 c ne,
            is_slab_full-ok p (at s1 c s1.slab_links k1) ne',
            none_left,
            delete_partial_slab-at s1 c p ne s1.slab_links k1 a l1 del,
            push_full_slab-at s1 c p ne l1 k2 b l2 push,
            edit_cache-at s1 c ne l2 k3
                (λ (k : ObjsCache). record k { partial_slabs_count = dec k.partial_slabs_count }),
            edit_cache-at s1 c ne l2 k4
                (λ (k : ObjsCache). record k { full_slabs_count = inc k.full_slabs_count }),
          )
          refl

    pub retrieve_free-some :
        (((s1.slab p).free_objs_count == 0) ≡ false)
        → dlist_delete_head (s1.cache c).free_slabs p s1.slab_links ≡ ok (a, l1)
        → dlist_push_head (s1.cache c).partial_slabs p l1 ≡ ok (b, l2)
        → retrieve_free c p s ≡ ok (x, at s1 c l2 (free_partial (s1.cache c) a b))
    unfolding retrieve_free
    retrieve_free-some some_left del push =
        let k1 = one_taken (s1.cache c) in
        let k2 : ObjsCache = record k1 { free_slabs = a } in
        let k3 : ObjsCache = record k2 { partial_slabs = b } in
        let k4 : ObjsCache = record k3 { free_slabs_count = dec k3.free_slabs_count } in
        rw
          (
            taken,
            ne→== x null nx,
            count_taken-at s1 c ne,
            is_slab_full-ok p (at s1 c s1.slab_links k1) ne',
            some_left,
            delete_free_slab-at s1 c p ne s1.slab_links k1 a l1 del,
            push_partial_slab-at s1 c p ne l1 k2 b l2 push,
            edit_cache-at s1 c ne l2 k3
                (λ (k : ObjsCache). record k { free_slabs_count = dec k.free_slabs_count }),
            edit_cache-at s1 c ne l2 k4
                (λ (k : ObjsCache). record k { partial_slabs_count = inc k.partial_slabs_count }),
          )
          refl

    pub retrieve_free-last :
        (((s1.slab p).free_objs_count == 0) ≡ true)
        → dlist_delete_head (s1.cache c).free_slabs p s1.slab_links ≡ ok (a, l1)
        → dlist_push_head (s1.cache c).full_slabs p l1 ≡ ok (b, l2)
        → retrieve_free c p s ≡ ok (x, at s1 c l2 (free_full (s1.cache c) a b))
    unfolding retrieve_free
    retrieve_free-last none_left del push =
        let k1 = one_taken (s1.cache c) in
        let k2 : ObjsCache = record k1 { free_slabs = a } in
        let k3 : ObjsCache = record k2 { full_slabs = b } in
        let k4 : ObjsCache = record k3 { free_slabs_count = dec k3.free_slabs_count } in
        rw
          (
            taken,
            ne→== x null nx,
            count_taken-at s1 c ne,
            is_slab_full-ok p (at s1 c s1.slab_links k1) ne',
            none_left,
            delete_free_slab-at s1 c p ne s1.slab_links k1 a l1 del,
            push_full_slab-at s1 c p ne l1 k2 b l2 push,
            edit_cache-at s1 c ne l2 k3
                (λ (k : ObjsCache). record k { free_slabs_count = dec k.free_slabs_count }),
            edit_cache-at s1 c ne l2 k4
                (λ (k : ObjsCache). record k { full_slabs_count = inc k.full_slabs_count }),
          )
          refl

module _ (s : Slabs) (c : Ptr) (ne : c ≢ null) where
  pub retrieve_free_obj-partial :
      (p : Ptr)
      → (s.cache c).partial_slabs ≡ p
      → p ≢ null
      → retrieve_free_obj c s ≡ retrieve_partial c p s
  unfolding retrieve_free_obj dlist_is_empty
  retrieve_free_obj-partial p e ne' =
      rw (ne→== c null ne, read_cache-ok c s ne, e, ne→== p null ne') refl

  pub retrieve_free_obj-free :
      (p : Ptr)
      → (s.cache c).partial_slabs ≡ null
      → (s.cache c).free_slabs ≡ p
      → p ≢ null
      → retrieve_free_obj c s ≡ retrieve_free c p s
  unfolding retrieve_free_obj dlist_is_empty
  retrieve_free_obj-free p e e' ne' =
      rw (ne→== c null ne, read_cache-ok c s ne, e, e', ne→== p null ne') refl

  pub retrieve_free_obj-none :
      (s.cache c).partial_slabs ≡ null
      → (s.cache c).free_slabs ≡ null
      → retrieve_free_obj c s ≡ ok (null, s)
  unfolding retrieve_free_obj dlist_is_empty
  retrieve_free_obj-none e e' = rw (ne→== c null ne, read_cache-ok c s ne, e, e') refl
