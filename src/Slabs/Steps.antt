-- ===== src/Slabs/Steps.antt =====
-- What the steps of src/kernel/mm/slab.c on a cache do to the state.
use atros.Base.{◌≡◌, ◌≢◌, refl, sym, ◌∙◌, List, ◌∷◌, NotIn, In, inl, inr, ok, ne→==, ◌==◌, eq_or_ne}
use atros.LinkedLists.Links.{Links, Ptr, null, update, update_eq, update_ne, update-update}
use atros.LinkedLists.Double.{dlist_push_head, dlist_delete_head}
use atros.LinkedLists.Simple.Chain.{IsChain-frame, NotIn-ne}
use atros.Slabs.State.{Slab, ObjsCache, Slabs, on_slab_links, read_cache, edit_cache, inc, dec}
use atros.Slabs.Objects.{is_slab_full, slab_free_objs_count}
use atros.Slabs.Caches.{
  push_partial_slab, push_full_slab, delete_free_slab, delete_partial_slab, count_taken,
}
use atros.Slabs.Setup.{IsSlab, read_slab-ok}
use atros.Slabs.Invariant.{Objs, IsListed, HoldObjs}

-- The state with other links between slabs and another content of one cache.
abbrev pub at : Slabs → Ptr → Links → ObjsCache → Slabs
at s c l k = record s { slab_links = l; cache = update s.cache c k }

module _ (s : Slabs) (c : Ptr) (ne : c ≢ null) (l : Links) (k : ObjsCache) where
  pub read_cache-at : read_cache c (at s c l k) ≡ ok (k, at s c l k)
  unfolding read_cache
  read_cache-at = rw (ne→== c null ne, update_eq s.cache c c k refl) refl

  pub edit_cache-at :
      (f : ObjsCache → ObjsCache) → edit_cache c f (at s c l k) ≡ ok (tt, at s c l (f k))
  unfolding edit_cache
  edit_cache-at f =
      rw (ne→== c null ne, update_eq s.cache c c k refl, update-update s.cache c k (f k)) refl

pub read_cache-ok : (c : Ptr) (s : Slabs) → c ≢ null → read_cache c s ≡ ok (s.cache c, s)
unfolding read_cache
read_cache-ok c s ne = rw (ne→== c null ne) refl

pub edit_cache-ok :
    (s : Slabs) (c : Ptr)
    → c ≢ null
    → (f : ObjsCache → ObjsCache) → edit_cache c f s ≡ ok (tt, at s c s.slab_links (f (s.cache c)))
unfolding edit_cache
edit_cache-ok s c ne f = rw (ne→== c null ne) refl

module _ (s : Slabs) (c p : Ptr) (ne : c ≢ null) (l : Links) (k : ObjsCache) (list' : Ptr)
    (l' : Links) where
  pub push_partial_slab-at :
      dlist_push_head k.partial_slabs p l ≡ ok (list', l')
      → push_partial_slab c p (at s c l k) ≡ ok (tt, at s c l' (record k { partial_slabs = list' }))
  unfolding push_partial_slab on_slab_links
  push_partial_slab-at e =
      rw
        (
          read_cache-at s c ne l k,
          e,
          edit_cache-at s c ne l' k (λ (d : ObjsCache). record d { partial_slabs = list' }),
        )
        refl

  pub push_full_slab-at :
      dlist_push_head k.full_slabs p l ≡ ok (list', l')
      → push_full_slab c p (at s c l k) ≡ ok (tt, at s c l' (record k { full_slabs = list' }))
  unfolding push_full_slab on_slab_links
  push_full_slab-at e =
      rw
        (
          read_cache-at s c ne l k,
          e,
          edit_cache-at s c ne l' k (λ (d : ObjsCache). record d { full_slabs = list' }),
        )
        refl

  pub delete_free_slab-at :
      dlist_delete_head k.free_slabs p l ≡ ok (list', l')
      → delete_free_slab c p (at s c l k) ≡ ok (tt, at s c l' (record k { free_slabs = list' }))
  unfolding delete_free_slab on_slab_links
  delete_free_slab-at e =
      rw
        (
          read_cache-at s c ne l k,
          e,
          edit_cache-at s c ne l' k (λ (d : ObjsCache). record d { free_slabs = list' }),
        )
        refl

  pub delete_partial_slab-at :
      dlist_delete_head k.partial_slabs p l ≡ ok (list', l')
      → delete_partial_slab c p (at s c l k)
        ≡ ok (tt, at s c l' (record k { partial_slabs = list' }))
  unfolding delete_partial_slab on_slab_links
  delete_partial_slab-at e =
      rw
        (
          read_cache-at s c ne l k,
          e,
          edit_cache-at s c ne l' k (λ (d : ObjsCache). record d { partial_slabs = list' }),
        )
        refl

-- The counters after an object is taken.
abbrev pub one_taken : ObjsCache → ObjsCache
one_taken k = record k {
  free_objs_count = dec k.free_objs_count;
  used_objs_count = inc k.used_objs_count;
}

pub count_taken-at :
    (s : Slabs) (c : Ptr)
    → c ≢ null
    → count_taken c s ≡ ok (tt, at s c s.slab_links (one_taken (s.cache c)))
unfolding count_taken
count_taken-at s c ne =
    let k = s.cache c in
    let k1 : ObjsCache = record k { free_objs_count = dec k.free_objs_count } in
    rw
      (
        edit_cache-ok s c ne
            (λ (d : ObjsCache). record d { free_objs_count = dec d.free_objs_count }),
        edit_cache-at s c ne s.slab_links k1
            (λ (d : ObjsCache). record d { used_objs_count = inc d.used_objs_count }),
      )
      refl

pub is_slab_full-ok :
    (p : Ptr) (s : Slabs) → p ≢ null → is_slab_full p s ≡ ok ((s.slab p).free_objs_count == 0, s)
unfolding is_slab_full slab_free_objs_count
is_slab_full-ok p s ne = rw (ne→== p null ne, read_slab-ok p s ne) refl

-- Taking an object from one slab leaves the others.
pub HoldObjs-take :
    (s : Slabs) (slab' : Ptr → Slab) (objects' : Ptr → Ptr) (ps fs us : List Ptr) (objs : Objs)
    (p x : Ptr) (xs : List Ptr)
    → HoldObjs s ps fs us objs
    → IsListed ps fs us p
    → objs p ≡ x ∷ xs
    → IsSlab (record s { slab = slab'; objects = objects' }) p xs
    → ((q : Ptr) → q ≢ p → slab' q ≡ s.slab q)
    → ((q : Ptr) → q ≢ x → objects' q ≡ s.objects q)
    → HoldObjs (record s { slab = slab'; objects = objects' }) ps fs us (update objs p xs)
HoldObjs-take s slab' objects' ps fs us objs p x xs w here e new others frame =
    let hd : In x (objs p) = rw e (inl refl) in
    let less : (y : Ptr) → In y xs → In y (objs p) = λ y i. rw e (inr i) in
    record {
      slabs = λ q i. elim (eq_or_ne q p) [
        | inl z ↦ rw (z, update_eq objs p p xs refl) new
        | inr ne ↦
            let old = w.slabs q i in
            rw (update_ne objs p q xs ne) (record {
              chain = rw (others q ne) (
                  IsChain-frame s.objects objects' (s.slab q).free_objs_list (objs q) old.chain
                    (λ y j. frame y (λ z.
                      NotIn-ne x y (objs q) (w.apart p q x here i (λ z'. ne (sym z')) hd) j
                        (sym z))));
              distinct = old.distinct;
              count = rw (others q ne) old.count;
            })
      ];
      apart = λ q q' y i i' ne. elim (eq_or_ne q p) [
        | inl z ↦ λ j. rw (update_ne objs p q' xs (λ z'. ne (z ∙ sym z'))) (
            w.apart p q' y here i' (λ z'. ne (z ∙ z'))
              (less y (rw (z, update_eq objs p p xs refl) at j)))
        | inr ne' ↦ λ j. elim (eq_or_ne q' p) [
          | inl z ↦
              let out : NotIn y (objs p) =
                w.apart q p y i here ne' (rw (update_ne objs p q xs ne') at j) in
              let out' : NotIn y (x ∷ xs) = rw e at out in rw (z, update_eq objs p p xs refl) out'.1
          | inr ne'' ↦
              rw (update_ne objs p q' xs ne'')
                (w.apart q q' y i i' ne (rw (update_ne objs p q xs ne') at j))
        ]
      ];
    }

-- Links and caches are no part of what slabs hold.
pub HoldObjs-at :
    (s : Slabs) (c : Ptr) (l : Links) (k : ObjsCache) (ps fs us : List Ptr) (objs : Objs)
    → HoldObjs s ps fs us objs
    → HoldObjs (at s c l k) ps fs us objs
HoldObjs-at s c l k ps fs us objs w = record {
  slabs = λ p i.
      let old = w.slabs p i in
      record { chain = old.chain; distinct = old.distinct; count = old.count };
  apart = w.apart;
}

-- The same slabs in other lists.
pub HoldObjs-regroup :
    (s : Slabs) (ps fs us ps' fs' us' : List Ptr) (objs : Objs)
    → HoldObjs s ps fs us objs
    → ((p : Ptr) → IsListed ps' fs' us' p → IsListed ps fs us p)
    → HoldObjs s ps' fs' us' objs
HoldObjs-regroup s ps fs us ps' fs' us' objs w f = record {
  slabs = λ p i. w.slabs p (f p i);
  apart = λ p q x i i'. w.apart p q x (f p i) (f q i');
}
