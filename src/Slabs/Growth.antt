-- ===== src/Slabs/Growth.antt =====
-- The runs of objs_cache_add_slab of src/kernel/mm/slab.c for its three statuses, and the counters
-- after them.
use atros.Base.{
  ℕ, suc, ◌+◌, ◌-◌, ◌*◌, ◌%◌, ◌^◌, ◌<◌, ◌≡◌, ◌≢◌, refl, ap, List, ◌∷◌, NotIn, length, arith, ok,
  ne→==, ==_refl,
}
use atros.LinkedLists.Links.{Links, Ptr, null, update, update_eq}
use atros.LinkedLists.Double.{dlist_push_head}
use atros.Slabs.State.{ObjsCache, Slabs, on_slab_links, inc}
use atros.Slabs.Caches.{push_free_slab, add_by_status, objs_cache_add_slab}
use atros.Slabs.Setup.{read_slab-ok}
use atros.Slabs.Steps.{
  at, read_cache-ok, read_cache-at, edit_cache-ok, edit_cache-at, push_partial_slab-at,
  push_full_slab-at,
}
use atros.Slabs.Invariant.{Objs, IsCounted}
use atros.Slabs.Counts.{total-update, le_product}

push_free_slab-at :
    (s : Slabs) (c p : Ptr)
    → c ≢ null
    → (l : Links) (k : ObjsCache) (list' : Ptr) (l' : Links)
    → dlist_push_head k.free_slabs p l ≡ ok (list', l')
    → push_free_slab c p (at s c l k) ≡ ok (tt, at s c l' (record k { free_slabs = list' }))
unfolding push_free_slab on_slab_links
push_free_slab-at s c p ne l k list' l' e =
    rw
      (
        read_cache-at s c ne l k,
        e,
        edit_cache-at s c ne l' k (λ (d : ObjsCache). record d { free_slabs = list' }),
      )
      refl

-- The cache with one more slab, of which all objects are free, some are, or none is.
abbrev pub with_free : ObjsCache → Ptr → ObjsCache
with_free k list = record k {
  free_objs_count = (k.free_objs_count + k.objs_per_slab) % 2 ^ 32;
  free_slabs_count = inc k.free_slabs_count;
  free_slabs = list;
  slabs_count = inc k.slabs_count;
}

abbrev pub with_partial : ObjsCache → ℕ → Ptr → ObjsCache
with_partial k n list = record k {
  free_objs_count = (k.free_objs_count + n) % 2 ^ 32;
  used_objs_count = (k.used_objs_count + (k.objs_per_slab + 2 ^ 32 - n)) % 2 ^ 32;
  partial_slabs_count = inc k.partial_slabs_count;
  partial_slabs = list;
  slabs_count = inc k.slabs_count;
}

abbrev pub with_full : ObjsCache → Ptr → ObjsCache
with_full k list = record k {
  used_objs_count = (k.used_objs_count + k.objs_per_slab) % 2 ^ 32;
  full_slabs_count = inc k.full_slabs_count;
  full_slabs = list;
  slabs_count = inc k.slabs_count;
}

module _ (s : Slabs) (c p : Ptr) (ne : c ≢ null) (ne' : p ≢ null) (list' : Ptr) (l' : Links) where
  pub objs_cache_add_slab-free :
      (s.slab p).free_objs_count ≡ (s.cache c).objs_per_slab
      → dlist_push_head (s.cache c).free_slabs p s.slab_links ≡ ok (list', l')
      → objs_cache_add_slab c p 0 s ≡ ok (tt, at s c l' (with_free (s.cache c) list'))
  unfolding objs_cache_add_slab add_by_status
  objs_cache_add_slab-free count e =
      let k = s.cache c in
      let k1 : ObjsCache = record k {
        free_objs_count = (k.free_objs_count + k.objs_per_slab) % 2 ^ 32;
      } in
      let k2 : ObjsCache = record k1 { free_slabs_count = inc k.free_slabs_count } in
      let k3 : ObjsCache = record k2 { free_slabs = list' } in
      rw
        (
          ne→== c null ne,
          ne→== p null ne',
          read_cache-ok c s ne,
          read_slab-ok p s ne',
          count,
          ==_refl k.objs_per_slab,
          edit_cache-ok s c ne (λ (d : ObjsCache). record d {
            free_objs_count = (d.free_objs_count + d.objs_per_slab) % 2 ^ 32;
          }),
          edit_cache-at s c ne s.slab_links k1
              (λ (d : ObjsCache). record d { free_slabs_count = inc d.free_slabs_count }),
          push_free_slab-at s c p ne s.slab_links k2 list' l' e,
          edit_cache-at s c ne l' k3
              (λ (d : ObjsCache). record d { slabs_count = inc d.slabs_count }),
        )
        refl

  pub objs_cache_add_slab-partial :
      (n : ℕ)
      → (s.slab p).free_objs_count ≡ n
      → dlist_push_head (s.cache c).partial_slabs p s.slab_links ≡ ok (list', l')
      → objs_cache_add_slab c p 1 s ≡ ok (tt, at s c l' (with_partial (s.cache c) n list'))
  unfolding objs_cache_add_slab add_by_status
  objs_cache_add_slab-partial n count e =
      let k = s.cache c in
      let k1 : ObjsCache = record k { free_objs_count = (k.free_objs_count + n) % 2 ^ 32 } in
      let k2 : ObjsCache = record k1 {
        used_objs_count = (k.used_objs_count + (k.objs_per_slab + 2 ^ 32 - n)) % 2 ^ 32;
      } in
      let k3 : ObjsCache = record k2 { partial_slabs_count = inc k.partial_slabs_count } in
      let k4 : ObjsCache = record k3 { partial_slabs = list' } in
      rw
        (
          ne→== c null ne,
          ne→== p null ne',
          read_cache-ok c s ne,
          read_slab-ok p s ne',
          count,
          edit_cache-ok s c ne
              (λ (d : ObjsCache). record d { free_objs_count = (d.free_objs_count + n) % 2 ^ 32 }),
          edit_cache-at s c ne s.slab_links k1 (λ (d : ObjsCache). record d {
            used_objs_count = (d.used_objs_count + (d.objs_per_slab + 2 ^ 32 - n)) % 2 ^ 32;
          }),
          edit_cache-at s c ne s.slab_links k2
              (λ (d : ObjsCache). record d { partial_slabs_count = inc d.partial_slabs_count }),
          push_partial_slab-at s c p ne s.slab_links k3 list' l' e,
          edit_cache-at s c ne l' k4
              (λ (d : ObjsCache). record d { slabs_count = inc d.slabs_count }),
        )
        refl

  pub objs_cache_add_slab-full :
      dlist_push_head (s.cache c).full_slabs p s.slab_links ≡ ok (list', l')
      → objs_cache_add_slab c p 2 s ≡ ok (tt, at s c l' (with_full (s.cache c) list'))
  unfolding objs_cache_add_slab add_by_status
  objs_cache_add_slab-full e =
      let k = s.cache c in
      let k1 : ObjsCache = record k {
        used_objs_count = (k.used_objs_count + k.objs_per_slab) % 2 ^ 32;
      } in
      let k2 : ObjsCache = record k1 { full_slabs_count = inc k.full_slabs_count } in
      let k3 : ObjsCache = record k2 { full_slabs = list' } in
      rw
        (
          ne→== c null ne,
          ne→== p null ne',
          read_cache-ok c s ne,
          read_slab-ok p s ne',
          edit_cache-ok s c ne (λ (d : ObjsCache). record d {
            used_objs_count = (d.used_objs_count + d.objs_per_slab) % 2 ^ 32;
          }),
          edit_cache-at s c ne s.slab_links k1
              (λ (d : ObjsCache). record d { full_slabs_count = inc d.full_slabs_count }),
          push_full_slab-at s c p ne s.slab_links k2 list' l' e,
          edit_cache-at s c ne l' k3
              (λ (d : ObjsCache). record d { slabs_count = inc d.slabs_count }),
        )
        refl

-- The counters stay right, as long as the objects can be counted.
module _ (k : ObjsCache) (objs : Objs) (p list : Ptr) (xs ps fs us : List Ptr)
    (w : IsCounted k objs ps fs us) (np : NotIn p ps) (nf : NotIn p fs)
    (small : suc (length ps + length fs + length us) * k.objs_per_slab < 2 ^ 32) where
  abbrev all : ℕ
  all = length ps + length fs + length us

  few : suc all < 2 ^ 32
  few = omega (arith, le_product (suc all) k.objs_per_slab w.some_objs, small)

  times : suc all * k.objs_per_slab ≡ all * k.objs_per_slab + k.objs_per_slab
  times = grind arith

  pub with_free-IsCounted :
      length xs ≡ k.objs_per_slab → IsCounted (with_free k list) (update objs p xs) ps (p ∷ fs) us
  with_free-IsCounted e =
      let same : length ps + suc (length fs) + length us ≡ suc all = omega arith in
      let product = ap (λ (t : ℕ). t * k.objs_per_slab) same in
      record {
        some_objs = w.some_objs;
        objects =
            rw
              (
                update_eq objs p p xs refl,
                total-update objs p xs ps np,
                total-update objs p xs fs nf,
              )
              (omega (arith, e, w.objects, w.all_objects, small, times));
        all_objects = omega (arith, product, w.objects, w.all_objects, small, times);
        partial = w.partial;
        free = omega (arith, w.free, few);
        full = w.full;
        slabs = omega (arith, w.slabs, few);
        small = omega (arith, product, small);
      }

  pub with_partial-IsCounted :
      length xs < k.objs_per_slab
      → IsCounted (with_partial k (length xs) list) (update objs p xs) (p ∷ ps) fs us
  with_partial-IsCounted h =
      let same : suc (length ps) + length fs + length us ≡ suc all = omega arith in
      let product = ap (λ (t : ℕ). t * k.objs_per_slab) same in
      record {
        some_objs = w.some_objs;
        objects =
            rw
              (
                update_eq objs p p xs refl,
                total-update objs p xs ps np,
                total-update objs p xs fs nf,
              )
              (omega (arith, h, w.objects, w.all_objects, small, times));
        all_objects = omega (arith, h, product, w.objects, w.all_objects, small, times);
        partial = omega (arith, w.partial, few);
        free = w.free;
        full = w.full;
        slabs = omega (arith, w.slabs, few);
        small = omega (arith, product, small);
      }

  pub with_full-IsCounted : IsCounted (with_full k list) (update objs p xs) ps fs (p ∷ us)
  with_full-IsCounted =
      let same : length ps + length fs + suc (length us) ≡ suc all = omega arith in
      let product = ap (λ (t : ℕ). t * k.objs_per_slab) same in
      record {
        some_objs = w.some_objs;
        objects = rw (total-update objs p xs ps np, total-update objs p xs fs nf) w.objects;
        all_objects = omega (arith, product, w.objects, w.all_objects, small, times);
        partial = w.partial;
        free = w.free;
        full = omega (arith, w.full, few);
        slabs = omega (arith, w.slabs, few);
        small = omega (arith, product, small);
      }
