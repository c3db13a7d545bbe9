-- ===== src/Slabs/Invariant.antt =====
-- The invariant of a cache of src/kernel/mm/slab.c: its slabs stand in three lists by the number of
-- their free objects, and the counters count them.
use atros.Base.{
  ℕ, ◌+◌, ◌*◌, ◌^◌, ◌<◌, ◌≡◌, ◌≢◌, refl, List, [], ◌∷◌, NotIn, In, length, arith, ◌⊎◌, ok, Outcome,
  ne→==, lt→ltb, ltb, true,
}
use atros.LinkedLists.Links.{Ptr, null, update, update_eq, update_ne}
use atros.LinkedLists.Simple.{list_pop_head}
use atros.LinkedLists.Double.Move.{AreDlists}
use atros.Slabs.State.{Slab, ObjsCache, Slabs, on_objects, dec}
use atros.Slabs.Objects.{alloc_obj_from_slab, pop_obj}
use atros.Slabs.Chains.{list_pop_head-Pops}
use atros.Slabs.Setup.{IsSlab, edit_slab-ok, edit_slab-again, read_slab-ok}

-- The free objects of each slab.
abbrev pub Objs : Type 0
Objs = Ptr → List Ptr

abbrev pub total : Objs → List Ptr → ℕ
total objs [] = 0
total objs (p ∷ ps) = length (objs p) + total objs ps

abbrev pub IsListed : List Ptr → List Ptr → List Ptr → Ptr → Type 0
IsListed ps fs us p = In p ps ⊎ In p fs ⊎ In p us

-- The slabs of the three lists hold their free objects, and share none.
pub record HoldObjs (s : Slabs) (ps fs us : List Ptr) (objs : Objs) : Type 0 where
  pub slabs : (p : Ptr) → IsListed ps fs us p → IsSlab s p (objs p)
  pub apart :
      (p q x : Ptr)
      → IsListed ps fs us p
      → IsListed ps fs us q
      → p ≢ q
      → In x (objs p)
      → NotIn x (objs q)

-- A slab of which some objects are free is in the list `ps`, one of which all are in `fs`, one of
-- which none is in `us`.
pub record AreSorted (objs : Objs) (n : ℕ) (ps fs us : List Ptr) : Type 0 where
  pub partial : (p : Ptr) → In p ps → (0 < length (objs p)) × (length (objs p) < n)
  pub free : (p : Ptr) → In p fs → length (objs p) ≡ n
  pub full : (p : Ptr) → In p us → length (objs p) ≡ 0

-- The counters of a cache.
pub record IsCounted (k : ObjsCache) (objs : Objs) (ps fs us : List Ptr) : Type 0 where
  pub some_objs : 0 < k.objs_per_slab
  pub objects : k.free_objs_count ≡ total objs ps + total objs fs
  pub all_objects :
      k.free_objs_count + k.used_objs_count ≡ (length ps + length fs + length us) * k.objs_per_slab
  pub partial : k.partial_slabs_count ≡ length ps
  pub free : k.free_slabs_count ≡ length fs
  pub full : k.full_slabs_count ≡ length us
  pub slabs : k.slabs_count ≡ length ps + length fs + length us
  pub small : (length ps + length fs + length us) * k.objs_per_slab < 2 ^ 32

pub record IsCache (s : Slabs) (c : Ptr) (ps fs us : List Ptr) (objs : Objs) : Type 0 where
  pub ne_null : c ≢ null
  pub lists :
      AreDlists s.slab_links
        (s.cache c).partial_slabs
        (s.cache c).free_slabs
        (s.cache c).full_slabs
        ps
        fs
        us
  pub hold : HoldObjs s ps fs us objs
  pub sorted : AreSorted objs (s.cache c).objs_per_slab ps fs us
  pub counted : IsCounted (s.cache c) objs ps fs us

-- An object is taken from the head of the free objects of a slab.
pub record TakesObj (s : Slabs) (p x : Ptr) (xs : List Ptr) (r : Outcome (Ptr × Slabs))
    : Type 0 where
  pub slab' : Ptr → Slab
  pub objects' : Ptr → Ptr
  pub done : r ≡ ok (x, record s { slab = slab'; objects = objects' })
  pub is_slab : IsSlab (record s { slab = slab'; objects = objects' }) p xs
  pub vregion : (slab' p).vregion ≡ (s.slab p).vregion
  pub others : (q : Ptr) → q ≢ p → slab' q ≡ s.slab q
  pub frame : (q : Ptr) → q ≢ x → objects' q ≡ s.objects q

pop_obj-ok :
    (s : Slabs) (p x : Ptr) (xs : List Ptr) (d : Slab) (list' : Ptr) (l' : Ptr → Ptr)
    → p ≢ null
    → x ≢ null
    → s.slab p ≡ d
    → on_objects (list_pop_head d.free_objs_list) s ≡ ok ((x, list'), record s { objects = l' })
    → pop_obj p d s
      ≡ ok (
        x,
        record s {
          slab =
              update s.slab p
                (record d { free_objs_list = list'; free_objs_count = dec d.free_objs_count });
          objects = l';
        },
      )
unfolding pop_obj
pop_obj-ok s p x xs d list' l' ne ne' e done =
    let s1 : Slabs = record s { objects = l' } in
    let d1 : Slab = record d { free_objs_list = list' } in
    rw
      (
        done,
        edit_slab-ok p (λ (d' : Slab). record d' { free_objs_list = list' }) s1 ne,
        e,
        ne→== x null ne',
        edit_slab-again s1 p d1
            (λ (d' : Slab). record d' { free_objs_count = dec d'.free_objs_count }) ne,
      )
      refl

pub alloc_obj_from_slab-TakesObj :
    (s : Slabs) (p x : Ptr) (xs : List Ptr)
    → p ≢ null
    → IsSlab s p (x ∷ xs)
    → length (x ∷ xs) < 2 ^ 32
    → TakesObj s p x xs (alloc_obj_from_slab p s)
unfolding alloc_obj_from_slab on_objects
alloc_obj_from_slab-TakesObj s p x xs ne w small =
    let d = s.slab p in
    let (n, dist) = w.distinct in
    let (ex, ne', rest) = w.chain in
    let pop = list_pop_head-Pops s.objects x xs (refl, ne', rest) n in
    let d' : Slab = record d {
      free_objs_list = pop.list';
      free_objs_count = dec d.free_objs_count;
    } in
    let some_left : ltb 0 d.free_objs_count ≡ true =
      lt→ltb 0 d.free_objs_count (omega (arith, w.count)) in
    let same : update s.slab p d' p ≡ d' = update_eq s.slab p p d' refl in
    record {
      slab' = update s.slab p d';
      objects' = pop.l';
      done =
          rw (ne→== p null ne, read_slab-ok p s ne, some_left)
            (pop_obj-ok s p x xs d pop.list' pop.l' ne ne' refl (rw (ex, pop.done) refl));
      is_slab = record {
        chain = rw same pop.chain;
        distinct = dist;
        count = rw same (omega (arith, w.count));
      };
      vregion = rw same refl;
      others = λ q ne''. update_ne s.slab p q d' ne'';
      frame = pop.frame;
    }
