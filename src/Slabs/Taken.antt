-- ===== src/Slabs/Taken.antt =====
-- The outcome of _retrieve_free_obj_from_objs_cache of src/kernel/mm/slab.c, and the object that it
-- takes.
use atros.Base.{
  ℕ, suc, ◌^◌, ◌<◌, ◌≡◌, ◌≢◌, refl, List, ◌∷◌, length, arith, ok, Outcome, false, true, ◌==◌, ne→==,
}
use atros.LinkedLists.Links.{Ptr, null, update}
use atros.Slabs.State.{Slab, Slabs}
use atros.Slabs.Setup.{IsSlab}
use atros.Slabs.Objects.{alloc_obj_from_slab}
use atros.Slabs.Invariant.{Objs, IsListed, HoldObjs, IsCache, alloc_obj_from_slab-TakesObj}
use atros.Slabs.Steps.{HoldObjs-take}

-- An object that was free is taken from the cache, which stays one, and no other cache changes.
pub record Retrieves (s : Slabs) (c : Ptr) (ps fs us : List Ptr) (objs : Objs)
    (r : Outcome (Ptr × Slabs)) : Type 0 where
  pub obj : Ptr
  pub slab : Ptr
  pub rest : List Ptr
  pub after : Slabs
  pub partial' : List Ptr
  pub free' : List Ptr
  pub full' : List Ptr
  pub done : r ≡ ok (obj, after)
  pub was_listed : IsListed ps fs us slab
  pub was_free : objs slab ≡ obj ∷ rest
  pub cache : IsCache after c partial' free' full' (update objs slab rest)
  pub others : (d : Ptr) → d ≢ c → after.cache d ≡ s.cache d

-- The run of alloc_obj_from_slab on a slab of a cache.
pub record Taken (s : Slabs) (p x : Ptr) (xs ps fs us : List Ptr) (objs : Objs) : Type 0 where
  pub obj_ne : x ≢ null
  pub slab' : Ptr → Slab
  pub objects' : Ptr → Ptr
  pub taken : alloc_obj_from_slab p s ≡ ok (x, record s { slab = slab'; objects = objects' })
  pub count : (slab' p).free_objs_count ≡ length xs
  pub hold : HoldObjs (record s { slab = slab'; objects = objects' }) ps fs us (update objs p xs)

pub Taken-from :
    (s : Slabs) (c p x : Ptr) (xs ps fs us : List Ptr) (objs : Objs)
    → IsCache s c ps fs us objs
    → p ≢ null
    → IsListed ps fs us p
    → objs p ≡ x ∷ xs
    → length (x ∷ xs) < 2 ^ 32
    → Taken s p x xs ps fs us objs
Taken-from s c p x xs ps fs us objs w ne here e small =
    let slab : IsSlab s p (x ∷ xs) = rw e at (w.hold.slabs p here) in
    let (_, nx, _) = slab.chain in
    let t = alloc_obj_from_slab-TakesObj s p x xs ne slab small in
    record {
      obj_ne = nx;
      slab' = t.slab';
      objects' = t.objects';
      taken = t.done;
      count = t.is_slab.count;
      hold =
          HoldObjs-take s t.slab' t.objects' ps fs us objs p x xs w.hold here e t.is_slab t.others
            t.frame;
    }

pub none_left : (n : ℕ) → n ≡ 0 → (n == 0) ≡ true
none_left n e = rw e refl

pub some_left : (n m : ℕ) → n ≡ suc m → (n == 0) ≡ false
some_left n m e = ne→== n 0 (λ z. omega arith)
