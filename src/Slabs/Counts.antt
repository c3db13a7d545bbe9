-- ===== src/Slabs/Counts.antt =====
-- The counters of a cache of src/kernel/mm/slab.c while an object is taken and its slab moves
-- between the lists.
use atros.Base.{
  ℕ, suc, ◌+◌, ◌*◌, ◌^◌, ◌<◌, ◌≤◌, ◌≡◌, refl, sym, ap, List, [], ◌∷◌, NotIn, In, length, arith, inl,
  inr,
}
use atros.LinkedLists.Links.{Ptr, update, update_eq, update_ne}
use atros.Slabs.State.{ObjsCache, inc, dec}
use atros.Slabs.Steps.{one_taken}
use atros.Slabs.Invariant.{Objs, total, IsCounted}

pub total-update :
    (objs : Objs) (p : Ptr) (xs : List Ptr) (ps : List Ptr)
    → NotIn p ps
    → total (update objs p xs) ps ≡ total objs ps
total-update objs p xs [] n = refl
total-update objs p xs (q ∷ qs) (ne, n) =
    rw (update_ne objs p q xs (λ e. ne (sym e)), total-update objs p xs qs n) refl

-- No more objects are free than there are.
total_le :
    (objs : Objs) (n : ℕ) (ps : List Ptr)
    → ((p : Ptr) → In p ps → length (objs p) ≤ n)
    → total objs ps ≤ length ps * n
total_le objs n [] f = omega arith
total_le objs n (p ∷ ps) f = omega (arith, f p (inl refl), total_le objs n ps (λ q i. f q (inr i)))

-- The first slab of the list of slabs in use keeps a free object.
pub keep_partial :
    (k : ObjsCache) (objs : Objs) (p x y : Ptr) (ys ps fs us : List Ptr)
    → IsCounted k objs (p ∷ ps) fs us
    → objs p ≡ x ∷ y ∷ ys
    → NotIn p ps
    → NotIn p fs
    → IsCounted (one_taken k) (update objs p (y ∷ ys)) (p ∷ ps) fs us
keep_partial k objs p x y ys ps fs us w e n n' =
    let here : total (update objs p (y ∷ ys)) (p ∷ ps) ≡ suc (length ys) + total objs ps =
      rw (update_eq objs p p (y ∷ ys) refl, total-update objs p (y ∷ ys) ps n) refl in
    let old : length (objs p) ≡ suc (suc (length ys)) = rw e refl in
    record {
      some_objs = w.some_objs;
      objects =
          rw (total-update objs p (y ∷ ys) fs n')
            (omega (arith, here, old, w.objects, w.all_objects, w.small));
      all_objects = omega (arith, old, w.objects, w.all_objects, w.small);
      partial = w.partial;
      free = w.free;
      full = w.full;
      slabs = w.slabs;
      small = w.small;
    }

pub le_product : (m n : ℕ) → 0 < n → m ≤ m * n
le_product m n h = grind arith

-- There are fewer slabs than 2 ^ 32.
slabs_small :
    (k : ObjsCache) (objs : Objs) (ps fs us : List Ptr)
    → IsCounted k objs ps fs us
    → length ps + length fs + length us < 2 ^ 32
slabs_small k objs ps fs us w =
    omega
      (arith, le_product (length ps + length fs + length us) k.objs_per_slab w.some_objs, w.small)

-- The last free object of a slab in use is taken.
pub partial_to_full :
    (k : ObjsCache) (objs : Objs) (p x a b : Ptr) (ps fs us : List Ptr)
    → IsCounted k objs (p ∷ ps) fs us
    → objs p ≡ x ∷ []
    → NotIn p ps
    → NotIn p fs
    → IsCounted
        (record (one_taken k) {
          partial_slabs = a;
          full_slabs = b;
          partial_slabs_count = dec k.partial_slabs_count;
          full_slabs_count = inc k.full_slabs_count;
        })
        (update objs p [])
        ps
        fs
        (p ∷ us)
partial_to_full k objs p x a b ps fs us w e n n' =
    let old : length (objs p) ≡ 1 = rw e refl in
    let same : suc (length ps) + length fs + length us ≡ length ps + length fs + suc (length us) =
      omega arith in
    let product = ap (λ (t : ℕ). t * k.objs_per_slab) same in
    let few = slabs_small k objs (p ∷ ps) fs us w in
    record {
      some_objs = w.some_objs;
      objects =
          rw (total-update objs p [] ps n, total-update objs p [] fs n')
            (omega (arith, old, w.objects, w.all_objects, w.small));
      all_objects = omega (arith, old, product, w.objects, w.all_objects, w.small);
      partial = omega (arith, w.partial, few);
      free = w.free;
      full = omega (arith, w.full, few);
      slabs = omega (arith, w.slabs);
      small = omega (arith, w.small, product);
    }

-- The first object of a slab is taken, and others stay free.
pub free_to_partial :
    (k : ObjsCache) (objs : Objs) (p x y a b : Ptr) (ys ps fs us : List Ptr)
    → IsCounted k objs ps (p ∷ fs) us
    → objs p ≡ x ∷ y ∷ ys
    → NotIn p ps
    → NotIn p fs
    → IsCounted
        (record (one_taken k) {
          free_slabs = a;
          partial_slabs = b;
          free_slabs_count = dec k.free_slabs_count;
          partial_slabs_count = inc k.partial_slabs_count;
        })
        (update objs p (y ∷ ys))
        (p ∷ ps)
        fs
        us
free_to_partial k objs p x y a b ys ps fs us w e n n' =
    let old : length (objs p) ≡ suc (suc (length ys)) = rw e refl in
    let same : length ps + suc (length fs) + length us ≡ suc (length ps) + length fs + length us =
      omega arith in
    let product = ap (λ (t : ℕ). t * k.objs_per_slab) same in
    let few = slabs_small k objs ps (p ∷ fs) us w in
    record {
      some_objs = w.some_objs;
      objects =
          rw
            (
              update_eq objs p p (y ∷ ys) refl,
              total-update objs p (y ∷ ys) ps n,
              total-update objs p (y ∷ ys) fs n',
            )
            (omega (arith, old, w.objects, w.all_objects, w.small));
      all_objects = omega (arith, old, product, w.objects, w.all_objects, w.small);
      partial = omega (arith, w.partial, few);
      free = omega (arith, w.free, few);
      full = w.full;
      slabs = omega (arith, w.slabs);
      small = omega (arith, w.small, product);
    }

-- The only object of a slab is taken.
pub free_to_full :
    (k : ObjsCache) (objs : Objs) (p x a b : Ptr) (ps fs us : List Ptr)
    → IsCounted k objs ps (p ∷ fs) us
    → objs p ≡ x ∷ []
    → NotIn p ps
    → NotIn p fs
    → IsCounted
        (record (one_taken k) {
          free_slabs = a;
          full_slabs = b;
          free_slabs_count = dec k.free_slabs_count;
          full_slabs_count = inc k.full_slabs_count;
        })
        (update objs p [])
        ps
        fs
        (p ∷ us)
free_to_full k objs p x a b ps fs us w e n n' =
    let old : length (objs p) ≡ 1 = rw e refl in
    let same : length ps + suc (length fs) + length us ≡ length ps + length fs + suc (length us) =
      omega arith in
    let product = ap (λ (t : ℕ). t * k.objs_per_slab) same in
    let few = slabs_small k objs ps (p ∷ fs) us w in
    record {
      some_objs = w.some_objs;
      objects =
          rw (total-update objs p [] ps n, total-update objs p [] fs n')
            (omega (arith, old, w.objects, w.all_objects, w.small));
      all_objects = omega (arith, old, product, w.objects, w.all_objects, w.small);
      partial = w.partial;
      free = omega (arith, w.free, few);
      full = omega (arith, w.full, few);
      slabs = omega (arith, w.slabs);
      small = omega (arith, w.small, product);
    }
