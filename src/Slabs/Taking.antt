-- ===== src/Slabs/Taking.antt =====
-- _retrieve_free_obj_from_objs_cache of src/kernel/mm/slab.c takes a free object and keeps the cache.
use atros.Base.{suc, ◌<◌, ◌≡◌, refl, ◌∙◌, List, [], ◌∷◌, length, arith, inl, inr, ok}
use atros.LinkedLists.Links.{Ptr, null, update_ne}
use atros.LinkedLists.Double.Chain.{ne_of_NotIn}
use atros.LinkedLists.Double.Move.{AreDlists, AreDlists-Moves, AreDlists-swap, AreDlists-rotate}
use atros.Slabs.State.{Slabs}
use atros.Slabs.Caches.{retrieve_free_obj}
use atros.Slabs.Invariant.{Objs, IsCache}
use atros.Slabs.Steps.{at, one_taken}
use atros.Slabs.Counts.{keep_partial, partial_to_full, free_to_partial, free_to_full}
use atros.Slabs.Taken.{Retrieves, Taken-from, none_left, some_left}
use atros.Slabs.Sorted.{SortsTaken, IsCache-take}
use atros.Slabs.Retrieval.{
  partial_full, free_partial, free_full, retrieve_partial-some, retrieve_partial-last,
  retrieve_free-some, retrieve_free-last, retrieve_free_obj-partial, retrieve_free_obj-free,
  retrieve_free_obj-none,
}

retrieve-keep :
    (s : Slabs) (c p x y : Ptr) (ys ps fs us : List Ptr) (objs : Objs)
    → IsCache s c (p ∷ ps) fs us objs
    → objs p ≡ x ∷ y ∷ ys
    → Retrieves s c (p ∷ ps) fs us objs (retrieve_free_obj c s)
retrieve-keep s c p x y ys ps fs us objs w e =
    let ((ep, ne, _, _), (n, _)) = w.lists.first in
    let nf = w.lists.first_second p (inl refl) in
    let nu = w.lists.first_third p (inl refl) in
    let old : length (objs p) ≡ suc (suc (length ys)) = rw e refl in
    let bound = (w.sorted.partial p (inl refl)).1 in
    let t =
      Taken-from s c p x (y ∷ ys) (p ∷ ps) fs us objs w ne (inl (inl refl)) e
        (omega (arith, old, w.counted.objects, w.counted.all_objects, w.counted.small)) in
    let s1 : Slabs = record s { slab = t.slab'; objects = t.objects' } in
    let sorts : SortsTaken (s.cache c).objs_per_slab (p ∷ ps) fs us (p ∷ ps) fs us p (y ∷ ys) =
      record {
        partial_from = λ q _ i. i;
        free_from = λ q _ i. i;
        full_from = λ q _ i. i;
        partial_at = λ _. (omega arith, omega (arith, old, bound));
        free_at = λ i. absurd (ne_of_NotIn p p fs nf i refl);
        full_at = λ i. absurd (ne_of_NotIn p p us nu i refl);
      } in
    let k1 = one_taken (s.cache c) in
    record {
      obj = x;
      slab = p;
      rest = y ∷ ys;
      after = at s1 c s.slab_links k1;
      partial' = p ∷ ps;
      free' = fs;
      full' = us;
      done =
          retrieve_free_obj-partial s c w.ne_null p ep ne
          ∙ retrieve_partial-some s s1 c p x w.ne_null ne t.obj_ne t.taken
              (some_left (t.slab' p).free_objs_count (length ys) t.count);
      was_listed = inl (inl refl);
      was_free = e;
      cache =
          IsCache-take objs (s.cache c).objs_per_slab (p ∷ ps) fs us (p ∷ ps) fs us p (y ∷ ys) sorts
            s s1 c x s.slab_links k1 w refl refl (inl (inl refl)) t.hold w.lists
            (keep_partial (s.cache c) objs p x y ys ps fs us w.counted e n nf);
      others = λ d ne''. update_ne s.cache c d k1 ne'';
    }

retrieve-partial_full :
    (s : Slabs) (c p x : Ptr) (ps fs us : List Ptr) (objs : Objs)
    → IsCache s c (p ∷ ps) fs us objs
    → objs p ≡ x ∷ []
    → Retrieves s c (p ∷ ps) fs us objs (retrieve_free_obj c s)
retrieve-partial_full s c p x ps fs us objs w e =
    let k = s.cache c in
    let l = s.slab_links in
    let u = k.full_slabs in
    let ((ep, ne, _, _), (n, _)) = w.lists.first in
    let nf = w.lists.first_second p (inl refl) in
    let nu = w.lists.first_third p (inl refl) in
    let old : length (objs p) ≡ 1 = rw e refl in
    let t =
      Taken-from s c p x [] (p ∷ ps) fs us objs w ne (inl (inl refl)) e
        (omega (arith, old, w.counted.objects, w.counted.all_objects, w.counted.small)) in
    let s1 : Slabs = record s { slab = t.slab'; objects = t.objects' } in
    let ordered : AreDlists l k.partial_slabs u k.free_slabs (p ∷ ps) us fs =
      AreDlists-swap l u k.partial_slabs k.free_slabs us (p ∷ ps) fs (
        AreDlists-rotate l k.free_slabs u k.partial_slabs fs us (p ∷ ps)
          (AreDlists-rotate l k.partial_slabs k.free_slabs u (p ∷ ps) fs us w.lists)) in
    let m = AreDlists-Moves l k.partial_slabs p u k.free_slabs ps us fs ordered in
    let sorts : SortsTaken k.objs_per_slab (p ∷ ps) fs us ps fs (p ∷ us) p [] = record {
      partial_from = λ q _ i. inr i;
      free_from = λ q _ i. i;
      full_from = λ q ne'' i. elim i [ inl z ↦ absurd (ne'' z) | inr j ↦ j ];
      partial_at = λ i. absurd (ne_of_NotIn p p ps n i refl);
      free_at = λ i. absurd (ne_of_NotIn p p fs nf i refl);
      full_at = λ _. refl;
    } in
    let k' = partial_full k m.a' m.b' in
    record {
      obj = x;
      slab = p;
      rest = [];
      after = at s1 c m.l2 k';
      partial' = ps;
      free' = fs;
      full' = (p ∷ us);
      done =
          retrieve_free_obj-partial s c w.ne_null p ep ne
          ∙ retrieve_partial-last s s1 c p x w.ne_null ne t.obj_ne t.taken m.a' m.b' m.l1 m.l2
              (none_left (t.slab' p).free_objs_count t.count) m.deleted m.pushed;
      was_listed = (inl (inl refl));
      was_free = e;
      cache =
          IsCache-take objs k.objs_per_slab (p ∷ ps) fs us ps fs (p ∷ us) p [] sorts s s1 c x m.l2
            k' w refl refl (inl (inl refl)) t.hold
            (AreDlists-rotate m.l2 m.b' m.a' k.free_slabs (p ∷ us) ps fs
              (AreDlists-swap m.l2 m.a' m.b' k.free_slabs ps (p ∷ us) fs m.lists))
            (partial_to_full k objs p x m.a' m.b' ps fs us w.counted e n nf);
      others = λ d ne''. update_ne s.cache c d k' ne'';
    }

retrieve-free_partial :
    (s : Slabs) (c p x y : Ptr) (ys fs us : List Ptr) (objs : Objs)
    → IsCache s c [] (p ∷ fs) us objs
    → objs p ≡ x ∷ y ∷ ys
    → Retrieves s c [] (p ∷ fs) us objs (retrieve_free_obj c s)
retrieve-free_partial s c p x y ys fs us objs w e =
    let k = s.cache c in
    let l = s.slab_links in
    let u = k.full_slabs in
    let (ep, _) = w.lists.first in
    let ((ef, ne, _, _), (n, _)) = w.lists.second in
    let nu = w.lists.second_third p (inl refl) in
    let old : length (objs p) ≡ suc (suc (length ys)) = rw e refl in
    let bound = w.sorted.free p (inl refl) in
    let t =
      Taken-from s c p x (y ∷ ys) [] (p ∷ fs) us objs w ne (inr (inl (inl refl))) e
        (omega (arith, old, w.counted.objects, w.counted.all_objects, w.counted.small)) in
    let s1 : Slabs = record s { slab = t.slab'; objects = t.objects' } in
    let ordered : AreDlists l k.free_slabs k.partial_slabs u (p ∷ fs) [] us =
      AreDlists-swap l k.partial_slabs k.free_slabs u [] (p ∷ fs) us w.lists in
    let m = AreDlists-Moves l k.free_slabs p k.partial_slabs u fs [] us ordered in
    let sorts : SortsTaken k.objs_per_slab [] (p ∷ fs) us (p ∷ []) fs us p (y ∷ ys) = record {
      partial_from = λ q ne'' i. elim i [ inl z ↦ absurd (ne'' z) | inr j ↦ j ];
      free_from = λ q _ i. inr i;
      full_from = λ q _ i. i;
      partial_at = λ _. (omega arith, omega (arith, old, bound));
      free_at = λ i. absurd (ne_of_NotIn p p fs n i refl);
      full_at = λ i. absurd (ne_of_NotIn p p us nu i refl);
    } in
    let k' = free_partial k m.a' m.b' in
    record {
      obj = x;
      slab = p;
      rest = (y ∷ ys);
      after = at s1 c m.l2 k';
      partial' = (p ∷ []);
      free' = fs;
      full' = us;
      done =
          retrieve_free_obj-free s c w.ne_null p ep ef ne
          ∙ retrieve_free-some s s1 c p x w.ne_null ne t.obj_ne t.taken m.a' m.b' m.l1 m.l2
              (some_left (t.slab' p).free_objs_count (length ys) t.count) m.deleted m.pushed;
      was_listed = (inr (inl (inl refl)));
      was_free = e;
      cache =
          IsCache-take objs k.objs_per_slab [] (p ∷ fs) us (p ∷ []) fs us p (y ∷ ys) sorts s s1 c x
            m.l2 k' w refl refl (inr (inl (inl refl))) t.hold
            (AreDlists-swap m.l2 m.a' m.b' u fs (p ∷ []) us m.lists)
            (free_to_partial k objs p x y m.a' m.b' ys [] fs us w.counted e tt n);
      others = λ d ne''. update_ne s.cache c d k' ne'';
    }

retrieve-free_full :
    (s : Slabs) (c p x : Ptr) (fs us : List Ptr) (objs : Objs)
    → IsCache s c [] (p ∷ fs) us objs
    → objs p ≡ x ∷ []
    → Retrieves s c [] (p ∷ fs) us objs (retrieve_free_obj c s)
retrieve-free_full s c p x fs us objs w e =
    let k = s.cache c in
    let l = s.slab_links in
    let u = k.full_slabs in
    let (ep, _) = w.lists.first in
    let ((ef, ne, _, _), (n, _)) = w.lists.second in
    let nu = w.lists.second_third p (inl refl) in
    let old : length (objs p) ≡ 1 = rw e refl in
    let t =
      Taken-from s c p x [] [] (p ∷ fs) us objs w ne (inr (inl (inl refl))) e
        (omega (arith, old, w.counted.objects, w.counted.all_objects, w.counted.small)) in
    let s1 : Slabs = record s { slab = t.slab'; objects = t.objects' } in
    let ordered : AreDlists l k.free_slabs u k.partial_slabs (p ∷ fs) us [] =
      AreDlists-rotate l k.partial_slabs k.free_slabs u [] (p ∷ fs) us w.lists in
    let m = AreDlists-Moves l k.free_slabs p u k.partial_slabs fs us [] ordered in
    let sorts : SortsTaken k.objs_per_slab [] (p ∷ fs) us [] fs (p ∷ us) p [] = record {
      partial_from = λ q _ i. i;
      free_from = λ q _ i. inr i;
      full_from = λ q ne'' i. elim i [ inl z ↦ absurd (ne'' z) | inr j ↦ j ];
      partial_at = λ i. absurd i;
      free_at = λ i. absurd (ne_of_NotIn p p fs n i refl);
      full_at = λ _. refl;
    } in
    let k' = free_full k m.a' m.b' in
    record {
      obj = x;
      slab = p;
      rest = [];
      after = at s1 c m.l2 k';
      partial' = [];
      free' = fs;
      full' = (p ∷ us);
      done =
          retrieve_free_obj-free s c w.ne_null p ep ef ne
          ∙ retrieve_free-last s s1 c p x w.ne_null ne t.obj_ne t.taken m.a' m.b' m.l1 m.l2
              (none_left (t.slab' p).free_objs_count t.count) m.deleted m.pushed;
      was_listed = (inr (inl (inl refl)));
      was_free = e;
      cache =
          IsCache-take objs k.objs_per_slab [] (p ∷ fs) us [] fs (p ∷ us) p [] sorts s s1 c x m.l2
            k' w refl refl (inr (inl (inl refl))) t.hold
            (AreDlists-rotate m.l2 m.b' k.partial_slabs m.a' (p ∷ us) [] fs
              (AreDlists-rotate m.l2 m.a' m.b' k.partial_slabs fs (p ∷ us) [] m.lists))
            (free_to_full k objs p x m.a' m.b' [] fs us w.counted e tt n);
      others = λ d ne''. update_ne s.cache c d k' ne'';
    }

retrieve-partial_slab :
    (s : Slabs) (c p : Ptr) (xs ps fs us : List Ptr) (objs : Objs)
    → IsCache s c (p ∷ ps) fs us objs
    → objs p ≡ xs
    → Retrieves s c (p ∷ ps) fs us objs (retrieve_free_obj c s)
retrieve-partial_slab s c p [] ps fs us objs w e =
    let old : length (objs p) ≡ 0 = rw e refl in
    absurd (omega (arith, old, w.sorted.partial p (inl refl)))
retrieve-partial_slab s c p (x ∷ []) ps fs us objs w e =
    retrieve-partial_full s c p x ps fs us objs w e
retrieve-partial_slab s c p (x ∷ y ∷ ys) ps fs us objs w e =
    retrieve-keep s c p x y ys ps fs us objs w e

retrieve-free_slab :
    (s : Slabs) (c p : Ptr) (xs fs us : List Ptr) (objs : Objs)
    → IsCache s c [] (p ∷ fs) us objs
    → objs p ≡ xs
    → Retrieves s c [] (p ∷ fs) us objs (retrieve_free_obj c s)
retrieve-free_slab s c p [] fs us objs w e =
    let old : length (objs p) ≡ 0 = rw e refl in
    absurd (omega (arith, old, w.sorted.free p (inl refl), w.counted.some_objs))
retrieve-free_slab s c p (x ∷ []) fs us objs w e = retrieve-free_full s c p x fs us objs w e
retrieve-free_slab s c p (x ∷ y ∷ ys) fs us objs w e =
    retrieve-free_partial s c p x y ys fs us objs w e

-- In a cache that has free objects _retrieve_free_obj_from_objs_cache takes an object that was free
-- in one of its slabs, and the cache keeps its invariant: every slab is in the list of its status,
-- every free object is in the list of its slab and all counters are right.
pub retrieve_free_obj-IsCache :
    (s : Slabs) (c : Ptr) (ps fs us : List Ptr) (objs : Objs)
    → IsCache s c ps fs us objs
    → 0 < (s.cache c).free_objs_count
    → Retrieves s c ps fs us objs (retrieve_free_obj c s)
retrieve_free_obj-IsCache s c [] [] us objs w some = absurd (omega (arith, w.counted.objects))
retrieve_free_obj-IsCache s c [] (p ∷ fs) us objs w some =
    retrieve-free_slab s c p (objs p) fs us objs w refl
retrieve_free_obj-IsCache s c (p ∷ ps) fs us objs w some =
    retrieve-partial_slab s c p (objs p) ps fs us objs w refl

-- In a cache that has no free object _retrieve_free_obj_from_objs_cache gives null and changes
-- nothing.
pub retrieve_free_obj-null :
    (s : Slabs) (c : Ptr) (ps fs us : List Ptr) (objs : Objs)
    → IsCache s c ps fs us objs
    → (s.cache c).free_objs_count ≡ 0
    → retrieve_free_obj c s ≡ ok (null, s)
retrieve_free_obj-null s c [] [] us objs w none =
    let (ep, _) = w.lists.first in
    let (ef, _) = w.lists.second in retrieve_free_obj-none s c w.ne_null ep ef
retrieve_free_obj-null s c [] (p ∷ fs) us objs w none =
    absurd (omega (arith, none, w.counted.objects, w.sorted.free p (inl refl), w.counted.some_objs))
retrieve_free_obj-null s c (p ∷ ps) fs us objs w none =
    absurd (omega (arith, none, w.counted.objects, w.sorted.partial p (inl refl)))
