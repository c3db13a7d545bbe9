-- ===== src/Slabs/Sorted.antt =====
-- The lists of a cache of src/kernel/mm/slab.c after an object of one of its slabs is taken.
use atros.Base.{ℕ, ◌<◌, ◌≡◌, ◌≢◌, refl, List, In, length, inl, inr, eq_or_ne}
use atros.LinkedLists.Links.{Links, Ptr, update, update_eq, update_ne}
use atros.LinkedLists.Double.Move.{AreDlists}
use atros.Slabs.State.{ObjsCache, Slabs}
use atros.Slabs.Invariant.{Objs, IsListed, HoldObjs, AreSorted, IsCounted, IsCache}
use atros.Slabs.Steps.{at, HoldObjs-at, HoldObjs-regroup}

-- Slabs in new lists are sorted when the one that changed is, and the others come from the same
-- lists.
pub record SortsTaken (n : ℕ) (ps fs us ps' fs' us' : List Ptr) (p : Ptr) (xs : List Ptr)
    : Type 0 where
  pub partial_from : (q : Ptr) → q ≢ p → In q ps' → In q ps
  pub free_from : (q : Ptr) → q ≢ p → In q fs' → In q fs
  pub full_from : (q : Ptr) → q ≢ p → In q us' → In q us
  pub partial_at : In p ps' → (0 < length xs) × (length xs < n)
  pub free_at : In p fs' → length xs ≡ n
  pub full_at : In p us' → length xs ≡ 0

module _ (objs : Objs) (n : ℕ) (ps fs us ps' fs' us' : List Ptr) (p : Ptr) (xs : List Ptr)
    (f : SortsTaken n ps fs us ps' fs' us' p xs) where
  pub AreSorted-take : AreSorted objs n ps fs us → AreSorted (update objs p xs) n ps' fs' us'
  AreSorted-take w = record {
    partial = λ q i. elim (eq_or_ne q p) [
      | inl e ↦ rw (e, update_eq objs p p xs refl) (f.partial_at (rw e at i))
      | inr ne ↦ rw (update_ne objs p q xs ne) (w.partial q (f.partial_from q ne i))
    ];
    free = λ q i. elim (eq_or_ne q p) [
      | inl e ↦ rw (e, update_eq objs p p xs refl) (f.free_at (rw e at i))
      | inr ne ↦ rw (update_ne objs p q xs ne) (w.free q (f.free_from q ne i))
    ];
    full = λ q i. elim (eq_or_ne q p) [
      | inl e ↦ rw (e, update_eq objs p p xs refl) (f.full_at (rw e at i))
      | inr ne ↦ rw (update_ne objs p q xs ne) (w.full q (f.full_from q ne i))
    ];
  }

  IsListed-from : IsListed ps fs us p → (q : Ptr) → IsListed ps' fs' us' q → IsListed ps fs us q
  IsListed-from here q i = elim (eq_or_ne q p) [
    | inl e ↦ rw e here
    | inr ne ↦ elim i [
      | inl j ↦ inl (f.partial_from q ne j)
      | inr j ↦ elim j [
        | inl j' ↦ inr (inl (f.free_from q ne j'))
        | inr j' ↦ inr (inr (f.full_from q ne j'))
      ]
    ]
  ]

  -- The parts of a cache after an object is taken.
  pub IsCache-take :
      (s s1 : Slabs) (c : Ptr) (x : Ptr) (l' : Links) (k' : ObjsCache)
      → IsCache s c ps fs us objs
      → (s.cache c).objs_per_slab ≡ n
      → k'.objs_per_slab ≡ n
      → IsListed ps fs us p
      → HoldObjs s1 ps fs us (update objs p xs)
      → AreDlists l' k'.partial_slabs k'.free_slabs k'.full_slabs ps' fs' us'
      → IsCounted k' (update objs p xs) ps' fs' us'
      → IsCache (at s1 c l' k') c ps' fs' us' (update objs p xs)
  IsCache-take s s1 c x l' k' w e e' here hold lists counted =
      let same : update s1.cache c k' c ≡ k' = update_eq s1.cache c c k' refl in
      record {
        ne_null = w.ne_null;
        lists = rw same lists;
        hold =
            HoldObjs-at s1 c l' k' ps' fs' us' (update objs p xs) (
              HoldObjs-regroup s1 ps fs us ps' fs' us' (update objs p xs) hold
                (IsListed-from here));
        sorted = rw (same, e') (AreSorted-take (rw e at w.sorted));
        counted = rw same counted;
      }
