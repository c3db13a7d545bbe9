-- ===== src/Slabs/Adding.antt =====
-- objs_cache_add_slab of src/kernel/mm/slab.c keeps the invariant of a cache.
use atros.Base.{
  ℕ, suc, ◌+◌, ◌*◌, ◌^◌, ◌<◌, ◌≡◌, ◌≢◌, refl, sym, ◌∙◌, List, ◌∷◌, NotIn, In, length, ok, ◌⊎◌, inl,
  inr, Outcome, eq_or_ne, if◌then◌else◌, ◌==◌,
}
use atros.LinkedLists.Links.{Links, Ptr, null, update, update_eq, update_ne}
use atros.LinkedLists.Simple.Chain.{NotIn-of_In}
use atros.LinkedLists.Double.Chain.{ne_of_NotIn}
use atros.LinkedLists.Double.Move.{AreDlists, AreDlists-Pushes, AreDlists-swap, AreDlists-rotate}
use atros.Slabs.State.{ObjsCache, Slabs}
use atros.Slabs.Setup.{IsSlab}
use atros.Slabs.Caches.{objs_cache_add_slab}
use atros.Slabs.Invariant.{Objs, IsListed, HoldObjs, IsCounted, IsCache}
use atros.Slabs.Steps.{at, HoldObjs-at}
use atros.Slabs.Sorted.{SortsTaken, AreSorted-take}
use atros.Slabs.Growth.{
  with_free, with_partial, with_full, objs_cache_add_slab-free, objs_cache_add_slab-partial,
  objs_cache_add_slab-full, with_free-IsCounted, with_partial-IsCounted, with_full-IsCounted,
}

-- A slab that no list of the cache has, with objects that no slab of it has.
pub record IsNewSlab (s : Slabs) (ps fs us : List Ptr) (objs : Objs) (p : Ptr) (xs : List Ptr)
    : Type 0 where
  pub ne_null : p ≢ null
  pub not_partial : NotIn p ps
  pub not_free : NotIn p fs
  pub not_full : NotIn p us
  pub slab : IsSlab s p xs
  pub fresh : (q x : Ptr) → IsListed ps fs us q → In x xs → NotIn x (objs q)

-- The status goes with the number of free objects.
abbrev pub HasStatus : ℕ → ℕ → ℕ → Type 0
HasStatus status n left =
    ((status ≡ 0) × (left ≡ n))
    ⊎ ((status ≡ 1) × (0 < left) × (left < n))
    ⊎ ((status ≡ 2) × (left ≡ 0))

abbrev pub push_if : ℕ → ℕ → Ptr → List Ptr → List Ptr
push_if status wanted p ps = if status == wanted then p ∷ ps else ps

-- The slab is in the list of its status, and no other cache changes.
pub record Adds (s : Slabs) (c p status : ℕ) (xs ps fs us : List Ptr) (objs : Objs)
    (r : Outcome (Unit {0} × Slabs)) : Type 0 where
  pub after : Slabs
  pub done : r ≡ ok (tt, after)
  pub cache :
      IsCache after c
        (push_if status 1 p ps)
        (push_if status 0 p fs)
        (push_if status 2 p us)
        (update objs p xs)
  pub others : (d : Ptr) → d ≢ c → after.cache d ≡ s.cache d

HoldObjs-add :
    (s : Slabs) (ps fs us ps' fs' us' : List Ptr) (objs : Objs) (p : Ptr) (xs : List Ptr)
    → HoldObjs s ps fs us objs
    → IsNewSlab s ps fs us objs p xs
    → ((q : Ptr) → q ≢ p → IsListed ps' fs' us' q → IsListed ps fs us q)
    → HoldObjs s ps' fs' us' (update objs p xs)
HoldObjs-add s ps fs us ps' fs' us' objs p xs w new old = record {
  slabs = λ q i. elim (eq_or_ne q p) [
    | inl z ↦ rw (z, update_eq objs p p xs refl) new.slab
    | inr ne ↦ rw (update_ne objs p q xs ne) (w.slabs q (old q ne i))
  ];
  apart = λ q q' x i i' ne. elim (eq_or_ne q p) [
    | inl z ↦
        let ne' : q' ≢ p = λ z'. ne (z ∙ sym z') in
        λ j.
          rw (update_ne objs p q' xs ne')
            (new.fresh q' x (old q' ne' i') (rw (z, update_eq objs p p xs refl) at (j)))
    | inr ne' ↦ λ j. elim (eq_or_ne q' p) [
      | inl z ↦
          let j' : In x (objs q) = rw (update_ne objs p q xs ne') at (j) in
          rw (z, update_eq objs p p xs refl)
            (NotIn-of_In x xs
              (λ b ib e. ne_of_NotIn b x (objs q) (new.fresh q b (old q ne' i) ib) j' e))
      | inr ne'' ↦
          rw (update_ne objs p q' xs ne'') (
            w.apart q q' x (old q ne' i) (old q' ne'' i') ne
              (rw (update_ne objs p q xs ne') at (j)))
    ]
  ];
}

-- The parts of the cache with the new slab.
IsCache-add :
    (s : Slabs) (c p n : ℕ) (xs ps fs us ps' fs' us' : List Ptr) (objs : Objs) (l' : Links)
    (k' : ObjsCache)
    → IsCache s c ps fs us objs
    → IsNewSlab s ps fs us objs p xs
    → SortsTaken n ps fs us ps' fs' us' p xs
    → (s.cache c).objs_per_slab ≡ n
    → k'.objs_per_slab ≡ n
    → AreDlists l' k'.partial_slabs k'.free_slabs k'.full_slabs ps' fs' us'
    → IsCounted k' (update objs p xs) ps' fs' us'
    → IsCache (at s c l' k') c ps' fs' us' (update objs p xs)
IsCache-add s c p n xs ps fs us ps' fs' us' objs l' k' w new f e e' lists counted =
    let same : update s.cache c k' c ≡ k' = update_eq s.cache c c k' refl in
    record {
      ne_null = w.ne_null;
      lists = rw same lists;
      hold = HoldObjs-at s c l' k' ps' fs' us' (update objs p xs) (
          HoldObjs-add s ps fs us ps' fs' us' objs p xs w.hold new (λ q ne i. elim i [
            | inl j ↦ inl (f.partial_from q ne j)
            | inr j ↦ elim j [
              | inl j' ↦ inr (inl (f.free_from q ne j'))
              | inr j' ↦ inr (inr (f.full_from q ne j'))
            ]
          ]));
      sorted =
          rw (same, e') (AreSorted-take objs n ps fs us ps' fs' us' p xs f (rw e at (w.sorted)));
      counted = rw same counted;
    }

module _ (s : Slabs) (c p : Ptr) (xs ps fs us : List Ptr) (objs : Objs)
    (w : IsCache s c ps fs us objs) (new : IsNewSlab s ps fs us objs p xs)
    (small : suc (length ps + length fs + length us) * (s.cache c).objs_per_slab < 2 ^ 32) where
  abbrev k : ObjsCache
  k = s.cache c

  add-free :
      length xs ≡ k.objs_per_slab → Adds s c p 0 xs ps fs us objs (objs_cache_add_slab c p 0 s)
  add-free e =
      let g =
        AreDlists-Pushes s.slab_links k.free_slabs p k.partial_slabs k.full_slabs fs ps us
          (AreDlists-swap s.slab_links k.partial_slabs k.free_slabs k.full_slabs ps fs us w.lists)
          new.ne_null new.not_free new.not_partial new.not_full in
      let sorts : SortsTaken k.objs_per_slab ps fs us ps (p ∷ fs) us p xs = record {
        partial_from = λ q _ i. i;
        free_from = λ q ne i. elim i [ inl z ↦ absurd (ne z) | inr j ↦ j ];
        full_from = λ q _ i. i;
        partial_at = λ i. absurd (ne_of_NotIn p p ps new.not_partial i refl);
        free_at = λ _. e;
        full_at = λ i. absurd (ne_of_NotIn p p us new.not_full i refl);
      } in
      record {
        after = at s c g.l' (with_free k g.a');
        done =
            objs_cache_add_slab-free s c p w.ne_null new.ne_null g.a' g.l' (new.slab.count ∙ e)
              g.pushed;
        cache =
            IsCache-add s c p k.objs_per_slab xs ps fs us ps (p ∷ fs) us objs g.l'
              (with_free k g.a') w new sorts refl refl
              (AreDlists-swap g.l' g.a' k.partial_slabs k.full_slabs (p ∷ fs) ps us g.lists)
              (with_free-IsCounted k objs p g.a' xs ps fs us w.counted new.not_partial new.not_free
                small e);
        others = λ d ne. update_ne s.cache c d (with_free k g.a') ne;
      }

  add-partial :
      0 < length xs
      → length xs < k.objs_per_slab
      → Adds s c p 1 xs ps fs us objs (objs_cache_add_slab c p 1 s)
  add-partial pos h =
      let g =
        AreDlists-Pushes s.slab_links k.partial_slabs p k.free_slabs k.full_slabs ps fs us w.lists
          new.ne_null new.not_partial new.not_free new.not_full in
      let sorts : SortsTaken k.objs_per_slab ps fs us (p ∷ ps) fs us p xs = record {
        partial_from = λ q ne i. elim i [ inl z ↦ absurd (ne z) | inr j ↦ j ];
        free_from = λ q _ i. i;
        full_from = λ q _ i. i;
        partial_at = λ _. (pos, h);
        free_at = λ i. absurd (ne_of_NotIn p p fs new.not_free i refl);
        full_at = λ i. absurd (ne_of_NotIn p p us new.not_full i refl);
      } in
      let k' = with_partial k (length xs) g.a' in
      record {
        after = at s c g.l' k';
        done =
            objs_cache_add_slab-partial s c p w.ne_null new.ne_null g.a' g.l' (length xs)
              new.slab.count g.pushed;
        cache =
            IsCache-add s c p k.objs_per_slab xs ps fs us (p ∷ ps) fs us objs g.l' k' w new sorts
              refl refl g.lists
              (with_partial-IsCounted k objs p g.a' xs ps fs us w.counted new.not_partial
                new.not_free small h);
        others = λ d ne. update_ne s.cache c d k' ne;
      }

  add-full : length xs ≡ 0 → Adds s c p 2 xs ps fs us objs (objs_cache_add_slab c p 2 s)
  add-full e =
      let g =
        AreDlists-Pushes s.slab_links k.full_slabs p k.partial_slabs k.free_slabs us ps fs
          (AreDlists-rotate s.slab_links k.free_slabs k.full_slabs k.partial_slabs fs us ps (
            AreDlists-rotate s.slab_links k.partial_slabs k.free_slabs k.full_slabs ps fs us
              w.lists))
          new.ne_null new.not_full new.not_partial new.not_free in
      let sorts : SortsTaken k.objs_per_slab ps fs us ps fs (p ∷ us) p xs = record {
        partial_from = λ q _ i. i;
        free_from = λ q _ i. i;
        full_from = λ q ne i. elim i [ inl z ↦ absurd (ne z) | inr j ↦ j ];
        partial_at = λ i. absurd (ne_of_NotIn p p ps new.not_partial i refl);
        free_at = λ i. absurd (ne_of_NotIn p p fs new.not_free i refl);
        full_at = λ _. e;
      } in
      let k' = with_full k g.a' in
      record {
        after = at s c g.l' k';
        done = objs_cache_add_slab-full s c p w.ne_null new.ne_null g.a' g.l' g.pushed;
        cache =
            IsCache-add s c p k.objs_per_slab xs ps fs us ps fs (p ∷ us) objs g.l' k' w new sorts
              refl refl
              (AreDlists-rotate g.l' g.a' k.partial_slabs k.free_slabs (p ∷ us) ps fs g.lists)
              (with_full-IsCounted k objs p g.a' xs ps fs us w.counted new.not_partial new.not_free
                small);
        others = λ d ne. update_ne s.cache c d k' ne;
      }

-- For a well-formed cache and a slab that shares no object with it and is in none of its lists, with the status
-- that goes with the number of its free objects, and as long as the objects can be counted in 32
-- bits, objs_cache_add_slab ends without a fault or a panic, puts the slab in the list of its status,
-- keeps the invariant of the cache with the free objects of the slab added, and changes no other
-- cache.
pub objs_cache_add_slab-IsCache :
    (s : Slabs) (c p status : ℕ) (xs ps fs us : List Ptr) (objs : Objs)
    → IsCache s c ps fs us objs
    → IsNewSlab s ps fs us objs p xs
    → suc (length ps + length fs + length us) * (s.cache c).objs_per_slab < 2 ^ 32
    → HasStatus status (s.cache c).objs_per_slab (length xs)
    → Adds s c p status xs ps fs us objs (objs_cache_add_slab c p status s)
objs_cache_add_slab-IsCache s c p status xs ps fs us objs w new small st = elim st [
  | inl (z, e) ↦ rw z (add-free s c p xs ps fs us objs w new small e)
  | inr st' ↦ elim st' [
    | inl (z, pos, h) ↦ rw z (add-partial s c p xs ps fs us objs w new small pos h)
    | inr (z, e) ↦ rw z (add-full s c p xs ps fs us objs w new small e)
  ]
]
