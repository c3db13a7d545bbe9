-- ===== src/Slabs/Fresh.antt =====
-- objs_cache_init of src/kernel/mm/slab.c: a cache without slabs, at the end of the list of all
-- caches.
use atros.Base.{
  ℕ, ◌+◌, ◌*◌, ◌/◌, ◌%◌, ◌^◌, ◌<◌, ◌≤◌, ◌≡◌, ◌≢◌, refl, List, [], ◌∷◌, ◌++◌, NotIn, In, arith, ok,
  Outcome, inl, inr, ◌⊎◌, Bool-cases, eq_or_ne, ltb, ltb→lt, ltb→ge, lt→ltb, le→leb, ne→==,
  ne_of_In, ◌==◌, not,
}
use native.Mathlib.Nat.{div-add-mod, mod-lt}
use atros.LinkedLists.Links.{
  Links, Ptr, null, update, update_eq, update_ne, with_next, with_prev, set_next-ok, set_prev-ok,
}
use atros.LinkedLists.Circular.{clist_push_tail}
use atros.LinkedLists.Circular.Walk.{IsClist}
use atros.LinkedLists.Circular.Frame.{IsClist-frame}
use atros.LinkedLists.Circular.Rings.{clist_push_tail-append}
use atros.Libc.Memory.{Bytes}
use atros.Libc.Strings.{strncpy}
use atros.Slabs.State.{ObjsCache, Slabs, on_cache_links}
use atros.Slabs.Caches.{set_name, actual_size, fresh_cache, objs_cache_init, cache_name_max_length}
use atros.Slabs.Steps.{edit_cache-ok}
use atros.Slabs.Invariant.{Objs, IsListed, IsCounted, IsCache}

-- Objects of a size in slabs of some pages: as many as fit, each large enough for a link.
pub record FitsObjs (obj_size pages : ℕ) (k : ObjsCache) : Type 0 where
  pub large : obj_size ≤ k.actual_obj_size
  pub holds_link : 4 ≤ k.actual_obj_size
  pub tight : (k.actual_obj_size ≡ obj_size) ⊎ (k.actual_obj_size ≡ 4)
  pub all_bytes : k.objs_per_slab * k.actual_obj_size + k.wasted_memory_per_slab ≡ pages * 4096
  pub no_more : k.wasted_memory_per_slab < k.actual_obj_size
  pub some_objs : 0 < k.objs_per_slab

-- The cache is empty, stands behind the other caches, and nothing else of them or of the slabs
-- changes.
pub record Inits (s : Slabs) (c obj_size pages : ℕ) (cs : List Ptr) (objs : Objs)
    (r : Outcome (Ptr × Slabs)) : Type 0 where
  pub after : Slabs
  pub done : r ≡ ok (c, after)
  pub cache : IsCache after c [] [] [] objs
  pub fits : FitsObjs obj_size pages (after.cache c)
  pub listed : IsClist after.cache_links after.caches_clist (cs ++ c ∷ [])
  pub others : (d : Ptr) → d ≢ c → after.cache d ≡ s.cache d
  pub slabs :
      (after.slab ≡ s.slab) × (after.slab_links ≡ s.slab_links) × (after.objects ≡ s.objects)

set_name-ok :
    (c name : Ptr) (s : Slabs) → (b : Bytes) × (set_name c name s ≡ ok (tt, record s { bytes = b }))
unfolding set_name
set_name-ok c name s = elim (Bool-cases (not (name == null))) [
  | inl e ↦ (
    update (strncpy c name cache_name_max_length s.bytes).1 (c + cache_name_max_length) 0,
    rw e refl,
  )
  | inr e ↦ (update s.bytes c 0, rw e refl)
]

-- The links of the cache before it is enlisted.
abbrev unlinked : Links → Ptr → Links
unlinked l c = with_next (with_prev l c null) c null

objs_cache_init-ok :
    (s : Slabs) (c name obj_size pages : ℕ) (b : Bytes) (list' : Ptr) (l' : Links)
    → c ≢ null
    → 0 < obj_size
    → 0 < pages
    → obj_size ≤ pages * 4096 % 2 ^ 32
    → set_name c name s ≡ ok (tt, record s { bytes = b })
    → clist_push_tail s.caches_clist c (unlinked s.cache_links c) ≡ ok (list', l')
    → objs_cache_init c name obj_size pages s
      ≡ ok (
        c,
        record s {
          bytes = b;
          cache = update s.cache c (fresh_cache obj_size pages (s.cache c));
          cache_links = l';
          caches_clist = list';
        },
      )
unfolding objs_cache_init on_cache_links
objs_cache_init-ok s c name obj_size pages b list' l' ne pos pos' fits en el =
    rw
      (
        ne→== c null ne,
        lt→ltb 0 obj_size pos,
        lt→ltb 0 pages pos',
        le→leb obj_size (pages * 4096 % 2 ^ 32) fits,
        en,
        edit_cache-ok (record s { bytes = b }) c ne (fresh_cache obj_size pages),
        set_prev-ok c ne s.cache_links null,
        set_next-ok c ne (with_prev s.cache_links c null) null,
        el,
      )
      refl

actual_size-bounds :
    (n : ℕ)
    → (n ≤ actual_size n) × (4 ≤ actual_size n) × ((actual_size n ≡ n) ⊎ (actual_size n ≡ 4))
unfolding actual_size
actual_size-bounds n = elim (Bool-cases (ltb 4 n)) [
  | inl e ↦ rw e (omega arith, omega (arith, ltb→lt 4 n e), inl refl)
  | inr e ↦ rw e (omega (arith, ltb→ge 4 n e), omega arith, inr refl)
]

holds_one : (n a : ℕ) → 0 < a → a ≤ n → 0 < n / a
holds_one n a pos h =
    let whole = div-add-mod n a in
    elim (eq_or_ne (n / a) 0) [
      | inl e ↦
          let short : a * 0 + n % a ≡ n = rw e at (whole) in
          absurd (omega (arith, short, mod-lt n pos))
      | inr ne ↦ omega arith
    ]

fresh_cache-FitsObjs :
    (obj_size pages : ℕ) (k : ObjsCache)
    → 0 < pages
    → pages < 2 ^ 20
    → obj_size ≤ pages * 4096
    → FitsObjs obj_size pages (fresh_cache obj_size pages k)
unfolding fresh_cache
fresh_cache-FitsObjs obj_size pages k pos small fits =
    let a = actual_size obj_size in
    let (large, four, tight) = actual_size-bounds obj_size in
    let bytes : pages * 4096 % 2 ^ 32 ≡ pages * 4096 = omega arith in
    let whole = div-add-mod (pages * 4096) a in
    let rest : pages * 4096 % a < a = mod-lt (pages * 4096) (omega (arith, four)) in
    let below : a ≤ pages * 4096 = ground (arith, tight) in
    record {
      large = large;
      holds_link = four;
      tight = tight;
      all_bytes = rw bytes (omega (arith, whole));
      no_more = rw bytes (omega (arith, whole, rest));
      some_objs = rw bytes (holds_one (pages * 4096) a (omega (arith, four)) below);
    }

fresh_cache-empty :
    (obj_size pages : ℕ) (k : ObjsCache)
    → ((fresh_cache obj_size pages k).partial_slabs ≡ null)
      × ((fresh_cache obj_size pages k).free_slabs ≡ null)
      × ((fresh_cache obj_size pages k).full_slabs ≡ null)
unfolding fresh_cache
fresh_cache-empty obj_size pages k = (refl, refl, refl)

fresh_cache-IsCounted :
    (obj_size pages : ℕ) (k : ObjsCache) (objs : Objs)
    → 0 < (fresh_cache obj_size pages k).objs_per_slab
    → IsCounted (fresh_cache obj_size pages k) objs [] [] []
unfolding fresh_cache
fresh_cache-IsCounted obj_size pages k objs some = record {
  some_objs = some;
  objects = refl;
  all_objects = omega arith;
  partial = refl;
  free = refl;
  full = refl;
  slabs = refl;
  small = omega arith;
}

not_listed : (p : Ptr) → IsListed [] [] [] p → ⊥
not_listed p i = elim i [
  | inl z ↦ absurd z
  | inr j ↦ elim j [ inl z ↦ absurd z | inr z ↦ absurd z ]
]

-- A cache whose lists are empty.
IsCache-none :
    (s : Slabs) (c : Ptr) (objs : Objs)
    → c ≢ null
    → (s.cache c).partial_slabs ≡ null
    → (s.cache c).free_slabs ≡ null
    → (s.cache c).full_slabs ≡ null
    → IsCounted (s.cache c) objs [] [] []
    → IsCache s c [] [] [] objs
IsCache-none s c objs ne e e' e'' counted = record {
  ne_null = ne;
  lists = record {
    first = (e, tt);
    second = (e', tt);
    third = (e'', tt);
    first_second = λ q i. absurd i;
    first_third = λ q i. absurd i;
    second_third = λ q i. tt;
  };
  hold = record {
    slabs = λ p i. absurd (not_listed p i);
    apart = λ p q x i. absurd (not_listed p i);
  };
  sorted = record { partial = λ p i. absurd i; free = λ p i. absurd i; full = λ p i. absurd i };
  counted = counted;
}

-- For a cache that is not in the list of caches, and an object size above 0 that its slabs, of at
-- least one page and less than 4 GB, can hold, objs_cache_init ends without a fault or a panic. The
-- cache is empty and well formed, its slabs have room for as many objects as fit, each of at least
-- the size asked for and of a link, it stands at the end of the list of caches, and the other caches
-- and all slabs stay as they were.
pub objs_cache_init-Inits :
    (s : Slabs) (c name obj_size pages : ℕ) (cs : List Ptr) (objs : Objs)
    → c ≢ null
    → NotIn c cs
    → IsClist s.cache_links s.caches_clist cs
    → 0 < obj_size
    → 0 < pages
    → pages < 2 ^ 20
    → obj_size ≤ pages * 4096
    → Inits s c obj_size pages cs objs (objs_cache_init c name obj_size pages s)
objs_cache_init-Inits s c name obj_size pages cs objs ne n ring pos pos' small fits =
    let (b, en) = set_name-ok c name s in
    let l = unlinked s.cache_links c in
    let same : (p : Ptr)
        → In p cs
        → (l.next p ≡ s.cache_links.next p) × (l.prev p ≡ s.cache_links.prev p) =
      λ p i. (
        update_ne s.cache_links.next c p null (ne_of_In p c cs i n),
        update_ne s.cache_links.prev c p null (ne_of_In p c cs i n),
      ) in
    let (list', l', done, ring', _) =
      clist_push_tail-append l s.caches_clist cs c
        (IsClist-frame s.cache_links l s.caches_clist cs ring same) ne n in
    let k' = fresh_cache obj_size pages (s.cache c) in
    let at_c : update s.cache c k' c ≡ k' = update_eq s.cache c c k' refl in
    let room = fresh_cache-FitsObjs obj_size pages (s.cache c) pos' small fits in
    record {
      after = record s {
        bytes = b;
        cache = update s.cache c k';
        cache_links = l';
        caches_clist = list';
      };
      done =
          objs_cache_init-ok s c name obj_size pages b list' l' ne pos pos' (omega arith) en done;
      cache =
          IsCache-none
            (record s {
              bytes = b;
              cache = update s.cache c k';
              cache_links = l';
              caches_clist = list';
            })
            c objs ne (rw at_c (fresh_cache-empty obj_size pages (s.cache c)).0)
            (rw at_c (fresh_cache-empty obj_size pages (s.cache c)).1)
            (rw at_c (fresh_cache-empty obj_size pages (s.cache c)).2)
            (rw at_c (fresh_cache-IsCounted obj_size pages (s.cache c) objs room.some_objs));
      fits = rw at_c room;
      listed = ring';
      others = λ d ne'. update_ne s.cache c d k' ne';
      slabs = (refl, refl, refl);
    }
