-- ===== src/Slabs/Tests.antt =====
-- Runs of the model of src/kernel/mm/slab.c.
use atros.Base.{ℕ, ◌*◌, ◌/◌, ◌-◌, ◌+◌, ◌≡◌, refl, sym, ◌∙◌, [], ◌∷◌, arith, inl, inr, ok}
use atros.LinkedLists.Links.{Ptr, null, update}
use atros.VirtualPages.Regions.{Vregion}
use atros.Slabs.State.{Slab, ObjsCache, Slabs, store_next}
use atros.Slabs.Objects.{initialize_slab}
use atros.Slabs.Caches.{retrieve_free_obj, objs_cache_add_slab}
use atros.Slabs.Adding.{Adds, objs_cache_add_slab-IsCache}
use atros.Slabs.Setup.{IsSlab, SetsUp, initialize_slab-SetsUp}
use atros.Slabs.Invariant.{Objs, IsListed, IsCache}
use atros.Slabs.Release.{Returns, alloc_obj_from_slab-Returns}
use atros.Slabs.Taken.{Retrieves}
use atros.Slabs.Taking.{retrieve_free_obj-IsCache, retrieve_free_obj-null}

abbrev no_slab : Slab
no_slab = record { free_objs_count = 0; vregion = 0; free_objs_list = 0 }

abbrev some_cache : ℕ → ℕ → ℕ → Ptr → ObjsCache
some_cache per_slab free slabs list = record {
  obj_size = 100;
  actual_obj_size = 100;
  pages_per_slab = 1;
  slab_size = 4096;
  objs_per_slab = per_slab;
  wasted_memory_per_slab = 0;
  free_objs_count = free;
  used_objs_count = 0;
  slabs_count = slabs;
  free_slabs_count = slabs;
  partial_slabs_count = 0;
  full_slabs_count = 0;
  free_slabs = list;
  partial_slabs = 0;
  full_slabs = 0;
}

-- A cache at 10 without slabs.
abbrev empty : Slabs
empty = record {
  objects = λ _. 0;
  slab = λ _. no_slab;
  slab_links = record { next = λ _. 0; prev = λ _. 0 };
  cache = λ _. some_cache 2 0 0 0;
  cache_links = record { next = λ _. 0; prev = λ _. 0 };
  caches_clist = 0;
  bytes = λ _. 0;
}

-- A cache at 10 with a slab at 20, of which the objects at 100 and 200 are free.
abbrev one_slab : Slabs
one_slab = record empty {
  objects = update (λ _. 0) 100 200;
  slab = λ _. record { free_objs_count = 2; vregion = 30; free_objs_list = 100 };
  cache = λ _. some_cache 2 2 1 20;
}

abbrev free_objs : Objs
free_objs = update (λ _. []) 20 (100 ∷ 200 ∷ [])

abbrev page : Vregion
page = record { first_vpn = 5; nbr_pages = 1 }

listed_at : (p : Ptr) → IsListed [] (20 ∷ []) [] p → p ≡ 20
listed_at p i = elim i [
  | inl j ↦ absurd j
  | inr j ↦ elim j [ inl j' ↦ elim j' [ inl e ↦ e | inr z ↦ absurd z ] | inr z ↦ absurd z ]
]

IsSlab-at : IsSlab one_slab 20 (100 ∷ 200 ∷ [])
unfolding update
IsSlab-at = record {
  chain = (refl, (λ e. omega arith), (refl, (λ e. omega arith), refl));
  distinct = (((λ e. omega arith), tt), (tt, tt));
  count = refl;
}

one_slab-IsCache : IsCache one_slab 10 [] (20 ∷ []) [] free_objs
unfolding update
one_slab-IsCache = record {
  ne_null = λ e. omega arith;
  lists = record {
    first = (refl, tt);
    second = ((refl, (λ e. omega arith), refl, refl), (tt, tt));
    third = (refl, tt);
    first_second = λ q i. absurd i;
    first_third = λ q i. absurd i;
    second_third = λ q i. tt;
  };
  hold = record {
    slabs = λ p i. rw (listed_at p i) IsSlab-at;
    apart = λ p q x i i' ne. absurd (ne (listed_at p i ∙ sym (listed_at q i')));
  };
  sorted = record {
    partial = λ p i. absurd i;
    free = λ p i. rw (listed_at p (inr (inl i))) refl;
    full = λ p i. absurd i;
  };
  counted = record {
    some_objs = omega arith;
    objects = refl;
    all_objects = refl;
    partial = refl;
    free = refl;
    full = refl;
    slabs = refl;
    small = omega arith;
  };
}

none_listed : (p : Ptr) → IsListed [] [] [] p → ⊥
none_listed p i = elim i [
  | inl z ↦ absurd z
  | inr j ↦ elim j [ inl z ↦ absurd z | inr z ↦ absurd z ]
]

empty-IsCache : IsCache empty 10 [] [] [] free_objs
empty-IsCache = record {
  ne_null = λ e. omega arith;
  lists = record {
    first = (refl, tt);
    second = (refl, tt);
    third = (refl, tt);
    first_second = λ q i. absurd i;
    first_third = λ q i. absurd i;
    second_third = λ q i. absurd i;
  };
  hold = record {
    slabs = λ p i. absurd (none_listed p i);
    apart = λ p q x i. absurd (none_listed p i);
  };
  sorted = record { partial = λ p i. absurd i; free = λ p i. absurd i; full = λ p i. absurd i };
  counted = record {
    some_objs = omega arith;
    objects = refl;
    all_objects = refl;
    partial = refl;
    free = refl;
    full = refl;
    slabs = refl;
    small = omega arith;
  };
}

initialize_slab-SetsUp_example :
    SetsUp empty 100 200
      (5 * 4096 + 0 * 1000)
      1000
      (1 * 4096 / 1000 - 0)
      (initialize_slab 100 200 page 1000 0 empty)
initialize_slab-SetsUp_example =
    initialize_slab-SetsUp empty 100 200 page 1000 0 (λ e. omega arith) (λ e. omega arith)
      (omega arith) (omega arith) (omega arith) (omega arith)

retrieve_free_obj-IsCache_example :
    Retrieves one_slab 10 [] (20 ∷ []) [] free_objs (retrieve_free_obj 10 one_slab)
retrieve_free_obj-IsCache_example =
    retrieve_free_obj-IsCache one_slab 10 [] (20 ∷ []) [] free_objs one_slab-IsCache (omega arith)

retrieve_free_obj-null_example : retrieve_free_obj 10 empty ≡ ok (null, empty)
retrieve_free_obj-null_example =
    retrieve_free_obj-null empty 10 [] [] [] free_objs empty-IsCache refl

-- Two objects of 2 bytes: the end of the list, stored in the second, overwrites the upper half of the
-- link to it.
small_objects : store_next 0x20ffe 0 (store_next 0x20ffc 0x20ffe (λ _. 0)) 0x20ffc ≡ 0xffe
unfolding store_next
small_objects = refl

-- A region of two pages with a free object in each.
abbrev two_pages : Vregion
two_pages = record { first_vpn = 5; nbr_pages = 2 }

abbrev in_two_pages : Slabs
in_two_pages = record empty {
  objects = update (λ _. 0) 28000 21000;
  slab = λ _. record { free_objs_count = 2; vregion = 30; free_objs_list = 28000 };
}

in_two_pages-IsSlab : IsSlab in_two_pages 20 (28000 ∷ 21000 ∷ [])
unfolding update
in_two_pages-IsSlab = record {
  chain = (refl, (λ e. omega arith), (refl, (λ e. omega arith), refl));
  distinct = (((λ e. omega arith), tt), (tt, tt));
  count = refl;
}

alloc_obj_from_slab-Returns_example : Returns (λ _. two_pages) in_two_pages 20 28000 (21000 ∷ [])
alloc_obj_from_slab-Returns_example =
    alloc_obj_from_slab-Returns (λ _. two_pages) in_two_pages 20 28000 (21000 ∷ [])
      (λ e. omega arith) (λ e. omega arith) (omega arith, omega arith) (omega arith, omega arith)
      in_two_pages-IsSlab (omega arith)

-- The cache at 10 is empty, and the slab at 20 is in none of its lists.
abbrev new_slab : Slabs
new_slab = record one_slab { cache = λ _. some_cache 2 0 0 0 }

no_objs : Objs
no_objs p = []

new_slab-IsCache : IsCache new_slab 10 [] [] [] no_objs
new_slab-IsCache = record {
  ne_null = λ e. omega arith;
  lists = record {
    first = (refl, tt);
    second = (refl, tt);
    third = (refl, tt);
    first_second = λ q i. absurd i;
    first_third = λ q i. absurd i;
    second_third = λ q i. absurd i;
  };
  hold = record {
    slabs = λ p i. absurd (none_listed p i);
    apart = λ p q x i. absurd (none_listed p i);
  };
  sorted = record { partial = λ p i. absurd i; free = λ p i. absurd i; full = λ p i. absurd i };
  counted = record {
    some_objs = omega arith;
    objects = refl;
    all_objects = refl;
    partial = refl;
    free = refl;
    full = refl;
    slabs = refl;
    small = omega arith;
  };
}

new_slab-IsSlab : IsSlab new_slab 20 (100 ∷ 200 ∷ [])
unfolding update
new_slab-IsSlab = record {
  chain = (refl, (λ e. omega arith), (refl, (λ e. omega arith), refl));
  distinct = (((λ e. omega arith), tt), (tt, tt));
  count = refl;
}

objs_cache_add_slab-IsCache_example :
    Adds new_slab 10 20 0 (100 ∷ 200 ∷ []) [] [] [] no_objs (objs_cache_add_slab 10 20 0 new_slab)
objs_cache_add_slab-IsCache_example =
    objs_cache_add_slab-IsCache new_slab 10 20 0 (100 ∷ 200 ∷ []) [] [] [] no_objs new_slab-IsCache
      (record {
        ne_null = λ e. omega arith;
        not_partial = tt;
        not_free = tt;
        not_full = tt;
        slab = new_slab-IsSlab;
        fresh = λ q x i j. absurd (none_listed q i);
      })
      (omega arith) (inl (refl, refl))
