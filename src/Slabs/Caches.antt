-- ===== src/Slabs/Caches.antt =====
-- The functions of src/kernel/mm/slab.c on one cache.
use atros.Base.{
  ℕ, ◌+◌, ◌-◌, ◌*◌, ◌/◌, ◌%◌, ◌^◌, not, ◌||◌, ◌==◌, ltb, leb, if◌then◌else◌, Cmd, pure, ◌>>=◌, ◌>>◌,
  kassert, die, ok, get, put,
}
use atros.LinkedLists.Links.{Ptr, null, set_prev, set_next, update}
use atros.LinkedLists.Circular.{clist_push_tail}
use atros.LinkedLists.Double.{dlist_is_empty, dlist_push_head, dlist_delete_head}
use atros.Libc.Strings.{strncpy}
use atros.Slabs.State.{
  Slab, ObjsCache, Slabs, on_slab_links, on_cache_links, read_slab, read_cache, edit_cache, inc,
  dec,
}
use atros.Slabs.Objects.{alloc_obj_from_slab, is_slab_full}

abbrev pub slab_status_free : ℕ
slab_status_free = 0

abbrev pub slab_status_partial : ℕ
slab_status_partial = 1

abbrev pub slab_status_full : ℕ
slab_status_full = 2

-- The three lists of slabs of a cache.
unfoldable pub push_free_slab : Ptr → Ptr → Cmd Slabs (Unit {0})
push_free_slab c p = do
  d ← read_cache c
  list ← on_slab_links (dlist_push_head d.free_slabs p)
  edit_cache c (λ d'. record d' { free_slabs = list })

unfoldable pub push_partial_slab : Ptr → Ptr → Cmd Slabs (Unit {0})
push_partial_slab c p = do
  d ← read_cache c
  list ← on_slab_links (dlist_push_head d.partial_slabs p)
  edit_cache c (λ d'. record d' { partial_slabs = list })

unfoldable pub push_full_slab : Ptr → Ptr → Cmd Slabs (Unit {0})
push_full_slab c p = do
  d ← read_cache c
  list ← on_slab_links (dlist_push_head d.full_slabs p)
  edit_cache c (λ d'. record d' { full_slabs = list })

unfoldable pub delete_free_slab : Ptr → Ptr → Cmd Slabs (Unit {0})
delete_free_slab c p = do
  d ← read_cache c
  list ← on_slab_links (dlist_delete_head d.free_slabs p)
  edit_cache c (λ d'. record d' { free_slabs = list })

unfoldable pub delete_partial_slab : Ptr → Ptr → Cmd Slabs (Unit {0})
delete_partial_slab c p = do
  d ← read_cache c
  list ← on_slab_links (dlist_delete_head d.partial_slabs p)
  edit_cache c (λ d'. record d' { partial_slabs = list })

-- The switch of objs_cache_add_slab.
unfoldable pub add_by_status : Ptr → Ptr → ℕ → Slab → Cmd Slabs (Unit {0})
add_by_status c p status d =
    if status == slab_status_free
    then (do
      edit_cache c
          (λ k. record k { free_objs_count = (k.free_objs_count + k.objs_per_slab) % 2 ^ 32 })
      edit_cache c (λ k. record k { free_slabs_count = inc k.free_slabs_count })
      push_free_slab c p)
    else if status == slab_status_partial
    then (do
      edit_cache c
          (λ k. record k { free_objs_count = (k.free_objs_count + d.free_objs_count) % 2 ^ 32 })
      edit_cache c (λ k. record k {
        used_objs_count =
            (k.used_objs_count + (k.objs_per_slab + 2 ^ 32 - d.free_objs_count)) % 2 ^ 32;
      })
      edit_cache c (λ k. record k { partial_slabs_count = inc k.partial_slabs_count })
      push_partial_slab c p)
    else if status == slab_status_full
    then (do
      edit_cache c
          (λ k. record k { used_objs_count = (k.used_objs_count + k.objs_per_slab) % 2 ^ 32 })
      edit_cache c (λ k. record k { full_slabs_count = inc k.full_slabs_count })
      push_full_slab c p)
    else die

unfoldable pub objs_cache_add_slab : Ptr → Ptr → ℕ → Cmd Slabs (Unit {0})
objs_cache_add_slab c p status = do
  kassert (not (c == null))
  kassert (not (p == null))
  k ← read_cache c
  d ← read_slab p
  kassert (not (status == slab_status_free) || (k.objs_per_slab == d.free_objs_count))
  add_by_status c p status d
  edit_cache c (λ k'. record k' { slabs_count = inc k'.slabs_count })

-- The counters after an object is taken.
unfoldable pub count_taken : Ptr → Cmd Slabs (Unit {0})
count_taken c = do
  edit_cache c (λ k. record k { free_objs_count = dec k.free_objs_count })
  edit_cache c (λ k. record k { used_objs_count = inc k.used_objs_count })

-- _retrieve_free_obj_from_objs_cache on the first slab that is in use.
unfoldable pub retrieve_partial : Ptr → Ptr → Cmd Slabs Ptr
retrieve_partial c p = do
  kassert (not (p == null))
  obj ← alloc_obj_from_slab p
  if obj == null then die else count_taken c
  full ← is_slab_full p
  if full
      then (do
        delete_partial_slab c p
        push_full_slab c p
        edit_cache c (λ k. record k { partial_slabs_count = dec k.partial_slabs_count })
        edit_cache c (λ k. record k { full_slabs_count = inc k.full_slabs_count }))
      else pure tt
  pure obj

-- The same on the first slab of which no object is in use.
unfoldable pub retrieve_free : Ptr → Ptr → Cmd Slabs Ptr
retrieve_free c p = do
  obj ← alloc_obj_from_slab p
  if obj == null then die else count_taken c
  full ← is_slab_full p
  if not full
      then (do
        delete_free_slab c p
        push_partial_slab c p
        edit_cache c (λ k. record k { free_slabs_count = dec k.free_slabs_count })
        edit_cache c (λ k. record k { partial_slabs_count = inc k.partial_slabs_count }))
      else (do
        delete_free_slab c p
        push_full_slab c p
        edit_cache c (λ k. record k { free_slabs_count = dec k.free_slabs_count })
        edit_cache c (λ k. record k { full_slabs_count = inc k.full_slabs_count }))
  pure obj

-- _retrieve_free_obj_from_objs_cache.
unfoldable pub retrieve_free_obj : Ptr → Cmd Slabs Ptr
retrieve_free_obj c = do
  kassert (not (c == null))
  k ← read_cache c
  if not (dlist_is_empty k.partial_slabs)
      then retrieve_partial c k.partial_slabs
      else if not (dlist_is_empty k.free_slabs)
      then retrieve_free c k.free_slabs
      else pure null

abbrev pub cache_name_max_length : ℕ
cache_name_max_length = 20

abbrev pub vpage_size : ℕ
vpage_size = 4096

-- sizeof(void *)
abbrev pub pointer_size : ℕ
pointer_size = 4

unfoldable pub actual_size : ℕ → ℕ
actual_size obj_size = if ltb pointer_size obj_size then obj_size else pointer_size

-- The name is copied to the first bytes of the cache; NULL is no name.
unfoldable pub set_name : Ptr → Ptr → Cmd Slabs (Unit {0})
set_name c name s =
    if not (name == null)
    then ok (
      tt,
      record s {
        bytes =
            update (strncpy c name cache_name_max_length s.bytes).1 (c + cache_name_max_length) 0;
      },
    )
    else ok (tt, record s { bytes = update s.bytes c 0 })

-- The products are those of 32-bit words; pages_per_slab * VPAGE_SIZE / actual_obj_size divides
-- the product.
unfoldable pub fresh_cache : ℕ → ℕ → ObjsCache → ObjsCache
fresh_cache obj_size pages_per_slab k = record {
  obj_size = obj_size;
  actual_obj_size = actual_size obj_size;
  pages_per_slab = pages_per_slab;
  slab_size = pages_per_slab * vpage_size % 2 ^ 32;
  objs_per_slab = pages_per_slab * vpage_size % 2 ^ 32 / actual_size obj_size;
  wasted_memory_per_slab =
      pages_per_slab * vpage_size % 2 ^ 32
      - pages_per_slab * vpage_size % 2 ^ 32 / actual_size obj_size * actual_size obj_size;
  free_objs_count = 0;
  used_objs_count = 0;
  slabs_count = 0;
  free_slabs_count = 0;
  partial_slabs_count = 0;
  full_slabs_count = 0;
  free_slabs = null;
  partial_slabs = null;
  full_slabs = null;
}

unfoldable pub objs_cache_init : Ptr → Ptr → ℕ → ℕ → Cmd Slabs Ptr
objs_cache_init c name obj_size pages_per_slab = do
  kassert (not (c == null))
  kassert (ltb 0 obj_size)
  kassert (ltb 0 pages_per_slab)
  kassert (leb obj_size (pages_per_slab * vpage_size % 2 ^ 32))
  set_name c name
  edit_cache c (fresh_cache obj_size pages_per_slab)
  on_cache_links (set_prev c null)
  on_cache_links (set_next c null)
  s ← get
  list ← on_cache_links (clist_push_tail s.caches_clist c)
  s' ← get
  put (record s' { caches_clist = list })
  pure c
