-- ===== src/Slabs/State.antt =====
-- The state of src/kernel/mm/slab.c: the slabs and caches at their addresses.
use atros.Base.{
  ℕ, ◌+◌, ◌-◌, ◌*◌, ◌/◌, ◌%◌, ◌^◌, ◌&&◌, ◌==◌, ltb, if◌then◌else◌, Cmd, ok, fault, and_then,
}
use atros.LinkedLists.Links.{Ptr, Links, null, update}
use atros.LinkedLists.Simple.{Nexts}
use atros.Libc.Memory.{Bytes}

pub record Slab : Type 0 where
  pub free_objs_count : ℕ
  pub vregion : Ptr
  pub free_objs_list : Ptr

pub record ObjsCache : Type 0 where
  pub obj_size : ℕ
  pub actual_obj_size : ℕ
  pub pages_per_slab : ℕ
  pub slab_size : ℕ
  pub objs_per_slab : ℕ
  pub wasted_memory_per_slab : ℕ
  pub free_objs_count : ℕ
  pub used_objs_count : ℕ
  pub slabs_count : ℕ
  pub free_slabs_count : ℕ
  pub partial_slabs_count : ℕ
  pub full_slabs_count : ℕ
  pub free_slabs : Ptr
  pub partial_slabs : Ptr
  pub full_slabs : Ptr

-- `objects` gives for each address the word of 4 bytes that a free object there has as its link.
-- Beside it stand the slabs and caches with their links, the list of all caches, and
-- the bytes of the names, which stand first in a cache. An object is either free, and holds a
-- link, or in use: its link and its contents are apart in the model. Taking and returning one
-- object write its link alone, since no cache has objects of less than 4 bytes (actual_obj_size).
pub record Slabs : Type 0 where
  pub objects : Nexts
  pub slab : Ptr → Slab
  pub slab_links : Links
  pub cache : Ptr → ObjsCache
  pub cache_links : Links
  pub caches_clist : Ptr
  pub bytes : Bytes

unfoldable pub on_objects : {A : Type 0} → Cmd Nexts A → Cmd Slabs A
on_objects c s = and_then (c s.objects) (λ (a, l). ok (a, record s { objects = l }))

unfoldable pub on_slab_links : {A : Type 0} → Cmd Links A → Cmd Slabs A
on_slab_links c s = and_then (c s.slab_links) (λ (a, l). ok (a, record s { slab_links = l }))

unfoldable pub on_cache_links : {A : Type 0} → Cmd Links A → Cmd Slabs A
on_cache_links c s = and_then (c s.cache_links) (λ (a, l). ok (a, record s { cache_links = l }))

-- The words after a store of the 4 bytes of `v` at `p`, the least byte first. A word that begins up to
-- 3 bytes behind `p` gets the upper bytes of `v` as its lower ones, and one that begins up to 3 bytes
-- before `p` gets the lower bytes of `v` as its upper ones.
unfoldable pub store_next : Ptr → Ptr → Nexts → Nexts
store_next p v l q =
    if q == p
    then v
    else if ltb p q && ltb q (p + 4)
    then v / 256 ^ (q - p) + l q / 256 ^ (4 - (q - p)) * 256 ^ (4 - (q - p))
    else if ltb q p && ltb p (q + 4)
    then l q % 256 ^ (p - q) + v % 256 ^ (4 - (p - q)) * 256 ^ (p - q)
    else l q

-- obj->next = v, in raw memory.
unfoldable pub link_obj : Ptr → Ptr → Cmd Nexts (Unit {0})
link_obj p v l = if p == null then fault else ok (tt, store_next p v l)

unfoldable pub read_slab : Ptr → Cmd Slabs Slab
read_slab p s = if p == 0 then fault else ok (s.slab p, s)

unfoldable pub edit_slab : Ptr → (Slab → Slab) → Cmd Slabs (Unit {0})
edit_slab p f s =
    if p == 0 then fault else ok (tt, record s { slab = update s.slab p (f (s.slab p)) })

unfoldable pub read_cache : Ptr → Cmd Slabs ObjsCache
read_cache p s = if p == 0 then fault else ok (s.cache p, s)

unfoldable pub edit_cache : Ptr → (ObjsCache → ObjsCache) → Cmd Slabs (Unit {0})
edit_cache p f s =
    if p == 0 then fault else ok (tt, record s { cache = update s.cache p (f (s.cache p)) })

-- n++ and n-- on 32-bit words.
abbrev pub inc : ℕ → ℕ
inc n = (n + 1) % 2 ^ 32

abbrev pub dec : ℕ → ℕ
dec n = (n + (2 ^ 32 - 1)) % 2 ^ 32
