-- ===== src/Slabs/Objects.antt =====
-- The functions of src/kernel/mm/slab.c on one slab.
use atros.Base.{
  ℕ, zero, suc, ◌+◌, ◌-◌, ◌*◌, ◌/◌, ◌%◌, ◌^◌, Bool, true, false, not, ◌&&◌, ◌==◌, ltb, leb,
  if◌then◌else◌, Cmd, pure, ◌>>=◌, ◌>>◌, kassert, fault,
}
use atros.LinkedLists.Links.{Ptr, null, set_prev, set_next}
use atros.LinkedLists.Simple.{Nexts, list_push_head, list_pop_head, list_length}
use atros.VirtualPages.Regions.{
  Vregion, vregion_size, vregion_first_vpn, vregion_last_vpn, vpn_to_vaddr, vaddr_to_vpn,
}
use atros.Slabs.State.{
  Slab, Slabs, on_objects, on_slab_links, read_slab, edit_slab, link_obj, inc, dec,
}

unfoldable pub slab_free_objs_count : Ptr → Cmd Slabs ℕ
slab_free_objs_count p = do kassert (not (p == null)); d ← read_slab p; pure d.free_objs_count

unfoldable pub is_slab_full : Ptr → Cmd Slabs Bool
is_slab_full p = do kassert (not (p == null)); n ← slab_free_objs_count p; pure (n == 0)

unfoldable pub is_slab_empty : Ptr → ℕ → Cmd Slabs Bool
is_slab_empty p max_objs = do
  kassert (not (p == null))
  n ← slab_free_objs_count p
  pure (n == max_objs)

-- The test of is_vaddr_in_slab: the page of the address is in the region.
unfoldable pub is_vpn_in_vregion : Vregion → ℕ → Bool
is_vpn_in_vregion v vpn = leb (vregion_first_vpn v) vpn && leb vpn (vregion_last_vpn v)

-- The regions belong to the virtual pages allocator and are only read here.
unfoldable pub is_vaddr_in_slab : (Ptr → Vregion) → Ptr → ℕ → Cmd Slabs Bool
is_vaddr_in_slab region p vaddr = do
  kassert (not (p == null))
  d ← read_slab p
  kassert (not (d.vregion == null))
  pure (is_vpn_in_vregion (region d.vregion) (vaddr_to_vpn vaddr))

-- The loop of initialize_slab over the objects behind the first; the result is the last one.
unfoldable pub link_objs : ℕ → Ptr → ℕ → Cmd Nexts Ptr
link_objs zero current size = pure current
link_objs (suc left) current size = do
  link_obj current ((current + size) % 2 ^ 32)
  link_objs left ((current + size) % 2 ^ 32) size

-- The part of initialize_slab that builds the list of free objects.
unfoldable pub build_free_list : Ptr → Vregion → ℕ → ℕ → Cmd Slabs Ptr
build_free_list p v actual_obj_size used = do
  let first = (vpn_to_vaddr (vregion_first_vpn v) + used * actual_obj_size) % 2 ^ 32
  edit_slab p (λ d. record d { free_objs_list = first })
  d ← read_slab p
  last ← on_objects (link_objs (d.free_objs_count - 1) first actual_obj_size)
  on_objects (link_obj last null)
  n ← on_objects (list_length (d.free_objs_count + 2) first)
  kassert (d.free_objs_count == n)
  pure p

-- `v` is the region that `vregion` points to.
unfoldable pub initialize_slab : Ptr → Ptr → Vregion → ℕ → ℕ → Cmd Slabs Ptr
initialize_slab p vregion v actual_obj_size used = do
  kassert (not (p == null))
  kassert (not (vregion == null))
  kassert (not (vpn_to_vaddr (vregion_first_vpn v) == null))
  if actual_obj_size == 0 then (λ s. fault) else pure tt
  edit_slab p (λ d. record d {
    free_objs_count = (vregion_size v / actual_obj_size + 2 ^ 32 - used) % 2 ^ 32;
  })
  edit_slab p (λ d. record d { vregion = vregion })
  edit_slab p (λ d. record d { free_objs_list = null })
  on_slab_links (set_prev p null)
  on_slab_links (set_next p null)
  if leb actual_obj_size (vregion_size v)
      then build_free_list p v actual_obj_size used
      else pure null

-- The case of alloc_obj_from_slab in which the slab has a free object.
unfoldable pub pop_obj : Ptr → Slab → Cmd Slabs Ptr
pop_obj p d = do
  (obj, rest) ← on_objects (list_pop_head d.free_objs_list)
  edit_slab p (λ d'. record d' { free_objs_list = rest })
  kassert (not (obj == null))
  edit_slab p (λ d'. record d' { free_objs_count = dec d'.free_objs_count })
  pure obj

unfoldable pub alloc_obj_from_slab : Ptr → Cmd Slabs Ptr
alloc_obj_from_slab p = do
  kassert (not (p == null))
  d ← read_slab p
  if ltb 0 d.free_objs_count then pop_obj p d else pure null

unfoldable pub free_obj_from_slab : (Ptr → Vregion) → Ptr → Ptr → Cmd Slabs Bool
free_obj_from_slab region p obj = do
  kassert (not (p == null))
  kassert (not (obj == null))
  mine ← is_vaddr_in_slab region p obj
  if mine
      then (do
        edit_slab p (λ d. record d { free_objs_count = inc d.free_objs_count })
        d ← read_slab p
        list ← on_objects (list_push_head d.free_objs_list obj)
        edit_slab p (λ d'. record d' { free_objs_list = list })
        pure true)
      else pure false
