-- ===== src/LinkedLists/Circular.antt =====
-- The circular doubly linked lists of src/include/kernel/list.h (clist_*). A macro that assigns to
-- its list argument returns the new value of that argument.
pub mod Walk
pub mod Push
pub mod Cut
pub mod Delete
pub mod Frame
pub mod Rings
mod Tests
use atros.Base.{
  ℕ, Bool, true, false, ◌&&◌, ◌==◌, if◌then◌else◌, Outcome, ok, fault, Cmd, pure, ◌>>=◌, ◌>>◌,
}
use atros.LinkedLists.Links.{Ptr, null, Links, get_next, get_prev, set_next, set_prev}

unfoldable pub clist_is_empty : Ptr → Bool
clist_is_empty list = list == null

unfoldable pub clist_is_singleton : Ptr → Cmd Links Bool
clist_is_singleton list = do
  p ← get_prev list
  if p == list then (do n ← get_next list; pure (n == list)) else pure false

-- The writes that clist_push_head and clist_push_tail share on a non-empty list.
insert_before : Ptr → Ptr → Cmd Links (Unit {0})
insert_before list el = do
  set_next el list
  p ← get_prev list
  set_prev el p
  last ← get_prev list
  set_next last el
  set_prev list el

-- An empty list becomes the ring of the one element.
close_ring : Ptr → Cmd Links (Unit {0})
close_ring el = do set_next el el; set_prev el el

unfoldable pub clist_push_head : Ptr → Ptr → Cmd Links Ptr
unfolding clist_is_empty insert_before close_ring
clist_push_head list el = do
  if clist_is_empty list then close_ring el else insert_before list el
  pure el

unfoldable pub clist_push_tail : Ptr → Ptr → Cmd Links Ptr
unfolding clist_is_empty insert_before close_ring
clist_push_tail list el =
    if clist_is_empty list
    then (do close_ring el; pure el)
    else (do insert_before list el; pure list)

unfoldable pub unlink : Ptr → Ptr → Cmd Links Ptr
unlink list el = do
  p ← get_prev el
  n ← get_next el
  set_next p n
  n' ← get_next el
  p' ← get_prev el
  set_prev n' p'
  if list == el then get_next list else pure list

unfoldable pub clear_element : Ptr → Cmd Links Ptr
clear_element el = do set_prev el null; set_next el null; pure null

unfoldable pub clist_delete_el : Ptr → Ptr → Cmd Links Ptr
clist_delete_el list el = do
  single ← clist_is_singleton list
  if single then clear_element el else unlink list el

-- The popped element, and the new value of the list.
unfoldable pub clist_pop_head : Ptr → Cmd Links (Ptr × Ptr)
clist_pop_head list = do rest ← clist_delete_el list list; pure (list, rest)
