-- ===== src/LinkedLists/Double.antt =====
-- The doubly linked lists of src/include/kernel/list.h that end in NULL (dlist_*). A macro that
-- assigns to its list argument returns the new value of that argument.
pub mod Chain
pub mod Move
use atros.Base.{Bool, ◌==◌, not, if◌then◌else◌, Cmd, pure, ◌>>=◌, ◌>>◌}
use atros.LinkedLists.Links.{Ptr, null, Links, get_next, set_next, set_prev}

unfoldable pub dlist_is_empty : Ptr → Bool
dlist_is_empty list = list == null

unfoldable pub dlist_push_head : Ptr → Ptr → Cmd Links Ptr
unfolding dlist_is_empty
dlist_push_head list el = do
  if not (dlist_is_empty list) then set_prev list el else pure tt
  set_prev el null
  set_next el list
  pure el

unfoldable pub dlist_delete_head : Ptr → Ptr → Cmd Links Ptr
dlist_delete_head list head = do
  n ← get_next list
  if n == null then pure null else (do
    rest ← get_next head
    set_prev rest null
    set_prev head null
    set_next head null
    pure rest)
