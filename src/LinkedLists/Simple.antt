-- ===== src/LinkedLists/Simple.antt =====
-- The simple lists of src/include/kernel/list.h (list_*). A macro that assigns to its list argument
-- returns the new value of that argument.
pub mod Chain
pub mod Relink
pub mod Ordered
mod Tests
use atros.Base.{
  ℕ, zero, suc, ◌+◌, ◌%◌, ◌^◌, Bool, true, false, not, ◌&&◌, ◌||◌, ◌==◌, if◌then◌else◌, Outcome, ok,
  fault, out_of_fuel, Cmd, pure, ◌>>=◌, ◌>>◌, kassert, and_then,
}
use atros.LinkedLists.Links.{Ptr, null, update}

-- The field `next` of every element.
abbrev pub Nexts : Type 0
Nexts = Ptr → Ptr

unfoldable pub follow : Ptr → Cmd Nexts Ptr
follow p l = if p == null then fault else ok (l p, l)

unfoldable pub link : Ptr → Ptr → Cmd Nexts (Unit {0})
link p v l = if p == null then fault else ok (tt, update l p v)

unfoldable pub list_push_head : Ptr → Ptr → Cmd Nexts Ptr
list_push_head list el = do link el list; pure el

unfoldable pub list_delete_el : Ptr → Ptr → Ptr → Cmd Nexts Ptr
list_delete_el list prev_el el = do
  kassert (not ((prev_el == null) && not (list == el)))
  if (list == el) || (prev_el == null)
      then (do n ← follow el; link el null; pure n)
      else (do n ← follow el; link prev_el n; link el null; pure list)

unfoldable pub list_insert_after : Ptr → Ptr → Ptr → Cmd Nexts Ptr
list_insert_after list prev_el el =
    if not (prev_el == null)
    then (do n ← follow prev_el; link el n; link prev_el el; pure list)
    else list_push_head list el

unfoldable pub list_delete_head : Ptr → Ptr → Cmd Nexts Ptr
list_delete_head list head = do
  n ← follow list
  if n == null then pure null else (do n' ← follow head; link head null; pure n')

-- The popped element, and the new value of the list.
unfoldable pub list_pop_head : Ptr → Cmd Nexts (Ptr × Ptr)
list_pop_head list = do rest ← list_delete_head list list; pure (list, rest)

-- The loop of list_length, on fuel.
unfoldable pub length_loop : ℕ → ℕ → Ptr → Cmd Nexts ℕ
length_loop zero n current = λ l. out_of_fuel
length_loop (suc fuel) n current =
    if current == null
    then pure n
    else (do next ← follow current; length_loop fuel ((n + 1) % 2 ^ 32) next)

unfoldable pub list_length : ℕ → Ptr → Cmd Nexts ℕ
list_length fuel list = length_loop fuel 0 list

-- What a comparison function returns: a number below 0, 0, or one above.
pub data Sign : Type 0 where
  minus : Sign
  equal : Sign
  plus : Sign

abbrev pub is_plus : Sign → Bool
is_plus plus = true
is_plus minus = false
is_plus equal = false

abbrev pub Compare : Type 0
Compare = Ptr → Ptr → Outcome Sign

-- A comparison only reads.
unfoldable pub compare_els : Compare → Ptr → Ptr → Cmd Nexts Sign
compare_els cmp p q l = and_then (cmp p q) (λ c. ok (c, l))

-- The loop of list_insert_ordered, on fuel. The result is the element to insert behind.
unfoldable pub ordered_prev : ℕ → Compare → Ptr → Ptr → Ptr → Cmd Nexts Ptr
ordered_prev zero cmp el prev current = λ l. out_of_fuel
ordered_prev (suc fuel) cmp el prev current = do
  c ← compare_els cmp el current
  if is_plus c then (do n ← follow current; ordered_prev fuel cmp el current n) else pure prev

unfoldable pub list_insert_ordered : ℕ → Compare → Ptr → Ptr → Cmd Nexts Ptr
list_insert_ordered fuel cmp list el = if list == null then list_push_head list el else (do
  c ← compare_els cmp el list
  if not (is_plus c)
      then list_push_head list el
      else (do prev ← ordered_prev fuel cmp el null list; list_insert_after list prev el))
