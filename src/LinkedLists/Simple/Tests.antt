-- ===== src/LinkedLists/Simple/Tests.antt =====
-- The theorems about the simple lists of src/include/kernel/list.h at concrete chains.
use atros.Base.{◌≡◌, refl, [], ◌∷◌, ok, panic, arith, if◌then◌else◌, ◌==◌, ltb}
use atros.LinkedLists.Simple.{
  Nexts, Compare, plus, minus, list_delete_el, list_insert_after, list_insert_ordered,
}
use atros.LinkedLists.Simple.Chain.{IsChain}
use atros.LinkedLists.Simple.Relink.{Makes, list_delete_el-removes, list_insert_after-inserts}
use atros.LinkedLists.Simple.Ordered.{list_insert_ordered-inserts, list_insert_ordered-end}

-- 10, 20, 30.
abbrev chain_of_three : Nexts
chain_of_three p = if p == 10 then 20 else if p == 20 then 30 else 0

chain_of_three-IsChain : IsChain chain_of_three 10 (10 ∷ 20 ∷ 30 ∷ [])
chain_of_three-IsChain = ground arith

-- Elements by their addresses, NULL not allowed.
abbrev by_address : Compare
by_address p q = if q == 0 then panic else if ltb q p then ok plus else ok minus

list_delete_el-removes_example :
    Makes chain_of_three (10 ∷ 20 ∷ 30 ∷ []) (10 ∷ 30 ∷ []) (list_delete_el 10 10 20 chain_of_three)
list_delete_el-removes_example =
    list_delete_el-removes chain_of_three 10 (10 ∷ []) 20 (30 ∷ []) chain_of_three-IsChain
      (ground arith)

list_insert_after-inserts_example :
    Makes chain_of_three
      (25 ∷ 10 ∷ 20 ∷ 30 ∷ [])
      (10 ∷ 20 ∷ 25 ∷ 30 ∷ [])
      (list_insert_after 10 20 25 chain_of_three)
list_insert_after-inserts_example =
    list_insert_after-inserts chain_of_three 10 (10 ∷ 20 ∷ []) 25 (30 ∷ []) chain_of_three-IsChain
      (ground arith) (ground arith) (omega arith)

list_insert_ordered-inserts_example :
    Makes chain_of_three
      (25 ∷ 10 ∷ 20 ∷ 30 ∷ [])
      (10 ∷ 20 ∷ 25 ∷ 30 ∷ [])
      (list_insert_ordered 3 by_address 10 25 chain_of_three)
list_insert_ordered-inserts_example =
    list_insert_ordered-inserts 3 by_address chain_of_three 10 (10 ∷ 20 ∷ []) 25 (30 ∷ [])
      chain_of_three-IsChain (ground arith) (ground arith) (omega arith) (refl, (refl, tt))
      (minus, refl, refl) (omega arith)

list_insert_ordered-end_example : list_insert_ordered 4 by_address 10 35 chain_of_three ≡ panic
list_insert_ordered-end_example =
    list_insert_ordered-end 4 by_address chain_of_three 10 35 10 (20 ∷ 30 ∷ [])
      chain_of_three-IsChain (refl, (refl, (refl, tt))) refl (omega arith)
