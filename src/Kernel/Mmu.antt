-- ===== src/Kernel/Mmu.antt =====
-- The contexts of the memory management unit, src/arch/x86/mmu.c. The bodies of its functions are
-- commented out in the source but for the parts below; mmu_context_destroy has none.
use atros.Base.{
  ℕ, ◌≡◌, refl, Bool, false, ◌==◌, if◌then◌else◌, ok, panic, Cmd, pure, ◌>>=◌, die, and_then,
  Bool-cases, inl, inr,
}
use atros.LinkedLists.Links.{Ptr, null}
use atros.Kernel.State.{Kernel}
use atros.Kernel.Creation.{objs_cache_create}

-- page_dir_ppage and page_dir_paddr of a context.
pub record MmuContext : Type 0 where
  pub page_dir_ppage : Ptr
  pub page_dir_paddr : ℕ

abbrev sizeof_mmu_context : ℕ
sizeof_mmu_context = 8

-- The kernel with the contexts at their addresses, the cache of contexts and the current context.
pub record Mmu : Type 0 where
  pub kernel : Kernel
  pub mmu_context : Ptr → MmuContext
  pub mmu_context_cache : Ptr
  pub current_mmu_context : Ptr
  pub cr3 : ℕ

unfoldable pub preserve_kernel_space : Ptr → Cmd Mmu Bool
preserve_kernel_space a_mmu_context = pure false

-- `name` is the address of the name of the cache, a constant of the program.
unfoldable pub mmu_init : ℕ → Ptr → Cmd Mmu (Unit {0})
mmu_init fuel name m =
    and_then (objs_cache_create fuel name sizeof_mmu_context 2 m.kernel) (λ (c, k).
      if c == null then panic else ok (tt, record m { kernel = k; mmu_context_cache = c }))

unfoldable pub mmu_context_create : Cmd Mmu Ptr
mmu_context_create = pure null

unfoldable pub mmu_context_destroy : Ptr → Cmd Mmu (Unit {0})
mmu_context_destroy a_mmu_context = pure tt

unfoldable pub load_context : Ptr → Cmd Mmu (Unit {0})
load_context p m =
    ok (tt, record m { current_mmu_context = p; cr3 = (m.mmu_context p).page_dir_paddr })

unfoldable pub mmu_context_load : Ptr → Cmd Mmu (Unit {0})
mmu_context_load p m =
    if p == null
    then panic
    else if (m.mmu_context p).page_dir_paddr == null
    then panic
    else (do preserved ← preserve_kernel_space p; if preserved then load_context p else die) m

-- No context can be loaded: mmu_context_load panics for every context and in every state.
mmu_context_load-panic : (p : Ptr) (m : Mmu) → mmu_context_load p m ≡ panic
unfolding mmu_context_load preserve_kernel_space
mmu_context_load-panic p m = elim (Bool-cases (p == null)) [
  | inl e ↦ rw e refl
  | inr e ↦ elim (Bool-cases ((m.mmu_context p).page_dir_paddr == null)) [
    | inl e' ↦ rw (e, e') refl
    | inr e' ↦ rw (e, e') refl
  ]
]
