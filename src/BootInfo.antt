-- ===== src/BootInfo.antt =====
-- What the boot loader tells the kernel, src/arch/x86/boot/bootloader_info.c with the structures of
-- src/include/x86/boot/multiboot.h. The loader's structures are words in memory.
use atros.Base.{
  ℕ, ◌+◌, ◌*◌, ◌%◌, ◌^◌, ◌≤◌, ◌<◌, ◌≡◌, ◌≢◌, refl, ap, ◌∙◌, ◌==◌, ltb, if◌then◌else◌, ok, panic,
  Outcome, Cmd, pure, ◌>>=◌, ◌>>◌, get, put, die, arith, ne→==, lt→ltb, ge→ltb, Bool-cases, inl,
  inr,
}
use atros.LinkedLists.Links.{Ptr}

abbrev pub kernel_space : ℕ
kernel_space = 0xc0000000

abbrev pub multiboot_bootloader_magic : ℕ
multiboot_bootloader_magic = 0x2badb002

abbrev pub multiboot2_bootloader_magic : ℕ
multiboot2_bootloader_magic = 0x36d76289

-- The two variables of the module, and the words of the memory by their virtual addresses.
pub record Loader : Type 0 where
  pub bootloader_magic : ℕ
  pub bootloader_info : Ptr
  pub word : ℕ → ℕ

-- __boot_get_virtual_address_of
unfoldable pub virtual_address_of : ℕ → ℕ
virtual_address_of paddr = (paddr + kernel_space) % 2 ^ 32

unfoldable pub retrieve_bootloader_info : ℕ → Ptr → Cmd Loader (Unit {0})
retrieve_bootloader_info magic boot_info = do
  l ← get
  put (record l { bootloader_magic = magic; bootloader_info = virtual_address_of boot_info })
  if magic == multiboot_bootloader_magic
      then pure tt
      else if magic == multiboot2_bootloader_magic
      then die
      else die

-- The fields of Multiboot_info and Module that the kernel reads, by their offsets.
abbrev pub mem_upper_at : ℕ
mem_upper_at = 8

abbrev pub mods_count_at : ℕ
mods_count_at = 20

abbrev pub mods_addr_at : ℕ
mods_addr_at = 24

abbrev pub sizeof_module : ℕ
sizeof_module = 16

unfoldable pub boot_info_get_mem_upper : Loader → ℕ
boot_info_get_mem_upper l =
    if l.bootloader_magic == multiboot_bootloader_magic
    then l.word (l.bootloader_info + mem_upper_at)
    else 0

unfoldable pub boot_info_get_modules_count : Loader → ℕ
boot_info_get_modules_count l =
    if l.bootloader_magic == multiboot_bootloader_magic
    then l.word (l.bootloader_info + mods_count_at)
    else 0

-- The start and the end of a module, which the code stores through two pointers.
unfoldable pub boot_info_get_module : ℕ → Loader → ℕ × ℕ
boot_info_get_module mod_number l =
    let modules = virtual_address_of (l.word (l.bootloader_info + mods_addr_at)) in
    if l.bootloader_magic == multiboot_bootloader_magic
    then (if ltb mod_number (l.word (l.bootloader_info + mods_count_at))
        then (
          l.word (modules + sizeof_module * mod_number),
          l.word (modules + sizeof_module * mod_number + 4),
        )
        else (0, 0))
    else (0, 0)

-- The loader's view: the structures are words at physical addresses. The boot code maps the first
-- 4 MB of the physical memory at the kernel space.
abbrev pub IsMapped : (ℕ → ℕ) → Loader → Type 0
IsMapped phys l = (a : ℕ) → a < 0x400000 → l.word (a + kernel_space) ≡ phys a

-- The information at `p` and the array of modules lie in the first 4 MB.
pub record IsLoaded (phys : ℕ → ℕ) (p : ℕ) : Type 0 where
  pub info : p + 88 ≤ 0x400000
  pub modules : phys (p + mods_addr_at) + sizeof_module * phys (p + mods_count_at) ≤ 0x400000

-- The kernel has the loader's information: the memory, the number of modules, and where each module
-- starts and ends; there is no module behind the last.
pub record HasInfo (phys : ℕ → ℕ) (p : ℕ) (r : Outcome (Unit {0} × Loader)) : Type 0 where
  pub after : Loader
  pub done : r ≡ ok (tt, after)
  pub mem_upper : boot_info_get_mem_upper after ≡ phys (p + mem_upper_at)
  pub count : boot_info_get_modules_count after ≡ phys (p + mods_count_at)
  pub modules :
      (i : ℕ)
      → i < phys (p + mods_count_at)
      → boot_info_get_module i after ≡ (
        phys (phys (p + mods_addr_at) + sizeof_module * i),
        phys (phys (p + mods_addr_at) + sizeof_module * i + 4),
      )
  pub no_more : (i : ℕ) → phys (p + mods_count_at) ≤ i → boot_info_get_module i after ≡ (0, 0)

abbrev told : Loader → ℕ → Loader
told l p = record l {
  bootloader_magic = multiboot_bootloader_magic;
  bootloader_info = virtual_address_of p;
}

retrieve_bootloader_info-ok :
    (l : Loader) (p : ℕ)
    → retrieve_bootloader_info multiboot_bootloader_magic p l ≡ ok (tt, told l p)
unfolding retrieve_bootloader_info
retrieve_bootloader_info-ok l p = refl

-- A word of the loader at an offset of an address.
word_at :
    (phys : ℕ → ℕ) (l : Loader) (p offset : ℕ)
    → IsMapped phys l
    → p + offset < 0x400000
    → l.word (virtual_address_of p + offset) ≡ phys (p + offset)
unfolding virtual_address_of
word_at phys l p offset w h =
    let e : (p + kernel_space) % 2 ^ 32 + offset ≡ p + offset + kernel_space = omega arith in
    rw e (w (p + offset) h)

module _ (phys : ℕ → ℕ) (l : Loader) (p : ℕ) (w : IsMapped phys l) (is : IsLoaded phys p) where
  info_at : (offset : ℕ) → offset < 88 → l.word (virtual_address_of p + offset) ≡ phys (p + offset)
  info_at offset h = word_at phys l p offset w (omega (arith, is.info))

  module_at :
      (i : ℕ)
      → i < phys (p + mods_count_at)
      → boot_info_get_module i (told l p) ≡ (
        phys (phys (p + mods_addr_at) + sizeof_module * i),
        phys (phys (p + mods_addr_at) + sizeof_module * i + 4),
      )
  unfolding boot_info_get_module
  module_at i h =
      let a = phys (p + mods_addr_at) in
      let first : l.word (virtual_address_of a + sizeof_module * i) ≡ phys (a + sizeof_module * i) =
        word_at phys l a (sizeof_module * i) w (omega (arith, is.modules)) in
      let second : l.word (virtual_address_of a + sizeof_module * i + 4)
          ≡ phys (a + sizeof_module * i + 4) =
        let e : virtual_address_of a + sizeof_module * i + 4
            ≡ virtual_address_of a + (sizeof_module * i + 4) =
          omega arith in
        let e' : a + (sizeof_module * i + 4) ≡ a + sizeof_module * i + 4 = omega arith in
        ap l.word e
        ∙ word_at phys l a (sizeof_module * i + 4) w (omega (arith, is.modules))
        ∙ ap phys e' in
      rw
        (
          info_at mods_count_at (omega arith),
          info_at mods_addr_at (omega arith),
          lt→ltb i (phys (p + mods_count_at)) h,
          first,
          second,
        )
        refl

  no_module_at : (i : ℕ) → phys (p + mods_count_at) ≤ i → boot_info_get_module i (told l p) ≡ (0, 0)
  unfolding boot_info_get_module
  no_module_at i h =
      rw (info_at mods_count_at (omega arith), ge→ltb i (phys (p + mods_count_at)) h) refl

-- When a loader with the multiboot magic number has left its information, and the array of modules
-- that it names, in the first 4 MB of the physical memory, which the boot code maps at the kernel
-- space, retrieve_bootloader_info succeeds, and the kernel then reads there the size of the memory
-- and for each module, and no other, its start and its end.
pub retrieve_bootloader_info-HasInfo :
    (phys : ℕ → ℕ) (l : Loader) (p : ℕ)
    → IsMapped phys l
    → IsLoaded phys p
    → HasInfo phys p (retrieve_bootloader_info multiboot_bootloader_magic p l)
unfolding boot_info_get_mem_upper boot_info_get_modules_count
retrieve_bootloader_info-HasInfo phys l p w is = record {
  after = told l p;
  done = retrieve_bootloader_info-ok l p;
  mem_upper = info_at phys l p w is mem_upper_at (omega arith);
  count = info_at phys l p w is mods_count_at (omega arith);
  modules = module_at phys l p w is;
  no_more = no_module_at phys l p w is;
}

-- Every other magic number is a panic, also that of a multiboot 2 loader.
retrieve_bootloader_info-panic :
    (magic p : ℕ) (l : Loader)
    → magic ≢ multiboot_bootloader_magic
    → retrieve_bootloader_info magic p l ≡ panic
unfolding retrieve_bootloader_info
retrieve_bootloader_info-panic magic p l ne =
    elim (Bool-cases (magic == multiboot2_bootloader_magic)) [
      | inl e ↦ rw (ne→== magic multiboot_bootloader_magic ne, e) refl
      | inr e ↦ rw (ne→== magic multiboot_bootloader_magic ne, e) refl
    ]
