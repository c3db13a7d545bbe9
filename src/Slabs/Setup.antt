-- ===== src/Slabs/Setup.antt =====
-- initialize_slab of src/kernel/mm/slab.c.
use atros.Base.{
  ℕ, suc, ◌+◌, ◌-◌, ◌*◌, ◌/◌, ◌%◌, ◌^◌, ◌<◌, ◌≤◌, ◌≡◌, ◌≢◌, refl, sym, ap, ◌∙◌, List, Distinct,
  length, arith, ok, Outcome, ne→==, ==_refl, le→leb,
}
use native.Mathlib.Nat.{div-add-mod}
use atros.LinkedLists.Links.{
  Ptr, null, update, update_eq, update_ne, update-update, with_next, with_prev, set_next-ok,
  set_prev-ok,
}
use atros.LinkedLists.Simple.{Nexts, list_length}
use atros.LinkedLists.Simple.Chain.{IsChain}
use atros.VirtualPages.Regions.{Vregion, vregion_size, vregion_first_vpn, vpn_to_vaddr}
use atros.Slabs.State.{Slab, Slabs, on_objects, on_slab_links, read_slab, edit_slab, store_next}
use atros.Slabs.Objects.{link_objs, build_free_list, initialize_slab}
use atros.Slabs.Chains.{
  objs_from, length-objs_from, IsOutside, link_obj-ok, Distinct-objs_from, link_objs-IsChain,
  list_length-length,
}

pub edit_slab-ok :
    (p : Ptr) (f : Slab → Slab) (s : Slabs)
    → p ≢ null
    → edit_slab p f s ≡ ok (tt, record s { slab = update s.slab p (f (s.slab p)) })
unfolding edit_slab
edit_slab-ok p f s ne = rw (ne→== p null ne) refl

pub read_slab-ok : (p : Ptr) (s : Slabs) → p ≢ null → read_slab p s ≡ ok (s.slab p, s)
unfolding read_slab
read_slab-ok p s ne = rw (ne→== p null ne) refl

-- A slab whose free objects are `xs`.
pub record IsSlab (s : Slabs) (p : Ptr) (xs : List Ptr) : Type 0 where
  pub chain : IsChain s.objects (s.slab p).free_objs_list xs
  pub distinct : Distinct xs
  pub count : (s.slab p).free_objs_count ≡ length xs

-- A slab is set up over a region with its free objects, and no other slab and no word outside them
-- is touched.
pub record SetsUp (s : Slabs) (p vregion first size n : ℕ) (r : Outcome (Ptr × Slabs))
    : Type 0 where
  pub after : Slabs
  pub done : r ≡ ok (p, after)
  pub is_slab : IsSlab after p (objs_from first size n)
  pub region : (after.slab p).vregion ≡ vregion
  pub links : (after.slab_links.next p ≡ null) × (after.slab_links.prev p ≡ null)
  pub others : (q : Ptr) → q ≢ p → after.slab q ≡ s.slab q
  pub outside : (q : Ptr) → IsOutside first (first + n * size) q → after.objects q ≡ s.objects q

le_times : (n size : ℕ) → 0 < size → n ≤ n * size
le_times n size h = grind arith

build_free_list-ok :
    (s : Slabs) (p : Ptr) (v : Vregion) (size used n first last : ℕ) (l' : Nexts)
    → p ≢ null
    → last ≢ null
    → (s.slab p).free_objs_count ≡ suc n
    → (vpn_to_vaddr (vregion_first_vpn v) + used * size) % 2 ^ 32 ≡ first
    → link_objs n first size s.objects ≡ ok (last, l')
    → list_length (suc n + 2) first (store_next last null l') ≡ ok (suc n, store_next last null l')
    → build_free_list p v size used s
      ≡ ok (
        p,
        record s {
          slab = update s.slab p (record (s.slab p) { free_objs_list = first });
          objects = store_next last null l';
        },
      )
unfolding build_free_list on_objects
build_free_list-ok s p v size used n first last l' ne ne' ec wrap done counted =
    let d : Slab = record (s.slab p) { free_objs_list = first } in
    let left : suc n - 1 ≡ n = omega arith in
    rw
      (
        wrap,
        edit_slab-ok p (λ (d' : Slab). record d' { free_objs_list = first }) s ne,
        read_slab-ok p (record s { slab = update s.slab p d }) ne,
        update_eq s.slab p p d refl,
        ec,
        left,
        done,
        link_obj-ok last null l' ne',
        counted,
        ==_refl (suc n),
      )
      refl

build_free_list-SetsUp :
    (s : Slabs) (p : Ptr) (v : Vregion) (size used n first : ℕ)
    → p ≢ null
    → 4 ≤ size
    → (s.slab p).free_objs_count ≡ suc n
    → vpn_to_vaddr (vregion_first_vpn v) + used * size ≡ first
    → 0 < first
    → first + suc n * size ≤ 2 ^ 32
    → (s.slab_links.next p ≡ null) × (s.slab_links.prev p ≡ null)
    → SetsUp s p (s.slab p).vregion first size (suc n) (build_free_list p v size used s)
build_free_list-SetsUp s p v size used n first ne pos ec ef start fits lk =
    let (last, l', done, ne', chain, outside) =
      link_objs-IsChain n first size s.objects pos start (omega arith) in
    let xs = objs_from first size (suc n) in
    let len : length xs ≡ suc n = length-objs_from first size (suc n) in
    let d : Slab = record (s.slab p) { free_objs_list = first } in
    let wrap : (vpn_to_vaddr (vregion_first_vpn v) + used * size) % 2 ^ 32 ≡ first = omega arith in
    let same : update s.slab p d p ≡ d = update_eq s.slab p p d refl in
    let counted =
      list_length-length (suc n + 2) first xs (store_next last null l') chain (omega (arith, len))
        (omega (arith, len, le_times (suc n) size (omega arith))) in
    record {
      after = record s { slab = update s.slab p d; objects = store_next last null l' };
      done =
          build_free_list-ok s p v size used n first last l' ne ne' ec wrap done
            (counted ∙ ap (λ (t : ℕ). ok (t, store_next last null l')) len);
      is_slab = record {
        chain = rw same chain;
        distinct = Distinct-objs_from first size (suc n) (omega arith);
        count = rw (same, ec) (sym len);
      };
      region = rw same refl;
      links = lk;
      others = λ q ne''. update_ne s.slab p q d ne'';
      outside = outside;
    }

pub edit_slab-again :
    (s : Slabs) (p : Ptr) (d : Slab) (f : Slab → Slab)
    → p ≢ null
    → edit_slab p f (record s { slab = update s.slab p d })
      ≡ ok (tt, record s { slab = update s.slab p (f d) })
edit_slab-again s p d f ne =
    rw
      (
        edit_slab-ok p f (record s { slab = update s.slab p d }) ne,
        update_eq s.slab p p d refl,
        update-update s.slab p d (f d),
      )
      refl

-- The state before the list of free objects is built.
abbrev prepared : Slabs → Ptr → Ptr → ℕ → Slabs
prepared s p vregion n = record s {
  slab = update s.slab p (record { free_objs_count = n; vregion = vregion; free_objs_list = null });
  slab_links = with_next (with_prev s.slab_links p null) p null;
}

initialize_slab-prepared :
    (s : Slabs) (p vregion : Ptr) (v : Vregion) (size used n : ℕ)
    → p ≢ null
    → vregion ≢ null
    → 0 < size
    → vpn_to_vaddr (vregion_first_vpn v) ≢ null
    → (vregion_size v / size + 2 ^ 32 - used) % 2 ^ 32 ≡ n
    → size ≤ vregion_size v
    → initialize_slab p vregion v size used s
      ≡ build_free_list p v size used (prepared s p vregion n)
unfolding initialize_slab on_slab_links
initialize_slab-prepared s p vregion v size used n ne ne' pos start count fits =
    let d0 : Slab = record (s.slab p) { free_objs_count = n } in
    let d1 : Slab = record d0 { vregion = vregion } in
    rw
      (
        ne→== p null ne,
        ne→== vregion null ne',
        ne→== (vpn_to_vaddr (vregion_first_vpn v)) null start,
        ne→== size 0 (λ z. omega arith),
        edit_slab-ok p
            (λ (d : Slab). record d {
              free_objs_count = (vregion_size v / size + 2 ^ 32 - used) % 2 ^ 32;
            })
            s ne,
        count,
        edit_slab-again s p d0 (λ (d : Slab). record d { vregion = vregion }) ne,
        edit_slab-again s p d1 (λ (d : Slab). record d { free_objs_list = null }) ne,
        set_prev-ok p ne s.slab_links null,
        set_next-ok p ne (with_prev s.slab_links p null) null,
        le→leb size (vregion_size v) fits,
      )
      refl

initialize_slab-SetsUp-suc :
    (s : Slabs) (p vregion : Ptr) (v : Vregion) (size used n : ℕ)
    → p ≢ null
    → vregion ≢ null
    → 4 ≤ size
    → 0 < v.first_vpn
    → v.first_vpn + v.nbr_pages ≤ 2 ^ 20
    → v.nbr_pages * 4096 / size ≡ used + suc n
    → SetsUp s p vregion
        (v.first_vpn * 4096 + used * size)
        size
        (suc n)
        (initialize_slab p vregion v size used s)
unfolding vpn_to_vaddr vregion_first_vpn vregion_size
initialize_slab-SetsUp-suc s p vregion v size used n ne ne' pos start small room =
    let bytes : v.nbr_pages * 2 ^ 12 % 2 ^ 32 ≡ v.nbr_pages * 4096 = omega arith in
    let base : v.first_vpn * 2 ^ 12 % 2 ^ 32 ≡ v.first_vpn * 4096 = omega arith in
    let cap = ap (λ (t : ℕ). t * size) room in
    let all : used * size + suc n * size ≤ v.nbr_pages * 4096 =
      omega (arith, cap, div-add-mod (v.nbr_pages * 4096) size) in
    let big = le_times (used + suc n) size (omega arith) in
    let count : (v.nbr_pages * 2 ^ 12 % 2 ^ 32 / size + 2 ^ 32 - used) % 2 ^ 32 ≡ suc n =
      rw (bytes, room) (omega (arith, all, big)) in
    let s1 = prepared s p vregion (suc n) in
    let d : Slab = record { free_objs_count = suc n; vregion = vregion; free_objs_list = null } in
    let same : s1.slab p ≡ d = update_eq s.slab p p d refl in
    let f =
      build_free_list-SetsUp s1 p v size used n (v.first_vpn * 4096 + used * size) ne pos
        (rw same refl) (rw base refl) (omega arith) (omega (arith, all))
        (update_eq s.slab_links.next p p null refl, update_eq s.slab_links.prev p p null refl) in
    record {
      after = f.after;
      done =
          initialize_slab-prepared s p vregion v size used (suc n) ne ne' (omega arith)
            (λ z. omega arith) count (rw bytes (omega (arith, all)))
          ∙ f.done;
      is_slab = f.is_slab;
      region = f.region ∙ rw same refl;
      links = f.links;
      others = λ q ne''. f.others q ne'' ∙ update_ne s.slab p q d ne'';
      outside = f.outside;
    }

-- For an object size of at least 4, the size of a pointer, and a region above address 0 that lies in
-- the 32-bit address space and holds more objects than are already used, initialize_slab gives the
-- slab exactly the other objects of the region, one behind the other, as its free objects, without
-- a fault or a panic, and changes no other slab and no word of memory outside those objects.
pub initialize_slab-SetsUp :
    (s : Slabs) (p vregion : Ptr) (v : Vregion) (size used : ℕ)
    → p ≢ null
    → vregion ≢ null
    → 4 ≤ size
    → 0 < v.first_vpn
    → v.first_vpn + v.nbr_pages ≤ 2 ^ 20
    → used < v.nbr_pages * 4096 / size
    → SetsUp s p vregion
        (v.first_vpn * 4096 + used * size)
        size
        (v.nbr_pages * 4096 / size - used)
        (initialize_slab p vregion v size used s)
initialize_slab-SetsUp s p vregion v size used ne ne' pos start small room =
    let e : v.nbr_pages * 4096 / size - used ≡ suc (v.nbr_pages * 4096 / size - used - 1) =
      omega arith in
    rw e (
      initialize_slab-SetsUp-suc s p vregion v size used (v.nbr_pages * 4096 / size - used - 1) ne
        ne' pos start small (omega arith))
