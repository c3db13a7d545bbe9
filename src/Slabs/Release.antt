-- ===== src/Slabs/Release.antt =====
-- free_obj_from_slab of src/kernel/mm/slab.c, and what it does after alloc_obj_from_slab.
use atros.Base.{
  suc, ◌+◌, ◌*◌, ◌-◌, ◌/◌, ◌%◌, ◌^◌, ◌<◌, ◌≤◌, ◌≡◌, ◌≢◌, refl, ap, ◌∙◌, List, ◌∷◌, NotIn, length,
  arith, ok, Outcome, ne→==, le→leb, gt→leb, true, false, Bool, ◌⊎◌, inl, inr,
}
use atros.LinkedLists.Links.{Ptr, null, update, update_eq, update_ne}
use atros.LinkedLists.Simple.{list_push_head}
use atros.LinkedLists.Simple.Chain.{IsChain-update}
use atros.LinkedLists.Simple.Relink.{link-ok}
use atros.VirtualPages.Regions.{Vregion, vaddr_to_vpn, vregion_first_vpn, vregion_last_vpn}
use atros.Slabs.State.{Slab, Slabs, on_objects, inc}
use atros.Slabs.Objects.{
  is_vpn_in_vregion, is_vaddr_in_slab, free_obj_from_slab, alloc_obj_from_slab,
}
use atros.Slabs.Setup.{IsSlab, edit_slab-ok, edit_slab-again, read_slab-ok}
use atros.Slabs.Invariant.{alloc_obj_from_slab-TakesObj}

-- The region has pages and lies in the 32-bit address space.
abbrev pub IsRegion : Vregion → Type 0
IsRegion v = (0 < v.nbr_pages) × (v.first_vpn + v.nbr_pages ≤ 2 ^ 20)

-- The address is one of the bytes of the region's pages, or not.
abbrev pub IsWithin : Vregion → Ptr → Type 0
IsWithin v x = (v.first_vpn * 4096 ≤ x) × (x < (v.first_vpn + v.nbr_pages) * 4096)

abbrev pub IsBeyond : Vregion → Ptr → Type 0
IsBeyond v x = (x < v.first_vpn * 4096) ⊎ ((v.first_vpn + v.nbr_pages) * 4096 ≤ x)

module _ (v : Vregion) (x : Ptr) (w : IsRegion v) where
  is_vpn_in_vregion-true : IsWithin v x → is_vpn_in_vregion v (vaddr_to_vpn x) ≡ true
  unfolding is_vpn_in_vregion vregion_first_vpn vregion_last_vpn vaddr_to_vpn
  is_vpn_in_vregion-true (a, b) =
      rw
        (
          le→leb v.first_vpn (x / 2 ^ 12) (omega arith),
          le→leb (x / 2 ^ 12) ((v.first_vpn + v.nbr_pages + 2 ^ 32 - 1) % 2 ^ 32)
              (omega (arith, w.0, w.1)),
        )
        refl

  is_vpn_in_vregion-false : IsBeyond v x → is_vpn_in_vregion v (vaddr_to_vpn x) ≡ false
  unfolding is_vpn_in_vregion vregion_first_vpn vregion_last_vpn vaddr_to_vpn
  is_vpn_in_vregion-false far = elim far [
    | inl a ↦ rw (gt→leb v.first_vpn (x / 2 ^ 12) (omega arith)) refl
    | inr b ↦
        rw
          (
            le→leb v.first_vpn (x / 2 ^ 12) (omega arith),
            gt→leb (x / 2 ^ 12) ((v.first_vpn + v.nbr_pages + 2 ^ 32 - 1) % 2 ^ 32)
                (omega (arith, w.0, w.1)),
          )
          refl
  ]

-- The object becomes the first free object of the slab, and nothing else changes.
pub record Frees (s : Slabs) (p obj : Ptr) (xs : List Ptr) (r : Outcome (Bool × Slabs))
    : Type 0 where
  pub after : Slabs
  pub done : r ≡ ok (true, after)
  pub is_slab : IsSlab after p (obj ∷ xs)
  pub others : (q : Ptr) → q ≢ p → after.slab q ≡ s.slab q
  pub frame : (q : Ptr) → q ≢ obj → after.objects q ≡ s.objects q

module _ (region : Ptr → Vregion) (s : Slabs) (p obj : Ptr) (ne : p ≢ null) where
  is_vaddr_in_slab-ok :
      (s.slab p).vregion ≢ null
      → is_vaddr_in_slab region p obj s
        ≡ ok (is_vpn_in_vregion (region (s.slab p).vregion) (vaddr_to_vpn obj), s)
  unfolding is_vaddr_in_slab
  is_vaddr_in_slab-ok nr =
      rw (ne→== p null ne, read_slab-ok p s ne, ne→== (s.slab p).vregion null nr) refl

  free_obj_from_slab-ok :
      (d : Slab)
      → obj ≢ null
      → is_vaddr_in_slab region p obj s ≡ ok (true, s)
      → s.slab p ≡ d
      → free_obj_from_slab region p obj s
        ≡ ok (
          true,
          record s {
            slab =
                update s.slab p
                  (record d { free_objs_count = inc d.free_objs_count; free_objs_list = obj });
            objects = update s.objects obj d.free_objs_list;
          },
        )
  unfolding free_obj_from_slab on_objects list_push_head
  free_obj_from_slab-ok d nz mine e =
      let d1 : Slab = record d { free_objs_count = inc d.free_objs_count } in
      let s1 : Slabs = record s { slab = update s.slab p d1 } in
      rw
        (
          ne→== p null ne,
          ne→== obj null nz,
          mine,
          edit_slab-ok p (λ (k : Slab). record k { free_objs_count = inc k.free_objs_count }) s ne,
          e,
          read_slab-ok p s1 ne,
          update_eq s.slab p p d1 refl,
          link-ok obj d.free_objs_list s.objects nz,
          edit_slab-again (record s { objects = update s.objects obj d.free_objs_list }) p d1
              (λ (k : Slab). record k { free_objs_list = obj }) ne,
        )
        refl

  free_obj_from_slab-refused :
      obj ≢ null
      → is_vaddr_in_slab region p obj s ≡ ok (false, s)
      → free_obj_from_slab region p obj s ≡ ok (false, s)
  unfolding free_obj_from_slab
  free_obj_from_slab-refused nz mine = rw (ne→== p null ne, ne→== obj null nz, mine) refl

-- An object of the region that is not free is freed.
free_obj_from_slab-Frees :
    (region : Ptr → Vregion) (s : Slabs) (p obj : Ptr) (xs : List Ptr)
    → p ≢ null
    → obj ≢ null
    → (s.slab p).vregion ≢ null
    → is_vpn_in_vregion (region (s.slab p).vregion) (vaddr_to_vpn obj) ≡ true
    → IsSlab s p xs
    → NotIn obj xs
    → suc (length xs) < 2 ^ 32
    → Frees s p obj xs (free_obj_from_slab region p obj s)
free_obj_from_slab-Frees region s p obj xs ne nz nr inside w new small =
    let d = s.slab p in
    let d' : Slab = record d { free_objs_count = inc d.free_objs_count; free_objs_list = obj } in
    let same : update s.slab p d' p ≡ d' = update_eq s.slab p p d' refl in
    let here : update s.objects obj d.free_objs_list obj ≡ d.free_objs_list =
      update_eq s.objects obj obj d.free_objs_list refl in
    let mine : is_vaddr_in_slab region p obj s ≡ ok (true, s) =
      is_vaddr_in_slab-ok region s p obj ne nr ∙ ap (λ (b : Bool). ok (b, s)) inside in
    record {
      after = record s {
        slab = update s.slab p d';
        objects = update s.objects obj d.free_objs_list;
      };
      done = free_obj_from_slab-ok region s p obj ne d nz mine refl;
      is_slab = record {
        chain = rw same (
          refl,
          nz,
          rw here (IsChain-update s.objects d.free_objs_list xs obj d.free_objs_list w.chain new),
        );
        distinct = (new, w.distinct);
        count = rw same (omega (arith, w.count));
      };
      others = λ q z. update_ne s.slab p q d' z;
      frame = λ q z. update_ne s.objects obj q d.free_objs_list z;
    }

-- An object is taken from a slab and given back; an address outside the region is not taken back.
pub record Returns (region : Ptr → Vregion) (s : Slabs) (p x : Ptr) (xs : List Ptr) : Type 0 where
  pub between : Slabs
  pub after : Slabs
  pub taken : alloc_obj_from_slab p s ≡ ok (x, between)
  pub taken_is_slab : IsSlab between p xs
  pub freed : free_obj_from_slab region p x between ≡ ok (true, after)
  pub is_slab : IsSlab after p (x ∷ xs)
  pub others : (q : Ptr) → q ≢ p → after.slab q ≡ s.slab q
  pub frame : (q : Ptr) → q ≢ x → after.objects q ≡ s.objects q
  pub refused :
      (y : Ptr)
      → y ≢ null
      → IsBeyond (region (s.slab p).vregion) y
      → free_obj_from_slab region p y between ≡ ok (false, between)

-- From a slab with free objects, the first of which lies in the slab's region, a region of at least
-- one page that ends at 4 GB at the latest, alloc_obj_from_slab takes the first free object, and
-- free_obj_from_slab gives it back: the slab has the same free objects in the same order as before,
-- and no other slab and no other object changes. For an address outside the region
-- free_obj_from_slab returns false and changes nothing.
pub alloc_obj_from_slab-Returns :
    (region : Ptr → Vregion) (s : Slabs) (p x : Ptr) (xs : List Ptr)
    → p ≢ null
    → (s.slab p).vregion ≢ null
    → IsRegion (region (s.slab p).vregion)
    → IsWithin (region (s.slab p).vregion) x
    → IsSlab s p (x ∷ xs)
    → length (x ∷ xs) < 2 ^ 32
    → Returns region s p x xs
alloc_obj_from_slab-Returns region s p x xs ne nr isr within w small =
    let v = region (s.slab p).vregion in
    let inside = is_vpn_in_vregion-true v x isr within in
    let (new, _) = w.distinct in
    let (_, nz, _) = w.chain in
    let t = alloc_obj_from_slab-TakesObj s p x xs ne w small in
    let s1 : Slabs = record s { slab = t.slab'; objects = t.objects' } in
    let f =
      free_obj_from_slab-Frees region s1 p x xs ne nz (rw t.vregion nr) (rw t.vregion inside)
        t.is_slab new small in
    record {
      between = s1;
      after = f.after;
      taken = t.done;
      taken_is_slab = t.is_slab;
      freed = f.done;
      is_slab = f.is_slab;
      others = λ q z. f.others q z ∙ t.others q z;
      frame = λ q z. f.frame q z ∙ t.frame q z;
      refused = λ y ny far.
          let away : is_vpn_in_vregion (region (s1.slab p).vregion) (vaddr_to_vpn y) ≡ false =
            rw t.vregion (is_vpn_in_vregion-false v y isr far) in
          free_obj_from_slab-refused region s1 p y ne ny (
            is_vaddr_in_slab-ok region s1 p y ne (rw t.vregion nr)
            ∙ ap (λ (b : Bool). ok (b, s1)) away);
    }
