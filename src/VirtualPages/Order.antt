-- ===== src/VirtualPages/Order.antt =====
-- vregion_cmp of src/kernel/mm/virtual_pages.c: the region that starts later comes first.
use atros.Base.{
  ◌+◌, ◌-◌, ◌^◌, ◌≤◌, ◌<◌, ◌≡◌, ◌≢◌, refl, arith, ok, panic, le→leb, gt→leb, lt→ltb, ge→ltb, ne→==,
}
use atros.LinkedLists.Links.{Ptr, null}
use atros.LinkedLists.Simple.{plus, minus}
use atros.VirtualPages.Regions.{
  Vregion, vregion_cmp, are_comparable, vregion_sign, vregion_first_vpn, vregion_last_vpn,
}

-- A region has a page, and ends in the address space.
abbrev pub IsRegion : Vregion → Type 0
IsRegion v = (0 < v.nbr_pages) × (v.first_vpn + v.nbr_pages ≤ 2 ^ 32)

abbrev pub IsBefore : Vregion → Vregion → Type 0
IsBefore v w = v.first_vpn + v.nbr_pages ≤ w.first_vpn

last_vpn-ok : (v : Vregion) → IsRegion v → vregion_last_vpn v ≡ v.first_vpn + v.nbr_pages - 1
unfolding vregion_last_vpn
last_vpn-ok v (pos, small) = omega arith

-- An element whose region lies before another's compares as greater.
pub vregion_cmp-plus :
    (region : Ptr → Vregion) (p q : Ptr)
    → p ≢ null
    → q ≢ null
    → IsRegion (region p)
    → IsRegion (region q)
    → IsBefore (region p) (region q)
    → vregion_cmp region p q ≡ ok plus
unfolding vregion_cmp are_comparable vregion_sign vregion_first_vpn
vregion_cmp-plus region p q ne ne' r r' h =
    let a = region p in
    let b = region q in
    rw
      (
        ne→== p null ne,
        ne→== q null ne',
        last_vpn-ok a r,
        last_vpn-ok b r',
        le→leb a.first_vpn b.first_vpn (omega arith),
        le→leb (a.first_vpn + a.nbr_pages - 1) (b.first_vpn + b.nbr_pages - 1) (omega arith),
        ne→== b.first_vpn a.first_vpn (λ e. omega arith),
        lt→ltb a.first_vpn b.first_vpn (omega arith),
      )
      refl

pub vregion_cmp-minus :
    (region : Ptr → Vregion) (p q : Ptr)
    → p ≢ null
    → q ≢ null
    → IsRegion (region p)
    → IsRegion (region q)
    → IsBefore (region q) (region p)
    → vregion_cmp region p q ≡ ok minus
unfolding vregion_cmp are_comparable vregion_sign vregion_first_vpn
vregion_cmp-minus region p q ne ne' r r' h =
    let a = region p in
    let b = region q in
    rw
      (
        ne→== p null ne,
        ne→== q null ne',
        last_vpn-ok a r,
        last_vpn-ok b r',
        gt→leb a.first_vpn b.first_vpn (omega arith),
        le→leb b.first_vpn a.first_vpn (omega arith),
        le→leb (b.first_vpn + b.nbr_pages - 1) (a.first_vpn + a.nbr_pages - 1) (omega arith),
        ne→== b.first_vpn a.first_vpn (λ e. omega arith),
        ge→ltb a.first_vpn b.first_vpn (omega arith),
      )
      refl

pub vregion_cmp-null :
    (region : Ptr → Vregion) (p : Ptr) → p ≢ null → vregion_cmp region p null ≡ panic
unfolding vregion_cmp
vregion_cmp-null region p ne = rw (ne→== p null ne) refl
