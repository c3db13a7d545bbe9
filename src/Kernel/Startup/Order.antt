-- ===== src/Kernel/Startup/Order.antt =====
-- The test of virtual_page_boot_init of src/kernel/mm/virtual_pages.c on the list of used regions.
use atros.Base.{
  ℕ, zero, suc, ◌+◌, ◌-◌, ◌%◌, ◌^◌, ◌≤◌, ◌<◌, ◌≡◌, ◌≢◌, refl, List, [], ◌∷◌, length, arith, ok,
  panic, Outcome, ◌⊎◌, inl, inr, Bool-cases, ltb, ge→ltb, le→leb, gt→leb, ne→==, and_then, ◌∙◌,
}
use atros.LinkedLists.Links.{Ptr, null}
use atros.LinkedLists.Simple.{follow}
use atros.LinkedLists.Simple.Chain.{IsChain}
use atros.VirtualPages.Regions.{
  Regions, Vregion, vregion_first_vpn, vregion_last_vpn, read_region, on_next,
}
use atros.Kernel.Startup.{check_pair, check_order}

-- The pages of a region, at least one, below the last page number.
abbrev pub IsRegion : Vregion → Type 0
IsRegion v = (0 < v.nbr_pages) × (v.first_vpn + v.nbr_pages < 2 ^ 32)

-- Each region ends before the next one starts.
abbrev pub AreOrdered : (Ptr → Vregion) → List Ptr → Type 0
AreOrdered region [] = Unit {0}
AreOrdered region (p ∷ []) = Unit {0}
AreOrdered region (p ∷ q ∷ ps) =
    ((region p).first_vpn + (region p).nbr_pages ≤ (region q).first_vpn)
    × AreOrdered region (q ∷ ps)

abbrev pub AreRegions : (Ptr → Vregion) → List Ptr → Type 0
AreRegions region [] = Unit {0}
AreRegions region (p ∷ ps) = IsRegion (region p) × AreRegions region ps

le_or_gt : (a b : ℕ) → (a ≤ b) ⊎ (b < a)
le_or_gt a b = ground arith

module _ {C : Type 0} where
  check_pair-ok :
      (v w : Vregion) (s : Regions C)
      → IsRegion v
      → v.first_vpn + v.nbr_pages ≤ w.first_vpn
      → check_pair v w s ≡ ok (tt, s)
  unfolding check_pair vregion_first_vpn vregion_last_vpn
  check_pair-ok v w s is h =
      let last : (v.first_vpn + v.nbr_pages + 2 ^ 32 - 1) % 2 ^ 32 ≡ v.first_vpn + v.nbr_pages - 1 =
        omega (arith, is.0, is.1) in
      rw
        (
          ge→ltb w.first_vpn v.first_vpn (omega arith),
          last,
          gt→leb w.first_vpn (v.first_vpn + v.nbr_pages - 1) (omega (arith, is.0)),
        )
        refl

  check_pair-panic :
      (v w : Vregion) (s : Regions C)
      → IsRegion v
      → w.first_vpn < v.first_vpn + v.nbr_pages
      → check_pair v w s ≡ panic
  unfolding check_pair vregion_first_vpn vregion_last_vpn
  check_pair-panic v w s is h =
      let last : (v.first_vpn + v.nbr_pages + 2 ^ 32 - 1) % 2 ^ 32 ≡ v.first_vpn + v.nbr_pages - 1 =
        omega (arith, is.0, is.1) in
      elim (Bool-cases (ltb w.first_vpn v.first_vpn)) [
        | inl e ↦ rw e refl
        | inr e ↦
            rw (e, last, le→leb w.first_vpn (v.first_vpn + v.nbr_pages - 1) (omega arith)) refl
      ]

  follow-ok : (p : Ptr) (s : Regions C) → p ≢ null → on_next (follow p) s ≡ ok (s.next p, s)
  unfolding on_next follow
  follow-ok p s ne = rw (ne→== p null ne) refl

  read_region-ok : (p : Ptr) (s : Regions C) → p ≢ null → read_region p s ≡ ok (s.region p, s)
  unfolding read_region
  read_region-ok p s ne = rw (ne→== p null ne) refl

  check_order-none : (fuel : ℕ) (s : Regions C) → 0 < fuel → check_order fuel null s ≡ ok (tt, s)
  unfolding check_order
  check_order-none zero s h = absurd (omega arith)
  check_order-none (suc fuel) s h = refl

  module _ (fuel : ℕ) (x : Ptr) (s : Regions C) (ne : x ≢ null) where
    check_order-last : s.next x ≡ null → check_order (suc fuel) x s ≡ check_order fuel null s
    unfolding check_order
    check_order-last e = rw (ne→== x null ne, follow-ok x s ne, read_region-ok x s ne, e) refl

    check_order-next :
        (y : Ptr) (r : Outcome (Unit {0} × Regions C))
        → y ≢ null
        → s.next x ≡ y
        → check_pair (s.region x) (s.region y) s ≡ r
        → check_order (suc fuel) x s ≡ and_then r (λ (_, s'). check_order fuel y s')
    unfolding check_order
    check_order-next y r ne' e h =
        rw
          (
            ne→== x null ne,
            follow-ok x s ne,
            read_region-ok x s ne,
            e,
            ne→== y null ne',
            read_region-ok y s ne',
            h,
          )
          refl

  -- For a list of regions of at least one page each, with fuel above its length, the test of
  -- virtual_page_boot_init passes and changes nothing exactly when each region ends before the next
  -- one starts, and panics otherwise.
  pub check_order-AreOrdered :
      (fuel : ℕ) (p : Ptr) (ps : List Ptr) (s : Regions C)
      → IsChain s.next p ps
      → AreRegions s.region ps
      → length ps < fuel
      → (AreOrdered s.region ps × (check_order fuel p s ≡ ok (tt, s)))
        ⊎ ((AreOrdered s.region ps → ⊥) × (check_order fuel p s ≡ panic))
  unfolding check_order
  check_order-AreOrdered fuel p [] s chain rs enough =
      inl (tt, rw chain (check_order-none fuel s (omega arith)))
  check_order-AreOrdered zero p (x ∷ ps) s chain rs enough = absurd (omega arith)
  check_order-AreOrdered (suc fuel) p (x ∷ []) s (e, ne, chain) rs enough =
      inl (tt, rw e (check_order-last fuel x s ne chain ∙ check_order-none fuel s (omega arith)))
  check_order-AreOrdered (suc fuel) p (x ∷ y ∷ ps) s (e, ne, (ey, ne', chain)) (r, rs) enough =
      elim (le_or_gt ((s.region x).first_vpn + (s.region x).nbr_pages) (s.region y).first_vpn) [
        | inl h ↦
            let step =
              check_order-next fuel x s ne y (ok (tt, s)) ne' ey
                (check_pair-ok (s.region x) (s.region y) s r h) in
            elim (check_order-AreOrdered fuel y (y ∷ ps) s (refl, ne', chain) rs (omega arith)) [
              | inl (o, done) ↦ inl ((h, o), rw e (step ∙ done))
              | inr (out, done) ↦ inr (λ o. out o.1, rw e (step ∙ done))
            ]
        | inr h ↦ inr (
          λ o. absurd (omega (arith, o.0)),
          rw e (
              check_order-next fuel x s ne y panic ne' ey
                (check_pair-panic (s.region x) (s.region y) s r h)),
        )
      ]
