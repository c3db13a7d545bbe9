-- ===== src/Kernel/Allocation.antt =====
-- objs_cache_alloc of src/kernel/mm/slab.c on a cache with a free object, and what becomes of
-- regions that are merged.
use atros.Base.{
  ℕ, suc, ◌+◌, ◌-◌, ◌%◌, ◌^◌, ◌<◌, ◌≡◌, ◌≢◌, refl, subst, List, ◌∷◌, arith, ok, panic, Outcome,
  ne→==, le→leb, ==_refl, ltb, ◌⊎◌, inl, inr, Bool-cases, if◌then◌else◌, eq_or_ne, ltb→lt, ltb→ge,
}
use atros.LinkedLists.Links.{Ptr, null, update}
use atros.VirtualPages.Regions.{
  Vregion, read_region, edit_region, vregion_first_vpn, vregion_last_vpn,
}
use atros.Slabs.State.{Slabs, read_cache}
use atros.Slabs.Caches.{retrieve_free_obj}
use atros.Slabs.Steps.{read_cache-ok}
use atros.Slabs.Setup.{IsSlab}
use atros.Slabs.Invariant.{Objs, IsCache}
use atros.Slabs.Taken.{Retrieves}
use atros.Slabs.Taking.{retrieve_free_obj-IsCache}
use atros.Kernel.State.{Kernel, on_slabs, on_regions}
use atros.Kernel.Creation.{
  objs_cache_alloc, keep_reserves, objs_cache_free, merge_ordered, vregion_merge,
}

abbrev pub slabs_of : Kernel → Slabs
slabs_of k = k.regions.cache

abbrev pub with_slabs : Kernel → Slabs → Kernel
with_slabs k s = record k { regions = record k.regions { cache = s } }

-- The caches of slabs and of regions have more objects than the two that stay in reserve.
pub record HasReserves (k : Kernel) : Type 0 where
  pub slab_ne : k.cache_slab ≢ null
  pub vregion_ne : k.cache_vregion ≢ null
  pub slabs : 2 < ((slabs_of k).cache k.cache_slab).free_objs_count
  pub vregions : 2 < ((slabs_of k).cache k.cache_vregion).free_objs_count

on_slabs-read :
    (c : Ptr) (k : Kernel) → c ≢ null → on_slabs (read_cache c) k ≡ ok ((slabs_of k).cache c, k)
unfolding on_slabs
on_slabs-read c k ne = rw (read_cache-ok c (slabs_of k) ne) refl

keep_reserves-none : (fuel : ℕ) (k : Kernel) → HasReserves k → keep_reserves fuel k ≡ ok (tt, k)
unfolding keep_reserves
keep_reserves-none fuel k w =
    let a = ((slabs_of k).cache k.cache_slab).free_objs_count in
    let b = ((slabs_of k).cache k.cache_vregion).free_objs_count in
    rw
      (
        on_slabs-read k.cache_slab k w.slab_ne,
        le→leb 2 a (omega (arith, w.slabs)),
        ne→== a 2 (λ e. omega (arith, w.slabs)),
        on_slabs-read k.cache_vregion k w.vregion_ne,
        ne→== b 2 (λ e. omega (arith, w.vregions)),
      )
      refl

-- An object of the cache is taken, and nothing but the slabs of the kernel changes.
pub record Allocs (k : Kernel) (c : Ptr) (ps fs us : List Ptr) (objs : Objs)
    (r : Outcome (Ptr × Kernel)) : Type 0 where
  pub after : Slabs
  pub obj : Ptr
  pub done : r ≡ ok (obj, with_slabs k after)
  pub retrieves : Retrieves (slabs_of k) c ps fs us objs (ok (obj, after))

objs_cache_alloc-ok :
    (fuel : ℕ) (c obj : Ptr) (k : Kernel) (after : Slabs)
    → c ≢ null
    → HasReserves k
    → 0 < ((slabs_of k).cache c).free_objs_count
    → retrieve_free_obj c (slabs_of k) ≡ ok (obj, after)
    → obj ≢ null
    → objs_cache_alloc (suc fuel) c k ≡ ok (obj, with_slabs k after)
unfolding objs_cache_alloc on_slabs
objs_cache_alloc-ok fuel c obj k after ne w some done ne' =
    rw
      (
        ne→== c null ne,
        keep_reserves-none fuel k w,
        read_cache-ok c (slabs_of k) ne,
        ne→== ((slabs_of k).cache c).free_objs_count 0 (λ e. omega (arith, some)),
        done,
        ne→== obj null ne',
      )
      refl

-- The objects of a slab are not at NULL.
head-ne_null : (s : Slabs) (p x : Ptr) (xs ys : List Ptr) → IsSlab s p ys → ys ≡ x ∷ xs → x ≢ null
head-ne_null s p x xs ys w e =
    let w' : IsSlab s p (x ∷ xs) = rw e at (w) in let (_, ne, _) = w'.chain in ne

-- For a well-formed cache with a free object, in a kernel whose caches of slabs and of regions have
-- more than their reserves, objs_cache_alloc ends without a fault or a panic, takes an object that
-- was free, keeps the cache well formed, and changes nothing of the kernel but the slabs.
pub objs_cache_alloc-Allocs :
    (fuel : ℕ) (c : Ptr) (k : Kernel) (ps fs us : List Ptr) (objs : Objs)
    → HasReserves k
    → IsCache (slabs_of k) c ps fs us objs
    → 0 < ((slabs_of k).cache c).free_objs_count
    → Allocs k c ps fs us objs (objs_cache_alloc (suc fuel) c k)
objs_cache_alloc-Allocs fuel c k ps fs us objs w cache some =
    let f = retrieve_free_obj-IsCache (slabs_of k) c ps fs us objs cache some in
    let ne =
      head-ne_null (slabs_of k) f.slab f.obj f.rest (objs f.slab)
        (cache.hold.slabs f.slab f.was_listed) f.was_free in
    record {
      after = f.after;
      obj = f.obj;
      done = objs_cache_alloc-ok fuel c f.obj k f.after cache.ne_null w some f.done ne;
      retrieves = subst (Retrieves (slabs_of k) c ps fs us objs) f.done f;
    }

on_regions-read :
    (p : Ptr) (k : Kernel) → p ≢ null → on_regions (read_region p) k ≡ ok (k.regions.region p, k)
unfolding on_regions read_region
on_regions-read p k ne = rw (ne→== p null ne) refl

on_regions-edit :
    (p : Ptr) (f : Vregion → Vregion) (k : Kernel)
    → p ≢ null
    → on_regions (edit_region p f) k
      ≡ ok (
        tt,
        record k {
          regions = record k.regions {
            region = update k.regions.region p (f (k.regions.region p));
          };
        },
      )
unfolding on_regions edit_region
on_regions-edit p f k ne = rw (ne→== p null ne) refl

objs_cache_free-panic :
    (c obj : Ptr) (k : Kernel) → c ≢ null → obj ≢ null → objs_cache_free c obj k ≡ panic
unfolding objs_cache_free
objs_cache_free-panic c obj k ne ne' = rw (ne→== c null ne, ne→== obj null ne') refl

-- The pages of a region, at least one, below the last page number.
abbrev pub IsRegion : Vregion → Type 0
IsRegion v = (0 < v.nbr_pages) × (v.first_vpn + v.nbr_pages < 2 ^ 32)

abbrev pub AreAdjacent : Vregion → Vregion → Type 0
AreAdjacent v w =
    (v.first_vpn + v.nbr_pages ≡ w.first_vpn) ⊎ (w.first_vpn + w.nbr_pages ≡ v.first_vpn)

module _ (p q : Ptr) (k : Kernel) (ne : p ≢ null) (ne' : q ≢ null) where
  merge_ordered-apart :
      IsRegion (k.regions.region p)
      → (k.regions.region p).first_vpn + (k.regions.region p).nbr_pages
        ≢ (k.regions.region q).first_vpn
      → merge_ordered p q k ≡ ok (null, k)
  unfolding merge_ordered vregion_last_vpn vregion_first_vpn
  merge_ordered-apart r out =
      let v = k.regions.region p in
      let w = k.regions.region q in
      let behind : ((v.first_vpn + v.nbr_pages + 2 ^ 32 - 1) % 2 ^ 32 + 1) % 2 ^ 32
          ≡ v.first_vpn + v.nbr_pages =
        omega (arith, r.0, r.1) in
      rw
        (
          on_regions-read p k ne,
          on_regions-read q k ne',
          behind,
          ne→== (v.first_vpn + v.nbr_pages) w.first_vpn out,
        )
        refl

  merge_ordered-panic :
      k.cache_vregion ≢ null
      → IsRegion (k.regions.region p)
      → (k.regions.region p).first_vpn + (k.regions.region p).nbr_pages
        ≡ (k.regions.region q).first_vpn
      → merge_ordered p q k ≡ panic
  unfolding merge_ordered vregion_last_vpn vregion_first_vpn
  merge_ordered-panic nc r e =
      let v = k.regions.region p in
      let w = k.regions.region q in
      let behind : ((v.first_vpn + v.nbr_pages + 2 ^ 32 - 1) % 2 ^ 32 + 1) % 2 ^ 32 ≡ w.first_vpn =
        omega (arith, r.0, r.1, e) in
      let grow : Vregion → Vregion =
        λ u. record u { nbr_pages = (u.nbr_pages + w.nbr_pages) % 2 ^ 32 } in
      let k' : Kernel = record k {
        regions = record k.regions { region = update k.regions.region p (grow v) };
      } in
      rw
        (
          on_regions-read p k ne,
          on_regions-read q k ne',
          behind,
          ==_refl w.first_vpn,
          on_regions-edit p grow k ne,
          objs_cache_free-panic k.cache_vregion q k' nc ne',
        )
        refl

vregion_merge-order :
    (p q : Ptr) (k : Kernel)
    → p ≢ null
    → q ≢ null
    → vregion_merge p q k
      ≡ (if ltb (k.regions.region q).first_vpn (k.regions.region p).first_vpn
            then merge_ordered q p
            else merge_ordered p q)
          k
unfolding vregion_merge vregion_first_vpn
vregion_merge-order p q k ne ne' =
    rw (ne→== p null ne, ne→== q null ne', on_regions-read p k ne, on_regions-read q k ne') refl

-- Two regions of at least one page each are merged only when one starts where the other ends; but
-- then vregion_merge frees an object, and objs_cache_free panics. For other regions the result is
-- NULL and nothing changes.
pub vregion_merge-cases :
    (p q : Ptr) (k : Kernel)
    → p ≢ null
    → q ≢ null
    → k.cache_vregion ≢ null
    → IsRegion (k.regions.region p)
    → IsRegion (k.regions.region q)
    → (AreAdjacent (k.regions.region p) (k.regions.region q) × (vregion_merge p q k ≡ panic))
      ⊎ ((AreAdjacent (k.regions.region p) (k.regions.region q) → ⊥)
          × (vregion_merge p q k ≡ ok (null, k)))
vregion_merge-cases p q k ne ne' nc r r' =
    let v = k.regions.region p in
    let w = k.regions.region q in
    elim (Bool-cases (ltb w.first_vpn v.first_vpn)) [
      | inl e ↦ elim (eq_or_ne (w.first_vpn + w.nbr_pages) v.first_vpn) [
        | inl at_end ↦ inl (
          inr at_end,
          rw (vregion_merge-order p q k ne ne', e) (merge_ordered-panic q p k ne' ne nc r' at_end),
        )
        | inr apart ↦ inr (
          λ adj. ground (arith, adj, ltb→lt w.first_vpn v.first_vpn e, r.0, apart),
          rw (vregion_merge-order p q k ne ne', e) (merge_ordered-apart q p k ne' ne r' apart),
        )
      ]
      | inr e ↦ elim (eq_or_ne (v.first_vpn + v.nbr_pages) w.first_vpn) [
        | inl at_end ↦ inl (
          inl at_end,
          rw (vregion_merge-order p q k ne ne', e) (merge_ordered-panic p q k ne ne' nc r at_end),
        )
        | inr apart ↦ inr (
          λ adj. ground (arith, adj, ltb→ge w.first_vpn v.first_vpn e, r'.0, apart),
          rw (vregion_merge-order p q k ne ne', e) (merge_ordered-apart p q k ne ne' r apart),
        )
      ]
    ]
