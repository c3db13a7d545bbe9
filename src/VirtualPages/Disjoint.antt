-- ===== src/VirtualPages/Disjoint.antt =====
-- _vregion_alloc of src/kernel/mm/virtual_pages.c keeps the regions disjoint.
use atros.Base.{
  ℕ, ◌+◌, ◌-◌, ◌≤◌, ◌<◌, ◌≡◌, ◌≢◌, refl, sym, subst, ◌∙◌, List, ◌∷◌, ◌++◌, NotIn, In, arith, inl,
  inr, ◌⊎◌, ok, length, eq_or_ne, Outcome,
}
use atros.LinkedLists.Links.{Ptr, null}
use atros.LinkedLists.Simple.Chain.{
  NotIn-ne, Distinct-middle, In-drop, In-insert, In-middle, NotIn-drop,
}
use atros.VirtualPages.Regions.{Regions, Vregion, ObjsCache, vregion_alloc_of}
use atros.VirtualPages.Order.{IsBefore}
use atros.VirtualPages.Search.{AreSmall}
use atros.VirtualPages.Used.{IsRegions, IsUsedPlace}
use atros.VirtualPages.Alloc.{Allocated, vregion_alloc-Allocated}

-- A region of one of the lists.
abbrev pub IsListed : List Ptr → List Ptr → Ptr → Type 0
IsListed xs ys p = In p xs ⊎ In p ys

-- No two regions of the lists share a page.
abbrev pub AreDisjoint : (Ptr → Vregion) → List Ptr → List Ptr → Type 0
AreDisjoint region xs ys =
    (p q : Ptr)
    → IsListed xs ys p
    → IsListed xs ys q
    → p ≢ q
    → IsBefore (region p) (region q) ⊎ IsBefore (region q) (region p)

-- The pages of `q` were pages of `o`, which is q itself, or the region that was cut.
record Origin (region region' : Ptr → Vregion) (p upper : Ptr) (n : ℕ) (q o : Ptr) : Type 0 where
  pub above : (region o).first_vpn ≤ (region' q).first_vpn
  pub below :
      (region' q).first_vpn + (region' q).nbr_pages ≤ (region o).first_vpn + (region o).nbr_pages
  pub from : (q ≡ o) ⊎ ((q ≡ upper) × (o ≡ p) × ((region p).first_vpn + n ≤ (region' q).first_vpn))

module _ {C : Type 0} (s : Regions C) (pre : List Ptr) (p : Ptr)
    (post used_pre used_post : List Ptr) (n : ℕ) (upper : Ptr) (r : Outcome (Ptr × Regions C))
    (a : Allocated s pre p post used_pre used_post n upper r)
    (w : IsRegions s (pre ++ p ∷ post) (used_pre ++ used_post)) (le : n ≤ (s.region p).nbr_pages)
    (new : NotIn upper (pre ++ p ∷ post)) (new' : NotIn upper (used_pre ++ used_post)) where
  abbrev Came : Ptr → Type 0
  Came q =
      (o : Ptr) × IsListed (pre ++ p ∷ post) (used_pre ++ used_post) o
      × Origin s.region a.after.region p upper n q o

  unchanged : (q : Ptr) → q ≢ p → q ≢ upper → Origin s.region a.after.region p upper n q q
  unchanged q ne ne' =
      let e = a.others q ne ne' in
      record { above = rw e (omega arith); below = rw e (omega arith); from = inl refl }

  free-Came : (q : Ptr) → In q (pre ++ post) → Came q
  free-Came q i =
      let out : NotIn p (pre ++ post) = Distinct-middle pre p post w.free_distinct in
      (
        q,
        inl (In-drop q pre p post i),
        unchanged q (λ z. NotIn-ne p q (pre ++ post) out i (sym z))
            (λ z. NotIn-ne upper q (pre ++ post) (NotIn-drop upper pre p post new) i (sym z)),
      )

  used-Came : (q : Ptr) → In q (used_pre ++ used_post) → Came q
  used-Came q i = (
    q,
    inr i,
    unchanged q
        (λ z. NotIn-ne p q (used_pre ++ used_post) (w.apart p (In-middle pre p post)) i (sym z))
        (λ z. NotIn-ne upper q (used_pre ++ used_post) new' i (sym z)),
  )

  lower-Came : Came p
  lower-Came = (
    p,
    inl (In-middle pre p post),
    record {
      above = rw a.lower_part (omega arith);
      below = rw a.lower_part (omega arith);
      from = inl refl;
    },
  )

  upper-Came :
      a.after.region upper
        ≡ record { first_vpn = (s.region p).first_vpn + n; nbr_pages = (s.region p).nbr_pages - n }
      → Came upper
  upper-Came h = (
    p,
    inl (In-middle pre p post),
    record {
      above = rw h (omega arith);
      below = rw h (omega (arith, le));
      from = inr (refl, refl, rw h (omega arith));
    },
  )

  all-Came : (q : Ptr) → IsListed (pre ++ (a.rest ++ post)) (used_pre ++ p ∷ used_post) q → Came q
  all-Came q (inr i) = elim (In-insert q used_pre p used_post i) [
    | inl e ↦ rw e lower-Came
    | inr i' ↦ used-Came q i'
  ]
  all-Came q (inl i) = elim a.is_rest [
    | inl (e, _) ↦ free-Came q (subst (λ (t : List Ptr). In q (pre ++ (t ++ post))) e i)
    | inr (e, h) ↦
        elim (In-insert q pre upper post
          (subst (λ (t : List Ptr). In q (pre ++ (t ++ post))) e i)) [
            | inl z ↦ rw z (upper-Came h)
            | inr i' ↦ free-Came q i'
          ]
  ]

  -- Two regions that come from one are its two parts.
  from_one :
      (q q' o : Ptr)
      → Origin s.region a.after.region p upper n q o
      → Origin s.region a.after.region p upper n q' o
      → q ≢ q'
      → IsBefore (a.after.region q) (a.after.region q')
        ⊎ IsBefore (a.after.region q') (a.after.region q)
  from_one q q' o f g ne = elim f.from [
    | inl e ↦ elim g.from [
      | inl e' ↦ absurd (ne (e ∙ sym e'))
      | inr (_, z, h) ↦ inl (rw (e, z, a.lower_part) h)
    ]
    | inr (e, z, h) ↦ elim g.from [
      | inl e' ↦ inr (rw (e', z, a.lower_part) h)
      | inr (e', _, _) ↦ absurd (ne (e ∙ sym e'))
    ]
  ]

  all-AreDisjoint :
      AreDisjoint s.region (pre ++ p ∷ post) (used_pre ++ used_post)
      → AreDisjoint a.after.region (pre ++ (a.rest ++ post)) (used_pre ++ p ∷ used_post)
  all-AreDisjoint d q q' i i' ne =
      let (o, l, f) = all-Came q i in
      let (o', l', g) = all-Came q' i' in
      elim (eq_or_ne o o') [
        | inl e ↦ from_one q q' o f (rw e g) ne
        | inr apart ↦ elim (d o o' l l' apart) [
          | inl h ↦ inl (omega (arith, h, f.below, g.above))
          | inr h ↦ inr (omega (arith, h, g.below, f.above))
        ]
      ]

-- Under the conditions of vregion_alloc-Allocated, if no two regions of the free and the used list
-- share a page, then _vregion_alloc returns p in a state in which no two regions of the new free
-- list (with the rest of p, if any, in its place) and the new used list (with p) share a page.
pub vregion_alloc-AreDisjoint :
    {C : Type 0} (fuel : ℕ) (objs : ObjsCache C) (s : Regions C) (pre : List Ptr) (p : Ptr)
    (post used_pre used_post : List Ptr) (n : ℕ) (upper : Ptr) (c : C)
    → IsRegions s (pre ++ p ∷ post) (used_pre ++ used_post)
    → AreSmall s.region n pre
    → n ≤ (s.region p).nbr_pages
    → 0 < n
    → IsUsedPlace s.region p used_pre used_post
    → objs.retrieve_free_obj s.cache ≡ ok (upper, c)
    → upper ≢ null
    → NotIn upper (pre ++ p ∷ post)
    → NotIn upper (used_pre ++ used_post)
    → length pre < fuel
    → length used_pre < fuel
    → AreDisjoint s.region (pre ++ p ∷ post) (used_pre ++ used_post)
    → (after : Regions C) × (rest : List Ptr) × (vregion_alloc_of fuel objs n s ≡ ok (p, after))
      × IsRegions after (pre ++ (rest ++ post)) (used_pre ++ p ∷ used_post)
      × AreDisjoint after.region (pre ++ (rest ++ post)) (used_pre ++ p ∷ used_post)
vregion_alloc-AreDisjoint fuel objs s pre p post used_pre used_post n upper c w small le pos place e
      ne new new' enough enough' d =
    let a =
      vregion_alloc-Allocated fuel objs s pre p post used_pre used_post n upper c w small le pos
        place e ne new new' enough enough' in
    (
      a.after,
      a.rest,
      a.done,
      a.regions,
      all-AreDisjoint s pre p post used_pre used_post n upper (vregion_alloc_of fuel objs n s) a w
          le new new' d,
    )
