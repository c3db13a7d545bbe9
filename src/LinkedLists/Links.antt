-- ===== src/LinkedLists/Links.antt =====
-- The `prev` and `next` fields of the elements that the macros of src/include/kernel/list.h link.
-- A pointer is an address, NULL is 0, and a read or a write through NULL is a fault.
use mathlib.Core.Path.{fun_ext}
use native.Mathlib.Omega.{arith}
use atros.Base.{ℕ, ◌≡◌, ◌≢◌, ◌==◌, if◌then◌else◌, ok, fault, Cmd, ne→==, ==_iff}

abbrev pub Ptr : Type 0
Ptr = ℕ

abbrev pub null : Ptr
null = 0

pub record Links : Type 0 where
  pub next : Ptr → Ptr
  pub prev : Ptr → Ptr

unfoldable pub update {ℓ} : {A : Type ℓ} → (ℕ → A) → ℕ → A → ℕ → A
update f p v q = if q == p then v else f q

module _ {ℓ} {A : Type ℓ} (f : ℕ → A) (p q : ℕ) (v : A) where
  pub update_eq : q ≡ p → update f p v q ≡ v
  unfolding update
  update_eq e = rw ((==_iff q p).1 e)

  pub update_ne : q ≢ p → update f p v q ≡ f q
  unfolding update
  update_ne ne = rw (ne→== q p ne)

pub update-update {ℓ} :
    {A : Type ℓ} (f : ℕ → A) (p : ℕ) (v w : A) → update (update f p v) p w ≡ update f p w
unfolding update
update-update f p v w = fun_ext λ q. ground arith

abbrev pub with_next : Links → Ptr → Ptr → Links
with_next l p v = record l { next = update l.next p v }

abbrev pub with_prev : Links → Ptr → Ptr → Links
with_prev l p v = record l { prev = update l.prev p v }

unfoldable pub get_next : Ptr → Cmd Links Ptr
get_next p l = if p == null then fault else ok (l.next p, l)

unfoldable pub get_prev : Ptr → Cmd Links Ptr
get_prev p l = if p == null then fault else ok (l.prev p, l)

unfoldable pub set_next : Ptr → Ptr → Cmd Links (Unit {0})
set_next p v l = if p == null then fault else ok (tt, with_next l p v)

unfoldable pub set_prev : Ptr → Ptr → Cmd Links (Unit {0})
set_prev p v l = if p == null then fault else ok (tt, with_prev l p v)

module _ (p : Ptr) (ne : p ≢ null) (l : Links) where
  pub get_next-ok : get_next p l ≡ ok (l.next p, l)
  unfolding get_next
  get_next-ok = rw (ne→== p null ne)

  pub get_prev-ok : get_prev p l ≡ ok (l.prev p, l)
  unfolding get_prev
  get_prev-ok = rw (ne→== p null ne)

  pub set_next-ok : (v : Ptr) → set_next p v l ≡ ok (tt, with_next l p v)
  unfolding set_next
  set_next-ok v = rw (ne→== p null ne)

  pub set_prev-ok : (v : Ptr) → set_prev p v l ≡ ok (tt, with_prev l p v)
  unfolding set_prev
  set_prev-ok v = rw (ne→== p null ne)
