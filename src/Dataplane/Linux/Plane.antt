-- ===== src/Dataplane/Linux/Plane.antt =====
-- linux.go: the Dataplane struct, and its methods as actions that read and change it, and stop at
-- the first error. What was done before an error stays done.
use lotsman.Prelude.{ℕ, Bool, Option, none, some, List, [], ◌∷◌, String}
use lotsman.Prelude.Maps.{Map}
use lotsman.Net.{Addr}
use lotsman.Dataplane.Linux.Kernel.{Read, found, unread, Added, done, exists, failed}

-- `world` is the kernel's state.
pub record Plane (World : Type 0) : Type 0 where
  pub down : String
  pub tables : Map String ℕ
  pub alive : Map String Bool
  pub allowed : Map Addr Bool
  pub world : World

pub data Outcome (A : Type 0) : Type 0 where
  ok : A → Outcome A
  err : String → Outcome A

abbrev pub Act : Type 0 → Type 0 → Type 0
Act World A = Plane World → Outcome A × Plane World

module _ {World : Type 0} where
  abbrev pub continue : {A B : Type 0} → Outcome A → (A → Act World B) → Act World B
  continue (ok a) f s = f a s
  continue (err e) f s = (err e, s)

  infixl 5 ◌>>=◌ ◌>>◌
  unfoldable pub ◌>>=◌ : {A B : Type 0} → Act World A → (A → Act World B) → Act World B
  ◌>>=◌ m f s = let (r, s') = m s in continue r f s'

  abbrev pub ◌>>◌ : {B : Type 0} → Act World (Unit {0}) → Act World B → Act World B
  m >> k = m >>= λ _. k

  abbrev pub pure : {A : Type 0} → A → Act World A
  pure a s = (ok a, s)

  abbrev pub raise : {A : Type 0} → String → Act World A
  raise e s = (err e, s)

  abbrev pub gets : {A : Type 0} → (Plane World → A) → Act World A
  gets f s = (ok (f s), s)

  abbrev pub lift : {A : Type 0} → Outcome A → Act World A
  lift r s = (r, s)

  -- A call of the kernel that fails with a text, and one that lists.
  unfoldable pub call : (World → Option String × World) → Act World (Unit {0})
  call f s =
      let (e, w) = f s.world in
      elim e [ none ↦ (ok tt, record s { world = w }) | some t ↦ (err t, record s { world = w }) ]

  unfoldable pub read : {A : Type 0} → (World → Read A) → Act World A
  read f s = elim (f s.world) [ found a ↦ (ok a, s) | unread t ↦ (err t, s) ]

  -- `if err := add(x); err != nil && !errors.Is(err, os.ErrExist) { return err }`
  unfoldable pub call_add : (World → Added × World) → Act World (Unit {0})
  call_add f s =
      let (e, w) = f s.world in
      elim e [
        | done ↦ (ok tt, record s { world = w })
        | exists ↦ (ok tt, record s { world = w })
        | failed t ↦ (err t, record s { world = w })
      ]

  -- `for _, x := range xs { if err := f(x); err != nil { return err } }`
  unfoldable pub for_each :
      {A : Type 0} → List A → (A → Act World (Unit {0})) → Act World (Unit {0})
  unfolding ◌>>=◌
  for_each [] f = pure tt
  for_each (x ∷ xs) f = f x >> for_each xs f
