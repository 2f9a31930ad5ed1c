-- ===== src/Store/Address.antt =====
-- firstFree of internal/store/store.go: which address a new peer gets.
use native.Mathlib.Nat.{div-zero, le-div_iff_mul-le, div-mul-le_self}
use lotsman.Prelude.{
  ℕ, ◌+◌, ◌-◌, ◌/◌, ◌≤◌, ◌<◌, suc, zero, ◌≡◌, refl, sym, subst, ap, ◌∙◌, ◌⊎◌, inl, inr, Bool, true,
  false, not, ◌&&◌, Option, none, some, List, any, ◌==◌, nat_eq, Bool-cases, arith,
}
use lotsman.Net.{Addr, Prefix, next, contains, addr_limit, prefix_size}
use lotsman.Store.{free_from, first_free, is_broadcast}

-- An address that a peer may not get: another peer's, or the broadcast address.
abbrev pub IsTaken : Prefix → List Addr → Addr → Type 0
IsTaken subnet used a = (any (λ u. u == a) used ≡ true) ⊎ (is_broadcast subnet a ≡ true)

div_mono : (s a b : ℕ) → a ≤ b → a / s ≤ b / s
div_mono zero a b h = omega (arith, div-zero a, div-zero b)
div_mono (suc s) a b h =
    (le-div_iff_mul-le {k = suc s} {x = a / suc s} {y = b} (omega arith)).1
      (omega (arith, div-mul-le_self a (suc s)))

abbrev may_get : Prefix → List Addr → Addr → Bool
may_get subnet used a = not (any (λ u. u == a) used) && not (is_broadcast subnet a)

may_get-IsTaken :
    (p : Prefix) (used : List Addr) (a : Addr) → may_get p used a ≡ true → ¬ IsTaken p used a
may_get-IsTaken p used a g t = ground arith

IsTaken-may_get :
    (p : Prefix) (used : List Addr) (a : Addr) → may_get p used a ≡ false → IsTaken p used a
IsTaken-may_get p used a g = ground arith

free_from-zero : (p : Prefix) (used : List Addr) (a : Addr) → free_from zero p used a ≡ none
unfolding free_from
free_from-zero p used a = refl

free_from-outside :
    (fuel : ℕ) (p : Prefix) (used : List Addr) (a : Addr)
    → contains p a ≡ false
    → free_from (suc fuel) p used a ≡ none
unfolding free_from
free_from-outside fuel p used a e = rw (e, free_from)

free_from-free :
    (fuel : ℕ) (p : Prefix) (used : List Addr) (a : Addr)
    → contains p a ≡ true
    → may_get p used a ≡ true
    → free_from (suc fuel) p used a ≡ some a
unfolding free_from
free_from-free fuel p used a e g = rw (e, g, free_from)

free_from-taken :
    (fuel : ℕ) (p : Prefix) (used : List Addr) (a : Addr)
    → contains p a ≡ true
    → may_get p used a ≡ false
    → free_from (suc fuel) p used a ≡ free_from fuel p used (next a)
unfolding free_from
free_from-taken fuel p used a e g = rw (e, g, free_from)

-- The addresses of a prefix lie together: past the first that it does not contain there is none.
contains_convex :
    (p : Prefix) (a b : Addr) → p.addr ≤ a → a ≤ b → contains p a ≡ false → contains p b ≡ false
unfolding contains prefix_size
contains_convex p a b h k n =
    ground (arith, div_mono (prefix_size p) p.addr a h, div_mono (prefix_size p) a b k)

next_below : (p : Prefix) (a : Addr) → contains p a ≡ true → (a < addr_limit) × (next a ≡ a + 1)
unfolding contains next
next_below p a h = ground arith

contains_full : (p : Prefix) (a : Addr) → addr_limit ≤ a → ¬ (contains p a ≡ true)
unfolding contains
contains_full p a h k = ground arith

-- The first address from `a` on, with none before it, or none at all.
abbrev pub IsFirst : Prefix → List Addr → Addr → Option Addr → Type 0
IsFirst subnet used a (some b) =
    (contains subnet b ≡ true)
    × (¬ IsTaken subnet used b)
    × (a ≤ b)
    × ((c : Addr) → a ≤ c → c < b → (contains subnet c ≡ true) × IsTaken subnet used c)
IsFirst subnet used a none = (c : Addr) → a ≤ c → contains subnet c ≡ true → IsTaken subnet used c

at_or_past : (a c : ℕ) → a ≤ c → (a ≡ c) ⊎ (a + 1 ≤ c)
at_or_past a c h = omega (arith, h)

IsFirst-step :
    (p : Prefix) (used : List Addr) (a : Addr) (o : Option Addr)
    → contains p a ≡ true
    → IsTaken p used a
    → IsFirst p used (a + 1) o
    → IsFirst p used a o
IsFirst-step p used a none e t h =
    λ c k m. elim (at_or_past a c k) [ inl q ↦ subst (IsTaken p used) q t | inr l ↦ h c l m ]
IsFirst-step p used a (some b) e t (u, v, w, x) = (
  u,
  v,
  omega (arith, w),
  λ c k m. elim (at_or_past a c k) [
    | inl q ↦ subst (λ i. (contains p i ≡ true) × IsTaken p used i) q (e, t)
    | inr l ↦ x c l m
  ],
)

free_from_lem :
    (fuel : ℕ) (subnet : Prefix) (used : List Addr) (a : Addr)
    → subnet.addr ≤ a
    → addr_limit ≤ a + fuel
    → IsFirst subnet used a (free_from fuel subnet used a)
free_from_lem zero subnet used a h f =
    subst (IsFirst subnet used a) (sym (free_from-zero subnet used a))
      (λ c k m. absurd (contains_full subnet c (omega arith) m))
free_from_lem (suc fuel) subnet used a h f = elim (Bool-cases (contains subnet a)) [
  | inr e ↦
      subst (IsFirst subnet used a) (sym (free_from-outside fuel subnet used a e))
        (λ c k m. ground (arith, contains_convex subnet a c h k e))
  | inl e ↦
      let (l, n) = next_below subnet a e in
      elim (Bool-cases (may_get subnet used a)) [
        | inl g ↦
            subst (IsFirst subnet used a) (sym (free_from-free fuel subnet used a e g))
              (e, may_get-IsTaken subnet used a g, omega arith, λ c k m. absurd (omega arith))
        | inr g ↦ subst (IsFirst subnet used a) (sym (free_from-taken fuel subnet used a e g)) (
            IsFirst-step subnet used a (free_from fuel subnet used (next a)) e
              (IsTaken-may_get subnet used a g)
              (subst (λ c. IsFirst subnet used (a + 1) (free_from fuel subnet used c)) (sym n)
                (free_from_lem fuel subnet used (a + 1) (omega (arith, h)) (omega (arith, f)))))
      ]
]

next_below_limit : (a : Addr) → a < addr_limit → next a ≡ a + 1
unfolding next
next_below_limit a h = ground arith

next-next : (a : Addr) → a + 2 ≤ addr_limit → next (next a) ≡ a + 2
next-next a h =
    ap next (next_below_limit a (omega (arith, h)))
    ∙ (next_below_limit (a + 1) (omega (arith, h)) ∙ omega arith)

-- firstFree finds the lowest address of the subnet past the network address and the gateway that is
-- neither a peer's nor the broadcast address, and it finds none only if every such address of the
-- subnet is taken.
pub first_free_lem :
    (subnet : Prefix) (used : List Addr)
    → subnet.addr + 2 ≤ addr_limit
    → IsFirst subnet used (subnet.addr + 2) (first_free subnet used)
unfolding first_free
first_free_lem subnet used h =
    subst (λ a. IsFirst subnet used (subnet.addr + 2) (free_from (addr_limit - a) subnet used a))
      (sym (next-next subnet.addr h))
      (free_from_lem (addr_limit - (subnet.addr + 2)) subnet used (subnet.addr + 2) (omega arith)
        (omega (arith, h)))
