-- ===== src/Identity/Fresh.antt =====
-- What newIdentity of internal/daemon/identity.go draws.
use lotsman.Prelude.{
  ℕ, ◌+◌, ◌-◌, ◌*◌, ◌%◌, ◌^◌, ◌<◌, ◌≤◌, ◌≡◌, refl, sym, ap, ◌∙◌, subst, some, List, [], ◌∷◌, All,
  length, arith, inl, inr, Option-cases, suc,
}
use mathlib.Core.Option.{some-injective}
use lotsman.Awgconf.{Range, Params, Key}
use lotsman.Identity.{
  Identity, Random, clamp, clamp_last, clear_low, generate_private_key, rand_int, header_range,
  fresh_params, new_identity,
}

-- rand.Int is below its bound, and rand.Read fills the key's 32 bytes.
abbrev pub IsRandom : Random → Type 0
IsRandom r =
    ((k n : ℕ) → 0 < n → r.draw k n < n)
    × ((bs : List ℕ) → r.bytes ≡ some bs → (length bs ≡ 32) × All (λ b. b < 256) bs)

-- 32 bytes, as X25519 wants a private key: the low three bits are clear, the highest bit too, and the
-- one below it is set.
abbrev last_of : ℕ → Key → ℕ
last_of d [] = d
last_of d (b ∷ bs) = last_of b bs

abbrev first_of : Key → ℕ
first_of [] = 0
first_of (b ∷ bs) = b

abbrev pub IsClamped : Key → Type 0
IsClamped k =
    (length k ≡ 32)
    × All (λ b. b < 256) k
    × (first_of k % 8 ≡ 0)
    × (64 ≤ last_of 0 k)
    × (last_of 0 k < 128)

-- The range is 4096 wide.
abbrev IsWide : Range → Type 0
IsWide r = r.hi ≡ r.lo + 4095

-- The paddings are within the recommended ranges; the header ranges lie above the message types 1 to 4
-- of WireGuard, one above the other, and below 2 ^ 32.
abbrev pub AreFresh : Params → Type 0
AreFresh p =
    ((15 ≤ p.s1) × (p.s1 ≤ 100))
    × ((15 ≤ p.s2) × (p.s2 ≤ 100))
    × ((10 ≤ p.s3) × (p.s3 ≤ 60))
    × ((8 ≤ p.s4) × (p.s4 ≤ 16))
    × (IsWide p.h1 × IsWide p.h2 × IsWide p.h3 × IsWide p.h4)
    × ((4 < p.h1.lo) × (p.h1.hi < p.h2.lo) × (p.h2.hi < p.h3.lo) × (p.h3.hi < p.h4.lo))
    × (p.h4.hi < 2 ^ 32)

clamp_last_lem :
    (b : ℕ) (bs : Key)
    → All (λ b. b < 256) (b ∷ bs)
    → (length (clamp_last (b ∷ bs)) ≡ length (b ∷ bs))
      × All (λ b. b < 256) (clamp_last (b ∷ bs))
      × ((d : ℕ) → (64 ≤ last_of d (clamp_last (b ∷ bs))) × (last_of d (clamp_last (b ∷ bs)) < 128))
unfolding clamp_last
clamp_last_lem b [] h = (refl, (omega arith, tt), λ d. (omega arith, omega arith))
clamp_last_lem b (c ∷ cs) (p, h) =
    let (n, a, l) = clamp_last_lem c cs h in (ap suc n, (p, a), λ d. l b)

clamp-IsClamped : (k : Key) → length k ≡ 32 → All (λ b. b < 256) k → IsClamped (clamp k)
unfolding clamp clamp_last
clamp-IsClamped [] n h = absurd (omega (arith, n))
clamp-IsClamped (b ∷ []) n h = absurd (omega (arith, n))
clamp-IsClamped (b ∷ c ∷ cs) n (p, h) =
    let (m, a, l) = clamp_last_lem c cs h in
    (ap suc m ∙ n, (omega (arith, p), a), omega arith, (l (clear_low b)).0, (l (clear_low b)).1)

rand_int_lem :
    (r : Random)
    → IsRandom r
    → (k lo hi : ℕ) → lo ≤ hi
    → (lo ≤ rand_int r k lo hi) × (rand_int r k lo hi ≤ hi)
unfolding rand_int
rand_int_lem r (h, _) k lo hi e =
    let d = h k (hi - lo + 1) (omega arith) in (omega arith, omega (arith, d, e))

-- The conversion to a uint16 or uint32 changes nothing.
small_draw :
    (r : Random)
    → IsRandom r
    → (k lo hi w : ℕ) → lo ≤ hi
    → ((n : ℕ) → n ≤ hi → n % w ≡ n)
    → (lo ≤ rand_int r k lo hi % w) × (rand_int r k lo hi % w ≤ hi)
small_draw r h k lo hi w e same =
    let (a, b) = rand_int_lem r h k lo hi e in
    let small = same (rand_int r k lo hi) b in (omega (arith, a, small), omega (arith, b, small))

-- Nor does the wrap-around of a header range.
header_range_lem :
    (base i : ℕ)
    → base ≤ 2 ^ 30
    → i ≤ 3
    → ((header_range base i).lo ≡ base + i * 2 ^ 20)
      × ((header_range base i).hi ≡ base + i * 2 ^ 20 + 4095)
unfolding header_range
header_range_lem base i h k = (omega (arith, h, k), omega (arith, h, k))

headers_lem :
    (base : ℕ)
    → 2 ^ 16 ≤ base
    → base ≤ 2 ^ 30
    → let a = header_range base 0 in
      let b = header_range base 1 in
      let c = header_range base 2 in
      let d = header_range base 3 in
      (IsWide a × IsWide b × IsWide c × IsWide d)
      × ((4 < a.lo) × (a.hi < b.lo) × (b.hi < c.lo) × (c.hi < d.lo))
      × (d.hi < 2 ^ 32)
headers_lem base h k =
    let a = header_range_lem base 0 k (omega arith) in
    let b = header_range_lem base 1 k (omega arith) in
    let c = header_range_lem base 2 k (omega arith) in
    let d = header_range_lem base 3 k (omega arith) in
    (
      (omega (arith, a), omega (arith, b), omega (arith, c), omega (arith, d)),
      (omega (arith, a, h), omega (arith, a, b), omega (arith, b, c), omega (arith, c, d)),
      omega (arith, d, k),
    )

fresh_params-AreFresh : (r : Random) → IsRandom r → AreFresh (fresh_params r)
unfolding fresh_params
fresh_params-AreFresh r h =
    let base =
      small_draw r h 4 (2 ^ 16) (2 ^ 30) (2 ^ 32) (omega arith) (λ n k. omega (arith, k)) in
    let (wide, order, top) = headers_lem (rand_int r 4 (2 ^ 16) (2 ^ 30) % 2 ^ 32) base.0 base.1 in
    (
      small_draw r h 0 15 100 (2 ^ 16) (omega arith) (λ n k. omega (arith, k)),
      small_draw r h 1 15 100 (2 ^ 16) (omega arith) (λ n k. omega (arith, k)),
      small_draw r h 2 10 60 (2 ^ 16) (omega arith) (λ n k. omega (arith, k)),
      small_draw r h 3 8 16 (2 ^ 16) (omega arith) (λ n k. omega (arith, k)),
      wide,
      order,
      top,
    )

-- Of a random source as its packages document it, a new identity has a key in the form that X25519
-- wants, recommended paddings, and header ranges that are apart and wrap nowhere.
pub new_identity-AreFresh :
    (r : Random) (id : Identity)
    → IsRandom r
    → new_identity r ≡ some id
    → IsClamped id.private_key × AreFresh id.params
unfolding new_identity generate_private_key
new_identity-AreFresh r id h e = elim (Option-cases r.bytes) [
  | inl n ↦ absurd (ground (arith, rw (n, new_identity) at e))
  | inr (bs, n) ↦
      let (len, small) = h.1 bs n in
      let made : Identity = record { private_key = clamp bs; params = fresh_params r } in
      let same : new_identity r ≡ some made = rw (n, new_identity) refl in
      subst (λ (d : Identity). IsClamped d.private_key × AreFresh d.params)
        (some-injective made id (sym same ∙ e))
        (clamp-IsClamped bs len small, fresh_params-AreFresh r h)
]
