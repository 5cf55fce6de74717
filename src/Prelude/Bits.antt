-- ===== src/Prelude/Bits.antt =====
-- The laws of `bit_or` and `bit_xor` that the code relies on, at every width. Each operation is
-- reduced to one equation for its lowest digit, and the laws follow by halving.
use Prim.Native.Nat.{
  ℕ, zero, suc, ◌+◌, ◌-◌, ◌*◌, ◌/◌, ◌%◌, ◌^◌, ◌≤◌, ◌<◌, max, bit_or, bit_xor, differ, digits,
  bitwise, bit_or-bitwise, bit_xor-bitwise,
}
use mathlib.Core.Path.{◌≡◌, refl, sym, ap, ◌∙◌}
use native.Mathlib.Omega.{arith}
use native.Mathlib.Nat.{pow-suc}

module _ (z : ℕ → ℕ) (f : ℕ → ℕ → ℕ) where
  zero-digits : (n b : ℕ) → digits z f n zero b ≡ z b
  zero-digits zero b = refl
  zero-digits (suc n) b = refl

  -- Fuel beyond the first number does not change the digits.
  spare_digit : (n a b : ℕ) → a ≤ n → digits z f (suc n) a b ≡ digits z f n a b
  spare_digit n zero b h = sym (zero-digits n b)
  spare_digit zero (suc a) b h = absurd (omega arith)
  spare_digit (suc n) (suc a) b h =
      ap (λ t. t * 2 + f (suc a % 2) (b % 2)) (spare_digit n (suc a / 2) (b / 2) (omega arith))

  spare_digits : (d n a b : ℕ) → a ≤ n → digits z f (d + n) a b ≡ digits z f n a b
  spare_digits zero n a b h = rw zero_add
    where
      zero_add : zero + n ≡ n
      zero_add = omega arith
  spare_digits (suc d) n a b h =
      rw suc_add (spare_digit (d + n) a b (omega arith) ∙ spare_digits d n a b h)
    where
      suc_add : suc d + n ≡ suc (d + n)
      suc_add = omega arith

  bitwise_half :
      (a b : ℕ)
      → bitwise z f (suc a) b ≡ bitwise z f (suc a / 2) (b / 2) * 2 + f (suc a % 2) (b % 2)
  bitwise_half a b =
      let half : ℕ = suc a / 2 in
      let fuel : a - half + half ≡ a = omega arith in
      ap (λ t. t * 2 + f (suc a % 2) (b % 2))
        (ap (λ t. digits z f t half (b / 2)) (sym fuel)
          ∙ spare_digits (a - half) half half (b / 2) (omega arith))

pub bit_or_half : (a b : ℕ) → bit_or a b ≡ bit_or (a / 2) (b / 2) * 2 + max (a % 2) (b % 2)
bit_or_half zero b = simp bit_or-bitwise (omega arith)
bit_or_half (suc a) b = simp bit_or-bitwise (bitwise_half (λ y. y) max a b)

differ_digits : (a b : ℕ) → a < 2 → b < 2 → differ a b ≡ (a + b) % 2
differ_digits zero b p q = omega arith
differ_digits (suc zero) zero p q = refl
differ_digits (suc zero) (suc zero) p q = refl
differ_digits (suc zero) (suc (suc b)) p q = absurd (omega arith)
differ_digits (suc (suc a)) b p q = absurd (omega arith)

pub bit_xor_half : (a b : ℕ) → bit_xor a b ≡ bit_xor (a / 2) (b / 2) * 2 + (a + b) % 2
bit_xor_half zero b = simp bit_xor-bitwise (omega arith)
bit_xor_half (suc a) b =
    simp bit_xor-bitwise (bitwise_half (λ y. y) differ a b)
    ∙ ap (λ t. bit_xor (suc a / 2) (b / 2) * 2 + t)
        (differ_digits (suc a % 2) (b % 2) (omega arith) (omega arith) ∙ omega arith)

-- Exclusive or acts on the quotient and on the lowest digit by themselves.
pub bit_xor-div : (a b : ℕ) → bit_xor a b / 2 ≡ bit_xor (a / 2) (b / 2)
bit_xor-div a b = omega (arith, bit_xor_half a b)

pub bit_xor-mod : (a b : ℕ) → bit_xor a b % 2 ≡ (a + b) % 2
bit_xor-mod a b = omega (arith, bit_xor_half a b)

pub zero-bit_xor : (b : ℕ) → bit_xor 0 b ≡ b
zero-bit_xor b = simp bit_xor-bitwise

xor_comm_below : (n a b : ℕ) → a ≤ n → b ≤ n → bit_xor a b ≡ bit_xor b a
xor_comm_below zero zero zero p q = refl
xor_comm_below zero (suc a) b p q = absurd (omega arith)
xor_comm_below zero zero (suc b) p q = absurd (omega arith)
xor_comm_below (suc n) a b p q = omega (
  arith,
  bit_xor_half a b,
  bit_xor_half b a,
  xor_comm_below n (a / 2) (b / 2) (omega arith) (omega arith),
)

pub bit_xor_comm : (a b : ℕ) → bit_xor a b ≡ bit_xor b a
bit_xor_comm a b = xor_comm_below (a + b) a b (omega arith) (omega arith)

pub bit_xor-zero : (a : ℕ) → bit_xor a 0 ≡ a
bit_xor-zero a = bit_xor_comm a 0 ∙ zero-bit_xor a

xor_assoc_below :
    (n a b c : ℕ) → a ≤ n → b ≤ n → c ≤ n → bit_xor (bit_xor a b) c ≡ bit_xor a (bit_xor b c)
xor_assoc_below zero a b c p q r =
    let a0 : a ≡ 0 = omega arith in
    let b0 : b ≡ 0 = omega arith in rw (a0, b0) (sym (zero-bit_xor (bit_xor 0 c)))
xor_assoc_below (suc n) a b c p q r =
    let ih : bit_xor (bit_xor (a / 2) (b / 2)) (c / 2) ≡ bit_xor (a / 2) (bit_xor (b / 2) (c / 2)) =
      xor_assoc_below n (a / 2) (b / 2) (c / 2) (omega arith) (omega arith) (omega arith) in
    omega (
      arith,
      bit_xor_half (bit_xor a b) c,
      bit_xor_half a (bit_xor b c),
      ap (λ t. bit_xor t (c / 2)) (bit_xor-div a b),
      ap (λ t. bit_xor (a / 2) t) (bit_xor-div b c),
      bit_xor-mod a b,
      bit_xor-mod b c,
      ih,
    )

pub bit_xor_assoc : (a b c : ℕ) → bit_xor (bit_xor a b) c ≡ bit_xor a (bit_xor b c)
bit_xor_assoc a b c = xor_assoc_below (a + b + c) a b c (omega arith) (omega arith) (omega arith)

xor_self_below : (n a : ℕ) → a ≤ n → bit_xor a a ≡ 0
xor_self_below zero zero p = refl
xor_self_below zero (suc a) p = absurd (omega arith)
xor_self_below (suc n) a p = omega (arith, bit_xor_half a a, xor_self_below n (a / 2) (omega arith))

pub bit_xor_self : (a : ℕ) → bit_xor a a ≡ 0
bit_xor_self a = xor_self_below a a (omega arith)

-- What was added by exclusive or is taken away by it.
pub bit_xor_cancel : (a b : ℕ) → bit_xor (bit_xor a b) b ≡ a
bit_xor_cancel a b = bit_xor_assoc a b b ∙ ap (λ t. bit_xor a t) (bit_xor_self b) ∙ bit_xor-zero a

pub bit_xor_injective : (a b c : ℕ) → bit_xor a c ≡ bit_xor b c → a ≡ b
bit_xor_injective a b c h = sym (bit_xor_cancel a c) ∙ ap (λ t. bit_xor t c) h ∙ bit_xor_cancel b c

-- The sum of four terms may be taken in pairs.
pub bit_xor_exchange :
    (a b c d : ℕ) → bit_xor (bit_xor a b) (bit_xor c d) ≡ bit_xor (bit_xor a c) (bit_xor b d)
bit_xor_exchange a b c d =
    bit_xor_assoc a b (bit_xor c d)
    ∙ ap (λ t. bit_xor a t)
        (sym (bit_xor_assoc b c d) ∙ ap (λ t. bit_xor t d) (bit_xor_comm b c) ∙ bit_xor_assoc c b d)
    ∙ sym (bit_xor_assoc a c (bit_xor b d))

pub bit_xor-lt : (k a b : ℕ) → a < 2 ^ k → b < 2 ^ k → bit_xor a b < 2 ^ k
bit_xor-lt zero a b p q =
    let a0 : a ≡ 0 = omega arith in let b0 : b ≡ 0 = omega arith in rw (a0, b0) (omega arith)
bit_xor-lt (suc k) a b p q = omega (
  arith,
  pow-suc 2 k,
  bit_xor_half a b,
  bit_xor-lt k (a / 2) (b / 2) (omega (arith, pow-suc 2 k)) (omega (arith, pow-suc 2 k)),
)

pub zero-bit_or : (b : ℕ) → bit_or 0 b ≡ b
zero-bit_or b = simp bit_or-bitwise

pub bit_or-zero : (n a : ℕ) → a ≤ n → bit_or a 0 ≡ a
bit_or-zero zero zero p = refl
bit_or-zero zero (suc a) p = absurd (omega arith)
bit_or-zero (suc n) a p = omega (arith, bit_or_half a 0, bit_or-zero n (a / 2) (omega arith))

-- `r | (q << k)` is a sum where `r` fits the low `k` bits.
pub bit_or_disjoint : (k r q : ℕ) → r < 2 ^ k → bit_or r (q * 2 ^ k) ≡ r + q * 2 ^ k
bit_or_disjoint zero r q p =
    let r0 : r ≡ 0 = omega arith in rw r0 (simp bit_or-bitwise (omega arith))
bit_or_disjoint (suc k) r q p =
    let twice : q * 2 ^ suc k ≡ 2 * (q * 2 ^ k) =
      omega (arith, ap (λ (t : ℕ). q * t) (pow-suc 2 k)) in
    let halved : q * 2 ^ suc k / 2 ≡ q * 2 ^ k = omega (arith, twice) in
    omega (
      arith,
      bit_or_half r (q * 2 ^ suc k),
      ap (λ t. bit_or (r / 2) t) halved,
      twice,
      pow-suc 2 k,
      bit_or_disjoint k (r / 2) q (omega (arith, pow-suc 2 k)),
    )

-- The same holds of exclusive or.
pub bit_xor_disjoint : (k r q : ℕ) → r < 2 ^ k → bit_xor r (q * 2 ^ k) ≡ r + q * 2 ^ k
bit_xor_disjoint zero r q p =
    let r0 : r ≡ 0 = omega arith in rw r0 (zero-bit_xor (q * 2 ^ zero) ∙ omega arith)
bit_xor_disjoint (suc k) r q p =
    let twice : q * 2 ^ suc k ≡ 2 * (q * 2 ^ k) =
      omega (arith, ap (λ (t : ℕ). q * t) (pow-suc 2 k)) in
    let halved : q * 2 ^ suc k / 2 ≡ q * 2 ^ k = omega (arith, twice) in
    omega (
      arith,
      bit_xor_half r (q * 2 ^ suc k),
      ap (λ t. bit_xor (r / 2) t) halved,
      twice,
      pow-suc 2 k,
      bit_xor_disjoint k (r / 2) q (omega (arith, pow-suc 2 k)),
    )
