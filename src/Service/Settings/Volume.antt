-- ===== src/Service/Settings/Volume.antt =====
-- libmaestro/src/service/settings.rs: the two forms of the volume asymmetry.
use pbpctrl.Prelude.{
  ℕ, zero, suc, ◌+◌, ◌-◌, ◌*◌, ◌/◌, ◌%◌, ◌^◌, ◌<◌, ◌≡◌, refl, ap, ◌∙◌, bit_or, ltb, ◌==◌, true,
  false, arith, Bool-cases, inl, inr,
}
use pbpctrl.Prelude.Bits.{bit_or_half, bit_or-zero}
use pbpctrl.Service.Settings.{
  ℤ, pos, negsuc, negate, increment, from_bits, low_bit, half, from_normalized, from_raw, raw,
}

bit_or-one : (n : ℕ) → bit_or (n * 2) 1 ≡ n * 2 + 1
bit_or-one n =
    let halved : bit_or (n * 2 / 2) 0 ≡ bit_or n 0 = ap (λ t. bit_or t 0) (omega arith) in
    omega (arith, bit_or_half (n * 2) 1, halved, bit_or-zero n n (omega arith))

raw_right : (n : ℕ) → n < 2 ^ 30 → raw (record { value = pos (suc n) }) ≡ pos (n * 2 + 1)
unfolding raw
raw_right n h =
    let small : n * 2 % 2 ^ 32 ≡ n * 2 = omega arith in
    let inside : ltb (n * 2 + 1) (2 ^ 31) ≡ true = ground arith in
    ap (λ t. from_bits (bit_or t 1)) small ∙ ap from_bits (bit_or-one n) ∙ rw inside refl

raw_left : (n : ℕ) → n < 2 ^ 30 - 1 → raw (record { value = negsuc n }) ≡ pos (n * 2 + 2)
unfolding raw
raw_left n h =
    let small : (n + 1) * 2 % 2 ^ 32 ≡ n * 2 + 2 = omega arith in
    let inside : ltb (n * 2 + 2) (2 ^ 31) ≡ true = ground arith in
    ap from_bits small ∙ rw inside refl

right_back :
    (n : ℕ)
    → n < 2 ^ 30
    → from_raw (raw (record { value = pos (suc n) })) ≡ record { value = pos (suc n) }
unfolding from_raw increment low_bit half
right_back n h =
    let odd : ((n * 2 + 1) % 2 == 0) ≡ false = ground arith in
    let halved : (n * 2 + 1) / 2 ≡ n = omega arith in
    ap from_raw (raw_right n h) ∙ rw (odd, halved) refl

left_back :
    (n : ℕ)
    → n < 2 ^ 30 - 1
    → from_raw (raw (record { value = negsuc n })) ≡ record { value = negsuc n }
unfolding from_raw negate low_bit half
left_back n h =
    let even : ((n * 2 + 2) % 2 == 0) ≡ true = ground arith in
    let halved : (n * 2 + 2) / 2 ≡ suc n = omega arith in
    ap from_raw (raw_left n h) ∙ rw (even, halved) refl

back : (n : ℕ) → n < 101 → from_raw (raw (record { value = pos n })) ≡ record { value = pos n }
unfolding from_raw raw negate low_bit half
back zero h = refl
back (suc n) h = right_back n (omega arith)

-- Every asymmetry is clamped to 100 to either side, and is read back from its raw value.
pub from_raw-raw : (v : ℤ) → from_raw (raw (from_normalized v)) ≡ from_normalized v
unfolding from_normalized
from_raw-raw (pos n) = elim (Bool-cases (ltb 100 n)) [
  | inl far ↦ rw far (back 100 (omega arith))
  | inr near ↦ rw near (back n (ground arith))
]
from_raw-raw (negsuc n) = elim (Bool-cases (ltb 99 n)) [
  | inl far ↦ rw far (left_back 99 (omega arith))
  | inr near ↦ rw near (left_back n (ground arith))
]

half_back : (n : ℕ) → n < 2 ^ 30 → raw (record { value = negate (pos n) }) ≡ pos (n * 2)
unfolding negate raw
half_back zero h = refl
half_back (suc n) h = raw_left n (omega arith) ∙ ap pos (omega arith)

-- Every raw value that is not negative is given back.
pub raw-from_raw : (n : ℕ) → n < 2 ^ 31 → raw (from_raw (pos n)) ≡ pos n
unfolding from_raw increment low_bit half
raw-from_raw n h = elim (Bool-cases (n % 2 == 0)) [
  | inl even ↦ rw even (half_back (n / 2) (omega arith) ∙ ap pos (ground arith))
  | inr odd ↦ rw odd (raw_right (n / 2) (omega arith) ∙ ap pos (ground arith))
]
