-- ===== src/Hdlc/Crc/Reference.antt =====
-- libmaestro/src/hdlc/crc.rs against the bit-by-bit CRC-32 with the reflected polynomial 0xEDB88320.
use pbpctrl.Prelude.{
  ℕ, zero, suc, ◌+◌, ◌-◌, ◌*◌, ◌/◌, ◌%◌, ◌^◌, ◌<◌, ◌≡◌, refl, sym, ap, ap₂, ◌∙◌, bit_xor, List, [],
  ◌∷◌, if◌then◌else◌, ◌==◌, get_or, all_below, eq_below, All, IsByte, arith, Bool-cases, inl, inr,
}
use pbpctrl.Prelude.Bits.{
  bit_xor-div, bit_xor-mod, bit_xor_exchange, bit_xor_assoc, bit_xor_comm, bit_xor-zero, bit_xor-lt,
  bit_xor_disjoint,
}
use native.Mathlib.Nat.{pow-suc}
use pbpctrl.Hdlc.Crc.Table.{table}
use pbpctrl.Hdlc.Crc.{Crc32, new, put_u8, put_bytes, crc32}

abbrev pub polynomial : ℕ
polynomial = 0xEDB88320

-- One bit of the message leaves the register.
unfoldable pub step : ℕ → ℕ
step s = if s % 2 == 1 then bit_xor (s / 2) polynomial else s / 2

unfoldable pub steps : ℕ → ℕ → ℕ
steps zero s = s
steps (suc n) s = steps n (step s)

-- The register after a byte, and after a message.
unfoldable pub shift_byte : ℕ → ℕ → ℕ
shift_byte s b = steps 8 (bit_xor s b)

unfoldable pub shift_bytes : ℕ → List ℕ → ℕ
shift_bytes s [] = s
shift_bytes s (b ∷ bs) = shift_bytes (shift_byte s b) bs

table-steps : (i : ℕ) → i < 256 → get_or table i 0 ≡ steps 8 i
unfolding all_below table steps step
table-steps = eq_below 256 _ _ refl

-- The lowest bit decides whether the polynomial is added.
step-feedback : (s : ℕ) → step s ≡ bit_xor (s / 2) (s % 2 * polynomial)
unfolding step
step-feedback s = elim (Bool-cases (s % 2 == 1)) [
  | inl odd ↦ let one : s % 2 ≡ 1 = ground arith in rw one
  | inr even ↦ let none_left : s % 2 ≡ 0 = ground arith in rw none_left (sym (bit_xor-zero (s / 2)))
]

feedback-bit_xor :
    (x y : ℕ) → x < 2 → y < 2 → (x + y) % 2 * polynomial ≡ bit_xor (x * polynomial) (y * polynomial)
feedback-bit_xor zero zero p q = refl
feedback-bit_xor zero (suc zero) p q = refl
feedback-bit_xor (suc zero) zero p q = refl
feedback-bit_xor (suc zero) (suc zero) p q = refl
feedback-bit_xor (suc (suc x)) y p q = absurd (omega arith)
feedback-bit_xor zero (suc (suc y)) p q = absurd (omega arith)
feedback-bit_xor (suc zero) (suc (suc y)) p q = absurd (omega arith)

step-bit_xor : (a b : ℕ) → step (bit_xor a b) ≡ bit_xor (step a) (step b)
step-bit_xor a b =
    let parity : bit_xor a b % 2 ≡ (a % 2 + b % 2) % 2 = omega (arith, bit_xor-mod a b) in
    step-feedback (bit_xor a b)
    ∙ ap₂ (λ x y. bit_xor x (y * polynomial)) (bit_xor-div a b) parity
    ∙ ap (λ t. bit_xor (bit_xor (a / 2) (b / 2)) t)
        (feedback-bit_xor (a % 2) (b % 2) (omega arith) (omega arith))
    ∙ bit_xor_exchange (a / 2) (b / 2) (a % 2 * polynomial) (b % 2 * polynomial)
    ∙ sym (ap₂ bit_xor (step-feedback a) (step-feedback b))

pub steps-bit_xor : (n a b : ℕ) → steps n (bit_xor a b) ≡ bit_xor (steps n a) (steps n b)
unfolding steps
steps-bit_xor zero a b = refl
steps-bit_xor (suc n) a b = ap (steps n) (step-bit_xor a b) ∙ steps-bit_xor n (step a) (step b)

step_even : (x : ℕ) → step (2 * x) ≡ x
unfolding step
step_even x = ground arith

pub steps_high : (n h : ℕ) → steps n (h * 2 ^ n) ≡ h
unfolding steps
steps_high zero h = omega arith
steps_high (suc n) h =
    let twice : h * 2 ^ suc n ≡ 2 * (h * 2 ^ n) =
      omega (arith, ap (λ (t : ℕ). h * t) (pow-suc 2 n)) in
    rw (twice, step_even) (steps_high n h)

-- A byte meets the lowest byte of the register and leaves the others.
xor_byte : (s b : ℕ) → b < 256 → bit_xor s b ≡ bit_xor (s % 256) b + s / 256 * 256
xor_byte s b h =
    let high : ℕ = s / 256 * 256 in
    let parts : bit_xor (s % 256) high ≡ s =
      bit_xor_disjoint 8 (s % 256) (s / 256) (omega arith) ∙ omega arith in
    ap (λ t. bit_xor t b) (sym parts)
    ∙ bit_xor_assoc (s % 256) high b
    ∙ ap (λ t. bit_xor (s % 256) t) (bit_xor_comm high b)
    ∙ sym (bit_xor_assoc (s % 256) b high)
    ∙ bit_xor_disjoint 8 (bit_xor (s % 256) b) (s / 256) (bit_xor-lt 8 (s % 256) b (omega arith) h)

-- One step of the table is eight steps of the register.
put_u8-shift_byte : (c : Crc32) (b : ℕ) → IsByte b → (put_u8 c b).state ≡ shift_byte c.state b
unfolding put_u8 shift_byte
put_u8-shift_byte c b h =
    let low : ℕ = bit_xor (c.state % 256) b in
    let fits : low < 2 ^ 8 = bit_xor-lt 8 (c.state % 256) b (omega arith) h in
    ap₂ bit_xor (table-steps low fits) (sym (steps_high 8 (c.state / 2 ^ 8)))
    ∙ sym (steps-bit_xor 8 low (c.state / 256 * 256))
    ∙ ap (steps 8) (bit_xor_disjoint 8 low (c.state / 256) fits ∙ sym (xor_byte c.state b h))

put_bytes-shift_bytes :
    (c : Crc32) (bytes : List ℕ)
    → All IsByte bytes
    → (put_bytes c bytes).state ≡ shift_bytes c.state bytes
unfolding put_bytes shift_bytes
put_bytes-shift_bytes c [] h = refl
put_bytes-shift_bytes c (b ∷ bytes) h =
    put_bytes-shift_bytes (put_u8 c b) bytes h.1
    ∙ ap (λ t. shift_bytes t bytes) (put_u8-shift_byte c b h.0)

-- On every byte string the table-driven checksum is the complement of the register that shifts the
-- message through bit by bit, from all ones.
pub crc32-shift_bytes :
    (bytes : List ℕ) → All IsByte bytes → crc32 bytes ≡ 2 ^ 32 - 1 - shift_bytes 0xFFFFFFFF bytes
unfolding crc32
crc32-shift_bytes bytes h = ap (λ t. 2 ^ 32 - 1 - t) (put_bytes-shift_bytes new bytes h)
