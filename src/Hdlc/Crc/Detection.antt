-- ===== src/Hdlc/Crc/Detection.antt =====
-- libmaestro/src/hdlc/crc.rs: what the checksum detects. Each step of the register can be undone,
-- because the polynomial sets its highest bit.
use pbpctrl.Prelude.{
  ℕ, zero, suc, ◌+◌, ◌*◌, ◌/◌, ◌%◌, ◌^◌, ◌<◌, ◌≡◌, refl, sym, ap, ◌∙◌, bit_xor, List, [], ◌∷◌, ◌++◌,
  ◌==◌, All, All-append, IsByte, IsU32, arith, Bool-cases, inl, inr, ◌⊎◌,
}
use pbpctrl.Prelude.Bits.{
  bit_xor_assoc, bit_xor_comm, bit_xor-lt, bit_xor_disjoint, bit_xor_injective,
}
use pbpctrl.Hdlc.Crc.{crc32}
use pbpctrl.Hdlc.Crc.Reference.{polynomial, step, steps, shift_byte, shift_bytes, crc32-shift_bytes}

abbrev low_polynomial : ℕ
low_polynomial = 0x6DB88320

-- After an odd register the highest bit is set.
xor_polynomial : (x : ℕ) → x < 2 ^ 31 → bit_xor x polynomial ≡ bit_xor x low_polynomial + 2 ^ 31
xor_polynomial x h =
    let split : bit_xor low_polynomial (1 * 2 ^ 31) ≡ polynomial = refl in
    ap (λ t. bit_xor x t) (sym split)
    ∙ sym (bit_xor_assoc x low_polynomial (1 * 2 ^ 31))
    ∙ bit_xor_disjoint 31 (bit_xor x low_polynomial) 1
        (bit_xor-lt 31 x low_polynomial h (omega arith))

step_cases :
    (s : ℕ)
    → IsU32 s
    → ((s % 2 ≡ 0) × (step s ≡ s / 2))
      ⊎ ((s % 2 ≡ 1)
          × (step s ≡ bit_xor (s / 2) low_polynomial + 2 ^ 31)
          × (bit_xor (s / 2) low_polynomial < 2 ^ 31))
unfolding step
step_cases s h = elim (Bool-cases (s % 2 == 1)) [
  | inl odd ↦ inr (
    ground arith,
    rw odd (xor_polynomial (s / 2) (omega arith)),
    bit_xor-lt 31 (s / 2) low_polynomial (omega arith) (omega arith),
  )
  | inr even ↦ inl (ground arith, rw even)
]

step-IsU32 : (s : ℕ) → IsU32 s → IsU32 (step s)
step-IsU32 s h = omega (arith, step_cases s h)

step_injective : (s t : ℕ) → IsU32 s → IsU32 t → step s ≡ step t → s ≡ t
step_injective s t hs ht e = elim (step_cases s hs) [
  | inl (ps, es) ↦ omega (arith, step_cases t ht)
  | inr (ps, es, us) ↦ elim (step_cases t ht) [
    | inl (pt, et) ↦ absurd (omega arith)
    | inr (pt, et, ut) ↦
        let halves : s / 2 ≡ t / 2 =
          bit_xor_injective (s / 2) (t / 2) low_polynomial (omega arith) in
        omega arith
  ]
]

steps-IsU32 : (n s : ℕ) → IsU32 s → IsU32 (steps n s)
unfolding steps
steps-IsU32 zero s h = h
steps-IsU32 (suc n) s h = steps-IsU32 n (step s) (step-IsU32 s h)

steps_injective : (n s t : ℕ) → IsU32 s → IsU32 t → steps n s ≡ steps n t → s ≡ t
unfolding steps
steps_injective zero s t hs ht e = e
steps_injective (suc n) s t hs ht e =
    step_injective s t hs ht
      (steps_injective n (step s) (step t) (step-IsU32 s hs) (step-IsU32 t ht) e)

xor-IsU32 : (s b : ℕ) → IsU32 s → IsByte b → IsU32 (bit_xor s b)
xor-IsU32 s b hs hb = bit_xor-lt 32 s b hs (omega arith)

pub shift_byte-IsU32 : (s b : ℕ) → IsU32 s → IsByte b → IsU32 (shift_byte s b)
unfolding shift_byte
shift_byte-IsU32 s b hs hb = steps-IsU32 8 (bit_xor s b) (xor-IsU32 s b hs hb)

-- The register before a byte can be told from the register after it, and so can the byte.
shift_byte_injective :
    (s t b : ℕ) → IsU32 s → IsU32 t → IsByte b → shift_byte s b ≡ shift_byte t b → s ≡ t
unfolding shift_byte
shift_byte_injective s t b hs ht hb e =
    bit_xor_injective s t b
      (steps_injective 8 (bit_xor s b) (bit_xor t b) (xor-IsU32 s b hs hb) (xor-IsU32 t b ht hb) e)

shift_byte_reads :
    (s b c : ℕ) → IsU32 s → IsByte b → IsByte c → shift_byte s b ≡ shift_byte s c → b ≡ c
unfolding shift_byte
shift_byte_reads s b c hs hb hc e = bit_xor_injective b c s (
    bit_xor_comm b s
    ∙ steps_injective 8 (bit_xor s b) (bit_xor s c) (xor-IsU32 s b hs hb) (xor-IsU32 s c hs hc) e
    ∙ bit_xor_comm s c)

pub shift_bytes-IsU32 : (s : ℕ) (bs : List ℕ) → IsU32 s → All IsByte bs → IsU32 (shift_bytes s bs)
unfolding shift_bytes
shift_bytes-IsU32 s [] hs h = hs
shift_bytes-IsU32 s (b ∷ bs) hs h =
    shift_bytes-IsU32 (shift_byte s b) bs (shift_byte-IsU32 s b hs h.0) h.1

pub shift_bytes_injective :
    (s t : ℕ) (bs : List ℕ)
    → IsU32 s
    → IsU32 t
    → All IsByte bs
    → shift_bytes s bs ≡ shift_bytes t bs
    → s ≡ t
unfolding shift_bytes
shift_bytes_injective s t [] hs ht h e = e
shift_bytes_injective s t (b ∷ bs) hs ht h e = shift_byte_injective s t b hs ht h.0 (
    shift_bytes_injective (shift_byte s b) (shift_byte t b) bs (shift_byte-IsU32 s b hs h.0)
      (shift_byte-IsU32 t b ht h.0) h.1 e)

-- Two messages that differ in one byte leave different registers.
shift_bytes_changed :
    (s : ℕ) (xs : List ℕ) (b c : ℕ) (ys : List ℕ)
    → IsU32 s
    → All IsByte xs
    → IsByte b
    → IsByte c
    → All IsByte ys
    → shift_bytes s (xs ++ b ∷ ys) ≡ shift_bytes s (xs ++ c ∷ ys)
    → b ≡ c
unfolding shift_bytes
shift_bytes_changed s [] b c ys hs hx hb hc hy e = shift_byte_reads s b c hs hb hc (
    shift_bytes_injective (shift_byte s b) (shift_byte s c) ys (shift_byte-IsU32 s b hs hb)
      (shift_byte-IsU32 s c hs hc) hy e)
shift_bytes_changed s (x ∷ xs) b c ys hs hx hb hc hy e =
    shift_bytes_changed (shift_byte s x) xs b c ys (shift_byte-IsU32 s x hs hx.0) hx.1 hb hc hy e

-- The checksum of a message changes with every change of one byte.
pub crc32_detects :
    (xs : List ℕ) (b c : ℕ) (ys : List ℕ)
    → All IsByte xs
    → IsByte b
    → IsByte c
    → All IsByte ys
    → crc32 (xs ++ b ∷ ys) ≡ crc32 (xs ++ c ∷ ys)
    → b ≡ c
crc32_detects xs b c ys hx hb hc hy e =
    let all_b = All-append IsByte xs (b ∷ ys) hx (hb, hy) in
    let all_c = All-append IsByte xs (c ∷ ys) hx (hc, hy) in
    shift_bytes_changed 0xFFFFFFFF xs b c ys (omega arith) hx hb hc hy (
      omega (
        arith,
        shift_bytes-IsU32 0xFFFFFFFF (xs ++ b ∷ ys) (omega arith) all_b,
        shift_bytes-IsU32 0xFFFFFFFF (xs ++ c ∷ ys) (omega arith) all_c,
        crc32-shift_bytes (xs ++ b ∷ ys) all_b,
        crc32-shift_bytes (xs ++ c ∷ ys) all_c,
        e,
      ))

pub crc32-IsU32 : (bytes : List ℕ) → IsU32 (crc32 bytes)
unfolding crc32
crc32-IsU32 bytes = omega arith
