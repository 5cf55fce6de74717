-- ===== src/Hdlc/Crc/Residue.antt =====
-- libmaestro/src/hdlc/crc.rs: a message followed by its own checksum leaves the same register,
-- whatever the message.
use pbpctrl.Prelude.{
  ℕ, zero, suc, ◌+◌, ◌-◌, ◌*◌, ◌/◌, ◌^◌, ◌<◌, ◌≡◌, ◌≢◌, refl, sym, ap, ◌∙◌, List, [], ◌∷◌, ◌++◌,
  length, arith, to_le_bytes, from_le_bytes, from_le_bytes-to_le_bytes, All, All-append, IsByte,
  IsU32, bit_xor,
}
use native.Mathlib.Nat.{pow-suc}
use pbpctrl.Prelude.Bits.{bit_xor_half, bit_xor_assoc, bit_xor_disjoint, bit_xor-zero}
use pbpctrl.Hdlc.Crc.{crc32}
use pbpctrl.Hdlc.Crc.Reference.{
  step, steps, shift_byte, shift_bytes, crc32-shift_bytes, steps-bit_xor, steps_high,
}
use pbpctrl.Hdlc.Crc.Detection.{shift_bytes-IsU32, shift_bytes_injective}

-- A number and its complement differ in every bit.
bit_xor-complement : (k s : ℕ) → s < 2 ^ k → bit_xor s (2 ^ k - 1 - s) ≡ 2 ^ k - 1
bit_xor-complement zero s h = let s0 : s ≡ 0 = omega arith in rw s0
bit_xor-complement (suc k) s h =
    let halved : (2 ^ suc k - 1 - s) / 2 ≡ 2 ^ k - 1 - s / 2 = omega (arith, pow-suc 2 k) in
    omega (
      arith,
      pow-suc 2 k,
      bit_xor_half s (2 ^ suc k - 1 - s),
      ap (λ t. bit_xor (s / 2) t) halved,
      bit_xor-complement k (s / 2) (omega (arith, pow-suc 2 k)),
    )

steps-add : (n m s : ℕ) → steps (n + m) s ≡ steps m (steps n s)
unfolding steps
steps-add zero m s = let e : zero + m ≡ m = omega arith in rw e
steps-add (suc n) m s =
    let e : suc n + m ≡ suc (n + m) = omega arith in rw e (steps-add n m (step s))

-- The bytes of a word, lowest first, meet the register as the word does.
shift_bytes-word :
    (s : ℕ) (bs : List ℕ)
    → All IsByte bs
    → shift_bytes s bs ≡ steps (8 * length bs) (bit_xor s (from_le_bytes bs))
unfolding shift_bytes shift_byte
shift_bytes-word s [] h = sym (ap (steps 0) (bit_xor-zero s) ∙ unfold steps in refl)
shift_bytes-word s (b ∷ bs) h =
    let w : ℕ = from_le_bytes bs in
    let low : ℕ = bit_xor s b in
    let word : bit_xor s (b + 256 * w) ≡ bit_xor low (w * 256) =
      ap (λ t. bit_xor s t) (omega arith ∙ sym (bit_xor_disjoint 8 b w h.0))
      ∙ sym (bit_xor_assoc s b (w * 256)) in
    let byte : steps 8 (bit_xor low (w * 256)) ≡ bit_xor (steps 8 low) w =
      steps-bit_xor 8 low (w * 256) ∙ ap (λ t. bit_xor (steps 8 low) t) (steps_high 8 w) in
    shift_bytes-word (steps 8 low) bs h.1
    ∙ ap (steps (8 * length bs)) (sym byte ∙ ap (steps 8) (sym word))
    ∙ sym (steps-add 8 (8 * length bs) (bit_xor s (b + 256 * w)))
    ∙ ap (λ n. steps n (bit_xor s (b + 256 * w))) (omega arith)

pub shift_bytes-append :
    (s : ℕ) (xs ys : List ℕ) → shift_bytes s (xs ++ ys) ≡ shift_bytes (shift_bytes s xs) ys
unfolding shift_bytes
shift_bytes-append s [] ys = refl
shift_bytes-append s (x ∷ xs) ys = shift_bytes-append (shift_byte s x) xs ys

pub residue : ℕ
residue = 0xDEBB20E3

complement_residue : (s : ℕ) → IsU32 s → shift_bytes s (to_le_bytes (2 ^ 32 - 1 - s)) ≡ residue
unfolding residue steps step
complement_residue s h =
    let v : ℕ = 2 ^ 32 - 1 - s in
    shift_bytes-word s (to_le_bytes v) (omega arith)
    ∙ ap (λ t. steps 32 (bit_xor s t)) (from_le_bytes-to_le_bytes v (omega arith))
    ∙ ap (steps 32) (bit_xor-complement 32 s h)

-- After a message and its checksum the register holds the residue.
pub checked_residue :
    (bs : List ℕ) → All IsByte bs → shift_bytes 0xFFFFFFFF (bs ++ to_le_bytes (crc32 bs)) ≡ residue
checked_residue bs h =
    let s : ℕ = shift_bytes 0xFFFFFFFF bs in
    shift_bytes-append 0xFFFFFFFF bs (to_le_bytes (crc32 bs))
    ∙ ap (λ t. shift_bytes s (to_le_bytes t)) (crc32-shift_bytes bs h)
    ∙ complement_residue s (shift_bytes-IsU32 0xFFFFFFFF bs (omega arith) h)

-- A message put behind another one with its checksum has another checksum than alone.
pub crc32_behind :
    (bs cs : List ℕ)
    → All IsByte bs
    → All IsByte cs
    → crc32 ((bs ++ to_le_bytes (crc32 bs)) ++ cs) ≢ crc32 cs
unfolding residue
crc32_behind bs cs hb hc e =
    let front : List ℕ = bs ++ to_le_bytes (crc32 bs) in
    let hf : All IsByte front = All-append IsByte bs (to_le_bytes (crc32 bs)) hb (omega arith) in
    let same : shift_bytes residue cs ≡ shift_bytes 0xFFFFFFFF cs =
      sym (
        shift_bytes-append 0xFFFFFFFF front cs ∙ ap (λ s. shift_bytes s cs) (checked_residue bs hb))
      ∙ omega (
        arith,
        e,
        crc32-shift_bytes (front ++ cs) (All-append IsByte front cs hf hc),
        crc32-shift_bytes cs hc,
        shift_bytes-IsU32 0xFFFFFFFF (front ++ cs) (omega arith) (All-append IsByte front cs hf hc),
        shift_bytes-IsU32 0xFFFFFFFF cs (omega arith) hc,
      ) in
    absurd (
      omega
        (arith, shift_bytes_injective residue 0xFFFFFFFF cs (omega arith) (omega arith) hc same))
