-- ===== src/Hdlc/Varint.antt =====
-- libmaestro/src/hdlc/varint.rs: frame addresses in groups of seven bits, lowest first. The lowest
-- bit of a byte marks the last one.
pub mod RoundTrip
pub mod Decode
use pbpctrl.Prelude.{
  ℕ, zero, suc, ◌+◌, ◌-◌, ◌*◌, ◌/◌, ◌%◌, ◌^◌, bit_or, Bool, true, false, not, Option, none, some,
  List, [], ◌∷◌, ltb, ◌==◌, if◌then◌else◌, Result, ok, err,
}

pub data DecodeError : Type 0 where
  incomplete overflow : DecodeError

abbrev pub u32_max : ℕ
u32_max = 2 ^ 32 - 1

-- `x << k` on u64. A shift by the width or more takes the amount modulo 64: that is what the
-- operator does where overflow checks are off; where they are on, it panics.
abbrev pub shl64 : ℕ → ℕ → ℕ
shl64 x k = x * 2 ^ (k % 64) % 2 ^ 64

-- The `for` loop of `decode`: the bytes not yet read, the index, and the bits so far.
unfoldable pub decode_loop : List ℕ → ℕ → ℕ → Result DecodeError (ℕ × ℕ)
decode_loop [] i address = err incomplete
decode_loop (b ∷ src) i address =
    let address' = bit_or address (shl64 (b / 2) (i * 7)) in
    let rest = decode_loop src (i + 1) address' in
    if ltb u32_max address'
    then err overflow
    else if b % 2 == 1
    then ok (address' % 2 ^ 32, i + 1)
    else rest

-- The address, and the number of bytes that it takes.
unfoldable pub decode : List ℕ → Result DecodeError (ℕ × ℕ)
unfolding decode_loop
decode src = decode_loop src 0 0

-- The iterator that writes an address.
pub record Encode : Type 0 where
  pub num : ℕ
  pub done : Bool

abbrev pub encode : ℕ → Encode
encode num = record { num = num; done = false }

-- `Iterator::next`. After the last byte the state stays as it is.
unfoldable pub next : Encode → Option (ℕ × Encode)
next e =
    if not (e.num / 2 ^ 7 == 0)
    then some (e.num % 128 * 2 % 256, record e { num = e.num / 2 ^ 7 })
    else if not e.done
    then some (bit_or (e.num % 128 * 2 % 256) 1, record e { done = true })
    else none

-- The bytes that at most the given number of calls of `next` yield.
unfoldable pub collect : ℕ → Encode → List ℕ
collect zero e = []
collect (suc rounds) e = elim (next e) [ none ↦ [] | some (b, e') ↦ b ∷ collect rounds e' ]

-- Five bytes hold 35 bits, and the sixth call ends the iteration.
unfoldable pub encode_vec : ℕ → List ℕ
unfolding collect next
encode_vec num = collect 6 (encode num)

-- `u32::leading_zeros`: the zero bits above the highest bit that is set.
unfoldable pub leading_zeros : ℕ → ℕ → ℕ
leading_zeros zero v = 0
leading_zeros (suc width) v = if ltb v (2 ^ width) then suc (leading_zeros width v) else 0

unfoldable pub num_bytes : ℕ → ℕ
num_bytes value = if value == 0 then 1 else (32 - leading_zeros 32 value + 6) / 7
