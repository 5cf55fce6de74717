-- ===== src/Hdlc/Decoder/Invariant.antt =====
-- libmaestro/src/hdlc/decoder.rs: what holds of the decoder between any two calls.
use pbpctrl.Prelude.{
  ℕ, zero, suc, ◌≤◌, ◌<◌, ◌≡◌, refl, ◌∙◌, subst, List, [], ◌∷◌, ◌==◌, ◌⊎◌, Option, none, some,
  length, length-append, arith, Bool-cases, inl, inr, false, ltb, Result-cases, All, All-append,
  IsByte, bit_xor,
}
use pbpctrl.Prelude.Bits.{bit_xor-lt}
use pbpctrl.Hdlc.{escape_mask, escape_flag, frame_flag}
use pbpctrl.Hdlc.Varint
use pbpctrl.Hdlc.Decoder.Resume.{Round-cases, round-state, scan_go, scan_stop}
use pbpctrl.Hdlc.Decoder.{
  Decoder, State, discard, EscState, normal, reset, push_byte, decode_buffered, decode_address,
  decode_rest, Round, go, stop, round, round_normal, round_escape, scan, seek, dispatch, process,
  find_frame_start, with_capacity,
}

-- The buffer stays within its capacity, no byte is lost while there is room, and between frames
-- nothing is held.
pub record IsValid (d : Decoder) : Type 0 where
  pub bounded : length d.buf ≤ d.capacity
  pub counted : length d.buf ≤ d.current_frame_size
  pub lossless : length d.buf < d.capacity → d.current_frame_size ≤ length d.buf
  pub idle_buf : d.state ≡ discard → d.current_frame_size ≡ 0
  pub idle_esc : d.state ≡ discard → d.esc ≡ normal
  pub bytes : All IsByte d.buf

-- Validity, with the capacity unchanged.
abbrev Keeps : Decoder → Decoder → Type 0
Keeps d d' = IsValid d' × (d'.capacity ≡ d.capacity)

with_capacity-IsValid : (limit : ℕ) → IsValid (with_capacity limit)
with_capacity-IsValid limit = ground arith

reset-IsValid : (d : Decoder) → Keeps d (reset d)
reset-IsValid d = ground arith

restart-IsValid : (d : Decoder) → Keeps d (record (reset d) { state = State.frame })
restart-IsValid d = ground arith

starts-IsValid : (d : Decoder) → IsValid d → IsValid (record d { state = State.frame })
starts-IsValid d v = ground arith

push_byte-bytes :
    (d : Decoder) (b : ℕ) → All IsByte d.buf → IsByte b → All IsByte (push_byte d b).buf
unfolding push_byte
push_byte-bytes d b h hb = elim (Bool-cases (ltb (length d.buf) d.capacity)) [
  | inl room ↦ rw room (All-append IsByte d.buf (b ∷ []) h (hb, tt))
  | inr full ↦ rw full h
]

push_byte-IsValid :
    (d : Decoder) (b : ℕ) → IsValid d → d.state ≡ State.frame → IsByte b → Keeps d (push_byte d b)
push_byte-IsValid d b v st hb =
    let bytes = push_byte-bytes d b v.bytes hb in
    unfold push_byte in ground (arith, bytes, length-append d.buf (b ∷ []))

push_byte-state : (d : Decoder) (b : ℕ) → (push_byte d b).state ≡ d.state
unfolding push_byte
push_byte-state d b = ground arith

decode_buffered-states :
    (d : Decoder)
    → ((decode_buffered d).1 ≡ reset d)
      ⊎ ((decode_buffered d).1 ≡ record (reset d) { state = State.frame })
      ⊎ ((decode_buffered d).1 ≡ d)
unfolding decode_buffered decode_address decode_rest
decode_buffered-states d = elim (Result-cases (Varint.decode d.buf)) [
  | inl (p, v) ↦ ground (arith, v)
  | inr (x, v) ↦ ground (arith, v)
]

decode_buffered-IsValid : (d : Decoder) → IsValid d → Keeps d (decode_buffered d).1
decode_buffered-IsValid d v = elim (decode_buffered-states d) [
  | inl e ↦ rw e (reset-IsValid d)
  | inr (inl e) ↦ rw e (restart-IsValid d)
  | inr (inr e) ↦ rw e (v, refl)
]

-- What a round leads to.
After : Decoder → Round → Type 0
After d (go d') = Keeps d d'
After d (stop o c) = Keeps d o.1

open_escape-IsValid :
    (d : Decoder) → IsValid d → d.state ≡ State.frame → Keeps d (record d { esc = EscState.escape })
open_escape-IsValid d v st = ground arith

close_escape-IsValid :
    (d : Decoder) → IsValid d → d.state ≡ State.frame → Keeps d (record d { esc = normal })
close_escape-IsValid d v st = ground arith

round_normal-After :
    (d : Decoder) (b : ℕ)
    → IsValid d
    → d.state ≡ State.frame
    → IsByte b
    → After d (round_normal d b)
unfolding round_normal After
round_normal-After d b v st hb = elim (Bool-cases (b == escape_flag)) [
  | inl e ↦ rw e (open_escape-IsValid d v st)
  | inr n ↦ elim (Bool-cases (b == frame_flag)) [
    | inl e ↦ rw (n, e) (decode_buffered-IsValid d v)
    | inr m ↦ rw (n, m) (push_byte-IsValid d b v st hb)
  ]
]

round_escape-After :
    (d : Decoder) (b : ℕ)
    → IsValid d
    → d.state ≡ State.frame
    → IsByte b
    → After d (round_escape d b)
unfolding round_escape After
round_escape-After d b v st hb =
    let b' : ℕ = bit_xor b escape_mask in
    let byte : IsByte b' = bit_xor-lt 8 b escape_mask hb (omega arith) in
    elim (Bool-cases (b == escape_flag)) [
      | inl e ↦ rw e (reset-IsValid d)
      | inr n ↦ elim (Bool-cases (b == frame_flag)) [
        | inl e ↦ rw (n, e) (reset-IsValid d)
        | inr m ↦
            let (pv, pc) = push_byte-IsValid d b' v st byte in
            let still : (push_byte d b').state ≡ State.frame = push_byte-state d b' ∙ st in
            rw (n, m)
              (
                (close_escape-IsValid (push_byte d b') pv still).0,
                (close_escape-IsValid (push_byte d b') pv still).1 ∙ pc,
              )
      ]
    ]

round_by_esc :
    (d : Decoder) (b : ℕ) → (round d b ≡ round_normal d b) ⊎ (round d b ≡ round_escape d b)
unfolding round
round_by_esc d b = ground arith

round-After :
    (d : Decoder) (b : ℕ) → IsValid d → d.state ≡ State.frame → IsByte b → After d (round d b)
round-After d b v st hb = elim (round_by_esc d b) [
  | inl e ↦ rw e (round_normal-After d b v st hb)
  | inr e ↦ rw e (round_escape-After d b v st hb)
]

scan-IsValid :
    (d : Decoder) (bs : List ℕ)
    → IsValid d
    → d.state ≡ State.frame
    → All IsByte bs
    → Keeps d (scan d bs).1
unfolding After
scan-IsValid d [] v st h = unfold scan in (v, refl)
scan-IsValid d (b ∷ bs) v st h = elim (Round-cases (round d b)) [
  | inl (d', e) ↦
      let (v', c') = subst (After d) e (round-After d b v st h.0) in
      let (w, c) = scan-IsValid d' bs v' (round-state d d' b e ∙ st) h.1 in
      rw (scan_go d d' b bs e) (w, c ∙ c')
  | inr (o, c, e) ↦ rw (scan_stop d b bs o c e) (subst (After d) e (round-After d b v st h.0))
]

seek-IsValid :
    (d : Decoder) (b : ℕ) (bs : List ℕ) (o : Option ℕ)
    → IsValid d
    → d.state ≡ discard
    → All IsByte bs
    → Keeps d (seek d (b ∷ bs) o).1
unfolding seek
seek-IsValid d b bs none v st h = (v, refl)
seek-IsValid d b bs (some zero) v st h =
    scan-IsValid (record d { state = State.frame }) bs (starts-IsValid d v) refl h
seek-IsValid d b bs (some (suc n)) v st h =
    let later : (suc n == 0) ≡ false = ground arith in rw later (starts-IsValid d v, refl)

dispatch-IsValid :
    (s : State) (d : Decoder) (b : ℕ) (bs : List ℕ)
    → d.state ≡ s
    → IsValid d
    → All IsByte (b ∷ bs)
    → Keeps d (dispatch s d (b ∷ bs)).1
unfolding dispatch
dispatch-IsValid State.frame d b bs st v h = scan-IsValid d (b ∷ bs) v st h
dispatch-IsValid discard d b bs st v h = seek-IsValid d b bs (find_frame_start (b ∷ bs)) v st h.1

-- Every call keeps the decoder valid, whatever bytes it reads, and keeps its capacity.
pub process-IsValid :
    (d : Decoder) (bs : List ℕ)
    → IsValid d
    → All IsByte bs
    → IsValid (process d bs).1 × ((process d bs).1.capacity ≡ d.capacity)
unfolding process
process-IsValid d [] v h = (v, refl)
process-IsValid d (b ∷ bs) v h = dispatch-IsValid d.state d b bs refl v h
