-- ===== src/Hdlc/Decoder/Resume.antt =====
-- libmaestro/src/hdlc/decoder.rs: frames that arrive in pieces.
use pbpctrl.Prelude.{
  ℕ, ◌≡◌, ◌≢◌, refl, sym, ap, ◌∙◌, List, [], ◌∷◌, ◌++◌, ◌⊎◌, if◌then◌else◌, none, some, arith, inl,
  inr, Bool, true, false, Option-cases, ok, err,
}
use pbpctrl.Hdlc.{Frame}
use pbpctrl.Hdlc.Decoder.Sound.{decode_buffered-ne-none}
use pbpctrl.Hdlc.Decoder.{
  Decoder, State, discard, push_byte, Outcome, Error, unexpected_data, Round, go, stop, round,
  round_normal, round_escape, leave, scan, seek, dispatch, process, find_frame_start,
}

pub Round-cases :
    (r : Round)
    → ((d : Decoder) × (r ≡ go d)) ⊎ ((o : Outcome × Decoder) × (c : Bool) × (r ≡ stop o c))
Round-cases (go d) = inl (d, refl)
Round-cases (stop o c) = inr (o, c, refl)

-- A round that returns has a frame or an error; one that goes on stays in `State::Frame`.
round-stop :
    (d : Decoder) (b : ℕ) (o : Outcome × Decoder) (c : Bool) → round d b ≡ stop o c → o.0 ≢ ok none
unfolding round round_normal round_escape
round-stop d b o c e n = ground (arith, decode_buffered-ne-none d)

pub round-state : (d d' : Decoder) (b : ℕ) → round d b ≡ go d' → d'.state ≡ d.state
unfolding round round_normal round_escape push_byte
round-state d d' b e = ground arith

pub scan_go :
    (d d' : Decoder) (b : ℕ) (bs : List ℕ) → round d b ≡ go d' → scan d (b ∷ bs) ≡ scan d' bs
unfolding scan
scan_go d d' b bs e = rw (e, scan)

pub scan_stop :
    (d : Decoder) (b : ℕ) (bs : List ℕ) (o : Outcome × Decoder) (c : Bool)
    → round d b ≡ stop o c
    → scan d (b ∷ bs) ≡ leave o (if c then bs else b ∷ bs)
unfolding scan
scan_stop d b bs o c e = rw (e, scan)

-- A scan without result has read everything, and can be continued.
scan-append_none :
    (d : Decoder) (xs ys : List ℕ)
    → (scan d xs).0 ≡ ok none
    → (scan d (xs ++ ys) ≡ scan (scan d xs).1 ys) × ((scan d xs).1.state ≡ d.state)
scan-append_none d [] ys h = unfold scan in (refl, refl)
scan-append_none d (b ∷ xs) ys h = elim (Round-cases (round d b)) [
  | inl (d', e) ↦
      let (more, st) = scan-append_none d' xs ys (rw (scan_go d d' b xs e) at h) in
      rw (scan_go d d' b xs e, scan_go d d' b (xs ++ ys) e) (more, st ∙ round-state d d' b e)
  | inr (o, c, e) ↦ absurd (round-stop d b o c e (rw (scan_stop d b xs o c e) at h))
]

-- A scan with a result does not depend on the bytes behind, which join what is left.
scan-append_some :
    (d d' : Decoder) (xs ys rest : List ℕ) (r : Outcome)
    → r ≢ ok none
    → scan d xs ≡ (r, d', rest)
    → scan d (xs ++ ys) ≡ (r, d', rest ++ ys)
scan-append_some d d' [] ys rest r some_r h = absurd (some_r (unfold scan in cc))
scan-append_some d d' (b ∷ xs) ys rest r some_r h = elim (Round-cases (round d b)) [
  | inl (d2, e) ↦
      scan_go d d2 b (xs ++ ys) e
      ∙ scan-append_some d2 d' xs ys rest r some_r (sym (scan_go d d2 b xs e) ∙ h)
  | inr (o, c, e) ↦
      scan_stop d b (xs ++ ys) o c e ∙ left_over o c (sym (scan_stop d b xs o c e) ∙ h)
]
  where
    left_over :
        (o : Outcome × Decoder) (c : Bool)
        → leave o (if c then xs else b ∷ xs) ≡ (r, d', rest)
        → leave o (if c then xs ++ ys else b ∷ xs ++ ys) ≡ (r, d', rest ++ ys)
    left_over (r2, d2) true h2 = ap (λ (p : Outcome × Decoder × List ℕ). (p.0, p.1, p.2 ++ ys)) h2
    left_over (r2, d2) false h2 = ap (λ (p : Outcome × Decoder × List ℕ). (p.0, p.1, p.2 ++ ys)) h2

find_frame_start-append :
    (xs ys : List ℕ) (n : ℕ) → find_frame_start xs ≡ some n → find_frame_start (xs ++ ys) ≡ some n
unfolding find_frame_start
find_frame_start-append [] ys n h = cc
find_frame_start-append (a ∷ []) ys n h = cc
find_frame_start-append (a ∷ b ∷ xs) ys n h = elim (Option-cases (find_frame_start (b ∷ xs))) [
  | inl e ↦ ground (arith, e)
  | inr (k, e) ↦ ground (arith, e, find_frame_start-append (b ∷ xs) ys k e)
]

pub process_in_frame :
    (d : Decoder) (xs : List ℕ) → d.state ≡ State.frame → process d xs ≡ scan d xs
unfolding process dispatch
process_in_frame d [] e = unfold scan in refl
process_in_frame d (b ∷ xs) e = rw e

seek_starts :
    (d : Decoder) (b : ℕ) (bs : List ℕ)
    → find_frame_start (b ∷ bs) ≡ some 0
    → seek d (b ∷ bs) (find_frame_start (b ∷ bs)) ≡ scan (record d { state = State.frame }) bs
unfolding seek
seek_starts d b bs e = rw e

-- Outside a frame, only a frame that starts at once gives anything but an error.
seek_starts_only :
    (d : Decoder) (b : ℕ) (bs : List ℕ)
    → ((e : Error) → (seek d (b ∷ bs) (find_frame_start (b ∷ bs))).0 ≢ err e)
    → find_frame_start (b ∷ bs) ≡ some 0
unfolding seek
seek_starts_only d b bs fine = elim (Option-cases (find_frame_start (b ∷ bs))) [
  | inl e ↦ absurd (ground (arith, e, fine unexpected_data))
  | inr (n, e) ↦ ground (arith, e, fine unexpected_data)
]

dispatch-append_none :
    (s : State) (d : Decoder) (b : ℕ) (bs ys : List ℕ)
    → d.state ≡ s
    → (dispatch s d (b ∷ bs)).0 ≡ ok none
    → dispatch s d (b ∷ bs ++ ys) ≡ process (dispatch s d (b ∷ bs)).1 ys
unfolding dispatch
dispatch-append_none State.frame d b bs ys st h =
    let (more, same) = scan-append_none d (b ∷ bs) ys h in
    more ∙ sym (process_in_frame (scan d (b ∷ bs)).1 ys (same ∙ st))
dispatch-append_none discard d b bs ys st h =
    let start : find_frame_start (b ∷ bs) ≡ some 0 = seek_starts_only d b bs (λ e n. cc) in
    let d2 : Decoder = record d { state = State.frame } in
    let here : seek d (b ∷ bs) (find_frame_start (b ∷ bs)) ≡ scan d2 bs =
      seek_starts d b bs start in
    let (more, same) =
      scan-append_none d2 bs ys (ap (λ (p : Outcome × Decoder × List ℕ). p.0) (sym here) ∙ h) in
    seek_starts d b (bs ++ ys) (find_frame_start-append (b ∷ bs) ys 0 start)
    ∙ more
    ∙ sym (process_in_frame (scan d2 bs).1 ys same)
    ∙ ap (λ (p : Outcome × Decoder × List ℕ). process p.1 ys) (sym here)

-- Input that gives no result yet may be cut off anywhere: the rest, given to the decoder in the
-- state it is left in, has the effect that both have together.
pub process-append_none :
    (d : Decoder) (xs ys : List ℕ)
    → (process d xs).0 ≡ ok none
    → process d (xs ++ ys) ≡ process (process d xs).1 ys
unfolding process
process-append_none d [] ys h = refl
process-append_none d (b ∷ bs) ys h = dispatch-append_none d.state d b bs ys refl h

dispatch-append_some :
    (s : State) (d d' : Decoder) (b : ℕ) (bs ys rest : List ℕ) (f : Frame)
    → dispatch s d (b ∷ bs) ≡ (ok (some f), d', rest)
    → dispatch s d (b ∷ bs ++ ys) ≡ (ok (some f), d', rest ++ ys)
unfolding dispatch
dispatch-append_some State.frame d d' b bs ys rest f h =
    scan-append_some d d' (b ∷ bs) ys rest (ok (some f)) (λ e. cc) h
dispatch-append_some discard d d' b bs ys rest f h =
    let start : find_frame_start (b ∷ bs) ≡ some 0 = seek_starts_only d b bs (λ e n. cc) in
    seek_starts d b (bs ++ ys) (find_frame_start-append (b ∷ bs) ys 0 start)
    ∙ scan-append_some (record d { state = State.frame }) d' bs ys rest (ok (some f)) (λ e. cc)
        (sym (seek_starts d b bs start) ∙ h)

-- Bytes behind a frame do not change it, and stay in the buffer.
pub process-append_some :
    (d d' : Decoder) (xs ys rest : List ℕ) (f : Frame)
    → process d xs ≡ (ok (some f), d', rest)
    → process d (xs ++ ys) ≡ (ok (some f), d', rest ++ ys)
unfolding process
process-append_some d d' [] ys rest f h = cc
process-append_some d d' (b ∷ bs) ys rest f h = dispatch-append_some d.state d d' b bs ys rest f h
