-- ===== src/Hdlc/Decoder/Consume.antt =====
-- libmaestro/src/hdlc/decoder.rs: what a call of `process` takes from the buffer.
use pbpctrl.Prelude.{
  ℕ, zero, suc, ◌+◌, ◌≡◌, refl, sym, ap, List, [], ◌∷◌, ◌++◌, ◌==◌, Option, none, some, arith, inl,
  inr, true, false, take, drop, take-append-drop,
}
use pbpctrl.Hdlc.Decoder.Resume.{Round-cases, scan_go, scan_stop}
use pbpctrl.Hdlc.Decoder.{
  Decoder, State, discard, round, scan, seek, dispatch, process, find_frame_start,
}

-- `rest` is what is left of `xs` when some bytes of its front are taken.
abbrev pub SuffixOf : List ℕ → List ℕ → Type 0
SuffixOf rest xs = (front : List ℕ) × (xs ≡ front ++ rest)

scan-suffix : (d : Decoder) (bs : List ℕ) → SuffixOf (scan d bs).2 bs
scan-suffix d [] = unfold scan in ([], refl)
scan-suffix d (b ∷ bs) = elim (Round-cases (round d b)) [
  | inl (d', e) ↦
      let (front, split) = scan-suffix d' bs in
      rw (scan_go d d' b bs e) (b ∷ front, ap (λ t. b ∷ t) split)
  | inr (o, true, e) ↦ rw (scan_stop d b bs o true e) (b ∷ [], refl)
  | inr (o, false, e) ↦ rw (scan_stop d b bs o false e) ([], refl)
]

drop-suffix : (n : ℕ) (bs : List ℕ) → SuffixOf (drop n bs) bs
drop-suffix n bs = (take n bs, sym (take-append-drop n bs))

seek-suffix :
    (d : Decoder) (b : ℕ) (bs : List ℕ) (o : Option ℕ) → SuffixOf (seek d (b ∷ bs) o).2 (b ∷ bs)
unfolding seek
seek-suffix d b bs none = drop-suffix _ (b ∷ bs)
seek-suffix d b bs (some zero) =
    let (front, split) = scan-suffix (record d { state = State.frame }) bs in
    (b ∷ front, ap (λ t. b ∷ t) split)
seek-suffix d b bs (some (suc n)) =
    let later : (suc n == 0) ≡ false = ground arith in rw later (drop-suffix (suc n + 1) (b ∷ bs))

dispatch-suffix :
    (s : State) (d : Decoder) (b : ℕ) (bs : List ℕ) → SuffixOf (dispatch s d (b ∷ bs)).2 (b ∷ bs)
unfolding dispatch
dispatch-suffix State.frame d b bs = scan-suffix d (b ∷ bs)
dispatch-suffix discard d b bs = seek-suffix d b bs (find_frame_start (b ∷ bs))

-- A call takes bytes from the front of the buffer only.
pub process-suffix : (d : Decoder) (bs : List ℕ) → SuffixOf (process d bs).2 bs
unfolding process
process-suffix d [] = ([], refl)
process-suffix d (b ∷ bs) = dispatch-suffix d.state d b bs
