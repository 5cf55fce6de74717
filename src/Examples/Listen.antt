-- ===== src/Examples/Listen.antt =====
-- libmaestro/examples/maestro_listen.rs and common/mod.rs: the program that prints what the device
-- reports, and connects again when the connection is reset.
use Prim.Native.String.{String}
use pbpctrl.Prelude.{
  ℕ, ◌≡◌, refl, ap, ◌∙◌, List, [], ◌∷◌, ◌++◌, Option, none, some, Result, ok, err, Bool, true,
  false, ◌==◌, if◌then◌else◌, All, Bool-cases, inl, inr, arith,
}
use pbpctrl.Pwrpc.Client.{Io, Client, Done}
use pbpctrl.Pwrpc.Client.Run.{Event}
use pbpctrl.Pwrpc.Client.Run as Driver
use pbpctrl.Pwrpc.Client.Terminate.{terminate}

-- The loop of a listener over the items of its stream: what it prints, and its result. `show` is the
-- derived text of a message.
module _ {M E : Type 0} (show : M → String) where
  abbrev pub then_more : String → List String × Done E → List String × Done E
  then_more line (lines, r) = (line ∷ lines, r)

  unfoldable pub run_listener_items : List (Result E M) → List String × Done E
  run_listener_items [] = ([], ok tt)
  run_listener_items (ok m ∷ items) = then_more (show m) (run_listener_items items)
  run_listener_items (err e ∷ items) = ([], err e)

-- What `select!` takes first: the client's task, with the operating system's number of the error's
-- root cause, if it has one, or the listener's. Before that it is set up.
pub data Ended (E : Type 0) : Type 0 where
  exec : Done E → (raw_os_error : Option ℕ) → Ended E
  listen : Done E → Ended E
  -- The connection or the choice of the channel fails.
  set_up : E → Ended E

abbrev pub is_reset : Option ℕ → Bool
is_reset none = false
is_reset (some n) = n == 104

module _ {E : Type 0} where
  -- `none` is `continue`.
  unfoldable pub end_round : Ended E → Option (Done E)
  end_round (exec (ok u) code) = some (ok tt)
  end_round (exec (err e) code) = if is_reset code then none else some (err e)
  end_round (listen (ok u)) = some (ok tt)
  end_round (listen (err e)) = some (err e)
  end_round (set_up e) = some (err e)

  abbrev pub or_next : Option (Done E) → Option (Done E) → Option (Done E)
  or_next none rest = rest
  or_next (some r) rest = some r

  -- One entry for each connection; `none` while the program runs.
  unfoldable pub listen_loop : List (Ended E) → Option (Done E)
  listen_loop [] = none
  listen_loop (e ∷ rounds) = or_next (end_round e) (listen_loop rounds)

  abbrev pub IsReset : Ended E → Type 0
  IsReset (exec (ok u) code) = ⊥
  IsReset (exec (err e) code) = is_reset code ≡ true
  IsReset (listen r) = ⊥
  IsReset (set_up e) = ⊥

  pub record Stopped (rounds : List (Ended E)) (r : Done E) : Type 0 where
    pub front : List (Ended E)
    pub last : Ended E
    pub back : List (Ended E)
    pub split : rounds ≡ front ++ last ∷ back
    pub reset : All IsReset front
    pub result : end_round last ≡ some r

  end_round-none : (e : Ended E) → end_round e ≡ none → IsReset e
  unfolding end_round
  end_round-none (exec (ok u) code) h = absurd (ground (arith, h))
  end_round-none (exec (err e) code) h = elim (Bool-cases (is_reset code)) [
    | inl reset ↦ reset
    | inr other ↦ absurd (ground (arith, other, h))
  ]
  end_round-none (listen (ok u)) h = absurd (ground (arith, h))
  end_round-none (listen (err e)) h = absurd (ground (arith, h))
  end_round-none (set_up e) h = absurd (ground (arith, h))

  or_next-Stopped :
      (e : Ended E) (rounds : List (Ended E)) (r : Done E) (end : Option (Done E))
      → end_round e ≡ end
      → or_next end (listen_loop rounds) ≡ some r
      → (listen_loop rounds ≡ some r → Stopped rounds r)
      → Stopped (e ∷ rounds) r
  or_next-Stopped e rounds r none now h rest =
      let later = rest h in
      record {
        front = e ∷ later.front;
        last = later.last;
        back = later.back;
        split = ap (λ t. e ∷ t) later.split;
        reset = (end_round-none e now, later.reset);
        result = later.result;
      }
  or_next-Stopped e rounds r (some x) now h rest = record {
    front = [];
    last = e;
    back = rounds;
    split = refl;
    reset = tt;
    result = now ∙ h;
  }

  -- The program stops at the first connection that does not end with a reset, with the result of
  -- what ended it: every connection before it was reset.
  pub listen_loop_stops :
      (rounds : List (Ended E)) (r : Done E) → listen_loop rounds ≡ some r → Stopped rounds r
  unfolding listen_loop
  listen_loop_stops [] r h = absurd (ground (arith, h))
  listen_loop_stops (e ∷ rounds) r h =
      or_next-Stopped e rounds r (end_round e) refl h (listen_loop_stops rounds r)

-- `run_client`. The client's loop ends with an error only, and the client is not terminated then.
module _ (io : Io) (stream_closed : io.Failure) where
  abbrev pub after_signal : Done io.Failure → Client io → Done io.Failure × Client io
  after_signal (ok u) client = terminate io client
  after_signal (err e) client = (err e, client)

  abbrev pub after_run :
      Done io.Failure → Option io.Failure × Client io → Done io.Failure × Client io
  after_run signal (none, client) = after_signal signal client
  after_run signal (some e, client) = (err e, client)

  -- `events` is what the client handles before the signal.
  unfoldable pub run_client :
      Done io.Failure → List (Event io) → Client io → Done io.Failure × Client io
  run_client signal events client = after_run signal (Driver.run io stream_closed events client)
