-- ===== src/Gfps/Listen/Stream.antt =====
-- libgfps/examples/gfps_listen.rs: the loop over the messages of one connection.
use Prim.Native.String.{String}
use pbpctrl.Prelude.{
  ℕ, List, [], ◌∷◌, ◌++◌, Option, none, some, Bool, true, false, ◌==◌, if◌then◌else◌,
}
use pbpctrl.Gfps.Codec.{Message}
use pbpctrl.Gfps.Listen.{Formats, Printed, print_message}

-- What the stream yields: a message, or an error with the operating system's number, if it has one.
pub data Received (E : Type 0) : Type 0 where
  message : Message → Received E
  failed : E → (raw_os_error : Option ℕ) → Received E

-- How a connection's loop ends: the program connects again, or returns the error, or panics.
pub data Listened (E : Type 0) : Type 0 where
  reconnects panicked : Listened E
  returns : E → Listened E

abbrev pub is_reset : Option ℕ → Bool
is_reset none = false
is_reset (some n) = n == 104

module _ (fmt : Formats) {E : Type 0} where
  abbrev pub listen_on : Printed → List String × Listened E → List String × Listened E
  listen_on (lines, true) (more, end) = (lines ++ more, end)
  listen_on (lines, false) (more, end) = (lines, panicked)

  -- The items up to the stream's end.
  unfoldable pub listen : List (Received E) → List String × Listened E
  listen [] = ([], reconnects)
  listen (message msg ∷ items) = listen_on (print_message fmt msg) (listen items)
  listen (failed e code ∷ items) =
      if is_reset code
      then ("" ∷ "Connection reset. Attempting to reconnect..." ∷ [], reconnects)
      else ([], returns e)
