-- ===== src/Gfps/Listen/Tests.antt =====
-- libgfps/examples/gfps_listen.rs: a connection that ends with a short message.
use pbpctrl.Prelude.{ℕ, ◌≡◌, refl, List, [], ◌∷◌, none, not}
use pbpctrl.Gfps.Codec.{Message}
use pbpctrl.Gfps.Events.{event_group_from, device_event_code_from}
use pbpctrl.Gfps.Battery.{from_byte, battery_text}
use pbpctrl.Gfps.Listen.{
  Formats, print_message, print_group, print_device, print_device_data, print_batteries,
}
use pbpctrl.Gfps.Listen.Texts.{device_text}
use pbpctrl.Gfps.Listen.Stream.{Received, message, listen}
use pbpctrl.Gfps.Listen.Panics.{all_fit, has_panicked, listen_panics}

abbrev plain : Formats
plain = record {
  hex = λ n. "xx";
  binary = λ n. "b";
  int = λ n. "n";
  hex_slice = λ l. "[]";
  from_utf8 = λ l. none;
  quoted = λ s. s;
  address = λ l. "address";
  hex_dump = λ l. [];
}

abbrev levels : Message
levels = record { group = 3; code = 3; payload = 100 ∷ 0x85 ∷ 0xFF ∷ [] }

abbrev short : Message
short = record { group = 3; code = 3; payload = 100 ∷ [] }

abbrev items : List (Received ℕ)
items = message levels ∷ message short ∷ []

printed :
    (print_message plain levels).0
    ≡ "Device Information (0xxx) :: Battery Info (0xxx)" ∷ "  left bud:  n% (not charging)"
      ∷ "  right bud: n% (charging)" ∷ "  case:      unknown" ∷ "" ∷ []
unfolding print_message print_group print_device print_device_data print_batteries event_group_from
    device_event_code_from device_text battery_text from_byte
printed = refl

listen_panics_example : has_panicked (listen plain items).1 ≡ not (all_fit items)
listen_panics_example = listen_panics plain items
