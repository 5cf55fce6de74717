-- ===== src/Cli/Report/Connection.antt =====
-- cli/src/main.rs: what the runtime report says of the connection.
use Prim.Native.String.{String}
use pbpctrl.Prelude.{ℕ, ◌≡◌, refl, [], ◌∷◌, drop, some}
use pbpctrl.Service.Settings.{ℤ}
use pbpctrl.Service.Settings.Display.{text}
use pbpctrl.Service.Messages.{RuntimeInfo}
use pbpctrl.Protocol.Addr.{Peer, channel_id}
use pbpctrl.Protocol.Addr.Channels.{channel_id-peers}
use pbpctrl.Cli.Report.{show_runtime}

-- On the channel of two peers, the last two lines of the runtime report name the first as the local
-- end of the connection and the second as the remote one.
pub show_runtime-channel_id :
    (int : ℤ → String) (peer_name : Peer → String) (info : RuntimeInfo) (local remote : Peer)
    (channel : ℕ)
    → channel_id local remote ≡ some channel
    → drop 12 (show_runtime int peer_name channel info)
      ≡ text ("  local:  " ∷ peer_name local ∷ [])
        ∷ text ("  remote: " ∷ peer_name remote ∷ [])
        ∷ []
unfolding show_runtime
show_runtime-channel_id int peer_name info local remote channel h =
    let (a, address, from, to) = channel_id-peers local remote channel h in
    rw (show_runtime, address, from, to) refl
