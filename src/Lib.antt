-- ===== src/Lib.antt =====
-- A model of pbpctrl's protocol code: the libraries `libmaestro` (the Maestro protocol of the Pixel
-- Buds Pro) and `libgfps` (messages of the Google Fast Pair Service).
--
-- A call of the RPC client becomes a packet; the packet codec puts it into an HDLC frame whose
-- address names the sender and the receiver; the HDLC encoder writes the frame between flags, its
-- bytes escaped, with a checksum. Bytes from the device take the way back: the HDLC decoder finds
-- frames in a stream that may be cut anywhere, the packet codec decodes their data, and the client
-- hands each packet to the pending call it belongs to, over whose channel the caller receives it.
-- The services make calls for the settings and reports of the buds, and the command line tool makes
-- a service's call of each command. Fast Pair messages have a codec of their own.
--
--   Prelude         shared lists, results, bytes, and the laws of the bit operations
--   Hdlc            libmaestro/src/hdlc/mod.rs and consts.rs: Frame and the flag bytes
--   Hdlc/Varint     libmaestro/src/hdlc/varint.rs: decode, encode_vec, num_bytes
--   Hdlc/Crc        libmaestro/src/hdlc/crc.rs: Crc32, crc32 and the table
--   Hdlc/Encoder    libmaestro/src/hdlc/encoder.rs: ByteEscape, Encoder, encode, encode_bytes
--   Hdlc/Decoder    libmaestro/src/hdlc/decoder.rs: Decoder::process, decode_buffered
--   Hdlc/Codec      libmaestro/src/hdlc/codec.rs: the codec that `Framed` drives
--   Protocol/Addr   libmaestro/src/protocol/addr.rs: Peer, Address, the table of channels
--   Protocol/Codec  libmaestro/src/protocol/codec.rs: RPC packets in frames
--   Protocol/Codec/Stream the same file: the loop in which `Framed` of tokio_util uses the codec
--   Protocol/Resolve      libmaestro/src/protocol/utils.rs: resolve_channel, try_open_channel
--   Pwrpc/Types     libmaestro/src/pwrpc/types.rs and the packet of proto/pw.rpc.packet.proto
--   Pwrpc/Status    libmaestro/src/pwrpc/status.rs: Status, Error and their conversions
--   Pwrpc/Id        libmaestro/src/pwrpc/id.rs: Path and the hash of an identifier; below it Names
--                   (Id, IdRef)
--   Pwrpc/Client    libmaestro/src/pwrpc/client.rs: the pending calls, packets, requests, terminate
--   Pwrpc/Handle    libmaestro/src/pwrpc/client.rs: ClientHandle, CallHandle, UnaryResponse::result
--   Pwrpc/Client/Run      the same file: Client::run, on the list of the events that it takes
--   Pwrpc/Client/Callers  the same file: what the callers' channels have delivered after a run
--   Pwrpc/Client/Table    the same file: the pending calls as a table that the client refines
--   Pwrpc/System    the same file: the client together with its callers, as a step relation
--   Pwrpc/Handle/Stream   libmaestro/src/pwrpc/client.rs: ServerStream
--   Pwrpc/Handle/UnaryResponse, Pwrpc/Handle/StreamResponse  the same file: the responses of calls
--   Pwrpc/Rpc       libmaestro/src/pwrpc/client.rs: UnaryRpc, ServerStreamRpc
--   Pwrpc/Utils     libmaestro/src/pwrpc/utils.rs: EncodedMessage
--   Service/Settings      libmaestro/src/service/settings.rs: VolumeAsymmetry, gestures, noise
--                   control; below it Bands (EqBands), Value (SettingValue and its message), Keys
--                   (the trait Setting and the module id) and Display (the texts)
--   Service/Messages      libmaestro/proto/maestro_pw.proto: the messages of the services
--   Service/Maestro libmaestro/src/service/impls: MaestroService, MultipointService
--   Cli/Args        cli/src/cli.rs: the commands and the parsers of values
--   Cli/Command     cli/src/main.rs: the setting that a command reads or sends
--   Cli/Report      cli/src/main.rs: the lines of the `show` commands
--   Cli/Session     cli/src/main.rs: the tasks, and `run`
--   Cli/Bluetooth   cli/src/bt.rs: the choice of the device, and the connection to its profile
--   Gfps/Codec      libgfps/src/msg/codec.rs: Codec::decode and Codec::encode
--   Gfps/Battery    libgfps/src/msg/types.rs: BatteryInfo
--   Gfps/Events     libgfps/src/msg/types.rs: the enums of event codes
--   Gfps/Ring       libgfps/examples/ring.rs: the two loops of the program
--   Gfps/Connect    libgfps/examples/gfps_listen.rs: connect_device_to_profile
--   Gfps/Listen     libgfps/examples/gfps_listen.rs: print_message, and the loop over the messages
--   Gfps/Query      libgfps/examples/gfps_get_battery.rs: the wait for the batteries' levels
--   Examples        libmaestro/examples: the tasks of the four programs (Battery, Listen, Settings)
--
-- State is passed explicitly: an operation takes the state and the buffer, and returns its result
-- with both as they are after the call. The field `data` of the source is called `payload`. Bytes
-- and machine integers are natural numbers; where the source's arithmetic can wrap, the remainder is
-- written out. `Decoder::process` is modelled on the list of the bytes not yet read, `advance` as
-- taking from its front. The decoder's buffer holds exactly the capacity it was made with.
-- The iterator `varint::Encode` is run for six calls: a u32 has at most five groups of seven bits.
-- A shift by 64 or more is taken modulo 64, as where overflow checks are off.
--
-- The protobuf encoding, the channels to the callers and the transport are not under this
-- repository: they are parameters, in Protocol/Codec as two functions, in Service/Messages as the
-- record Messages, in Pwrpc/Client as the record Io and in Pwrpc/Handle as the record Queues. The
-- records Channels and Delivers state what the documentation of the channels says. The receiver of a
-- call is the list of the updates that its channel will deliver. The type f32 and its clamp are the
-- record Floats, the texts of numbers the record Formats, and tokio's try_join the record TryJoin. A panic in the packet codec's encode or in
-- UnaryResponse::result is the result `none`.
--
-- In Pwrpc/System a request that the queue takes waits in the client's own queue, and each step of a
-- caller is an operation of Pwrpc/Handle on the whole system. Whether the queue takes a request is
-- the parameter Mpsc, of which TakesOpen states what the documentation says. The steps of callers,
-- client and the world outside interleave in any order. The list of the calls that were accepted only records what
-- happened. Pwrpc/System/Heard has the invariant, Closed and Rule what follows from it.
--
-- A `select!` in a loop takes a list of events in their order; the one in resolve_channel and the one
-- in the tool's `run` are given the branches that are ready when they end. Reading a stream is run on
-- fuel, one poll for each item and one for the last update; decoding packets is run on fuel, one call
-- of the codec for each packet and one that finds no more. That much is shown to be enough.
--
-- What a program prints is the list of its lines, with a flag or `none` for a panic. The texts that
-- the standard library, bluer and pretty_hex make are parameters.
--
-- Not modelled: the parsing of arguments and the generation of shell completions, which clap does;
-- the set-up of the Bluetooth session, which is calls of bluer; and logging.
pub mod Prelude
pub mod Hdlc
pub mod Gfps
pub mod Pwrpc
pub mod Protocol
pub mod Service
pub mod Cli
pub mod Examples
