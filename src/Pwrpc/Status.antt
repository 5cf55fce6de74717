-- ===== src/Pwrpc/Status.antt =====
-- libmaestro/src/pwrpc/status.rs: status codes and errors.
use pbpctrl.Prelude.{ℕ, ◌≡◌, refl, ◌==◌, if◌then◌else◌, ltb, Option, none, some, arith}
use Prim.Native.String.{String}

pub data Status : Type 0 where
  ok cancelled unknown invalid_argument deadline_exceeded not_found already_exists : Status
  permission_denied resource_exhausted failed_precondition aborted out_of_range : Status
  unimplemented internal unavailable data_loss unauthenticated : Status

unfoldable pub description : Status → String
description Status.ok = "The operation completed successfully"
description Status.cancelled = "The operation was cancelled"
description Status.unknown = "Unknown error"
description Status.invalid_argument = "Client specified an invalid argument"
description Status.deadline_exceeded = "Deadline expired before operation could complete"
description Status.not_found = "Some requested entity was not found"
description Status.already_exists = "Some entity that we attempted to create already exists"
description Status.permission_denied =
    "The caller does not have permission to execute the specified operation"
description Status.resource_exhausted = "Some resource has been exhausted"
description Status.failed_precondition =
    "The system is not in a state required for the operation's execution"
description Status.aborted = "The operation was aborted"
description Status.out_of_range = "Operation was attempted past the valid range"
description Status.unimplemented = "Operation is not implemented or not supported"
description Status.internal = "Internal error"
description Status.unavailable = "The service is currently unavailable"
description Status.data_loss = "Unrecoverable data loss or corruption"
description Status.unauthenticated = "The request does not have valid authentication credentials"

-- `From<u32> for Status`.
unfoldable pub from_u32 : ℕ → Status
from_u32 value =
    if value == 0
    then Status.ok
    else if value == 1
    then Status.cancelled
    else if value == 2
    then Status.unknown
    else if value == 3
    then Status.invalid_argument
    else if value == 4
    then Status.deadline_exceeded
    else if value == 5
    then Status.not_found
    else if value == 6
    then Status.already_exists
    else if value == 7
    then Status.permission_denied
    else if value == 8
    then Status.resource_exhausted
    else if value == 9
    then Status.failed_precondition
    else if value == 10
    then Status.aborted
    else if value == 11
    then Status.out_of_range
    else if value == 12
    then Status.unimplemented
    else if value == 13
    then Status.internal
    else if value == 14
    then Status.unavailable
    else if value == 15
    then Status.data_loss
    else if value == 16
    then Status.unauthenticated
    else Status.unknown

-- `From<Status> for u32`.
unfoldable pub into_u32 : Status → ℕ
into_u32 Status.ok = 0
into_u32 Status.cancelled = 1
into_u32 Status.unknown = 2
into_u32 Status.invalid_argument = 3
into_u32 Status.deadline_exceeded = 4
into_u32 Status.not_found = 5
into_u32 Status.already_exists = 6
into_u32 Status.permission_denied = 7
into_u32 Status.resource_exhausted = 8
into_u32 Status.failed_precondition = 9
into_u32 Status.aborted = 10
into_u32 Status.out_of_range = 11
into_u32 Status.unimplemented = 12
into_u32 Status.internal = 13
into_u32 Status.unavailable = 14
into_u32 Status.data_loss = 15
into_u32 Status.unauthenticated = 16

-- `B` is the type of a boxed error that an error may wrap.
pub record Error (B : Type 0) : Type 0 where
  pub code : Status
  pub message : String
  pub source : Option B

module _ {B : Type 0} where
  abbrev pub new : Status → String → Error B
  new code message = record { code = code; message = message; source = none }

  abbrev pub extend : Status → String → B → Error B
  extend code message error = record { code = code; message = message; source = some error }

  -- The errors of each status.
  abbrev pub new_cancelled : String → Error B
  new_cancelled message = new Status.cancelled message

  abbrev pub new_unknown : String → Error B
  new_unknown message = new Status.unknown message

  abbrev pub new_invalid_argument : String → Error B
  new_invalid_argument message = new Status.invalid_argument message

  abbrev pub new_deadline_exceeded : String → Error B
  new_deadline_exceeded message = new Status.deadline_exceeded message

  abbrev pub new_not_found : String → Error B
  new_not_found message = new Status.not_found message

  abbrev pub new_already_exists : String → Error B
  new_already_exists message = new Status.already_exists message

  abbrev pub new_permission_denied : String → Error B
  new_permission_denied message = new Status.permission_denied message

  abbrev pub new_resource_exhausted : String → Error B
  new_resource_exhausted message = new Status.resource_exhausted message

  abbrev pub new_failed_precondition : String → Error B
  new_failed_precondition message = new Status.failed_precondition message

  abbrev pub new_aborted : String → Error B
  new_aborted message = new Status.aborted message

  abbrev pub new_out_of_range : String → Error B
  new_out_of_range message = new Status.out_of_range message

  abbrev pub new_unimplemented : String → Error B
  new_unimplemented message = new Status.unimplemented message

  abbrev pub new_internal : String → Error B
  new_internal message = new Status.internal message

  abbrev pub new_unavailable : String → Error B
  new_unavailable message = new Status.unavailable message

  abbrev pub new_data_loss : String → Error B
  new_data_loss message = new Status.data_loss message

  abbrev pub new_unauthenticated : String → Error B
  new_unauthenticated message = new Status.unauthenticated message

  -- `From<Status> for Error`.
  abbrev pub from_status : Status → Error B
  from_status code = new code (description code)

  -- `From<prost::DecodeError> for Error`.
  abbrev pub from_decode_error : B → Error B
  from_decode_error error = extend Status.invalid_argument "failed to decode message" error

-- The kinds of `std::io::Error` that the conversion names; `other` stands for every other one.
pub data ErrorKind : Type 0 where
  broken_pipe would_block write_zero interrupted connection_refused connection_reset : ErrorKind
  not_connected addr_in_use addr_not_available already_exists connection_aborted : ErrorKind
  invalid_data invalid_input not_found permission_denied timed_out unexpected_eof other : ErrorKind

unfoldable pub status_of_kind : ErrorKind → Status
status_of_kind ErrorKind.broken_pipe = Status.internal
status_of_kind ErrorKind.would_block = Status.internal
status_of_kind ErrorKind.write_zero = Status.internal
status_of_kind ErrorKind.interrupted = Status.internal
status_of_kind ErrorKind.connection_refused = Status.unavailable
status_of_kind ErrorKind.connection_reset = Status.unavailable
status_of_kind ErrorKind.not_connected = Status.unavailable
status_of_kind ErrorKind.addr_in_use = Status.unavailable
status_of_kind ErrorKind.addr_not_available = Status.unavailable
status_of_kind ErrorKind.already_exists = Status.already_exists
status_of_kind ErrorKind.connection_aborted = Status.aborted
status_of_kind ErrorKind.invalid_data = Status.data_loss
status_of_kind ErrorKind.invalid_input = Status.invalid_argument
status_of_kind ErrorKind.not_found = Status.not_found
status_of_kind ErrorKind.permission_denied = Status.permission_denied
status_of_kind ErrorKind.timed_out = Status.deadline_exceeded
status_of_kind ErrorKind.unexpected_eof = Status.out_of_range
status_of_kind ErrorKind.other = Status.unknown

-- `From<std::io::Error> for Error`: the text and the error itself come from the standard library.
abbrev pub from_io_error : {B : Type 0} → ErrorKind → String → B → Error B
from_io_error kind text error = extend (status_of_kind kind) text error

-- Every status is read back from its code.
pub from_u32-into_u32 : (s : Status) → from_u32 (into_u32 s) ≡ s
unfolding from_u32 into_u32
from_u32-into_u32 Status.ok = refl
from_u32-into_u32 _ = refl

-- The code of the status read from a number is the number itself up to 16, and the code of
-- `unknown`, 2, above.
pub into_u32-from_u32 : (v : ℕ) → into_u32 (from_u32 v) ≡ (if ltb 16 v then 2 else v)
unfolding from_u32 into_u32
into_u32-from_u32 v = ground arith
