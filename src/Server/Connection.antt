-- ===== src/Server/Connection.antt =====
-- The framing over the socket: handle_connection of src/syncing/server.rs and send_request of
-- src/syncing/client.rs. A message is its length in four bytes, and its encoding by postcard (Wire).
pub mod Framing
use coding_agent_sandbox.Common.{
  ℕ, zero, suc, ◌+◌, ◌*◌, ◌/◌, ◌%◌, ◌^◌, Option, none, some, List, [], ◌∷◌, ◌++◌, length, take,
  drop, ltb, if◌then◌else◌,
}
use coding_agent_sandbox.Files.{Bytes, IoError}
use coding_agent_sandbox.Proto.{Request, Response}
use coding_agent_sandbox.Disk.{Codec}
use coding_agent_sandbox.Server.State.{World, Io}
use coding_agent_sandbox.Server.Dispatch.{dispatch}
use coding_agent_sandbox.Prog.{ClientError, Result, ok, err}

-- `postcard::to_allocvec` and `from_bytes` of the messages
pub record Wire : Type 0 where
  pub encode_request : Request → Option Bytes
  pub decode_request : Bytes → Option Request
  pub encode_response : Response → Option Bytes
  pub decode_response : Bytes → Option Response

-- `u32::to_le_bytes` and `u32::from_le_bytes`
unfoldable pub to_le_bytes : ℕ → Bytes
to_le_bytes n = n % 256 ∷ n / 256 % 256 ∷ n / 65536 % 256 ∷ n / 16777216 % 256 ∷ []

unfoldable pub from_le_bytes : Bytes → ℕ
from_le_bytes [] = 0
from_le_bytes (b ∷ bs) = b + 256 * from_le_bytes bs

-- The two writes of a message; `len() as u32` wraps.
unfoldable pub frame : Bytes → Bytes
unfolding to_le_bytes
frame payload = to_le_bytes (length payload % 2 ^ 32) ++ payload

-- `read_exact` into a buffer of `n` bytes, and what is left; `none` at an early end of the stream.
unfoldable pub read_exact : ℕ → Bytes → Option (Bytes × Bytes)
read_exact n stream = if ltb (length stream) n then none else some (take n stream, drop n stream)

-- How a connection ends: at the end of the stream, with an error, or not yet where the fuel ends.
pub data End : Type 0 where
  closed failed unfinished : End

-- What the daemon has written to the connection, and its state.
pub record Session : Type 0 where
  pub output : Bytes
  pub world : World
  pub end : End

abbrev pub stopped : End → World → Session
stopped e w = record { output = []; world = w; end = e }

unfoldable pub written : Bytes → Session → Session
written bytes s = record s { output = bytes ++ s.output }

-- The bytes of a message are written, or some of them before an error.
unfoldable pub write_all : Option ℕ → Bytes → Session → World → Session
unfolding written
write_all none bytes next w = written bytes next
write_all (some k) bytes next w = written (take k bytes) (stopped End.failed w)

-- `io`: what the kernel answers to the file operations of each request; `write`: the error of
-- writing a response, if there is one, after some of its bytes.
module _ (C : Codec) (W : Wire) (io : ℕ → Io) (write : ℕ → Option ℕ) where
  abbrev pub Next : Type 0
  Next = World → Session

  unfoldable pub write_response : ℕ → Option Bytes → Next → World → Session
  unfolding write_all frame
  write_response n none next w = stopped End.failed w
  write_response n (some payload) next w = write_all (write n) (frame payload) (next w) w

  unfoldable pub answered : ℕ → Next → Response × World → Session
  unfolding write_response
  answered n next (response, w) = write_response n (W.encode_response response) next w

  unfoldable pub on_request : ℕ → Option Request → Next → World → Session
  unfolding answered
  on_request n none next w = stopped End.failed w
  on_request n (some request) next w = answered n next (dispatch C request (io n) w)

  unfoldable pub on_payload : ℕ → Option (Bytes × Bytes) → (Bytes → Next) → World → Session
  unfolding on_request
  on_payload n none next w = stopped End.failed w
  on_payload n (some (buf, rest)) next w = on_request n (W.decode_request buf) (next rest) w

  unfoldable pub on_header : ℕ → Option (Bytes × Bytes) → (Bytes → Next) → World → Session
  unfolding on_payload
  on_header n none next w = stopped End.closed w
  on_header n (some (header, rest)) next w =
      on_payload n (read_exact (from_le_bytes header) rest) next w

  -- From the request of number `n` on.
  unfoldable pub handle_connection : ℕ → ℕ → Bytes → World → Session
  unfolding on_header
  handle_connection zero n stream w = stopped End.unfinished w
  handle_connection (suc fuel) n stream w =
      on_header n (read_exact 4 stream) (handle_connection fuel (n + 1)) w

-- The client: `replies` is what the daemon sends, and `eof` the error at an early end. The result
-- has what is written, and the response with what is left of the replies.
module _ (W : Wire) (eof : IoError) where
  unfoldable pub decoded_response : Option Response → Bytes → Result ClientError (Response × Bytes)
  decoded_response none rest = err ClientError.serialize
  decoded_response (some response) rest = ok (response, rest)

  unfoldable pub read_payload : Option (Bytes × Bytes) → Result ClientError (Response × Bytes)
  unfolding decoded_response
  read_payload none = err (ClientError.io eof)
  read_payload (some (buf, rest)) = decoded_response (W.decode_response buf) rest

  unfoldable pub read_header : Option (Bytes × Bytes) → Result ClientError (Response × Bytes)
  unfolding read_payload
  read_header none = err (ClientError.io eof)
  read_header (some (header, rest)) = read_payload (read_exact (from_le_bytes header) rest)

  unfoldable pub sent : Option Bytes → Bytes → Bytes × Result ClientError (Response × Bytes)
  unfolding frame read_header
  sent none replies = ([], err ClientError.serialize)
  sent (some payload) replies = (frame payload, read_header (read_exact 4 replies))

  unfoldable pub send_request : Request → Bytes → Bytes × Result ClientError (Response × Bytes)
  unfolding sent
  send_request request replies = sent (W.encode_request request) replies
