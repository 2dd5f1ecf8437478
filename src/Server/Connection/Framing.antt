-- ===== src/Server/Connection/Framing.antt =====
-- Proof: requests and responses come through the framing unchanged.
use coding_agent_sandbox.Common.{
  ℕ, zero, suc, ◌+◌, ◌%◌, ◌^◌, ◌<◌, ◌≡◌, refl, sym, ap, ◌∙◌, Bool-cases, inl, inr, none, some, List,
  [], ◌∷◌, ◌++◌, length, length-append, take, drop, ltb, arith,
}
use mathlib.Core.List.{append-nil}
use coding_agent_sandbox.Files.{Bytes, IoError}
use coding_agent_sandbox.Proto.{Request, Response}
use coding_agent_sandbox.Disk.{Codec}
use coding_agent_sandbox.Server.State.{World, Io}
use coding_agent_sandbox.Server.Dispatch.{dispatch}
use coding_agent_sandbox.Prog.{ok}
use coding_agent_sandbox.Server.Connection.{
  Wire, to_le_bytes, from_le_bytes, frame, read_exact, End, Session, written, write_all,
  write_response, answered, on_request, on_payload, on_header, handle_connection, decoded_response,
  read_payload, read_header, sent, send_request,
}

from-to_le_bytes : (n : ℕ) → n < 2 ^ 32 → from_le_bytes (to_le_bytes n) ≡ n
unfolding from_le_bytes to_le_bytes
from-to_le_bytes n small = omega (arith, small)

take-append : (xs ys : Bytes) → take (length xs) (xs ++ ys) ≡ xs
take-append [] ys = refl
take-append (x ∷ xs) ys = ap (λ r. x ∷ r) (take-append xs ys)

drop-append : (xs ys : Bytes) → drop (length xs) (xs ++ ys) ≡ ys
drop-append [] ys = refl
drop-append (x ∷ xs) ys = drop-append xs ys

read_exact-append : (xs ys : Bytes) → read_exact (length xs) (xs ++ ys) ≡ some (xs, ys)
unfolding read_exact
read_exact-append xs ys = elim (Bool-cases (ltb (length (xs ++ ys)) (length xs))) [
  | inl short ↦ absurd (ground (arith, length-append xs ys))
  | inr long ↦ rw (long, take-append xs ys, drop-append xs ys) refl
]

header-frame :
    (payload rest : Bytes)
    → read_exact 4 (frame payload ++ rest)
      ≡ some (to_le_bytes (length payload % 2 ^ 32), payload ++ rest)
unfolding frame to_le_bytes read_exact
header-frame payload rest = ground arith

-- The bytes of a message after its header.
body-frame :
    (payload rest : Bytes)
    → length payload < 2 ^ 32
    → read_exact (from_le_bytes (to_le_bytes (length payload % 2 ^ 32))) (payload ++ rest)
      ≡ some (payload, rest)
body-frame payload rest small =
    let same : from_le_bytes (to_le_bytes (length payload % 2 ^ 32)) ≡ length payload =
      from-to_le_bytes (length payload % 2 ^ 32) (omega arith) ∙ omega (arith, small) in
    rw same (read_exact-append payload rest)

module _ (W : Wire) (eof : IoError) (r : Request) where
  written_by :
      (b replies : Bytes) → W.encode_request r ≡ some b → (send_request W eof r replies).0 ≡ frame b
  unfolding send_request sent
  written_by b replies enc = rw enc refl

  send_request-frame :
      (reply : Response) (b c rest : Bytes)
      → W.encode_request r ≡ some b
      → length c < 2 ^ 32
      → W.decode_response c ≡ some reply
      → send_request W eof r (frame c ++ rest) ≡ (frame b, ok (reply, rest))
  unfolding send_request sent read_header read_payload decoded_response
  send_request-frame reply b c rest enc small dec =
      rw (enc, header-frame c rest, body-frame c rest small, dec) refl

-- What postcard documents: what it encodes, it decodes to the same value.
pub record IsLawful (W : Wire) : Type 0 where
  pub request_back :
      (r : Request) (b : Bytes) → W.encode_request r ≡ some b → W.decode_request b ≡ some r
  pub response_back :
      (r : Response) (b : Bytes) → W.encode_response r ≡ some b → W.decode_response b ≡ some r

-- The bytes of a list of requests, each of fewer than 2 ^ 32 bytes.
pub data Framed (W : Wire) : List Request → Bytes → Type 0 where
  nothing : Framed W [] []
  request :
      (r : Request) (rs : List Request) (b bs : Bytes)
      → W.encode_request r ≡ some b
      → length b < 2 ^ 32
      → Framed W rs bs
      → Framed W (r ∷ rs) (frame b ++ bs)

module _ (C : Codec) (W : Wire) (io : ℕ → Io) where
  -- The bytes of the responses of `dispatch` to requests from number `n` on, and the last state.
  pub data Answers : ℕ → List Request → World → Bytes → World → Type 0 where
    nothing : (n : ℕ) (w : World) → Answers n [] w [] w
    response :
        (n : ℕ) (r : Request) (rs : List Request) (w w' : World) (b bs : Bytes)
        → W.encode_response (dispatch C r (io n) w).0 ≡ some b
        → Answers (n + 1) rs (dispatch C r (io n) w).1 bs w'
        → Answers n (r ∷ rs) w (frame b ++ bs) w'

  on_header-frame :
      IsLawful W
      → (n : ℕ) (r : Request) (b bs : Bytes) (next : Bytes → World → Session) (w : World)
      → W.encode_request r ≡ some b
      → length b < 2 ^ 32
      → on_header C W io (λ _. none) n (read_exact 4 (frame b ++ bs)) next w
        ≡ answered C W io (λ _. none) n (next bs) (dispatch C r (io n) w)
  unfolding on_header on_payload on_request
  on_header-frame l n r b bs next w enc small =
      rw (header-frame b bs, body-frame b bs small, l.request_back r b enc) refl

  answered-none :
      (n : ℕ) (next : World → Session) (a : Response × World) (c : Bytes)
      → W.encode_response a.0 ≡ some c
      → answered C W io (λ _. none) n next a ≡ written (frame c) (next a.1)
  unfolding answered write_response write_all
  answered-none n next (reply, w) c enc = rw enc refl

  -- If postcard decodes what it encoded, writes succeed, and the input is the frames of some
  -- requests, each shorter than 2 ^ 32 bytes, and every response can be encoded: the loop with
  -- fuel above their number writes the frames of the responses of dispatch to them, one after the
  -- other on the state, in their order, and ends with the connection closed.
  pub handle_connection-Answers :
      IsLawful W
      → (fuel n : ℕ) (rs : List Request) (input output : Bytes) (w w' : World) → Framed W rs input
      → Answers n rs w output w'
      → length rs < fuel
      → handle_connection C W io (λ _. none) fuel n input w
        ≡ record { output = output; world = w'; end = End.closed }
  unfolding handle_connection on_header read_exact written
  handle_connection-Answers l zero n rs input output w w' f a room = absurd (omega (arith, room))
  handle_connection-Answers l (suc fuel) n _ _ _ w w' Framed.nothing (Answers.nothing m v) room =
      refl
  handle_connection-Answers l (suc fuel) n _ _ _ w w' (Framed.request r rs b bs enc small f)
        (Answers.response m _ _ v v' c cs enc' a) room =
      on_header-frame l n r b bs (handle_connection C W io (λ _. none) fuel (n + 1)) w enc small
      ∙ answered-none n _ (dispatch C r (io n) w) c enc'
      ∙ ap (written (frame c))
          (handle_connection-Answers l fuel (n + 1) rs bs cs _ w' f a (omega (arith, room)))

  -- Under the same conditions, and with a response shorter than 2 ^ 32 bytes, what send_request
  -- reads back when the daemon handles its frame is the response of dispatch, with no byte left,
  -- and the daemon's state is the one that dispatch leaves.
  pub send_request-back :
      IsLawful W
      → (eof : IoError) (n : ℕ) (r : Request) (b c : Bytes) (w : World)
      → W.encode_request r ≡ some b
      → length b < 2 ^ 32
      → W.encode_response (dispatch C r (io n) w).0 ≡ some c
      → length c < 2 ^ 32
      → let s = handle_connection C W io (λ _. none) 2 n (send_request W eof r []).0 w in
        (send_request W eof r s.output ≡ (frame b, ok ((dispatch C r (io n) w).0, [])))
        × (s.world ≡ (dispatch C r (io n) w).1)
  send_request-back l eof n r b c w enc small enc' small' =
      let session =
        handle_connection-Answers l 2 n (r ∷ []) (frame b ++ []) (frame c ++ []) w _
          (Framed.request r [] b [] enc small Framed.nothing)
          (Answers.response n r [] w _ c [] enc' (Answers.nothing (n + 1) _)) (omega arith) in
      rw (written_by W eof r b [] enc, sym (append-nil (frame b)), session)
        (
          rw (append-nil (frame b)) (
              send_request-frame W eof r (dispatch C r (io n) w).0 b c [] enc small'
                (l.response_back _ c enc')),
          refl,
        )
