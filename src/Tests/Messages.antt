-- ===== src/Tests/Messages.antt =====
-- Requests over a connection to the daemon, with an encoding of two messages.
use coding_agent_sandbox.Common.{
  ℕ, ◌≡◌, refl, none, some, Option, [], ◌∷◌, ◌++◌, arith, ◌==◌, if◌then◌else◌,
}
use coding_agent_sandbox.FilePath.{path_eq}
use coding_agent_sandbox.Tests.Tree.{path_c}
use coding_agent_sandbox.Files.{Bytes}
use coding_agent_sandbox.Proto.{Request, Response}
use coding_agent_sandbox.Prog.{ok}
use coding_agent_sandbox.Server.State.{World, Io}
use coding_agent_sandbox.Server.Dispatch.{dispatch}
use coding_agent_sandbox.Server.Connection.{Wire, End, frame, handle_connection, send_request}
use coding_agent_sandbox.Server.Connection.Framing.{
  IsLawful, Framed, Answers, handle_connection-Answers, send_request-back,
}
use coding_agent_sandbox.Tests.Storage.{codec}
use coding_agent_sandbox.Tests.Daemon.{world, all_succeed}

abbrev delete_c : Request
delete_c = Request.delete_file path_c

abbrev encode_request : Request → Option Bytes
encode_request (Request.delete_file p) = if p == path_c then some (7 ∷ []) else none
encode_request _ = none

abbrev decode_request : Bytes → Option Request
decode_request [] = none
decode_request (_ ∷ _) = some delete_c

abbrev encode_response : Response → Option Bytes
encode_response Response.delete_file = some (8 ∷ 8 ∷ [])
encode_response _ = none

abbrev decode_response : Bytes → Option Response
decode_response [] = none
decode_response (_ ∷ _) = some Response.delete_file

abbrev wire : Wire
wire = record {
  encode_request = encode_request;
  decode_request = decode_request;
  encode_response = encode_response;
  decode_response = decode_response;
}

request_back : (r : Request) (b : Bytes) → encode_request r ≡ some b → decode_request b ≡ some r
request_back (Request.delete_file p) [] e = ground (arith, e)
request_back (Request.delete_file p) (x ∷ b) e = ground (arith, e)
request_back _ b e = ground (arith, e)

response_back : (r : Response) (b : Bytes) → encode_response r ≡ some b → decode_response b ≡ some r
response_back Response.delete_file [] e = ground (arith, e)
response_back Response.delete_file (x ∷ b) e = refl
response_back _ b e = ground (arith, e)

lawful : IsLawful wire
lawful = record { request_back = request_back; response_back = response_back }

abbrev io : ℕ → Io
io n = all_succeed

requested : encode_request delete_c ≡ some (7 ∷ [])
unfolding path_eq
requested = refl

two_requests : Framed wire (delete_c ∷ delete_c ∷ []) (frame (7 ∷ []) ++ (frame (7 ∷ []) ++ []))
two_requests =
    Framed.request delete_c (delete_c ∷ []) (7 ∷ []) (frame (7 ∷ []) ++ []) requested (omega arith)
      (Framed.request delete_c [] (7 ∷ []) [] requested (omega arith) Framed.nothing)

deleted :
    (n : ℕ) (w : World) → encode_response (dispatch codec delete_c (io n) w).0 ≡ some (8 ∷ 8 ∷ [])
unfolding dispatch
deleted n w = refl

abbrev after_one : World
after_one = (dispatch codec delete_c (io 0) world).1

abbrev after_two : World
after_two = (dispatch codec delete_c (io 1) after_one).1

handle_connection-Answers_example :
    handle_connection codec wire io (λ _. none) 3 0 (frame (7 ∷ []) ++ (frame (7 ∷ []) ++ [])) world
    ≡ record {
      output = frame (8 ∷ 8 ∷ []) ++ (frame (8 ∷ 8 ∷ []) ++ []);
      world = after_two;
      end = End.closed;
    }
handle_connection-Answers_example =
    handle_connection-Answers codec wire io lawful 3 0 (delete_c ∷ delete_c ∷ [])
      (frame (7 ∷ []) ++ (frame (7 ∷ []) ++ [])) (frame (8 ∷ 8 ∷ []) ++ (frame (8 ∷ 8 ∷ []) ++ []))
      world after_two two_requests
      (Answers.response 0 delete_c (delete_c ∷ []) world after_two (8 ∷ 8 ∷ []) _ (deleted 0 world)
        (Answers.response 1 delete_c [] after_one after_two (8 ∷ 8 ∷ []) [] (deleted 1 after_one)
          (Answers.nothing 2 after_two)))
      (omega arith)

send_request-back_example :
    let s =
      handle_connection codec wire io (λ _. none) 2 0 (send_request wire 5 delete_c []).0 world in
    (send_request wire 5 delete_c s.output
      ≡ (frame (7 ∷ []), ok ((dispatch codec delete_c (io 0) world).0, [])))
    × (s.world ≡ after_one)
send_request-back_example =
    send_request-back codec wire io lawful 5 0 delete_c (7 ∷ []) (8 ∷ 8 ∷ []) world requested
      (omega arith) (deleted 0 world) (omega arith)
