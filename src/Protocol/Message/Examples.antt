-- ===== src/Protocol/Message/Examples.antt =====
-- Messages with a pgwire that knows ReadyForQuery only.
use pgvisor.Prelude.{
  ◌+◌, ◌%◌, ◌^◌, ◌≡◌, ◌↔◌, ◌<◌, refl, Option, none, some, List, [], ◌∷◌, ◌++◌, drop, arith,
}
use pgvisor.Prelude.Texts.{text}
use pgvisor.Storage.Bytes.{Bytes, put_u32}
use pgvisor.Protocol.Tracker.{idle}
use pgvisor.Protocol.Message.Wire.{
  PgBackend, decoded, failed, Pgwire, message, panic, IsFrame, as_usize,
}
use pgvisor.Protocol.Message.Frontend.{raw, decode_frontend, encode_frontend}
use pgvisor.Protocol.Message.Backend.{ready_for_query, decode_backend, encode_backend, to_backend}
use pgvisor.Protocol.Message.RoundTrip.{decode_backend-encode_backend, decode_frontend-raw}
use pgvisor.Protocol.Message.Malformed.{decode_frontend-panic_iff}

abbrev toy : Pgwire
toy = record {
  encode_backend = λ m. 90 ∷ (put_u32 5 ++ 73 ∷ []);
  decode_backend = λ src. (decoded (PgBackend.ready_for_query idle), drop 6 src);
  encode_frontend = λ m. [];
  decode_frontend = λ src. (failed, src);
  decode_startup = λ src. (failed, src);
}

ready-IsFrame : IsFrame toy.encode_backend toy.decode_backend (PgBackend.ready_for_query idle)
unfolding put_u32
ready-IsFrame = record {
  tag = 90;
  body = 73 ∷ [];
  fits = omega arith;
  layout = refl;
  reads = λ rest. refl;
}

to_backend_ready : to_backend (ready_for_query idle) ≡ some (PgBackend.ready_for_query idle)
unfolding to_backend
to_backend_ready = refl

decode_backend-encode_backend_example :
    decode_backend toy (λ s. s) (encode_backend toy (ready_for_query idle) ++ 67 ∷ [])
    ≡ message (ready_for_query idle) (67 ∷ [])
decode_backend-encode_backend_example =
    decode_backend-encode_backend toy (λ s. s) (ready_for_query idle)
      (PgBackend.ready_for_query idle) (67 ∷ []) to_backend_ready ready-IsFrame tt

abbrev row : List (Option Bytes)
row = some (text "alpha") ∷ none ∷ some [] ∷ []

decode_frontend-raw_example :
    decode_frontend toy (encode_frontend toy (raw 66 (1 ∷ 2 ∷ [])) ++ 72 ∷ [])
    ≡ message (raw 66 (1 ∷ 2 ∷ [])) (72 ∷ [])
decode_frontend-raw_example = decode_frontend-raw toy 66 (1 ∷ 2 ∷ []) (72 ∷ []) refl (omega arith)

decode_frontend-panic_iff_example :
    (decode_frontend toy (66 ∷ (put_u32 0 ++ [])) ≡ panic) ↔ ((0 + 1) % 2 ^ 32 < 5)
unfolding as_usize
decode_frontend-panic_iff_example =
    decode_frontend-panic_iff toy 66 0 [] refl (omega arith) (omega arith)
