-- ===== src/Protocol/Message/Initial.antt =====
-- The first packet of a client in protocol/message.rs.
use pgvisor.Prelude.{
  ℕ, ◌+◌, ◌*◌, ◌/◌, ◌%◌, ◌^◌, Bool, ◌&&◌, Option, none, some, List, eqb, ltb, leb, length, drop,
  if◌then◌else◌,
}
use pgvisor.Prelude.Texts.{text, chars_key}
use pgvisor.Prelude.Maps.Assoc
use pgvisor.Storage.Bytes.{Bytes, read_u32}
use pgvisor.Protocol.Message.Wire.{
  PgFrontend, startup, cancel_request, PgResult, decoded, partial, failed, Pgwire, Decoded, message,
  incomplete, invalid, as_usize,
}

abbrev pub ssl_request_code : ℕ
ssl_request_code = 80877103

abbrev pub cancel_request_code : ℕ
cancel_request_code = 80877102

pub record StartupMessage : Type 0 where
  pub protocol_version : ℕ
  pub parameters : List (Bytes × Bytes)

unfoldable pub from_pgwire : ℕ → ℕ → List (Bytes × Bytes) → StartupMessage
from_pgwire major minor parameters = record {
  protocol_version = major * 2 ^ 16 + minor;
  parameters = parameters;
}

unfoldable pub to_pgwire : StartupMessage → PgFrontend
to_pgwire m =
    startup (m.protocol_version / 2 ^ 16 % 2 ^ 16) (m.protocol_version % 2 ^ 16) m.parameters

unfoldable pub user : StartupMessage → Option Bytes
user m = Assoc.get m.parameters (text "user")

unfoldable pub database : StartupMessage → Option Bytes
database m = Assoc.get m.parameters (text "database")

pub data InitialClientMessage : Type 0 where
  startup_message : StartupMessage → InitialClientMessage
  ssl_request : InitialClientMessage
  cancel : ℕ → ℕ → InitialClientMessage

unfoldable pub unwrap_or_zero : Option ℕ → ℕ
unwrap_or_zero none = 0
unwrap_or_zero (some n) = n

-- The last `match`, on what pgwire makes of the packet.
unfoldable pub from_frontend : PgResult PgFrontend × Bytes → Decoded InitialClientMessage
from_frontend (decoded (startup major minor parameters), rest) =
    message (startup_message (from_pgwire major minor parameters)) rest
from_frontend (decoded (cancel_request pid secret), rest) =
    message (cancel pid (unwrap_or_zero secret)) rest
from_frontend (decoded _, rest) = incomplete rest
from_frontend (partial, rest) = incomplete rest
from_frontend (failed, rest) = invalid rest

unfoldable pub is_ssl : Bytes → Bool
is_ssl src =
    leb 8 (length src)
    && eqb (as_usize (read_u32 src)) 8
    && eqb (read_u32 (drop 4 src)) ssl_request_code

unfoldable pub is_cancel : Bytes → Bool
is_cancel src =
    leb 8 (length src)
    && eqb (as_usize (read_u32 src)) 16
    && eqb (read_u32 (drop 4 src)) cancel_request_code

unfoldable pub decode_initial : Pgwire → Bytes → Decoded InitialClientMessage
decode_initial pg src =
    if ltb (length src) 4
    then incomplete src
    else if ltb (length src) (as_usize (read_u32 src))
    then incomplete src
    else if is_ssl src
    then message ssl_request (drop 8 src)
    else if is_cancel src
    then message (cancel (read_u32 (drop 8 src)) (read_u32 (drop 12 src))) (drop 16 src)
    else from_frontend (pg.decode_startup src)

unfoldable pub encode_startup : Pgwire → StartupMessage → Bytes
encode_startup pg m = pg.encode_frontend (to_pgwire m)
