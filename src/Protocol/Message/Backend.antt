-- ===== src/Protocol/Message/Backend.antt =====
-- The messages of a server in protocol/message.rs.
use pgvisor.Prelude.{
  ℕ, ◌%◌, ◌^◌, Option, none, some, List, [], ◌∷◌, eqb, leb, length, take, if◌then◌else◌,
}
use pgvisor.Prelude.Texts.{text}
use pgvisor.Storage.Bytes.{Bytes}
use pgvisor.Protocol.Tracker.{TransactionStatus}
use pgvisor.Protocol.Message.Wire.{
  PgAuthentication, PgBackend, PgResult, decoded, partial, failed, Pgwire, Decoded, message,
  incomplete, panic, frame_len, is_short, tag_of, split_frame,
}
use pgvisor.Protocol.Message.Rows.{encode_values, decode_data_row_values}
use pgvisor.Protocol.Message.Initial.{unwrap_or_zero}
use pgvisor.Protocol.Message.Frontend.{put_raw}

pub data BackendMessage : Type 0 where
  authentication_ok authentication_cleartext_password : BackendMessage
  authentication_md5_password : Bytes → BackendMessage
  authentication_sasl : List Bytes → BackendMessage
  authentication_sasl_continue authentication_sasl_final : Bytes → BackendMessage
  backend_key_data : ℕ → ℕ → BackendMessage
  parameter_status : Bytes → Bytes → BackendMessage
  ready_for_query : TransactionStatus → BackendMessage
  command_complete : Bytes → BackendMessage
  error_response notice_response : Bytes → BackendMessage
  row_description : List Bytes → BackendMessage
  data_row : List (Option Bytes) → BackendMessage
  raw : ℕ → Bytes → BackendMessage

-- `fields.iter().find(|(k, _)| *k == b'M')`
unfoldable pub find_message : List (ℕ × Bytes) → Bytes → Bytes
find_message [] otherwise = otherwise
find_message ((k, v) ∷ fields) otherwise = if eqb k 77 then v else find_message fields otherwise

unfoldable pub salt_of : Bytes → Bytes
salt_of salt = if leb 4 (length salt) then take 4 salt else 0 ∷ 0 ∷ 0 ∷ 0 ∷ []

unfoldable pub from_authentication : ℕ → PgAuthentication → BackendMessage
from_authentication tag PgAuthentication.ok = authentication_ok
from_authentication tag PgAuthentication.cleartext_password = authentication_cleartext_password
from_authentication tag (PgAuthentication.md5_password salt) =
    authentication_md5_password (salt_of salt)
from_authentication tag (PgAuthentication.sasl mechanisms) = authentication_sasl mechanisms
from_authentication tag (PgAuthentication.sasl_continue bytes) = authentication_sasl_continue bytes
from_authentication tag (PgAuthentication.sasl_final bytes) = authentication_sasl_final bytes
from_authentication tag PgAuthentication.other = raw tag []

unfoldable pub from_backend : (Bytes → Bytes) → ℕ → PgBackend → BackendMessage
from_backend lossy tag (PgBackend.authentication a) = from_authentication tag a
from_backend lossy tag (PgBackend.parameter_status name value) = parameter_status name value
from_backend lossy tag (PgBackend.backend_key_data pid secret) =
    backend_key_data pid (unwrap_or_zero secret)
from_backend lossy tag (PgBackend.ready_for_query status) = ready_for_query status
from_backend lossy tag (PgBackend.command_complete t) = command_complete t
from_backend lossy tag (PgBackend.error_response fields) =
    error_response (find_message fields (text "Unknown database error"))
from_backend lossy tag (PgBackend.notice_response fields) = notice_response (find_message fields [])
from_backend lossy tag (PgBackend.row_description columns) = row_description columns
from_backend lossy tag (PgBackend.data_row bytes field_count) =
    data_row (decode_data_row_values lossy bytes field_count)
from_backend lossy tag PgBackend.other = raw tag []

unfoldable pub raw_backend : ℕ → Option (Bytes × Bytes) → Decoded BackendMessage
raw_backend tag none = panic
raw_backend tag (some (payload, rest)) = message (raw tag payload) rest

-- `n` is the length of the frame; the decoder may have read some of it before it failed.
unfoldable pub by_decoder :
    (Bytes → Bytes) → ℕ → ℕ → PgResult PgBackend × Bytes → Decoded BackendMessage
by_decoder lossy tag n (decoded m, rest) = message (from_backend lossy tag m) rest
by_decoder lossy tag n (partial, rest) = incomplete rest
by_decoder lossy tag n (failed, rest) = raw_backend tag (split_frame n rest)

unfoldable pub decode_backend : Pgwire → (Bytes → Bytes) → Bytes → Decoded BackendMessage
decode_backend pg lossy src =
    if is_short src
    then incomplete src
    else by_decoder lossy (tag_of src) (frame_len src) (pg.decode_backend src)

-- What is handed to pgwire; `none` for a raw frame.
unfoldable pub to_backend : BackendMessage → Option PgBackend
to_backend authentication_ok = some (PgBackend.authentication PgAuthentication.ok)
to_backend authentication_cleartext_password =
    some (PgBackend.authentication PgAuthentication.cleartext_password)
to_backend (authentication_md5_password salt) =
    some (PgBackend.authentication (PgAuthentication.md5_password salt))
to_backend (authentication_sasl mechanisms) =
    some (PgBackend.authentication (PgAuthentication.sasl mechanisms))
to_backend (authentication_sasl_continue bytes) =
    some (PgBackend.authentication (PgAuthentication.sasl_continue bytes))
to_backend (authentication_sasl_final bytes) =
    some (PgBackend.authentication (PgAuthentication.sasl_final bytes))
to_backend (backend_key_data pid secret) = some (PgBackend.backend_key_data pid (some secret))
to_backend (parameter_status name value) = some (PgBackend.parameter_status name value)
to_backend (ready_for_query status) = some (PgBackend.ready_for_query status)
to_backend (command_complete t) = some (PgBackend.command_complete t)
to_backend (error_response m) =
    some (PgBackend.error_response ((83, text "ERROR") ∷ (67, text "XX000") ∷ (77, m) ∷ []))
to_backend (notice_response m) =
    some (PgBackend.notice_response ((83, text "NOTICE") ∷ (77, m) ∷ []))
to_backend (row_description columns) = some (PgBackend.row_description columns)
to_backend (data_row values) =
    some (PgBackend.data_row (encode_values values) (length values % 2 ^ 16))
to_backend (raw tag payload) = none

unfoldable pub encode_as : Pgwire → Option PgBackend → BackendMessage → Bytes
encode_as pg (some w) m = pg.encode_backend w
encode_as pg none (raw tag payload) = put_raw tag payload
encode_as pg none _ = []

unfoldable pub encode_backend : Pgwire → BackendMessage → Bytes
encode_backend pg m = encode_as pg (to_backend m) m
