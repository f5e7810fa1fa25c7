-- ===== src/Protocol/Message/Frontend.antt =====
-- The messages of a client after the first in protocol/message.rs.
use pgvisor.Prelude.{ℕ, ◌+◌, Option, none, some, [], ◌∷◌, ◌++◌, eqb, length, if◌then◌else◌}
use pgvisor.Storage.Bytes.{Bytes, put_u32}
use pgvisor.Protocol.Message.Wire.{
  PgFrontend, PgResult, decoded, partial, failed, Pgwire, Decoded, message, incomplete, invalid,
  panic, frame_len, is_short, tag_of, split_frame,
}

pub data FrontendMessage : Type 0 where
  query : Bytes → FrontendMessage
  parse : Bytes → Bytes → FrontendMessage
  bind : Bytes → Bytes → FrontendMessage
  describe : ℕ → Bytes → FrontendMessage
  execute : Bytes → ℕ → FrontendMessage
  sync flush : FrontendMessage
  close : ℕ → Bytes → FrontendMessage
  password : Bytes → FrontendMessage
  terminate : FrontendMessage
  raw : ℕ → Bytes → FrontendMessage

-- Each of the four tags looks for its own message only.
unfoldable pub expect_query : PgFrontend → Option FrontendMessage
expect_query (PgFrontend.query sql) = some (query sql)
expect_query _ = none

unfoldable pub expect_terminate : PgFrontend → Option FrontendMessage
expect_terminate PgFrontend.terminate = some terminate
expect_terminate _ = none

unfoldable pub expect_sync : PgFrontend → Option FrontendMessage
expect_sync PgFrontend.sync = some sync
expect_sync _ = none

unfoldable pub expect_flush : PgFrontend → Option FrontendMessage
expect_flush PgFrontend.flush = some flush
expect_flush _ = none

unfoldable pub found : Option FrontendMessage → Bytes → Decoded FrontendMessage
found none rest = incomplete rest
found (some m) rest = message m rest

unfoldable pub by_pgwire :
    (PgFrontend → Option FrontendMessage) → PgResult PgFrontend × Bytes → Decoded FrontendMessage
by_pgwire expect (decoded m, rest) = found (expect m) rest
by_pgwire expect (partial, rest) = incomplete rest
by_pgwire expect (failed, rest) = invalid rest

unfoldable pub raw_frame : ℕ → Option (Bytes × Bytes) → Decoded FrontendMessage
raw_frame tag none = panic
raw_frame tag (some (payload, rest)) = message (raw tag payload) rest

-- The tags are Q (81), X (88), S (83) and H (72).
unfoldable pub by_tag : Pgwire → ℕ → Bytes → Decoded FrontendMessage
by_tag pg tag src =
    if eqb tag 81
    then by_pgwire expect_query (pg.decode_frontend src)
    else if eqb tag 88
    then by_pgwire expect_terminate (pg.decode_frontend src)
    else if eqb tag 83
    then by_pgwire expect_sync (pg.decode_frontend src)
    else if eqb tag 72
    then by_pgwire expect_flush (pg.decode_frontend src)
    else raw_frame tag (split_frame (frame_len src) src)

unfoldable pub decode_frontend : Pgwire → Bytes → Decoded FrontendMessage
decode_frontend pg src = if is_short src then incomplete src else by_tag pg (tag_of src) src

-- `put_u8(tag)`, `put_i32(payload.len() + 4)`, `put_slice(payload)`
unfoldable pub put_raw : ℕ → Bytes → Bytes
put_raw tag payload = tag ∷ (put_u32 (length payload + 4) ++ payload)

-- The messages that stand in the last arm are written as nothing.
unfoldable pub encode_frontend : Pgwire → FrontendMessage → Bytes
encode_frontend pg (query sql) = pg.encode_frontend (PgFrontend.query sql)
encode_frontend pg sync = pg.encode_frontend PgFrontend.sync
encode_frontend pg flush = pg.encode_frontend PgFrontend.flush
encode_frontend pg terminate = pg.encode_frontend PgFrontend.terminate
encode_frontend pg (raw tag payload) = put_raw tag payload
encode_frontend pg _ = []
