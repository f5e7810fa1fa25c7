-- ===== src/Proxy/Executor/Messages.antt =====
-- The messages of a query's response, as proxy/src/executor.rs hears them, and what it gathers of them.
use pgvisor.Prelude.{
  ℕ, ◌≤◌, ◌≡◌, ◌⊎◌, refl, true, false, Option, some, List, [], ◌∷◌, ◌++◌, ltb, length, map, if_elim,
  length-append, arith,
}
use pgvisor.Prelude.Texts.{text}
use pgvisor.Storage.Bytes.{Bytes}
use pgvisor.Protocol.Message.Wire.{Pgwire, message, incomplete, invalid}
use pgvisor.Protocol.Message.Backend.{
  BackendMessage, authentication_ok, authentication_cleartext_password, authentication_md5_password,
  authentication_sasl, authentication_sasl_continue, authentication_sasl_final, backend_key_data,
  parameter_status, ready_for_query, command_complete, error_response, notice_response,
  row_description, data_row, raw, decode_backend,
}
use pgvisor.Proxy.Session.{Frame, extract_backend_frame}
use pgvisor.Proxy.Executor.{Gathered, or_null, gather, is_ready, SqlQueryResult}

-- The messages in the frames of a buffer and of the reads behind it, up to ReadyForQuery. A frame that is
-- no message is passed over.
pub data Hears (pg : Pgwire) (lossy : Bytes → Bytes)
    : Bytes → List (Option Bytes) → List BackendMessage → Type 0 where
  done :
      (buf rest left : Bytes) (reads : List (Option Bytes)) (f : Frame) (m : BackendMessage)
      → extract_backend_frame buf ≡ some (f, rest)
      → decode_backend pg lossy f.bytes ≡ message m left
      → is_ready m ≡ true
      → Hears pg lossy buf reads []
  heard :
      (buf rest left : Bytes) (reads : List (Option Bytes)) (f : Frame) (m : BackendMessage)
      (ms : List BackendMessage)
      → extract_backend_frame buf ≡ some (f, rest)
      → decode_backend pg lossy f.bytes ≡ message m left
      → is_ready m ≡ false
      → Hears pg lossy rest reads ms
      → Hears pg lossy buf reads (m ∷ ms)
  passed :
      (buf rest left : Bytes) (reads : List (Option Bytes)) (f : Frame) (ms : List BackendMessage)
      → extract_backend_frame buf ≡ some (f, rest)
      → (decode_backend pg lossy f.bytes ≡ incomplete left)
        ⊎ (decode_backend pg lossy f.bytes ≡ invalid left)
      → Hears pg lossy rest reads ms
      → Hears pg lossy buf reads ms
  read :
      (buf chunk : Bytes) (reads : List (Option Bytes)) (ms : List BackendMessage)
      → Hears pg lossy (buf ++ chunk) reads ms
      → Hears pg lossy buf (some chunk ∷ reads) ms

-- The columns that were described last.
abbrev pub columns_after : List Bytes → BackendMessage → List Bytes
columns_after columns (row_description cols) = cols
columns_after columns _ = columns

abbrev pub columns_of : List Bytes → List BackendMessage → List Bytes
columns_of columns [] = columns
columns_of columns (m ∷ ms) = columns_of (columns_after columns m) ms

-- The tags of the statements that were completed.
abbrev pub tags_after : List Bytes → BackendMessage → List Bytes
tags_after tags (command_complete tag) = tags ++ tag ∷ []
tags_after tags _ = tags

abbrev pub tags_of : List Bytes → List BackendMessage → List Bytes
tags_of tags [] = tags
tags_of tags (m ∷ ms) = tags_of (tags_after tags m) ms

-- The rows are counted. They stand under the described columns and are no more than the limit; or no
-- column was described, and they are the tags in one column.
abbrev pub Shows : ℕ → List Bytes → List Bytes → SqlQueryResult → Type 0
Shows max_rows columns tags r =
    (r.row_count ≡ length r.rows)
    × (((r.columns ≡ columns) × (length r.rows ≤ max_rows))
        ⊎ ((columns ≡ [])
            × (r.columns ≡ text "status" ∷ [])
            × (r.rows ≡ map (λ (tag : Bytes). tag ∷ []) tags)))

abbrev pub Within : ℕ → Gathered → Type 0
Within max_rows g = length g.rows ≤ max_rows

pub gather-Within :
    (max_rows : ℕ) (g : Gathered) (m : BackendMessage)
    → Within max_rows g
    → Within max_rows (gather max_rows g m)
unfolding gather
gather-Within max_rows g (row_description cols) h = omega arith
gather-Within max_rows g (data_row values) h =
    if_elim (Within max_rows) (ltb (length g.rows) max_rows)
      (λ e. ground (arith, e, length-append g.rows (map or_null values ∷ []))) (λ e. h)
gather-Within max_rows g (command_complete tag) h = h
gather-Within max_rows g (error_response msg) h = h
gather-Within max_rows g authentication_ok h = h
gather-Within max_rows g authentication_cleartext_password h = h
gather-Within max_rows g (authentication_md5_password a) h = h
gather-Within max_rows g (authentication_sasl a) h = h
gather-Within max_rows g (authentication_sasl_continue a) h = h
gather-Within max_rows g (authentication_sasl_final a) h = h
gather-Within max_rows g (backend_key_data a b) h = h
gather-Within max_rows g (parameter_status a b) h = h
gather-Within max_rows g (ready_for_query a) h = h
gather-Within max_rows g (notice_response a) h = h
gather-Within max_rows g (raw a b) h = h

pub gather-columns_after :
    (max_rows : ℕ) (g : Gathered) (m : BackendMessage)
    → (gather max_rows g m).columns ≡ columns_after g.columns m
unfolding gather
gather-columns_after max_rows g (row_description cols) = refl
gather-columns_after max_rows g (data_row values) =
    if_elim (λ (h : Gathered). h.columns ≡ g.columns) (ltb (length g.rows) max_rows) (λ e. refl)
      (λ e. refl)
gather-columns_after max_rows g (command_complete tag) = refl
gather-columns_after max_rows g (error_response msg) = refl
gather-columns_after max_rows g authentication_ok = refl
gather-columns_after max_rows g authentication_cleartext_password = refl
gather-columns_after max_rows g (authentication_md5_password a) = refl
gather-columns_after max_rows g (authentication_sasl a) = refl
gather-columns_after max_rows g (authentication_sasl_continue a) = refl
gather-columns_after max_rows g (authentication_sasl_final a) = refl
gather-columns_after max_rows g (backend_key_data a b) = refl
gather-columns_after max_rows g (parameter_status a b) = refl
gather-columns_after max_rows g (ready_for_query a) = refl
gather-columns_after max_rows g (notice_response a) = refl
gather-columns_after max_rows g (raw a b) = refl

pub gather-tags_after :
    (max_rows : ℕ) (g : Gathered) (m : BackendMessage)
    → (gather max_rows g m).command_tags ≡ tags_after g.command_tags m
unfolding gather
gather-tags_after max_rows g (row_description cols) = refl
gather-tags_after max_rows g (data_row values) =
    if_elim (λ (h : Gathered). h.command_tags ≡ g.command_tags) (ltb (length g.rows) max_rows)
      (λ e. refl) (λ e. refl)
gather-tags_after max_rows g (command_complete tag) = refl
gather-tags_after max_rows g (error_response msg) = refl
gather-tags_after max_rows g authentication_ok = refl
gather-tags_after max_rows g authentication_cleartext_password = refl
gather-tags_after max_rows g (authentication_md5_password a) = refl
gather-tags_after max_rows g (authentication_sasl a) = refl
gather-tags_after max_rows g (authentication_sasl_continue a) = refl
gather-tags_after max_rows g (authentication_sasl_final a) = refl
gather-tags_after max_rows g (backend_key_data a b) = refl
gather-tags_after max_rows g (parameter_status a b) = refl
gather-tags_after max_rows g (ready_for_query a) = refl
gather-tags_after max_rows g (notice_response a) = refl
gather-tags_after max_rows g (raw a b) = refl
