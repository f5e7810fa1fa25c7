-- ===== src/Protocol/Message/Wire.antt =====
-- What protocol/message.rs takes from pgwire, and how it splits frames.
use pgvisor.Prelude.{
  ℕ, ◌+◌, ◌-◌, ◌%◌, ◌^◌, ◌<◌, ◌≡◌, Bool, true, Option, none, some, List, [], ◌∷◌, ◌++◌, ltb, length,
  take, drop, if◌then◌else◌,
}
use pgvisor.Storage.Bytes.{Bytes, put_u32, read_u32}
use pgvisor.Protocol.Tracker.{TransactionStatus}

pub data PgAuthentication : Type 0 where
  ok cleartext_password : PgAuthentication
  md5_password : Bytes → PgAuthentication
  sasl : List Bytes → PgAuthentication
  sasl_continue sasl_final : Bytes → PgAuthentication
  other : PgAuthentication

-- The messages of a server. A secret key is a word, or of another form (`none`).
pub data PgBackend : Type 0 where
  authentication : PgAuthentication → PgBackend
  parameter_status : Bytes → Bytes → PgBackend
  backend_key_data : ℕ → Option ℕ → PgBackend
  ready_for_query : TransactionStatus → PgBackend
  command_complete : Bytes → PgBackend
  error_response notice_response : List (ℕ × Bytes) → PgBackend
  row_description : List Bytes → PgBackend
  data_row : Bytes → ℕ → PgBackend
  other : PgBackend

pub data PgFrontend : Type 0 where
  query : Bytes → PgFrontend
  terminate sync flush : PgFrontend
  startup : ℕ → ℕ → List (Bytes × Bytes) → PgFrontend
  cancel_request : ℕ → Option ℕ → PgFrontend
  other : PgFrontend

-- `Result<Option<T>, PgWireError>`
pub data PgResult (A : Type 0) : Type 0 where
  decoded : A → PgResult A
  partial failed : PgResult A

-- A decoder also says what it leaves of its input.
pub record Pgwire : Type 0 where
  pub encode_backend : PgBackend → Bytes
  pub decode_backend : Bytes → PgResult PgBackend × Bytes
  pub encode_frontend : PgFrontend → Bytes
  pub decode_frontend : Bytes → PgResult PgFrontend × Bytes
  pub decode_startup : Bytes → PgResult PgFrontend × Bytes

-- What decoding gives, with what is left of the input; `panic` is an index or a split out of range.
pub data Decoded (A : Type 0) : Type 0 where
  message : A → Bytes → Decoded A
  incomplete invalid : Bytes → Decoded A
  panic : Decoded A

-- `i32::from_be_bytes(..) as usize`: a negative number becomes one close to 2^64.
unfoldable pub as_usize : ℕ → ℕ
as_usize word = if ltb word (2 ^ 31) then word else word + (2 ^ 64 - 2 ^ 32)

-- `1 + len` for the length that stands behind a tag, as a release build computes it.
unfoldable pub frame_len : Bytes → ℕ
frame_len src = (1 + as_usize (read_u32 (drop 1 src))) % 2 ^ 64

-- The two tests before a message is looked at: its header, and all of its body, is there.
unfoldable pub is_short : Bytes → Bool
is_short src = if ltb (length src) 5 then true else ltb (length src) (frame_len src)

-- `src[0]`, of an input that is long enough.
unfoldable pub tag_of : Bytes → ℕ
tag_of [] = 0
tag_of (tag ∷ src) = tag

-- `src.split_to(n)`, then `frame.advance(5)`: the payload and the rest.
unfoldable pub split_frame : ℕ → Bytes → Option (Bytes × Bytes)
split_frame n src =
    if ltb (length src) n
    then none
    else if ltb n 5
    then none
    else some (drop 5 (take n src), drop n src)

-- A frame that pgwire writes for a message and reads back, whatever comes after it.
pub record IsFrame {M : Type 0} (encode : M → Bytes) (decode : Bytes → PgResult M × Bytes) (m : M)
    : Type 0 where
  pub tag : ℕ
  pub body : Bytes
  pub fits : length body + 4 < 2 ^ 31
  pub layout : encode m ≡ tag ∷ (put_u32 (length body + 4) ++ body)
  pub reads : (rest : Bytes) → decode (encode m ++ rest) ≡ (decoded m, rest)
