-- ===== src/Proxy/Session/Examples.antt =====
-- A session with a backend that answers in two reads, and what comes before and after it.
use pgvisor.Prelude.{
  ◌≡◌, refl, true, false, none, some, List, [], ◌∷◌, ◌++◌, eqb, take, drop, if◌then◌else◌, arith,
}
use pgvisor.Prelude.Texts.{text}
use pgvisor.Storage.Bytes.{Bytes, put_u32}
use pgvisor.Protocol.Tracker.{idle, is_idle}
use pgvisor.Protocol.Tracker
use pgvisor.Protocol.Message.Wire.{Pgwire, PgBackend, decoded, PgFrontend}
use pgvisor.Protocol.Message.RoundTrip.{frame}
use pgvisor.Proxy.Pool.{PooledConnection, leader, ok}
use pgvisor.Proxy.Pool
use pgvisor.Proxy.Session.{Session, World, Frame, status_of}
use pgvisor.Proxy.Session.Query.{answered, write_backend, handle_query, obtain, query_frame}
use pgvisor.Proxy.Session.Streaming.{after}
use pgvisor.Proxy.Session.Delivery.{keep_or_release, handle_query-delivers}
use pgvisor.Proxy.Session.Handshake.{Listener, Client, handshake}
use pgvisor.Proxy.Session.Admission.{IsAdmitted, handshake-IsAdmitted}

abbrev toy : Pgwire
toy = record {
  encode_backend = λ m. 90 ∷ (put_u32 5 ++ 73 ∷ []);
  decode_backend = λ src. (decoded (PgBackend.ready_for_query idle), drop 6 src);
  encode_frontend = λ m. 81 ∷ [];
  decode_frontend = λ src. (decoded (PgFrontend.query (drop 5 src)), []);
  decode_startup = λ src. (decoded (PgFrontend.startup 3 0 []), []);
}

abbrev world : World
world = record {
  pg = toy;
  try_status = λ b. if eqb b 73 then some idle else none;
  as_bytes = λ t. t;
  describe = λ e. [];
  rounds = λ n. record {
    connect = λ r addr role user database. ok r;
    elapsed = λ r. r;
    meanwhile = λ r p. p;
  };
  fuel = λ n. 3;
  timeout = 1;
  user = none;
  database = none;
  client_accepts = λ s. true;
  backend_accepts = λ s b. true;
}

abbrev backend : PooledConnection
backend = record { stream = 4; role = leader; addr = "10.0.0.1:5432" }

abbrev session : Session
session = record {
  tracker = Tracker.new;
  active_backend = some backend;
  pool = Pool.new 2;
  acquired = 0;
  sent = [];
  forwarded = [];
}

abbrev row : Frame
row = record { tag = 68; bytes = frame 68 (1 ∷ 2 ∷ []) }

abbrev done : Frame
done = record { tag = 90; bytes = frame 90 (73 ∷ []) }

abbrev two_reads : List Bytes
two_reads = take 3 row.bytes ∷ (drop 3 row.bytes ++ done.bytes) ∷ []

handle_query-delivers_example :
    handle_query world session (text "SELECT 1") two_reads
    ≡ answered (
        keep_or_release
          (after world
            (write_backend
              (record session { active_backend = none })
              backend
              (query_frame world (text "SELECT 1")))
            (row ∷ [])
            done)
          backend
          (is_idle (status_of world.try_status done.bytes)))
unfolding obtain put_u32
handle_query-delivers_example =
    handle_query-delivers world (λ s. refl) session session (text "SELECT 1") two_reads backend
      (row ∷ []) done refl refl
      ((record { body = 1 ∷ 2 ∷ []; fits = omega arith; layout = refl }, refl), tt)
      (record { body = 73 ∷ []; fits = omega arith; layout = refl }) refl (refl, (refl, tt)) refl

abbrev listener : Listener
listener = record {
  pg = toy;
  process_id = 7;
  has_acceptor = true;
  tls_required = true;
  tls_succeeds = true;
}

abbrev client : Client
client = record { is_tls = false; buf = []; written = [] }

-- An SSLRequest, and a startup packet over TLS.
abbrev packets : List Bytes
packets = (put_u32 8 ++ put_u32 80877103) ∷ (put_u32 8 ++ put_u32 196608) ∷ []

handshake-IsAdmitted_example : IsAdmitted listener client (handshake listener client packets)
handshake-IsAdmitted_example = handshake-IsAdmitted listener client packets
