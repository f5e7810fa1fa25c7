-- ===== src/Proxy/Executor/Limits.antt =====
-- How many rows proxy/src/executor.rs returns.
use pgvisor.Prelude.{
  ℕ, zero, suc, ◌≡◌, refl, sym, ap, subst, Bool, true, false, not, ◌&&◌, ◌⊎◌, Option, none, some,
  List, [], ◌∷◌, ◌++◌, length, is_empty, map, if◌then◌else◌, if_elim, both, Option-cases, inl, inr,
  arith,
}
use pgvisor.Prelude.Texts.{Text}
use pgvisor.Storage.Bytes.{Bytes}
use pgvisor.Protocol.Message.Wire.{Pgwire, Decoded, message, incomplete, invalid, panic}
use pgvisor.Protocol.Message.Backend.{BackendMessage, decode_backend}
use pgvisor.Proxy.Pool.{PoolInner, PooledConnection, leader, standby, Result, ok, err, release}
use pgvisor.Proxy.Pool.Retry.{Rounds, acquire_with_retry}
use pgvisor.Proxy.Session.{Frame, extract_backend_frame}
use pgvisor.Proxy.Executor.{
  singleton, Gathered, gather, is_ready, Collected, unfinished, finished, crashed, endless,
  on_frame, collect_frames, SqlQueryResult, Outcome, succeeded, failing, unending, crash, waiting,
  server, present, conclude, read_result, execute_on, execute, is_leader_required,
}
use pgvisor.Proxy.Executor.Messages.{
  Hears, done, heard, passed, read, columns_after, columns_of, tags_after, tags_of, Shows, Within,
  gather-Within, gather-columns_after, gather-tags_after,
}

module _ (pg : Pgwire) (lossy : Bytes → Bytes) (max_rows : ℕ) where
  -- A result that is returned shows the messages that are heard, behind what was heard before.
  abbrev Bounds : List Bytes → List Bytes → Bytes → List (Option Bytes) → Outcome → Type 0
  Bounds columns tags buf reads (succeeded r) =
      (ms : List BackendMessage) × Hears pg lossy buf reads ms
      × Shows max_rows (columns_of columns ms) (tags_of tags ms) r
  Bounds columns tags buf reads _ = Unit

  -- A result that is returned shows what the reads say.
  abbrev pub IsBounded : List (Option Bytes) → Outcome → Type 0
  IsBounded reads (succeeded r) =
      (ms : List BackendMessage) × Hears pg lossy [] reads ms
      × Shows max_rows (columns_of [] ms) (tags_of [] ms) r
  IsBounded reads _ = Unit

  module _ (reads : List (Option Bytes)) where
    Bounds-lift :
        (c d s t : List Bytes) (buf rest : Bytes)
        → ((r : SqlQueryResult)
            → Bounds c s rest reads (succeeded r)
            → Bounds d t buf reads (succeeded r))
        → (o : Outcome) → Bounds c s rest reads o
        → Bounds d t buf reads o
    Bounds-lift c d s t buf rest k (succeeded r) b = k r b
    Bounds-lift c d s t buf rest k (failing e) b = tt
    Bounds-lift c d s t buf rest k waiting b = tt
    Bounds-lift c d s t buf rest k unending b = tt
    Bounds-lift c d s t buf rest k crash b = tt

    Bounds-gather :
        (g : Gathered) (m : BackendMessage) (buf rest left : Bytes) (f : Frame)
        → extract_backend_frame buf ≡ some (f, rest)
        → decode_backend pg lossy f.bytes ≡ message m left
        → is_ready m ≡ false
        → (o : Outcome)
        → Bounds (gather max_rows g m).columns (gather max_rows g m).command_tags rest reads o
        → Bounds g.columns g.command_tags buf reads o
    Bounds-gather g m buf rest left f e d n o b =
        Bounds-lift (columns_after g.columns m) g.columns (tags_after g.command_tags m)
          g.command_tags buf rest
          (λ r (ms, h, s). (m ∷ ms, heard buf rest left reads f m ms e d n h, s)) o
          (subst (λ c. Bounds c (tags_after g.command_tags m) rest reads o)
            (gather-columns_after max_rows g m)
            (subst (λ s. Bounds (gather max_rows g m).columns s rest reads o)
              (gather-tags_after max_rows g m) b))

    Bounds-passed :
        (c s : List Bytes) (buf rest left : Bytes) (f : Frame)
        → extract_backend_frame buf ≡ some (f, rest)
        → (decode_backend pg lossy f.bytes ≡ incomplete left)
          ⊎ (decode_backend pg lossy f.bytes ≡ invalid left)
        → (o : Outcome) → Bounds c s rest reads o
        → Bounds c s buf reads o
    Bounds-passed c s buf rest left f e d =
        Bounds-lift c c s s buf rest
          (λ r (ms, h, w). (ms, passed buf rest left reads f ms e d h, w))

    present-Shows :
        (g : Gathered) → Within max_rows g → Shows max_rows g.columns g.command_tags (present g)
    unfolding present singleton
    present-Shows g w =
        if_elim (Shows max_rows g.columns g.command_tags)
          (is_empty g.columns && not (is_empty g.command_tags))
          (λ e. (
            refl,
            inr (
              nothing g.columns (both (is_empty g.columns) (not (is_empty g.command_tags)) e).0,
              refl,
              tags g.command_tags,
            ),
          ))
          (λ e. (refl, inl (refl, w)))
      where
        nothing : (l : List Bytes) → is_empty l ≡ true → l ≡ []
        nothing [] e = refl
        nothing (x ∷ l) e = absurd (ground (arith, e))

        tags : (l : List Bytes) → map singleton l ≡ map (λ (tag : Bytes). tag ∷ []) l
        tags [] = refl
        tags (x ∷ l) = ap (◌∷◌ (x ∷ [])) (tags l)

    conclude-Bounds :
        (g : Gathered) (buf : Bytes)
        → Within max_rows g
        → Hears pg lossy buf reads []
        → Bounds g.columns g.command_tags buf reads (conclude g)
    unfolding conclude
    conclude-Bounds g buf w h = by_error g.error_msg
      where
        by_error :
            (o : Option Bytes)
            → Bounds g.columns g.command_tags buf reads
                (elim o [ some e ↦ failing (server e) | none ↦ succeeded (present g) ])
        by_error none = ([], h, present-Shows g w)
        by_error (some e) = tt

    abbrev Collects : Gathered → Bytes → Collected → Type 0
    Collects g buf (unfinished h rest) =
        Within max_rows h
        × ((o : Outcome)
            → Bounds h.columns h.command_tags rest reads o
            → Bounds g.columns g.command_tags buf reads o)
    Collects g buf (finished h) = Bounds g.columns g.command_tags buf reads (conclude h)
    Collects g buf _ = Unit

    Collects-lift :
        (g h : Gathered) (buf rest : Bytes)
        → ((o : Outcome)
            → Bounds h.columns h.command_tags rest reads o
            → Bounds g.columns g.command_tags buf reads o)
        → (r : Collected) → Collects h rest r
        → Collects g buf r
    Collects-lift g h buf rest k (unfinished i more) c = (c.0, λ o b. k o (c.1 o b))
    Collects-lift g h buf rest k (finished i) c = k (conclude i) c
    Collects-lift g h buf rest k crashed c = tt
    Collects-lift g h buf rest k endless c = tt

    on_frame-Collects :
        (g : Gathered) (buf rest : Bytes) (f : Frame) (d : Decoded BackendMessage)
        (next : Gathered → Collected)
        → extract_backend_frame buf ≡ some (f, rest)
        → decode_backend pg lossy f.bytes ≡ d
        → Within max_rows g
        → ((h : Gathered) → Within max_rows h → Collects h rest (next h))
        → Collects g buf (on_frame max_rows g d next)
    unfolding on_frame
    on_frame-Collects g buf rest f (message m left) next e d w h =
        if_elim (Collects g buf) (is_ready m)
          (λ y. conclude-Bounds g buf w (done buf rest left reads f m e d y))
          (λ n.
            Collects-lift g (gather max_rows g m) buf rest (Bounds-gather g m buf rest left f e d n)
              (next (gather max_rows g m)) (h (gather max_rows g m) (gather-Within max_rows g m w)))
    on_frame-Collects g buf rest f (incomplete left) next e d w h =
        Collects-lift g g buf rest
          (Bounds-passed g.columns g.command_tags buf rest left f e (inl d)) (next g) (h g w)
    on_frame-Collects g buf rest f (invalid left) next e d w h =
        Collects-lift g g buf rest
          (Bounds-passed g.columns g.command_tags buf rest left f e (inr d)) (next g) (h g w)
    on_frame-Collects g buf rest f panic next e d w h = tt

    collect_frames-Collects :
        (fuel : ℕ) (g : Gathered) (buf : Bytes)
        → Within max_rows g
        → Collects g buf (collect_frames pg lossy max_rows fuel g buf)
    unfolding collect_frames
    collect_frames-Collects zero g buf w = tt
    collect_frames-Collects (suc fuel) g buf w = elim (Option-cases (extract_backend_frame buf)) [
      | inl e ↦ subst (λ o. Collects g buf (step o)) (sym e) (w, λ o b. b)
      | inr ((f, rest), e) ↦
          subst (λ o. Collects g buf (step o)) (sym e)
            (on_frame-Collects g buf rest f (decode_backend pg lossy f.bytes)
              (λ h. collect_frames pg lossy max_rows fuel h rest) e refl w
              (λ h v. collect_frames-Collects fuel h rest v))
    ]
      where
        step : Option (Frame × Bytes) → Collected
        step o = elim o [
          | none ↦ unfinished g buf
          | some (f, rest) ↦
              on_frame max_rows g (decode_backend pg lossy f.bytes)
                (λ h. collect_frames pg lossy max_rows fuel h rest)
        ]

  Bounds-read :
      (c s : List Bytes) (buf chunk : Bytes) (reads : List (Option Bytes)) (o : Outcome)
      → Bounds c s (buf ++ chunk) reads o
      → Bounds c s buf (some chunk ∷ reads) o
  Bounds-read c s buf chunk reads (succeeded r) (ms, h, w) = (ms, read buf chunk reads ms h, w)
  Bounds-read c s buf chunk reads (failing e) b = tt
  Bounds-read c s buf chunk reads waiting b = tt
  Bounds-read c s buf chunk reads unending b = tt
  Bounds-read c s buf chunk reads crash b = tt

  read_result-Bounds :
      (p : PoolInner) (backend : PooledConnection) (g : Gathered) (buf : Bytes)
      (reads : List (Option Bytes))
      → Within max_rows g
      → Bounds g.columns g.command_tags buf reads
          (read_result pg lossy max_rows p backend g buf reads).1
  unfolding read_result
  read_result-Bounds p backend g buf [] w = tt
  read_result-Bounds p backend g buf (none ∷ reads) w = tt
  read_result-Bounds p backend g buf (some [] ∷ reads) w = tt
  read_result-Bounds p backend g buf (some (c ∷ chunk) ∷ reads) w =
      next
        (collect_frames pg lossy max_rows (suc (length (buf ++ (c ∷ chunk)))) g
          (buf ++ (c ∷ chunk)))
        (collect_frames-Collects reads (suc (length (buf ++ (c ∷ chunk)))) g (buf ++ (c ∷ chunk)) w)
        (λ h rest v. read_result-Bounds p backend h rest reads v)
    where
      outcome : Collected → PoolInner × Outcome
      outcome r = elim r [
        | unfinished h rest ↦ read_result pg lossy max_rows p backend h rest reads
        | finished h ↦ (release p backend, conclude h)
        | crashed ↦ (p, crash)
        | endless ↦ (p, unending)
      ]

      next :
          (r : Collected)
          → Collects reads g (buf ++ (c ∷ chunk)) r
          → ((h : Gathered) (rest : Bytes)
              → Within max_rows h
              → Bounds h.columns h.command_tags rest reads
                  (read_result pg lossy max_rows p backend h rest reads).1)
          → Bounds g.columns g.command_tags buf (some (c ∷ chunk) ∷ reads) (outcome r).1
      next (unfinished h rest) v k =
          Bounds-read g.columns g.command_tags buf (c ∷ chunk) reads
            (read_result pg lossy max_rows p backend h rest reads).1
            (v.1 (read_result pg lossy max_rows p backend h rest reads).1 (k h rest v.0))
      next (finished h) v k =
          Bounds-read g.columns g.command_tags buf (c ∷ chunk) reads (conclude h) v
      next crashed v k = tt
      next endless v k = tt

  whole : (reads : List (Option Bytes)) (o : Outcome) → Bounds [] [] [] reads o → IsBounded reads o
  whole reads (succeeded r) b = b
  whole reads (failing e) b = tt
  whole reads waiting b = tt
  whole reads unending b = tt
  whole reads crash b = tt

  execute_on-IsBounded :
      (takes : Bool) (reads : List (Option Bytes)) (p : PoolInner)
      (o : Option (PoolInner × Result PooledConnection))
      → IsBounded reads (execute_on pg lossy max_rows takes reads p o).1
  unfolding execute_on
  execute_on-IsBounded takes reads p none = tt
  execute_on-IsBounded takes reads p (some (q, err e)) = tt
  execute_on-IsBounded takes reads p (some (q, ok backend)) =
      if_elim (λ (r : PoolInner × Outcome). IsBounded reads r.1) takes
        (λ e.
          whole reads (read_result pg lossy max_rows q backend start [] reads).1
            (read_result-Bounds q backend start [] reads (omega arith)))
        (λ e. tt)
    where
      start : Gathered
      start = record {
        columns = [];
        rows = [];
        command_tags = [];
        error_msg = none;
        truncated = false;
      }

  -- Whatever the pool and the backend do, a result that is returned comes from the messages in the frames
  -- that the reads make up, up to ReadyForQuery. It counts its rows. They stand under the columns that were
  -- described last, and are no more than the limit; or the columns described last are none, and the rows are
  -- the tags of the completed statements, each alone in the one column called status, whatever their number.
  pub execute-IsBounded :
      (to_uppercase : Text → Text) (rounds : Rounds) (fuel timeout : ℕ) (takes : Bool)
      (reads : List (Option Bytes)) (p : PoolInner) (sql : Text)
      → IsBounded reads
          (execute pg lossy max_rows to_uppercase rounds fuel timeout takes reads p sql).1
  unfolding execute
  execute-IsBounded to_uppercase rounds fuel timeout takes reads p sql =
      execute_on-IsBounded takes reads p (
        acquire_with_retry rounds timeout
          (if is_leader_required to_uppercase sql then leader else standby) none none fuel 0 p)
