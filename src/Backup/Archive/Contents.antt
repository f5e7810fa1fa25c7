-- ===== src/Backup/Archive/Contents.antt =====
-- What the archives of backup/archive.rs hold: a reference definition of `process_basebackup_archive`.
use pgvisor.Prelude.{
  ◌||◌, ◌==◌, subst, ◌≡◌, refl, ap, ◌∙◌, Bool, true, false, Option, none, some, List, [], ◌∷◌, ◌++◌,
  if_elim, if◌then◌else◌,
}
use pgvisor.Prelude.Texts.{Text, text, chars_key, trim}
use pgvisor.Storage.Bytes.{Bytes}
use pgvisor.Backup.Archive.{ParsedBackupLabel, parse_backup_label}
use pgvisor.Backup.Manager.{BasebackupMeta, ends_with}
use pgvisor.Backup.Archive.Packing.{
  Member, Tools, or_old, unwrap_or, is_named, enrich, with_id, metadata_member, learn_label,
  learn_version, learn, pass_on, copy_members, finish, finish_copy, process_basebackup_archive,
}

-- The members but old labels.
abbrev pub current : List Member → List Member
current [] = []
current (m ∷ ms) =
    let rest = current ms in if is_named m.path (text "backup_label.old") then rest else m ∷ rest

abbrev pub and_then : {A B : Type 0} → Option A → (A → Option B) → Option B
and_then none f = none
and_then (some a) f = f a

-- The metadata under its own snapshot's id as backup id.
abbrev pub with_backup_id : BasebackupMeta → BasebackupMeta
with_backup_id meta = record meta { backup_id = some meta.snapshot_id }

-- A member with this name, in any directory or none.
abbrev pub stands_at : Text → Text → Bool
stands_at path name = path == name || ends_with path (text "/" ++ name)

abbrev pub newer : {A : Type 0} → Option A → Option A → Option A
newer old none = old
newer old (some new) = some new

abbrev pub or_given : Text → Option Text → Text
or_given given none = given
or_given given (some new) = new

-- What a label says replaces what was known; what it does not say is kept.
abbrev pub labelled : BasebackupMeta → ParsedBackupLabel → BasebackupMeta
labelled meta label = record meta {
  timeline = newer meta.timeline label.timeline;
  start_wal = or_given meta.start_wal label.start_wal_file;
  start_lsn = newer meta.start_lsn label.start_lsn;
  checkpoint_location = newer meta.checkpoint_location label.checkpoint_location;
  backup_from = newer meta.backup_from label.backup_from;
}

or_old-newer : {A : Type 0} (new old : Option A) → or_old new old ≡ newer old new
unfolding or_old
or_old-newer none old = refl
or_old-newer (some a) old = refl

unwrap_or-given : (given : Text) (new : Option Text) → unwrap_or given new ≡ or_given given new
unfolding unwrap_or
unwrap_or-given given none = refl
unwrap_or-given given (some a) = refl

enrich-labelled :
    (meta : BasebackupMeta) (label : ParsedBackupLabel) → enrich meta label ≡ labelled meta label
unfolding enrich
enrich-labelled meta label = λ i. record meta {
  timeline = or_old-newer label.timeline meta.timeline i;
  start_wal = unwrap_or-given meta.start_wal label.start_wal_file i;
  start_lsn = or_old-newer label.start_lsn meta.start_lsn i;
  checkpoint_location = or_old-newer label.checkpoint_location meta.checkpoint_location i;
  backup_from = or_old-newer label.backup_from meta.backup_from i;
}

-- What identifies a snapshot.
pub record IsSameSnapshot (a b : BasebackupMeta) : Type 0 where
  pub snapshot_id : b.snapshot_id ≡ a.snapshot_id
  pub backup_id : b.backup_id ≡ a.backup_id
  pub created_at : b.created_at ≡ a.created_at
  pub backup_type : b.backup_type ≡ a.backup_type
  pub label : b.label ≡ a.label
  pub source_node : b.source_node ≡ a.source_node

IsSameSnapshot-self : (a : BasebackupMeta) → IsSameSnapshot a a
IsSameSnapshot-self a = record {
  snapshot_id = refl;
  backup_id = refl;
  created_at = refl;
  backup_type = refl;
  label = refl;
  source_node = refl;
}

IsSameSnapshot-trans :
    (a b c : BasebackupMeta) → IsSameSnapshot a b → IsSameSnapshot b c → IsSameSnapshot a c
IsSameSnapshot-trans a b c x y = record {
  snapshot_id = y.snapshot_id ∙ x.snapshot_id;
  backup_id = y.backup_id ∙ x.backup_id;
  created_at = y.created_at ∙ x.created_at;
  backup_type = y.backup_type ∙ x.backup_type;
  label = y.label ∙ x.label;
  source_node = y.source_node ∙ x.source_node;
}

abbrev pub Keeps : BasebackupMeta → Option BasebackupMeta → Type 0
Keeps meta none = Unit
Keeps meta (some n) = IsSameSnapshot meta n

module _ (tools : Tools) where
  -- A backup label teaches its fields, a PG_VERSION its text without the white space around it; any other
  -- member teaches nothing. A label or version that is not UTF-8 is an error.
  abbrev pub teach : BasebackupMeta → Member → Option BasebackupMeta
  teach meta m =
      if stands_at m.path (text "backup_label")
      then and_then (tools.from_utf8 m.content)
          (λ content. some (labelled meta (parse_backup_label content)))
      else if stands_at m.path (text "PG_VERSION")
      then and_then (tools.from_utf8 m.content)
          (λ content. some (record meta { pg_version = some (trim content) }))
      else some meta

  learn-teach : (meta : BasebackupMeta) (m : Member) → learn tools meta m ≡ teach meta m
  unfolding learn learn_label learn_version is_named
  learn-teach meta m = λ i.
      if stands_at m.path (text "backup_label")
      then by_label (tools.from_utf8 m.content) i
      else if stands_at m.path (text "PG_VERSION")
      then by_version (tools.from_utf8 m.content) i
      else some meta
    where
      by_label :
          (o : Option Text)
          → learn_label tools meta o
            ≡ and_then o (λ content. some (labelled meta (parse_backup_label content)))
      by_label none = refl
      by_label (some content) = ap some (enrich-labelled meta (parse_backup_label content))

      by_version :
          (o : Option Text)
          → learn_version tools meta o
            ≡ and_then o (λ content. some (record meta { pg_version = some (trim content) }))
      by_version none = refl
      by_version (some content) = refl

  -- What is learned from members, in order.
  abbrev pub learn_all : BasebackupMeta → List Member → Option BasebackupMeta
  learn_all meta [] = some meta
  learn_all meta (m ∷ ms) = and_then (teach meta m) (λ n. learn_all n ms)

  abbrev pub reference : Bytes → BasebackupMeta → Option (BasebackupMeta × Bytes)
  reference archive meta = and_then (tools.unpack archive) λ members.
      and_then (learn_all (with_backup_id meta) (current members)) λ learned.
        and_then (tools.to_vec_pretty learned) λ json.
          and_then (tools.pack (current members ++ metadata_member json ∷ []))
            λ bytes. some (learned, bytes)

  abbrev paired : List Member → Option BasebackupMeta → Option (BasebackupMeta × List Member)
  paired kept none = none
  paired kept (some meta) = some (meta, kept)

  pass_on-paired :
      (m : Member) (kept : List Member) (o : Option BasebackupMeta)
      → pass_on m (paired kept o) ≡ paired (m ∷ kept) o
  unfolding pass_on
  pass_on-paired m kept none = refl
  pass_on-paired m kept (some meta) = refl

  copy_members-current :
      (meta : BasebackupMeta) (ms : List Member)
      → copy_members tools meta ms ≡ paired (current ms) (learn_all meta (current ms))
  unfolding copy_members
  copy_members-current meta [] = refl
  copy_members-current meta (m ∷ ms) =
      by_name (is_named m.path (text "backup_label.old")) (λ n. copy_members-current n ms)
    where
      copied : Option BasebackupMeta → Option (BasebackupMeta × List Member)
      copied o = elim o [ none ↦ none | some meta' ↦ pass_on m (copy_members tools meta' ms) ]

      by_learned :
          ((n : BasebackupMeta)
            → copy_members tools n ms ≡ paired (current ms) (learn_all n (current ms)))
          → (o : Option BasebackupMeta)
          → copied o ≡ paired (m ∷ current ms) (and_then o (λ n. learn_all n (current ms)))
      by_learned later none = refl
      by_learned later (some n) =
          ap (pass_on m) (later n) ∙ pass_on-paired m (current ms) (learn_all n (current ms))

      by_name :
          (b : Bool)
          → ((n : BasebackupMeta)
              → copy_members tools n ms ≡ paired (current ms) (learn_all n (current ms)))
          → (if b then copy_members tools meta ms else copied (learn tools meta m))
            ≡ paired
                (if b then current ms else m ∷ current ms)
                (learn_all meta (if b then current ms else m ∷ current ms))
      by_name true later = later meta
      by_name false later = ap copied (learn-teach meta m) ∙ by_learned later (teach meta m)

  learn-Keeps : (meta : BasebackupMeta) (m : Member) → Keeps meta (learn tools meta m)
  unfolding learn learn_label learn_version enrich
  learn-Keeps meta m =
      if_elim (Keeps meta) (is_named m.path (text "backup_label"))
        (λ named. labelled (tools.from_utf8 m.content))
        (λ other.
          if_elim (Keeps meta) (is_named m.path (text "PG_VERSION"))
            (λ named. versioned (tools.from_utf8 m.content)) (λ plain. IsSameSnapshot-self meta))
    where
      labelled : (o : Option Text) → Keeps meta (learn_label tools meta o)
      labelled none = tt
      labelled (some content) = record {
        snapshot_id = refl;
        backup_id = refl;
        created_at = refl;
        backup_type = refl;
        label = refl;
        source_node = refl;
      }

      versioned : (o : Option Text) → Keeps meta (learn_version tools meta o)
      versioned none = tt
      versioned (some content) = record {
        snapshot_id = refl;
        backup_id = refl;
        created_at = refl;
        backup_type = refl;
        label = refl;
        source_node = refl;
      }

  learn_all-Keeps : (meta : BasebackupMeta) (ms : List Member) → Keeps meta (learn_all meta ms)
  learn_all-Keeps meta [] = IsSameSnapshot-self meta
  learn_all-Keeps meta (m ∷ ms) =
      by_learned (teach meta m) (subst (Keeps meta) (learn-teach meta m) (learn-Keeps meta m))
        (λ n. learn_all-Keeps n ms)
    where
      later :
          (n : BasebackupMeta) (o : Option BasebackupMeta)
          → IsSameSnapshot meta n
          → Keeps n o
          → Keeps meta o
      later n none x y = tt
      later n (some k) x y = IsSameSnapshot-trans meta n k x y

      by_learned :
          (o : Option BasebackupMeta)
          → Keeps meta o
          → ((n : BasebackupMeta) → Keeps n (learn_all n ms))
          → Keeps meta (and_then o (λ n. learn_all n ms))
      by_learned none x y = tt
      by_learned (some n) x y = later n (learn_all n ms) x (y n)

  finish_copy-reference :
      (kept : List Member) (o : Option BasebackupMeta)
      → finish_copy tools (paired kept o)
        ≡ and_then o λ learned. and_then (tools.to_vec_pretty learned) λ json.
          and_then (tools.pack (kept ++ metadata_member json ∷ [])) λ bytes. some (learned, bytes)
  unfolding finish_copy finish
  finish_copy-reference kept none = refl
  finish_copy-reference kept (some meta) = by_json (tools.to_vec_pretty meta)
    where
      by_packed :
          (o : Option Bytes)
          → (elim o as (λ o. Option (BasebackupMeta × Bytes)) [
            | none ↦ none
            | some bytes ↦ some (meta, bytes)
          ])
            ≡ and_then o (λ bytes. some (meta, bytes))
      by_packed none = refl
      by_packed (some bytes) = refl

      by_json :
          (o : Option Bytes)
          → finish tools meta kept o
            ≡ and_then o λ json.
              and_then (tools.pack (kept ++ metadata_member json ∷ [])) λ bytes. some (meta, bytes)
      by_json none = refl
      by_json (some json) = by_packed (tools.pack (kept ++ metadata_member json ∷ []))

  -- The processed archive is that of the reference, errors included: its members but old labels, in order,
  -- then metadata.json with the metadata that is returned. That is the given one with its snapshot's id as
  -- backup id, to which each kept member, in order, adds: a backup label the timeline, the WAL file, the start,
  -- the checkpoint and the origin that it states, a PG_VERSION its trimmed text, any other nothing; and
  -- whatever the members are, it is the metadata of the same snapshot.
  pub process_basebackup_archive-reference :
      (archive : Bytes) (meta : BasebackupMeta)
      → (process_basebackup_archive tools archive meta ≡ reference archive meta)
        × ((ms : List Member) → Keeps (with_backup_id meta) (learn_all (with_backup_id meta) ms))
  unfolding process_basebackup_archive with_id
  process_basebackup_archive-reference archive meta =
      (by_members (tools.unpack archive), learn_all-Keeps (with_backup_id meta))
    where
      by_members :
          (o : Option (List Member))
          → (elim o as (λ o. Option (BasebackupMeta × Bytes)) [
            | none ↦ none
            | some members ↦ finish_copy tools (copy_members tools (with_id meta) members)
          ])
            ≡ and_then o λ members.
              and_then (learn_all (with_backup_id meta) (current members)) λ learned.
                and_then (tools.to_vec_pretty learned) λ json.
                  and_then
                    (tools.pack (current members ++ metadata_member json ∷ []))
                    λ bytes. some (learned, bytes)
      by_members none = refl
      by_members (some members) =
          ap (finish_copy tools) (copy_members-current (with_backup_id meta) members)
          ∙ finish_copy-reference (current members)
              (learn_all (with_backup_id meta) (current members))
