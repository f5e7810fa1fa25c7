-- ===== src/Backup/Store.antt =====
-- OpenDAL's `Operator`, on which backup/manager.rs stands: its operations, and what is relied on.
use pgvisor.Prelude.{◌≡◌, ◌≢◌, Bool, true, Option, some, List, ◌++◌, All}
use pgvisor.Prelude.Texts.{Text}
use pgvisor.Storage.Bytes.{Bytes}

pub data Read : Type 0 where
  found : Bytes → Read
  not_found failed : Read

-- What a write leaves, and whether it succeeded.
pub record Written (Store : Type 0) : Type 0 where
  pub store : Store
  pub is_ok : Bool

pub record Entry : Type 0 where
  pub path : Text
  pub name : Text

-- `exists` and `list` give `none` where they fail; the outcome of a delete is never looked at.
pub record Operator : Type 1 where
  pub Store : Type 0
  pub write : Store → Text → Bytes → Written Store
  pub read : Store → Text → Read
  pub exists : Store → Text → Option Bool
  pub list : Store → Text → Option (List Entry)
  pub delete : Store → Text → Store

-- A write that succeeds is what a read of its key gives; writes and deletes leave other keys alone; a key
-- that can be read is never said not to exist; a listing names what stands under its prefix, by path and
-- by name, and not the prefix itself, which some stores list too.
pub record IsObjectStore (op : Operator) : Type 0 where
  pub read-write :
      (s : op.Store) (k : Text) (v : Bytes)
      → (op.write s k v).is_ok ≡ true
      → op.read (op.write s k v).store k ≡ found v
  pub exists-read :
      (s : op.Store) (k : Text) (v : Bytes) (b : Bool)
      → op.read s k ≡ found v
      → op.exists s k ≡ some b
      → b ≡ true
  pub read-write_other :
      (s : op.Store) (k j : Text) (v : Bytes)
      → j ≢ k
      → op.read (op.write s k v).store j ≡ op.read s j
  pub read-delete_other :
      (s : op.Store) (k j : Text) → j ≢ k → op.read (op.delete s k) j ≡ op.read s j
  pub list-path :
      (s : op.Store) (prefix : Text) (entries : List Entry)
      → op.list s prefix ≡ some entries
      → All (λ (e : Entry). e.path ≡ prefix ++ e.name) entries
