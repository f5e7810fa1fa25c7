-- ===== src/Backup/Manager/Keys.antt =====
-- The keys of backup/manager.rs name one object each.
use pgvisor.Prelude.{◌≡◌, ◌≢◌, refl, sym, ap, ◌∙◌, ℕ, [], ◌∷◌, ◌++◌, is_empty, if◌then◌else◌, arith}
use pgvisor.Prelude.Texts.{Text, text}
use pgvisor.Backup.Manager.{wal_prefix, basebackup_prefix, tar_key, meta_key}
use mathlib.Core.List.{append_assoc, append_cancel_left, append_cancel_right}

-- The last character, zero for an empty text.
abbrev last_char : Text → ℕ
last_char [] = 0
last_char (c ∷ s) = if is_empty s then c else last_char s

last_char-append : (s : Text) (c : ℕ) (t : Text) → last_char (s ++ (c ∷ t)) ≡ last_char (c ∷ t)
last_char-append [] c t = refl
last_char-append (d ∷ []) c t = refl
last_char-append (d ∷ e ∷ s) c t = last_char-append (e ∷ s) c t

pub tar_key-differs : (c i j : Text) → i ≢ j → tar_key c i ≢ tar_key c j
unfolding tar_key
tar_key-differs c i j h e = h (
    append_cancel_right i j (text ".tar.gz")
      (append_cancel_left (basebackup_prefix c) (i ++ text ".tar.gz") (j ++ text ".tar.gz") e))

pub meta_key-differs : (c i j : Text) → i ≢ j → meta_key c i ≢ meta_key c j
unfolding meta_key
meta_key-differs c i j h e = h (
    append_cancel_right i j (text ".json")
      (append_cancel_left (basebackup_prefix c) (i ++ text ".json") (j ++ text ".json") e))

pub tar_key-meta_key : (c i j : Text) → tar_key c i ≢ meta_key c j
unfolding tar_key meta_key
tar_key-meta_key c i j e =
    let same : i ++ text ".tar.gz" ≡ j ++ text ".json" =
      append_cancel_left (basebackup_prefix c) (i ++ text ".tar.gz") (j ++ text ".json") e in
    let ends : 122 ≡ 110 =
      sym (last_char-append i 46 (text "tar.gz"))
      ∙ ap last_char same
      ∙ last_char-append j 46 (text "json") in
    absurd (ground (arith, ends))

pub wal-basebackup : (c x y : Text) → basebackup_prefix c ++ x ≢ wal_prefix c ++ y
unfolding basebackup_prefix wal_prefix
wal-basebackup c x y e =
    let split : (m z : Text)
        → (text "clusters/" ++ (c ++ m)) ++ z ≡ (text "clusters/" ++ c) ++ (m ++ z) =
      λ m z.
        ap (λ (l : Text). l ++ z) (sym (append_assoc (text "clusters/") c m))
        ∙ append_assoc (text "clusters/" ++ c) m z in
    let same : text "/basebackups/" ++ x ≡ text "/wal/" ++ y =
      append_cancel_left (text "clusters/" ++ c) (text "/basebackups/" ++ x) (text "/wal/" ++ y)
        (sym (split (text "/basebackups/") x) ∙ e ∙ split (text "/wal/") y) in
    absurd (ground (arith, ap second_char same))
  where
    second_char : Text → ℕ
    second_char [] = 0
    second_char (a ∷ []) = 0
    second_char (a ∷ b ∷ s) = b

pub tar_key-wal : (c i name : Text) → tar_key c i ≢ wal_prefix c ++ name
unfolding tar_key
tar_key-wal c i name = wal-basebackup c (i ++ text ".tar.gz") name

pub meta_key-wal : (c i name : Text) → meta_key c i ≢ wal_prefix c ++ name
unfolding meta_key
meta_key-wal c i name = wal-basebackup c (i ++ text ".json") name
