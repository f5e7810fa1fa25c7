-- ===== src/Storage/Wal/Layout.antt =====
-- The layout invariant of the log of storage/wal.rs: the indexed records lie in the file one behind
-- the other, in the order of their indices. Raft appends at growing indices, which keeps it so.
use pgvisor.Prelude.{
  ℕ, ◌+◌, ◌≤◌, ◌<◌, ◌≡◌, refl, inl, inr, none, some, [], if◌then◌else◌, ltb, ◌∷◌, ◌++◌, length,
  length-append, length-take, Option-cases, subst, arith,
}
use pgvisor.Prelude.Maps.Ordered.{BTreeMap, get, insert, first_from, split_off, remove_upto}
use pgvisor.Raft.Types.{LogId, Entry}
use pgvisor.Storage.Codec.{Codec}
use pgvisor.Storage.Wal.{
  Wal, LogIndexEntry, header_len, add_entry, append_entry, truncate_since, purge_upto, frame,
}
use pgvisor.Storage.Wal.Records.{length-frame}

-- Keys from `k` on and offsets from `o` on, up to the end of a file of length `n`.
abbrev pub Laid : ℕ → ℕ → BTreeMap LogIndexEntry → ℕ → Type 0
Laid k o [] n = o ≤ n
Laid k o ((j, m) ∷ index) n =
    (k ≤ j)
    × (o ≤ m.file_offset)
    × (header_len ≤ m.total_record_len)
    × (m.log_id.index ≡ j)
    × Laid (j + 1) (m.file_offset + m.total_record_len) index n

abbrev pub IsLaid : Wal → Type 0
IsLaid w = Laid 0 0 w.index (length w.file)

-- All indices are below `i`.
abbrev pub Below : ℕ → BTreeMap LogIndexEntry → Type 0
Below i [] = Unit
Below i ((j, m) ∷ index) = (j < i) × Below i index

Laid-end : (k o n : ℕ) (index : BTreeMap LogIndexEntry) → Laid k o index n → o ≤ n
Laid-end k o n [] h = h
Laid-end k o n ((j, m) ∷ index) h =
    omega (arith, Laid-end (j + 1) (m.file_offset + m.total_record_len) n index h.4)

Laid-weaken :
    (k k' o o' n : ℕ) (index : BTreeMap LogIndexEntry)
    → k' ≤ k
    → o' ≤ o
    → Laid k o index n
    → Laid k' o' index n
Laid-weaken k k' o o' n [] p q h = omega arith
Laid-weaken k k' o o' n ((j, m) ∷ index) p q h = (omega arith, omega arith, h.2, h.3, h.4)

-- Where an indexed record lies.
pub Laid-get :
    (k o n j : ℕ) (index : BTreeMap LogIndexEntry) (m : LogIndexEntry)
    → Laid k o index n
    → get index j ≡ some m
    → (k ≤ j)
      × (o ≤ m.file_offset)
      × (header_len ≤ m.total_record_len)
      × (m.file_offset + m.total_record_len ≤ n)
      × (m.log_id.index ≡ j)
unfolding get
Laid-get k o n j [] m h e = cc
Laid-get k o n j ((i, x) ∷ index) m h e = ground (
  arith,
  Laid-end (i + 1) (x.file_offset + x.total_record_len) n index h.4,
  Laid-get (i + 1) (x.file_offset + x.total_record_len) n j index m h.4,
)

pub Laid-insert :
    (k o n t : ℕ) (id : LogId) (index : BTreeMap LogIndexEntry)
    → Laid k o index n
    → Below id.index index
    → k ≤ id.index
    → header_len ≤ t
    → Laid k o (add_entry index n t id) (n + t)
unfolding add_entry insert
Laid-insert k o n t id [] h below above size = (above, h, size, refl, omega arith)
Laid-insert k o n t id ((j, m) ∷ index) h below above size =
    ground
      (arith, Laid-insert (j + 1) (m.file_offset + m.total_record_len) n t id index h.4 below.1)

pub Laid-remove_upto :
    (k o n u : ℕ) (index : BTreeMap LogIndexEntry)
    → Laid k o index n
    → Laid k o (remove_upto index u) n
unfolding remove_upto
Laid-remove_upto k o n u [] h = h
Laid-remove_upto k o n u ((j, m) ∷ index) h =
    let o' = m.file_offset + m.total_record_len in
    let kept = Laid-remove_upto (j + 1) o' n u index h.4 in
    ground (arith, Laid-weaken (j + 1) k o' o n (remove_upto index u))

-- No key from `j` on is left of `split_off` at `j`.
split_off-above :
    (k o n f : ℕ) (index : BTreeMap LogIndexEntry)
    → Laid k o index n
    → f ≤ k
    → split_off index f ≡ []
unfolding split_off
split_off-above k o n f [] h above = refl
split_off-above k o n f ((j, m) ∷ index) h above =
    ground (arith, split_off-above (j + 1) (m.file_offset + m.total_record_len) n f index h.4)

-- The first record from index `s` on: where it lies, and what is left when it is cut off.
pub Laid-cut :
    (k o n s f : ℕ) (index : BTreeMap LogIndexEntry) (m : LogIndexEntry)
    → Laid k o index n
    → first_from index s ≡ some (f, m)
    → (k ≤ f)
      × (s ≤ f)
      × (o ≤ m.file_offset)
      × (m.file_offset ≤ n)
      × Laid k o (split_off index f) m.file_offset
unfolding first_from split_off
Laid-cut k o n s f [] m h e = cc
Laid-cut k o n s f ((j, x) ∷ index) m h e =
    let o' = x.file_offset + x.total_record_len in
    ground (
      arith,
      Laid-end (j + 1) o' n index h.4,
      split_off-above (j + 1) o' n f index h.4,
      Laid-cut (j + 1) o' n s f index m h.4,
    )

get-below :
    (k o n i : ℕ) (index : BTreeMap LogIndexEntry) → Laid k o index n → i < k → get index i ≡ none
unfolding get
get-below k o n i [] h below = refl
get-below k o n i ((j, x) ∷ index) h below =
    ground (arith, get-below (j + 1) (x.file_offset + x.total_record_len) n i index h.4)

-- Below the cut, the records are those below `s`.
pub get-cut :
    (k o n s f i : ℕ) (index : BTreeMap LogIndexEntry) (m : LogIndexEntry)
    → Laid k o index n
    → first_from index s ≡ some (f, m)
    → get (split_off index f) i ≡ (if ltb i s then get index i else none)
unfolding first_from split_off get
get-cut k o n s f i [] m h e = cc
get-cut k o n s f i ((j, x) ∷ index) m h e =
    let o' = x.file_offset + x.total_record_len in
    ground (
      arith,
      split_off-above (j + 1) o' n f index h.4,
      Laid-cut (j + 1) o' n s f index m h.4,
      get-cut (j + 1) o' n s f i index m h.4,
      get-below (j + 1) o' n i index h.4,
    )

-- With no record from `s` on, every index is below `s`.
pub get-beyond :
    (s i : ℕ) (index : BTreeMap LogIndexEntry)
    → first_from index s ≡ none
    → get index i ≡ (if ltb i s then get index i else none)
unfolding first_from get
get-beyond s i [] e = ground arith
get-beyond s i ((j, x) ∷ index) e = ground (arith, get-beyond s i index)

-- Appending an entry whose index is above those in the log keeps the records in order, one behind
-- the other in the file.
pub append_entry-IsLaid :
    {M : Type 0} (c : Codec M) (w : Wal) (e : Entry M)
    → IsLaid w
    → Below e.log_id.index w.index
    → IsLaid (append_entry c w e)
unfolding append_entry
append_entry-IsLaid c w e laid below = subst (Laid 0 0 (append_entry c w e).index) size (
    Laid-insert 0 0 (length w.file) (header_len + length (c.serialize e)) e.log_id w.index laid
      below (omega arith) (omega arith))
  where
    size : length w.file + (header_len + length (c.serialize e)) ≡ length (w.file ++ frame c e)
    size = omega (arith, length-append w.file (frame c e), length-frame c e)

-- A truncation from any index keeps the records in order, one behind the other in the shorter file.
pub truncate_since-IsLaid : (w : Wal) (s : ℕ) → IsLaid w → IsLaid (truncate_since w s)
unfolding truncate_since
truncate_since-IsLaid w s laid = elim (Option-cases (first_from w.index s)) [
  | inl e ↦ rw (e, truncate_since) laid
  | inr ((f, m), e) ↦
      let cut = Laid-cut 0 0 (length w.file) s f w.index m laid e in
      rw (e, truncate_since, length-take m.file_offset w.file cut.3) cut.4
]

pub purge_upto-IsLaid : (w : Wal) (u : ℕ) → IsLaid w → IsLaid (purge_upto w u)
unfolding purge_upto
purge_upto-IsLaid w u laid = Laid-remove_upto 0 0 (length w.file) u w.index laid
