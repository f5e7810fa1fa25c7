-- ===== src/Prelude/Maps.antt =====
-- Maps as association lists: `HashMap` by any key with equality, `BTreeMap` by ascending numbers.
pub mod Assoc
pub mod Ordered
