-- ===== src/Mvcc/Collection.antt =====
-- `GC` of mvcc_leveldb.go: old versions are deleted.
pub mod Survivors
pub mod Rounds
pub mod Safe
use client_go.Base.{
  ℕ, zero, suc, Bool, true, false, not, if◌then◌else◌, ltb, leb, ◌==◌, ◌||◌, Option, none, some,
  List, [], ◌∷◌, ◌++◌, Bytes, bytes_eq, length,
}
use client_go.Mvcc.{MvccLock, MvccValue, is_data, is_delete}
use client_go.Mvcc.Entry.{Row, lock_row, value_row, BatchOp, delete_value, Leveldb}
use client_go.Mvcc.Range.{decode_lock, scan_start}

-- `keepNext` after a version.
abbrev pub keep_after : ℕ → Bool → MvccValue → Bool
keep_after safe_point keep_next v =
    if ltb safe_point v.commit_ts
    then keep_next
    else if is_data v.value_type
    then false
    else keep_next

abbrev pub is_collected : ℕ → Bool → MvccValue → Bool
is_collected safe_point keep_next v =
    if ltb safe_point v.commit_ts
    then false
    else if is_data v.value_type
    then not keep_next || is_delete v.value_type
    else true

-- The inner loop: the deletes, and the key and the rows with which the outer one goes on.
unfoldable pub gc_values : ℕ → Bytes → Bool → List Row → List BatchOp × (Bytes × List Row)
gc_values safe_point curr_key keep_next [] = ([], (curr_key, []))
gc_values safe_point curr_key keep_next (lock_row key l ∷ rows) = ([], (key, lock_row key l ∷ rows))
gc_values safe_point curr_key keep_next (value_row key ver v ∷ rows) =
    let (batch, rest) = gc_values safe_point curr_key (keep_after safe_point keep_next v) rows in
    if bytes_eq key curr_key
    then (
      (if is_collected safe_point keep_next v
          then delete_value curr_key v.commit_ts ∷ batch
          else batch),
      rest,
    )
    else ([], (key, value_row key ver v ∷ rows))

-- The batch, or the error that a lock is under the safe point.
pub data Collected : Type 0 where
  collects : List BatchOp → Collected
  under_safe_point : Bytes → ℕ → Collected

abbrev pub prepend : List BatchOp → Collected → Collected
prepend batch (collects later) = collects (batch ++ later)
prepend batch (under_safe_point key start_ts) = under_safe_point key start_ts

abbrev pub unless_locked : ℕ → Bytes → Option MvccLock → Collected → Collected
unless_locked safe_point key none go_on = go_on
unless_locked safe_point key (some l) go_on =
    if leb l.start_ts safe_point then under_safe_point key l.start_ts else go_on

-- Each round of the outer loop but the first takes a row, so the fuel is one more than the rows.
unfoldable pub gc_loop : ℕ → ℕ → Bytes → List Row → Collected
unfolding gc_values decode_lock
gc_loop zero safe_point curr_key rows = collects []
gc_loop (suc fuel) safe_point curr_key [] = collects []
gc_loop (suc fuel) safe_point curr_key (row ∷ rows) =
    let (lock, rest) = decode_lock curr_key (row ∷ rows) in
    let (batch, next_rows) = gc_values safe_point curr_key true rest in
    unless_locked safe_point curr_key lock
      (prepend batch (gc_loop fuel safe_point next_rows.0 next_rows.1))

module _ (L : Leveldb) (range : L.Db → Bytes → Bytes → List Row) where
  open L use {Db, write}

  abbrev pub collected : Db → Collected → Db × Option (Bytes × ℕ)
  collected db (collects batch) = (write db batch, none)
  collected db (under_safe_point key start_ts) = (db, some (key, start_ts))

  unfoldable pub gc : Db → Bytes → Bytes → ℕ → Db × Option (Bytes × ℕ)
  unfolding gc_loop
  gc db start_key end_key safe_point =
      let rows : List Row = range db start_key end_key in
      collected db (gc_loop (suc (length rows)) safe_point (scan_start start_key rows) rows)
