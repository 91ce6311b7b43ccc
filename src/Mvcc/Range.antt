-- ===== src/Mvcc/Range.antt =====
-- The operations of mvcc_leveldb.go on a range of keys: `ScanLock`, `ResolveLock`,
-- `BatchResolveLock` and `PessimisticRollback`.
pub mod Visits
pub mod Resolved
use client_go.Base.{
  ℕ, zero, suc, Bool, not, if◌then◌else◌, ltb, leb, ◌==◌, ◌&&◌, Option, none, some, List, [], ◌∷◌,
  ◌++◌, Bytes, bytes_eq, length,
}
use client_go.Mvcc.{MvccLock, is_pessimistic_lock}
use client_go.Mvcc.Entry.{Row, lock_row, value_row, BatchOp, Leveldb}
use client_go.Mvcc.Prewrite.{read}
use client_go.Mvcc.Commit.{commit_lock, rollback_lock}
use client_go.Mvcc.Status.{pessimistic_rollback_key}

abbrev pub row_key : Row → Bytes
row_key (lock_row key l) = key
row_key (value_row key ver v) = key

-- `lockDecoder.Decode`: the lock of the key, if the iterator stands at it, and the rows from there.
unfoldable pub decode_lock : Bytes → List Row → Option MvccLock × List Row
decode_lock expect_key [] = (none, [])
decode_lock expect_key (lock_row key l ∷ rows) =
    if bytes_eq key expect_key then (some l, rows) else (none, lock_row key l ∷ rows)
decode_lock expect_key (value_row key ver v ∷ rows) = (none, value_row key ver v ∷ rows)

-- `skipDecoder.Decode`: the next key, and the rows from there.
unfoldable pub skip : Bytes → List Row → Bytes × List Row
skip curr_key [] = (curr_key, [])
skip curr_key (row ∷ rows) =
    let later = skip curr_key rows in
    if bytes_eq (row_key row) curr_key then later else (row_key row, row ∷ rows)

-- The loop that the operations share: the keys that it visits, with the lock that is decoded there.
-- Each round but the first takes a row, so the fuel is one more than the rows.
unfoldable pub visit : ℕ → Bytes → List Row → List (Bytes × Option MvccLock)
unfolding decode_lock skip
visit zero curr_key rows = []
visit (suc fuel) curr_key [] = []
visit (suc fuel) curr_key (row ∷ rows) =
    let (lock, rest) = decode_lock curr_key (row ∷ rows) in
    let (next, rest') = skip curr_key rest in (curr_key, lock) ∷ visit fuel next rest'

-- The start key that `newScanIterator` returns.
abbrev pub scan_start : Bytes → List Row → Bytes
scan_start [] [] = []
scan_start [] (row ∷ rows) = row_key row
scan_start (b ∷ start) rows = b ∷ start

unfoldable pub visits : Bytes → List Row → List (Bytes × Option MvccLock)
unfolding visit
visits start_key rows = visit (suc (length rows)) (scan_start start_key rows) rows

-- `kvrpcpb.LockInfo`.
pub record LockInfo : Type 0 where
  pub primary_lock : Bytes
  pub lock_version : ℕ
  pub key : Bytes

unfoldable pub locks_below : ℕ → List (Bytes × Option MvccLock) → List LockInfo
locks_below max_ts [] = []
locks_below max_ts ((key, none) ∷ vs) = locks_below max_ts vs
locks_below max_ts ((key, some l) ∷ vs) =
    let later = locks_below max_ts vs in
    if leb l.start_ts max_ts
    then record { primary_lock = l.primary; lock_version = l.start_ts; key = key } ∷ later
    else later

unfoldable pub resolve : MvccLock → Bytes → ℕ → List BatchOp
resolve l key commit_ts =
    if ltb 0 commit_ts then commit_lock l key l.start_ts commit_ts else rollback_lock key l.start_ts

unfoldable pub resolve_batch : ℕ → ℕ → List (Bytes × Option MvccLock) → List BatchOp
unfolding resolve
resolve_batch start_ts commit_ts [] = []
resolve_batch start_ts commit_ts ((key, none) ∷ vs) = resolve_batch start_ts commit_ts vs
resolve_batch start_ts commit_ts ((key, some l) ∷ vs) =
    let later = resolve_batch start_ts commit_ts vs in
    if l.start_ts == start_ts then resolve l key commit_ts ++ later else later

-- `txnInfos`, as an association list.
abbrev pub txn_info : List (ℕ × ℕ) → ℕ → Option ℕ
txn_info [] start_ts = none
txn_info ((ts, commit_ts) ∷ infos) start_ts =
    if ts == start_ts then some commit_ts else txn_info infos start_ts

abbrev resolve_known : MvccLock → Bytes → Option ℕ → List BatchOp
resolve_known l key none = []
resolve_known l key (some commit_ts) = resolve l key commit_ts

unfoldable pub batch_resolve_batch : List (ℕ × ℕ) → List (Bytes × Option MvccLock) → List BatchOp
unfolding resolve
batch_resolve_batch infos [] = []
batch_resolve_batch infos ((key, none) ∷ vs) = batch_resolve_batch infos vs
batch_resolve_batch infos ((key, some l) ∷ vs) =
    resolve_known l key (txn_info infos l.start_ts) ++ batch_resolve_batch infos vs

-- The keys that `PessimisticRollback` finds if it is given none.
unfoldable pub pessimistic_keys : ℕ → ℕ → List (Bytes × Option MvccLock) → List Bytes
pessimistic_keys start_ts for_update_ts [] = []
pessimistic_keys start_ts for_update_ts ((key, none) ∷ vs) =
    pessimistic_keys start_ts for_update_ts vs
pessimistic_keys start_ts for_update_ts ((key, some l) ∷ vs) =
    let later = pessimistic_keys start_ts for_update_ts vs in
    if is_pessimistic_lock l.op && l.start_ts == start_ts && leb l.for_update_ts for_update_ts
    then key ∷ later
    else later

-- `range db start end`: the rows of an iterator from `start` to before `end`, as goleveldb gives them.
module _ (L : Leveldb) (range : L.Db → Bytes → Bytes → List Row) where
  open L use {Db, write}

  unfoldable pub scan_lock : Db → Bytes → Bytes → ℕ → List LockInfo
  unfolding visits locks_below
  scan_lock db start_key end_key max_ts =
      locks_below max_ts (visits start_key (range db start_key end_key))

  unfoldable pub resolve_lock : Db → Bytes → Bytes → ℕ → ℕ → Db
  unfolding visits resolve_batch
  resolve_lock db start_key end_key start_ts commit_ts =
      write db (resolve_batch start_ts commit_ts (visits start_key (range db start_key end_key)))

  unfoldable pub batch_resolve_lock : Db → Bytes → Bytes → List (ℕ × ℕ) → Db
  unfolding visits batch_resolve_batch
  batch_resolve_lock db start_key end_key infos =
      write db (batch_resolve_batch infos (visits start_key (range db start_key end_key)))

  unfoldable pub rollback_batch : Db → List Bytes → ℕ → ℕ → List BatchOp
  rollback_batch db [] start_ts for_update_ts = []
  rollback_batch db (key ∷ keys) start_ts for_update_ts =
      pessimistic_rollback_key (read L db key) key start_ts for_update_ts
      ++ rollback_batch db keys start_ts for_update_ts

  abbrev rollback_keys : Db → Bytes → Bytes → List Bytes → ℕ → ℕ → List Bytes
  rollback_keys db start_key end_key [] start_ts for_update_ts =
      pessimistic_keys start_ts for_update_ts (visits start_key (range db start_key end_key))
  rollback_keys db start_key end_key (key ∷ keys) start_ts for_update_ts = key ∷ keys

  unfoldable pub pessimistic_rollback : Db → Bytes → Bytes → List Bytes → ℕ → ℕ → Db
  unfolding rollback_batch
  pessimistic_rollback db start_key end_key keys start_ts for_update_ts = write db (
      rollback_batch db (rollback_keys db start_key end_key keys start_ts for_update_ts) start_ts
        for_update_ts)
