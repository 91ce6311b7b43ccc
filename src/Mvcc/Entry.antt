-- ===== src/Mvcc/Entry.antt =====
-- What the store holds of one key, and the key-value store below it. goleveldb is not part of the
-- repository: `Leveldb` takes it as a parameter, with the laws that the code relies on.
use client_go.Base.{
  ℕ, ◌<◌, ◌≡◌, Bool, true, false, ◌&&◌, if◌then◌else◌, ltb, ◌==◌, Option, none, some, List, [], ◌∷◌,
  Bytes, bytes_eq,
}
use client_go.Mvcc.{MvccLock, MvccValue, lock_ver}

-- A row that an iterator reaches: the decoded key, and the value under it. The row at `lockVer` holds
-- a lock, any other a version. (Rows that fail to decode, "should never happen", are left out.)
pub data Row : Type 0 where
  lock_row : Bytes → MvccLock → Row
  value_row : Bytes → ℕ → MvccValue → Row

-- `leveldb.Batch`: `Put` and `Delete` of `mvccEncode(key, lockVer)` and of `mvccEncode(key, ver)`.
pub data BatchOp : Type 0 where
  put_lock : Bytes → MvccLock → BatchOp
  put_value : Bytes → ℕ → MvccValue → BatchOp
  delete_lock : Bytes → BatchOp
  delete_value : Bytes → ℕ → BatchOp

pub record Entry : Type 0 where
  pub lock : Option MvccLock
  pub versions : List (ℕ × MvccValue)

-- `valueDecoder.Decode` as often as it succeeds: the versions of `expect_key` from here on.
unfoldable pub decode_values : Bytes → List Row → List (ℕ × MvccValue)
decode_values expect_key [] = []
decode_values expect_key (lock_row key lock ∷ rows) = []
decode_values expect_key (value_row key ver value ∷ rows) =
    let rest = decode_values expect_key rows in
    if bytes_eq key expect_key then (ver, value) ∷ rest else []

-- `lockDecoder.Decode`, and then the versions from where the iterator stands.
unfoldable pub decode_entry : Bytes → List Row → Entry
unfolding decode_values
decode_entry expect_key [] = record { lock = none; versions = [] }
decode_entry expect_key (lock_row key lock ∷ rows) =
    if bytes_eq key expect_key
    then record { lock = some lock; versions = decode_values expect_key rows }
    else record { lock = none; versions = [] }
decode_entry expect_key (value_row key ver value ∷ rows) = record {
  lock = none;
  versions = decode_values expect_key (value_row key ver value ∷ rows);
}

-- The versions of a key are stored newest first; a put under a version that is there replaces it.
unfoldable pub insert_version : ℕ → MvccValue → List (ℕ × MvccValue) → List (ℕ × MvccValue)
insert_version ver value [] = (ver, value) ∷ []
insert_version ver value ((u, w) ∷ vs) =
    let later = insert_version ver value vs in
    if ltb u ver
    then (ver, value) ∷ ((u, w) ∷ vs)
    else if u == ver
    then (ver, value) ∷ vs
    else (u, w) ∷ later

unfoldable pub delete_version : ℕ → List (ℕ × MvccValue) → List (ℕ × MvccValue)
delete_version ver [] = []
delete_version ver ((u, w) ∷ vs) =
    let later = delete_version ver vs in if u == ver then vs else (u, w) ∷ later

-- The effect of a batch on the rows of one key.
unfoldable pub apply_op : Bytes → BatchOp → Entry → Entry
apply_op k (put_lock key lock) e = if bytes_eq key k then record e { lock = some lock } else e
apply_op k (put_value key ver value) e =
    if bytes_eq key k then record e { versions = insert_version ver value e.versions } else e
apply_op k (delete_lock key) e = if bytes_eq key k then record e { lock = none } else e
apply_op k (delete_value key ver) e =
    if bytes_eq key k then record e { versions = delete_version ver e.versions } else e

unfoldable pub apply_batch : Bytes → List BatchOp → Entry → Entry
apply_batch k [] e = e
apply_batch k (op ∷ batch) e = apply_batch k batch (apply_op k op e)

-- The batch puts and deletes versions below `lockVer` only. A version at `lockVer` would have the row
-- of the lock.
abbrev pub IsVersioned : List BatchOp → Type 0
IsVersioned [] = Unit {0}
IsVersioned (put_lock key lock ∷ batch) = IsVersioned batch
IsVersioned (delete_lock key ∷ batch) = IsVersioned batch
IsVersioned (put_value key ver value ∷ batch) = (ver < lock_ver) × IsVersioned batch
IsVersioned (delete_value key ver ∷ batch) = (ver < lock_ver) × IsVersioned batch

-- The row of the lock of `k` is `settled` before the batch; is it after it? It is where the last
-- operation of the batch on that row, if there is any, is one on the lock, and not on a version at
-- `lockVer`, which has the same row.
abbrev pub settles_lock : Bytes → Bool → List BatchOp → Bool
settles_lock k settled [] = settled
settles_lock k settled (put_lock key lock ∷ batch) =
    settles_lock k (if bytes_eq key k then true else settled) batch
settles_lock k settled (delete_lock key ∷ batch) =
    settles_lock k (if bytes_eq key k then true else settled) batch
settles_lock k settled (put_value key ver value ∷ batch) =
    settles_lock k (if bytes_eq key k && ver == lock_ver then false else settled) batch
settles_lock k settled (delete_value key ver ∷ batch) =
    settles_lock k (if bytes_eq key k && ver == lock_ver then false else settled) batch

-- goleveldb: `seek db key` is an iterator from `mvccEncode(key, lockVer)` on, `write db batch` is
-- `db.Write(batch, nil)` where that succeeds. The first law: an iterator made after a write of
-- versions below `lockVer` finds, for each key, the rows that it would have found before, with the
-- puts and deletes of the batch applied in turn. (The row of the lock comes first and the versions
-- follow in descending order, since `mvccEncode` keeps the order of keys and reverses that of
-- versions.) A batch with a version at `lockVer` writes it to the row of the lock; what it leaves of
-- the versions is not said. The second law: if the last write to the row of the lock is one of
-- the lock, then the iterator finds the lock that it leaves.
pub record Leveldb : Type 1 where
  pub Db : Type 0
  pub seek : Db → Bytes → List Row
  pub write : Db → List BatchOp → Db
  pub seek-write :
      (db : Db) (batch : List BatchOp) (key : Bytes)
      → IsVersioned batch
      → decode_entry key (seek (write db batch) key)
        ≡ apply_batch key batch (decode_entry key (seek db key))
  pub seek-write_lock :
      (db : Db) (batch : List BatchOp) (key : Bytes)
      → settles_lock key true batch ≡ true
      → (decode_entry key (seek (write db batch) key)).lock
        ≡ (apply_batch key batch (decode_entry key (seek db key))).lock
