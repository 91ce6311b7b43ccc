-- ===== src/Mvcc/Read.antt =====
-- Reads: `mvccLock.check` of mvcc.go and `getValue` of mvcc_leveldb.go.
use client_go.Base.{
  ℕ, ◌+◌, ◌%◌, Bool, false, if◌then◌else◌, ltb, leb, ◌==◌, ◌&&◌, ◌||◌, Option, none, some, List, [],
  ◌∷◌, Bytes, bytes_eq,
}
use client_go.Mvcc.{
  MvccLock, MvccValue, MvccError, locked, Result, ok, err, IsolationLevel, is_si, lock_ver, is_lock,
  is_pessimistic_lock, is_data, is_delete,
}
use client_go.Mvcc.Entry.{Entry}

unfoldable pub lock_err : MvccLock → Bytes → MvccError
lock_err l key = locked (record {
  key = key;
  primary = l.primary;
  start_ts = l.start_ts;
  for_update_ts = l.for_update_ts;
  ttl = l.ttl;
  txn_size = l.txn_size;
  lock_type = l.op;
})

abbrev pub contains : List ℕ → ℕ → Bool
contains [] ts = false
contains (r ∷ resolved) ts = ts == r || contains resolved ts

-- The timestamp at which a read goes on past the lock, or the error that the key is locked.
unfoldable pub check : MvccLock → ℕ → Bytes → List ℕ → Result ℕ
check l ts key resolved =
    if ltb ts l.start_ts || is_lock l.op || is_pessimistic_lock l.op
    then ok ts
    else if ts == lock_ver && bytes_eq l.primary key
    then ok ((l.start_ts + lock_ver) % (lock_ver + 1))
    else if contains resolved l.start_ts
    then ok ts
    else err (lock_err l key)

-- The loop of `getValue`: the first version that can be seen at `ts`. `none` is `mvccValue{}`.
unfoldable pub visible : List (ℕ × MvccValue) → ℕ → Option MvccValue
visible [] ts = none
visible ((ver, v) ∷ vs) ts =
    let later = visible vs ts in
    if is_data v.value_type && leb v.commit_ts ts
    then (if is_delete v.value_type then none else some v)
    else later

abbrev check_option : Option MvccLock → ℕ → Bytes → List ℕ → Result ℕ
check_option none ts key resolved = ok ts
check_option (some l) ts key resolved = check l ts key resolved

unfoldable pub get_value : Entry → Bytes → ℕ → IsolationLevel → List ℕ → Result (Option MvccValue)
get_value e key ts iso resolved =
    elim (if is_si iso then check_option e.lock ts key resolved else ok ts) [
      | err x ↦ err x
      | ok ts' ↦ ok (visible e.versions ts')
    ]
