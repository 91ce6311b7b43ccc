-- ===== src/Tests/Store.antt =====
-- A key-value store in memory, for which the laws of `Leveldb` hold, and a database with one key.
use client_go.Base.{
  ℕ, ◌≡◌, refl, ap, sym, ◌∙◌, false, Option, none, some, List, [], ◌∷◌, Bytes, bytes_eq_refl, arith,
}
use client_go.Mvcc.{MvccLock, MvccValue, Mutation, Op, assert_none, level_fast, type_put}
use client_go.Mvcc.Entry.{Entry, BatchOp, Leveldb, apply_batch, decode_entry, decode_values}
use client_go.Mvcc.Range.Visits.{value_rows, rows}
use client_go.Mvcc.Prewrite.{PrewriteRequest}
use client_go.Mvcc.Commit.{Mvcc}
use client_go.Mvcc.Pessimistic.{LockRequest}

decode_values-value_rows :
    (key : Bytes) (vs : List (ℕ × MvccValue)) → decode_values key (value_rows key vs) ≡ vs
unfolding decode_values value_rows
decode_values-value_rows key [] = refl
decode_values-value_rows key ((ver, v) ∷ vs) =
    ground (arith, bytes_eq_refl key, decode_values-value_rows key vs)

decode_free :
    (key : Bytes) (vs : List (ℕ × MvccValue))
    → decode_entry key (value_rows key vs) ≡ record { lock = none; versions = vs }
unfolding decode_entry value_rows
decode_free key [] = refl
decode_free key ((ver, v) ∷ vs) =
    ap (λ (us : List (ℕ × MvccValue)). record { lock = none; versions = us })
      (decode_values-value_rows key ((ver, v) ∷ vs))

pub decode_rows :
    (key : Bytes) (lock : Option MvccLock) (vs : List (ℕ × MvccValue))
    → decode_entry key (rows key (record { lock = lock; versions = vs }))
      ≡ record { lock = lock; versions = vs }
unfolding decode_entry
decode_rows key none vs = decode_free key vs
decode_rows key (some l) vs = ground (arith, bytes_eq_refl key, decode_values-value_rows key vs)

pub memory_law :
    (e : Entry) (batch : List BatchOp) (key : Bytes)
    → decode_entry key (rows key (apply_batch key batch e))
      ≡ apply_batch key batch (decode_entry key (rows key e))
memory_law e batch key =
    decode_rows key (apply_batch key batch e).lock (apply_batch key batch e).versions
    ∙ ap (apply_batch key batch) (sym (decode_rows key e.lock e.versions))

abbrev pub memory : Leveldb
memory = record {
  Db = Bytes → Entry;
  seek = λ db key. rows key (db key);
  write = λ db batch key. apply_batch key batch (db key);
  seek-write = λ db batch key versioned. memory_law (db key) batch key;
  seek-write_lock =
      λ db batch key settled. ap (λ (e : Entry). e.lock) (memory_law (db key) batch key);
}

abbrev pub the_key : Bytes
the_key = 107 ∷ []

abbrev pub old_versions : List (ℕ × MvccValue)
old_versions =
    (7, record { value_type = type_put; start_ts = 6; commit_ts = 7; value = 1 ∷ [] }) ∷ []

-- A prewrite lock of the transaction that started at 10.
abbrev pub the_lock : MvccLock
the_lock = record {
  start_ts = 10;
  primary = the_key;
  value = 2 ∷ [];
  op = Op.put;
  ttl = 5;
  for_update_ts = 0;
  txn_size = 1;
  min_commit_ts = 11;
}

abbrev pub free_entry : Entry
free_entry = record { lock = none; versions = old_versions }

abbrev pub locked_entry : Entry
locked_entry = record { lock = some the_lock; versions = old_versions }

abbrev pub free_store : Mvcc memory
free_store = record { db = λ k. free_entry; deadlock_detector = [] }

abbrev pub locked_store : Mvcc memory
locked_store = record { db = λ k. locked_entry; deadlock_detector = [] }

abbrev pub the_mutation : Mutation
the_mutation = record { op = Op.put; key = the_key; value = 2 ∷ []; assertion = assert_none }

abbrev pub the_prewrite : PrewriteRequest
the_prewrite = record {
  mutations = the_mutation ∷ [];
  primary_lock = the_key;
  start_version = 10;
  for_update_ts = 0;
  lock_ttl = 5;
  min_commit_ts = 11;
  txn_size = 1;
  pessimistic_actions = [];
  assertion_level = level_fast;
  resolved_locks = [];
}

abbrev pub the_lock_request : LockRequest
the_lock_request = record {
  mutations = the_mutation ∷ [];
  start_version = 10;
  for_update_ts = 12;
  primary_lock = the_key;
  lock_ttl = 5;
  min_commit_ts = 0;
  return_values = false;
  check_existence = false;
  lock_only_if_exists = false;
  force_lock = false;
  no_wait = false;
}
