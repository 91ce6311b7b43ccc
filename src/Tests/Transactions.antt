-- ===== src/Tests/Transactions.antt =====
-- Concrete transactions on the store in memory.
use client_go.Base.{
  ℕ, ◌≤◌, ◌<◌, ◌≡◌, ◌≢◌, refl, ◌⊎◌, true, false, none, some, List, [], ◌∷◌, All, Bytes,
  if◌then◌else◌, leb, bytes_eq, bytes_eq_refl, arith,
}
use client_go.Deadlock.{Detector}
use client_go.Oracle.{extract_physical}
use client_go.Mvcc.{
  MvccLock, Mutation, Op, ok, level_fast, skip_pessimistic_check, si, already_committed, retryable,
  commit_ts_expired, is_check_not_exists, is_pessimistic_lock,
}
use client_go.Mvcc.Entry.{Row, Entry, BatchOp, put_lock, apply_batch, decode_entry, decode_values}
use client_go.Mvcc.Read.{get_value, visible}
use client_go.Mvcc.Conflict.{check_conflict_value}
use client_go.Mvcc.Prewrite.{
  read, prewrite, prewrite_one, prewrite_round, prewrite_mutation, new_lock, max,
}
use client_go.Mvcc.Commit.{owns, get_txn_commit_info, commit, rollback, rollback_key}
use client_go.Mvcc.Status.{min_commit_ts_pushed, check_txn_status, txn_heart_beat}
use client_go.Mvcc.Versions.{Below}
use client_go.Mvcc.Durable.{committed, commit_then_get}
use client_go.Mvcc.Requests.{LockedBy}
use client_go.Mvcc.Atomic.{any_some, prewrite-All_or_nothing}
use client_go.Mvcc.Exclusion.{commit_then_rollback, rollback_then_commit}
use client_go.Mvcc.Guard.{rolled_back, prewrite_guards}
use client_go.Mvcc.Decided.{IsWellFormed, rollback_then_prewrite}
use client_go.Mvcc.Pushed.{check_txn_status_then_commit, txn_heart_beat_extends}
use client_go.Mvcc.Range.{scan_lock, resolve_lock}
use client_go.Mvcc.Range.Visits.{value_rows, flatten}
use client_go.Mvcc.Range.Resolved.{old_locks, scan_lock_lem, resolve_lock_clears}
use client_go.Mvcc.Pessimistic.{
  pessimistic_lock_mutation, pessimistic_lock_of, foreign, result_normal,
}
use client_go.Mvcc.Pessimistic.Locks.{pessimistic_lock_mutation_guards}
use client_go.Tests.Store.{
  memory, decode_rows, the_key, old_versions, the_lock, free_entry, locked_entry, free_store,
  locked_store, the_mutation, the_prewrite, the_lock_request,
}

-- What the prewrite of the key writes, and the database then.
abbrev the_batch : List BatchOp
the_batch =
    put_lock the_key (record {
      start_ts = 10;
      primary = the_key;
      value = 2 ∷ [];
      op = Op.put;
      ttl = 5;
      for_update_ts = 0;
      txn_size = 1;
      min_commit_ts = 11;
    })
    ∷ []

abbrev written : Bytes → Entry
written = λ k. apply_batch k the_batch free_entry

locked_read : read memory locked_store.db the_key ≡ locked_entry
unfolding read
locked_read = decode_rows the_key (some the_lock) old_versions

free_read : read memory free_store.db the_key ≡ free_entry
unfolding read
free_read = decode_rows the_key none old_versions

unseen : get_txn_commit_info (read memory locked_store.db the_key).versions 10 ≡ none
unfolding get_txn_commit_info
unseen = rw locked_read refl

commit_then_get_example :
    ((commit memory locked_store (the_key ∷ []) 10 20).1 ≡ none)
    × (get_value
          (read memory (commit memory locked_store (the_key ∷ []) 10 20).0.db the_key)
          the_key
          25
          si
          []
        ≡ ok (
            if leb 20 25
            then some (committed 10 20 (2 ∷ []))
            else visible (read memory locked_store.db the_key).versions 25))
commit_then_get_example =
    commit_then_get memory locked_store the_lock the_key 20 25 si [] (rw locked_read refl) refl
      (omega arith) (omega arith) (rw locked_read (omega arith, refl, tt))

commit_then_rollback_example :
    ((rollback memory (commit memory locked_store (the_key ∷ []) 10 20).0 (the_key ∷ []) 10).1
      ≡ some (already_committed 20))
    × ((commit memory (commit memory locked_store (the_key ∷ []) 10 20).0 (the_key ∷ []) 10 30).1
        ≡ none)
commit_then_rollback_example =
    commit_then_rollback memory locked_store the_lock the_key 20 30 (rw locked_read refl)
      (omega arith) (omega arith) unseen

rollback_fine : (rollback memory locked_store (the_key ∷ []) 10).1 ≡ none
unfolding rollback rollback_key read decode_entry bytes_eq
rollback_fine = refl

locked_read-IsWellFormed : IsWellFormed (read memory locked_store.db the_key)
locked_read-IsWellFormed =
    rw locked_read (record { sorted = (omega arith, refl, tt); stamped = (refl, tt) })

rollback_then_commit_example :
    ((commit memory (rollback memory locked_store (the_key ∷ []) 10).0 (the_key ∷ []) 10 20).1
      ≡ some retryable)
    × ((rollback memory (rollback memory locked_store (the_key ∷ []) 10).0 (the_key ∷ []) 10).1
        ≡ none)
rollback_then_commit_example =
    rollback_then_commit memory locked_store the_key 10 20 (omega arith) (λ l h. unseen)
      rollback_fine

rollback_then_prewrite_example :
    prewrite_mutation
      (read memory (rollback memory locked_store (the_key ∷ []) 10).0.db the_key)
      the_mutation
      10
      the_key
      5
      1
      skip_pessimistic_check
      11
      level_fast
    ≢ ok []
rollback_then_prewrite_example =
    rollback_then_prewrite memory locked_store the_key 10 the_mutation the_key 5 1 11
      skip_pessimistic_check level_fast [] locked_read-IsWellFormed (omega arith) rollback_fine

prewrite_guards_example :
    ((l : MvccLock) × (free_entry.lock ≡ some l)
      × (l.start_ts ≡ 10)
      × (is_pessimistic_lock l.op ≡ false)
      × (the_batch ≡ []))
    ⊎ ((ttl' min_commit_ts' : ℕ) × (the_batch
          ≡ put_lock the_key (new_lock the_mutation 10 the_key ttl' 1 min_commit_ts') ∷ [])
        × (5 ≤ ttl')
        × (bytes_eq the_key the_key ≡ true
            → 11 ≤ (new_lock the_mutation 10 the_key ttl' 1 min_commit_ts').min_commit_ts)
        × (bytes_eq the_key the_key ≡ false
            → (new_lock the_mutation 10 the_key ttl' 1 min_commit_ts').min_commit_ts ≡ 0)
        × Below 11 free_entry.versions
        × (rolled_back free_entry.versions 10 ≡ false)
        × ((other : MvccLock) → free_entry.lock ≡ some other → other.start_ts ≡ 10))
unfolding prewrite_mutation check_conflict_value new_lock bytes_eq
prewrite_guards_example =
    prewrite_guards the_mutation 10 level_fast free_entry the_key 5 1 11 8 skip_pessimistic_check
      the_batch (omega arith, refl, tt) refl

prewrite-All_or_nothing_example :
    ((any_some (none ∷ []) ≡ true) × (written ≡ free_store.db))
    ⊎ ((any_some (none ∷ []) ≡ false)
        × All
            (λ (m : Mutation).
              (is_check_not_exists m.op ≡ true) ⊎ LockedBy 10 (read memory written m.key).lock)
            (the_mutation ∷ [])
        × ((key : Bytes)
            → (read memory written key).versions ≡ (read memory free_store.db key).versions))
unfolding prewrite prewrite_round prewrite_one prewrite_mutation check_conflict_value new_lock
    bytes_eq read decode_entry decode_values value_rows
prewrite-All_or_nothing_example =
    prewrite-All_or_nothing memory free_store.db the_prewrite written (none ∷ []) refl

check_txn_status_then_commit_example :
    ((check_txn_status memory locked_store.db the_key 10 30 10 false false).1
      ≡ ok (5, 0, min_commit_ts_pushed))
    × ((min_ts : ℕ) × (30 < min_ts)
        × ((commit memory
              (record locked_store {
                db = (check_txn_status memory locked_store.db the_key 10 30 10 false false).0;
              })
              (the_key ∷ [])
              10
              20).1
            ≡ some (commit_ts_expired 10 20 the_key min_ts)))
unfolding extract_physical
check_txn_status_then_commit_example =
    check_txn_status_then_commit memory locked_store the_lock the_key 30 10 20 false false
      (rw locked_read refl) refl (omega arith) (omega arith) (omega arith)

txn_heart_beat_extends_example :
    ((txn_heart_beat memory locked_store.db the_key 10 9).1 ≡ ok (max 5 9))
    × ((read memory (txn_heart_beat memory locked_store.db the_key 10 9).0 the_key).lock
        ≡ some (record the_lock { ttl = max 5 9 }))
    × ((read memory (txn_heart_beat memory locked_store.db the_key 10 9).0 the_key).versions
        ≡ (read memory locked_store.db the_key).versions)
txn_heart_beat_extends_example =
    txn_heart_beat_extends memory locked_store.db the_lock the_key 9 (rw locked_read refl)
      (bytes_eq_refl the_key)

pessimistic_lock_mutation_guards_example :
    (foreign free_entry.lock 10 ≡ none) × Below 13 free_entry.versions × (Path Detector [] [])
unfolding pessimistic_lock_mutation check_conflict_value
pessimistic_lock_mutation_guards_example =
    pessimistic_lock_mutation_guards (λ k. 0) 1 8 free_entry [] [] the_lock_request the_mutation
      (record {
        error = none;
        results =
            record {
              kind = result_normal;
              value = none;
              existence = false;
              locked_with_conflict_ts = 0;
            }
            ∷ [];
        batch = put_lock the_key (pessimistic_lock_of the_lock_request) ∷ [];
      })
      (omega arith, refl, tt) refl refl refl

-- The range of the one key.
abbrev the_range : (Bytes → Entry) → Bytes → Bytes → List Row
the_range db start_key end_key = flatten ((the_key, db the_key) ∷ [])

scan_lock_lem_example :
    scan_lock memory the_range locked_store.db [] [] 15
    ≡ old_locks 15 ((the_key, locked_entry) ∷ [])
scan_lock_lem_example =
    scan_lock_lem memory the_range locked_store.db [] [] 15 ((the_key, locked_entry) ∷ [])
      (refl, tt) refl

resolve_lock_clears_example :
    All
      (λ (p : Bytes × Entry).
        owns (read memory (resolve_lock memory the_range locked_store.db [] [] 10 20) p.0).lock 10
        ≡ none)
      ((the_key, locked_entry) ∷ [])
resolve_lock_clears_example =
    resolve_lock_clears memory the_range locked_store.db [] [] 10 20 ((the_key, locked_entry) ∷ [])
      (refl, tt) refl (locked_read, tt)
