-- ===== src/Mvcc/Decided.antt =====
-- A transaction that is decided on a key stays decided: rollback and commit exclude one another.
use client_go.Base.{
  ℕ, suc, ◌<◌, ◌≡◌, ◌≢◌, refl, inl, inr, true, not, ◌==◌, ◌||◌, Option-cases, Bool-cases, Option,
  none, some, List, [], ◌∷◌, Bytes, bytes_eq_refl, arith,
}
use client_go.Mvcc.{
  MvccLock, MvccValue, Mutation, AssertionLevel, PessimisticAction, ok, Result-cases, is_rollback,
  lock_ver,
}
use client_go.Mvcc.Entry.{
  Entry, BatchOp, Leveldb, IsVersioned, apply_batch, apply_op, insert_version,
}
use client_go.Mvcc.Prewrite.{read, prewrite_mutation}
use client_go.Mvcc.Commit.{
  Mvcc, owns, get_txn_commit_info, rollback_value, rollback_key, rollback_lock, write_rollback,
  rollback,
}
use client_go.Mvcc.Versions.{Below, insert_version-Below}
use client_go.Mvcc.Guard.{rolled_back, rolled_back-insert, rolled_back_refuses}
use client_go.Mvcc.Durable.{read-write, one_key, one_key_fails}

-- Rollback records carry their start timestamp as commit timestamp.
abbrev pub Stamped : List (ℕ × MvccValue) → Type 0
Stamped [] = Unit {0}
Stamped ((ver, v) ∷ vs) =
    ((not (is_rollback v.value_type) || v.commit_ts == v.start_ts) ≡ true) × Stamped vs

pub record IsWellFormed (e : Entry) : Type 0 where
  pub sorted : Below (suc lock_ver) e.versions
  pub stamped : Stamped e.versions

found_rollback :
    (vs : List (ℕ × MvccValue)) (ts : ℕ) (c : MvccValue)
    → Stamped vs
    → get_txn_commit_info vs ts ≡ some c
    → is_rollback c.value_type ≡ true
    → rolled_back vs ts ≡ true
unfolding get_txn_commit_info
found_rollback [] ts c w h r = cc
found_rollback ((ver, v) ∷ vs) ts c w h r = ground (arith, found_rollback vs ts c w.1)

-- What a successful rollback of a key leaves.
pub record RolledBack (e : Entry) (start_ts : ℕ) : Type 0 where
  pub sorted : Below (suc lock_ver) e.versions
  pub recorded : rolled_back e.versions start_ts ≡ true
  pub unlocked : owns e.lock start_ts ≡ none

with_rollback : Entry → ℕ → Option MvccLock → Entry
with_rollback e ts lock = record {
  lock = lock;
  versions = insert_version ts (rollback_value ts) e.versions;
}

rollback_lock-apply :
    (e : Entry) (key : Bytes) (ts : ℕ)
    → apply_batch key (rollback_lock key ts) e ≡ with_rollback e ts none
unfolding apply_batch apply_op rollback_lock with_rollback
rollback_lock-apply e key ts = ground (arith, bytes_eq_refl key)

write_rollback-apply :
    (e : Entry) (key : Bytes) (ts : ℕ)
    → apply_batch key (write_rollback key ts) e ≡ with_rollback e ts e.lock
unfolding apply_batch apply_op write_rollback with_rollback
write_rollback-apply e key ts = ground (arith, bytes_eq_refl key)

with_rollback-RolledBack :
    (e : Entry) (ts : ℕ) (lock : Option MvccLock)
    → IsWellFormed e
    → ts < lock_ver
    → owns lock ts ≡ none
    → RolledBack (with_rollback e ts lock) ts
unfolding with_rollback
with_rollback-RolledBack e ts lock w h o = record {
  sorted =
      insert_version-Below (suc lock_ver) ts (rollback_value ts) e.versions (omega arith) refl
        w.sorted;
  recorded = rolled_back-insert ts e.versions;
  unlocked = o;
}

rollback_key-RolledBack :
    (e : Entry) (key : Bytes) (start_ts : ℕ) (ops : List BatchOp)
    → IsWellFormed e
    → start_ts < lock_ver
    → rollback_key e key start_ts ≡ ok ops
    → RolledBack (apply_batch key ops e) start_ts
unfolding rollback_key apply_batch
rollback_key-RolledBack e key start_ts ops w hs h = elim (Option-cases (owns e.lock start_ts)) [
  | inr (l, own) ↦
      let written : ops ≡ rollback_lock key start_ts = ground arith in
      rw (written, rollback_lock-apply) (with_rollback-RolledBack e start_ts none w hs refl)
  | inl foreign ↦ elim (Option-cases (get_txn_commit_info e.versions start_ts)) [
    | inl unseen ↦
        let written : ops ≡ write_rollback key start_ts = ground arith in
        rw (written, write_rollback-apply) (with_rollback-RolledBack e start_ts e.lock w hs foreign)
    | inr (c, seen) ↦ elim (Bool-cases (is_rollback c.value_type)) [
      | inl earlier ↦
          let written : ops ≡ [] = ground arith in
          rw written (record {
            sorted = w.sorted;
            recorded = found_rollback e.versions start_ts c w.stamped seen earlier;
            unlocked = foreign;
          })
      | inr committed ↦ absurd (ground arith)
    ]
  ]
]

pub rollback_key-IsVersioned :
    (e : Entry) (key : Bytes) (start_ts : ℕ) (ops : List BatchOp)
    → start_ts < lock_ver
    → rollback_key e key start_ts ≡ ok ops
    → IsVersioned ops
unfolding rollback_key rollback_lock write_rollback
rollback_key-IsVersioned e key start_ts ops hs h = elim (Option-cases (owns e.lock start_ts)) [
  | inr (l, own) ↦
      let written : ops ≡ rollback_lock key start_ts = ground arith in rw written (hs, tt)
  | inl foreign ↦ elim (Option-cases (get_txn_commit_info e.versions start_ts)) [
    | inl unseen ↦
        let written : ops ≡ write_rollback key start_ts = ground arith in rw written (hs, tt)
    | inr (c, seen) ↦ elim (Bool-cases (is_rollback c.value_type)) [
      | inl earlier ↦ let written : ops ≡ [] = ground arith in rw written tt
      | inr committed ↦ absurd (ground arith)
    ]
  ]
]

not_owned :
    (lock : Option MvccLock) (ts : ℕ) (l : MvccLock)
    → owns lock ts ≡ none
    → lock ≡ some l
    → l.start_ts ≢ ts
not_owned none ts l o h = cc
not_owned (some x) ts l o h = ground arith

module _ (L : Leveldb) where
  open L use {Db, write}

  -- A rollback of one key that reports no error, on a well-formed entry.
  rollback-RolledBack :
      (s : Mvcc L) (key : Bytes) (start_ts : ℕ)
      → IsWellFormed (read L s.db key)
      → start_ts < lock_ver
      → (rollback L s (key ∷ []) start_ts).1 ≡ none
      → RolledBack (read L (rollback L s (key ∷ []) start_ts).0.db key) start_ts
  unfolding rollback
  rollback-RolledBack s key start_ts w hs h =
      let e : Entry = read L s.db key in
      let ops_of = λ (e : Entry) (k : Bytes). rollback_key e k start_ts in
      elim (Result-cases (rollback_key e key start_ts)) [
        | inl (ops, done) ↦
            let v = rollback_key-IsVersioned e key start_ts ops hs done in
            rw (one_key L ops_of s key start_ts ops done, read-write L s.db ops key v)
              (rollback_key-RolledBack e key start_ts ops w hs done)
        | inr (x, failed) ↦ cc (one_key_fails L ops_of s key start_ts x failed)
      ]

  -- On a well-formed entry, with versions in descending order and rollback records at their start
  -- timestamps, and for a start timestamp below the greatest one, 2^64-1: once a rollback of a key has reported no error,
  -- no prewrite of the transaction on the entry that it leaves succeeds, whatever the other
  -- parameters are.
  pub rollback_then_prewrite :
      (s : Mvcc L) (key : Bytes) (start_ts : ℕ) (m : Mutation) (primary : Bytes)
      (ttl txn_size min_commit_ts : ℕ) (action : PessimisticAction) (level : AssertionLevel)
      (ops : List BatchOp)
      → IsWellFormed (read L s.db key)
      → start_ts < lock_ver
      → (rollback L s (key ∷ []) start_ts).1 ≡ none
      → prewrite_mutation
          (read L (rollback L s (key ∷ []) start_ts).0.db key)
          m
          start_ts
          primary
          ttl
          txn_size
          action
          min_commit_ts
          level
        ≢ ok ops
  rollback_then_prewrite s key start_ts m primary ttl txn_size min_commit_ts action level ops w hs
        h =
      let e : Entry = read L (rollback L s (key ∷ []) start_ts).0.db key in
      let r : RolledBack e start_ts = rollback-RolledBack s key start_ts w hs h in
      rolled_back_refuses m start_ts level e primary ttl txn_size min_commit_ts (suc lock_ver)
        action ops r.sorted r.recorded (λ l held. not_owned e.lock start_ts l r.unlocked held)
