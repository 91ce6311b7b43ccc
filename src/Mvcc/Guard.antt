-- ===== src/Mvcc/Guard.antt =====
-- What a successful prewrite has checked: no newer version, no rollback record, no foreign lock.
use client_go.Base.{
  ℕ, suc, ◌≤◌, ◌≡◌, ◌≢◌, refl, ◌⊎◌, inl, inr, Bool-cases, Option-cases, Bool, true, false, ◌==◌,
  ◌&&◌, ◌||◌, Option, none, some, List, [], ◌∷◌, Bytes, bytes_eq, arith,
}
use client_go.Mvcc.{
  MvccLock, MvccValue, MvccError, Mutation, AssertionLevel, PessimisticAction, ok, is_rollback,
  is_not_exist, is_pessimistic_lock,
}
use client_go.Mvcc.Entry.{Entry, BatchOp, put_lock, insert_version}
use client_go.Mvcc.Conflict.{Params, Flags, conflict_step, conflict_loop, check_conflict_value}
use client_go.Mvcc.Prewrite.{prewrite_mutation, new_lock, max}
use client_go.Mvcc.Commit.{rollback_value}
use client_go.Mvcc.Versions.{Below}

-- There is a rollback record at the timestamp.
abbrev pub rolled_back : List (ℕ × MvccValue) → ℕ → Bool
rolled_back [] ts = false
rolled_back ((ver, v) ∷ vs) ts =
    (is_rollback v.value_type && v.commit_ts == ts) || rolled_back vs ts

pub rolled_back-Below :
    (bound ts : ℕ) (vs : List (ℕ × MvccValue))
    → Below bound vs
    → bound ≤ ts
    → rolled_back vs ts ≡ false
rolled_back-Below bound ts [] w h = refl
rolled_back-Below bound ts ((ver, v) ∷ vs) w h = ground (arith, rolled_back-Below ver ts vs)

pub rolled_back-insert :
    (ts : ℕ) (vs : List (ℕ × MvccValue))
    → rolled_back (insert_version ts (rollback_value ts) vs) ts ≡ true
unfolding insert_version
rolled_back-insert ts [] = ground arith
rolled_back-insert ts ((u, x) ∷ vs) = ground (arith, rolled_back-insert ts vs)

-- The first round stops at a rollback record of the transaction.
step_stops :
    (p : Params) (fl : Flags) (v : MvccValue) (vs : List (ℕ × MvccValue))
    → fl.need_check_rollback ≡ true
    → is_rollback v.value_type ≡ true
    → v.commit_ts ≡ p.start_ts
    → (conflict_loop p fl v vs).1 ≢ none
unfolding conflict_loop conflict_step
step_stops p fl v [] h r e n = ground arith
step_stops p fl v (w ∷ vs) h r e n = ground arith

module _ (m : Mutation) (start_ts : ℕ) (level : AssertionLevel) where
  -- `checkConflictValue` as a prewrite calls it.
  abbrev check_prewrite : List (ℕ × MvccValue) → Option Bytes × Option MvccError
  check_prewrite vs = check_conflict_value vs m start_ts start_ts false level false false

  check_prewrite_guards :
      (bound : ℕ) (vs : List (ℕ × MvccValue))
      → Below bound vs
      → (check_prewrite vs).1 ≡ none
      → Below (suc start_ts) vs × (rolled_back vs start_ts ≡ false)
  unfolding check_conflict_value
  check_prewrite_guards bound [] w h = (tt, refl)
  check_prewrite_guards bound ((ver, v) ∷ vs) w h =
      let flags : Flags = record {
        need_get_val = false;
        need_check_should_not_exist = is_not_exist m.assertion && is_pessimistic_lock m.op;
        need_check_rollback = true;
        ret_val = none;
      } in
      let params : Params = record {
        mutation = m;
        start_ts = start_ts;
        get_val = false;
        assertion_level = level;
        lock_only_if_exists = false;
        write_conflict = none;
      } in
      ground (arith, step_stops params flags v vs, rolled_back-Below ver start_ts vs)

  -- On an entry whose versions stand in descending order: a prewrite of one key that succeeds
  -- either finds the transaction's own prewrite lock there and writes nothing, or it writes the
  -- transaction's lock, with no less than the requested time to live, and with no less than the
  -- requested minimal commit timestamp on the primary key and with 0 on any other key; in the latter
  -- case no version is newer than the start timestamp, the transaction was not rolled back on the key,
  -- and no other transaction holds it.
  pub prewrite_guards :
      (e : Entry) (primary : Bytes) (ttl txn_size min_commit_ts bound : ℕ)
      (action : PessimisticAction) (ops : List BatchOp)
      → Below bound e.versions
      → prewrite_mutation e m start_ts primary ttl txn_size action min_commit_ts level ≡ ok ops
      → ((l : MvccLock) × (e.lock ≡ some l)
          × (l.start_ts ≡ start_ts)
          × (is_pessimistic_lock l.op ≡ false)
          × (ops ≡ []))
        ⊎ ((ttl' min_commit_ts' : ℕ) × (ops
              ≡ put_lock m.key (new_lock m start_ts primary ttl' txn_size min_commit_ts') ∷ [])
            × (ttl ≤ ttl')
            × (bytes_eq primary m.key ≡ true
                → min_commit_ts
                  ≤ (new_lock m start_ts primary ttl' txn_size min_commit_ts').min_commit_ts)
            × (bytes_eq primary m.key ≡ false
                → (new_lock m start_ts primary ttl' txn_size min_commit_ts').min_commit_ts ≡ 0)
            × Below (suc start_ts) e.versions
            × (rolled_back e.versions start_ts ≡ false)
            × ((other : MvccLock) → e.lock ≡ some other → other.start_ts ≡ start_ts))
  unfolding prewrite_mutation new_lock
  prewrite_guards e primary ttl txn_size min_commit_ts bound action ops w h =
      elim (Option-cases e.lock) [
        | inl free ↦ inr (
          ttl,
          min_commit_ts,
          ground arith,
          omega arith,
          λ same. rw same (omega arith),
          λ differ. rw differ refl,
          ground (arith, check_prewrite_guards bound e.versions w),
          ground (arith, check_prewrite_guards bound e.versions w),
          λ other o. ground arith,
        )
        | inr (l, held) ↦ elim (Bool-cases (is_pessimistic_lock l.op)) [
          | inl pessimistic ↦ inr (
            max ttl l.ttl,
            max min_commit_ts l.min_commit_ts,
            ground arith,
            ground arith,
            λ same. rw same (ground arith),
            λ differ. rw differ refl,
            ground (arith, check_prewrite_guards bound e.versions w),
            ground (arith, check_prewrite_guards bound e.versions w),
            λ other o. ground arith,
          )
          | inr prewritten ↦ inl (l, held, ground arith, prewritten, ground arith)
        ]
      ]

  -- After a rollback record no prewrite of the transaction gets through, unless its own prewrite
  -- lock is still there.
  pub rolled_back_refuses :
      (e : Entry) (primary : Bytes) (ttl txn_size min_commit_ts bound : ℕ)
      (action : PessimisticAction) (ops : List BatchOp)
      → Below bound e.versions
      → rolled_back e.versions start_ts ≡ true
      → ((l : MvccLock) → e.lock ≡ some l → l.start_ts ≢ start_ts)
      → prewrite_mutation e m start_ts primary ttl txn_size action min_commit_ts level ≢ ok ops
  rolled_back_refuses e primary ttl txn_size min_commit_ts bound action ops w r foreign h =
      elim (prewrite_guards e primary ttl txn_size min_commit_ts bound action ops w h) [
        | inl (l, held, own, _, _) ↦ foreign l held own
        | inr (_, _, _, _, _, _, _, clean, _) ↦ cc
      ]
