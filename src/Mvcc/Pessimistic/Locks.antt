-- ===== src/Mvcc/Pessimistic/Locks.antt =====
-- What a pessimistic lock guards against, and what it does not stop.
use client_go.Base.{
  ℕ, suc, ◌≡◌, ◌≢◌, refl, inl, inr, Bool, true, false, not, ◌&&◌, Bool-cases, Option-cases, Option,
  none, some, List, [], ◌∷◌, Bytes, arith,
}
use client_go.Deadlock.{Detector, detect, clear, deadlock, lost, Detected}
use client_go.Mvcc.{
  MvccLock, MvccValue, Mutation, IsolationLevel, si, rc, conflict, deadlocked, ok, level_off,
}
use client_go.Mvcc.Entry.{Entry}
use client_go.Mvcc.Read.{get_value, check, visible, lock_err}
use client_go.Mvcc.Conflict.{Checked, check_conflict_value}
use client_go.Mvcc.Versions.{Below}
use client_go.Mvcc.Pessimistic.{
  LockRequest, LockOutcome, refuse, foreign, after_check, write_lock, pessimistic_lock_of,
  pessimistic_lock_mutation,
}

-- A conflict that is found stops the check, unless locking with a conflict is allowed.
newer_refused :
    (m : Mutation) (for_update_ts start_ts bound : ℕ) (lock_only_if_exists force_lock : Bool)
    (vs : List (ℕ × MvccValue))
    → Below bound vs
    → force_lock ≡ false
    → (check_conflict_value vs m for_update_ts start_ts true level_off lock_only_if_exists
        force_lock).1
      ≡ none
    → Below (suc for_update_ts) vs
unfolding check_conflict_value
newer_refused m for_update_ts start_ts bound lock_only_if_exists force_lock [] w f h = tt
newer_refused m for_update_ts start_ts bound lock_only_if_exists force_lock ((ver, v) ∷ vs) w f h =
    ground arith

after_check-none :
    (req : LockRequest) (held : Option MvccLock) (m : Mutation) (c : Checked)
    → req.force_lock ≡ false
    → (after_check req held m c).error ≡ none
    → c.1 ≡ none
unfolding after_check write_lock
after_check-none req held m (val, none) f h = refl
after_check-none req held m (val, some (conflict c)) f h = ground arith
after_check-none req held m (val, some e) f h = cc

foreign_refused :
    (r : Detected × Detector) (l : MvccLock) (m : Mutation) (o : LockOutcome) (d' : Detector)
    → Path
        (Option (LockOutcome × Detector))
        (elim r.0 [
          | clear ↦ some (refuse (lock_err l m.key), r.1)
          | deadlock h ↦ some (refuse (deadlocked m.key l.start_ts h), r.1)
          | lost ↦ none
        ])
        (some (o, d'))
    → o.error ≢ none
foreign_refused (clear, d) l m o d' h n = cc
foreign_refused (deadlock x, d) l m o d' h n = cc
foreign_refused (lost, d) l m o d' h n = cc

-- A mutation of a pessimistic lock request, without forced locking, reports no error, on an entry
-- whose versions stand in descending order. Then no other transaction holds the key, no version of
-- it is newer than `forUpdateTS`, and the wait-for graph is as it was.
pub pessimistic_lock_mutation_guards :
    (fingerprint : Bytes → ℕ) (fuel bound : ℕ) (e : Entry) (d d' : Detector) (req : LockRequest)
    (m : Mutation) (o : LockOutcome)
    → Below bound e.versions
    → req.force_lock ≡ false
    → pessimistic_lock_mutation fingerprint fuel e d req m ≡ some (o, d')
    → o.error ≡ none
    → (foreign e.lock req.start_version ≡ none)
      × Below (suc req.for_update_ts) e.versions
      × (d' ≡ d)
unfolding pessimistic_lock_mutation
pessimistic_lock_mutation_guards fingerprint fuel bound e d d' req m o w f h n =
    elim (Bool-cases (req.lock_only_if_exists && not req.return_values)) [
      | inl bad ↦ absurd (cc (rw bad at h, n))
      | inr good ↦ elim (Option-cases (foreign e.lock req.start_version)) [
        | inl free ↦
            let h' = rw (good, free) at h in
            (
              free,
              newer_refused m req.for_update_ts req.start_version bound req.lock_only_if_exists
                  req.force_lock e.versions w f
                  (after_check-none req e.lock m
                    (check_conflict_value e.versions m req.for_update_ts req.start_version true
                      level_off req.lock_only_if_exists req.force_lock)
                    f (cc (h', n))),
              cc h',
            )
        | inr (l, held) ↦ absurd (
            foreign_refused (detect fuel d req.start_version l.start_ts (fingerprint m.key)) l m o
              d' (rw (good, held) at h) n)
      ]
    ]

-- A pessimistic lock of any transaction stops no read: the read finds what it would find without it.
pessimistic_lock_unseen :
    (e : Entry) (req : LockRequest) (key : Bytes) (ts : ℕ) (iso : IsolationLevel)
    (resolved : List ℕ)
    → get_value (record e { lock = some (pessimistic_lock_of req) }) key ts iso resolved
      ≡ ok (visible e.versions ts)
unfolding get_value check pessimistic_lock_of
pessimistic_lock_unseen e req key ts si resolved = ground arith
pessimistic_lock_unseen e req key ts rc resolved = refl
