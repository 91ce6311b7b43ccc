-- ===== src/Mvcc/Atomic.antt =====
-- The loop of `Prewrite`: the errors that it collects and the batch that it builds.
use client_go.Base.{
  ℕ, suc, ◌≡◌, refl, ap, sym, ◌∙◌, ◌⊎◌, inl, inr, Bool, true, false, if◌then◌else◌, ◌==◌, ◌&&◌,
  ◌||◌, Option-cases, Bool-cases, Option, none, some, List, [], ◌∷◌, ◌++◌, append_assoc, append-nil,
  Bytes, All, arith,
}
use client_go.Mvcc.{
  MvccError, Mutation, PessimisticAction, Result, ok, err, is_insert, is_check_not_exists,
  skip_pessimistic_check,
}
use client_go.Mvcc.Entry.{
  Entry, BatchOp, put_lock, put_value, delete_lock, delete_value, Leveldb, IsVersioned, apply_batch,
}
use client_go.Mvcc.Prewrite.{
  PrewriteRequest, Progress, read, prewrite, prewrite_loop, prewrite_one, prewrite_mutation,
  add_result, check_insert, action_for, prewrite_round, skips_action,
}
use client_go.Mvcc.Requests.{
  LocksOf, LockedBy, LocksOf-append, apply_batch-LockedBy, apply_batch-versions, apply_batch-append,
  prewrite_mutation-locks, LockedBy-mono,
}
use client_go.Mvcc.Durable.{read-write}

LocksOf-IsVersioned : (start_ts : ℕ) (ops : List BatchOp) → LocksOf start_ts ops → IsVersioned ops
LocksOf-IsVersioned start_ts [] h = tt
LocksOf-IsVersioned start_ts (put_lock key l ∷ ops) h = LocksOf-IsVersioned start_ts ops h.1
LocksOf-IsVersioned start_ts (put_value key ver v ∷ ops) h = absurd h
LocksOf-IsVersioned start_ts (delete_lock key ∷ ops) h = absurd h
LocksOf-IsVersioned start_ts (delete_value key ver ∷ ops) h = absurd h

-- Some mutation failed.
abbrev pub any_some : List (Option MvccError) → Bool
any_some [] = false
any_some (none ∷ errs) = any_some errs
any_some (some x ∷ errs) = true

any_some-append :
    (xs ys : List (Option MvccError)) → any_some (xs ++ ys) ≡ (any_some xs || any_some ys)
any_some-append [] ys = refl
any_some-append (none ∷ xs) ys = any_some-append xs ys
any_some-append (some x ∷ xs) ys = refl

add_result-any :
    (p : Progress) (r : Result (List BatchOp))
    → p.any_error ≡ any_some p.errs
    → (add_result p r).any_error ≡ any_some (add_result p r).errs
unfolding add_result
add_result-any p (ok ops) h = ground (arith, any_some-append p.errs (none ∷ []))
add_result-any p (err x) h = ground (arith, any_some-append p.errs (some x ∷ []))

add_result-err : (p : Progress) (x : MvccError) → (add_result p (err x)).any_error ≡ true
unfolding add_result
add_result-err p x = refl

-- What a round adds to the batch if it records no error.
abbrev Round : ℕ → Bytes → Bool → Entry → Progress → Progress → Type 0
Round start_ts key skipped e p q =
    (p.any_error ≡ false)
    × ((ops : List BatchOp) × (q.batch ≡ p.batch ++ ops)
        × LocksOf start_ts ops
        × ((skipped ≡ true) ⊎ LockedBy start_ts (apply_batch key ops e).lock))

add_result-Round :
    (start_ts : ℕ) (key : Bytes) (skipped : Bool) (e : Entry) (p : Progress)
    (r : Result (List BatchOp))
    → ((ops : List BatchOp)
        → r ≡ ok ops
        → LocksOf start_ts ops × LockedBy start_ts (apply_batch key ops e).lock)
    → (add_result p r).any_error ≡ false
    → Round start_ts key skipped e p (add_result p r)
unfolding add_result
add_result-Round start_ts key skipped e p (ok ops) locks h =
    (h, (ops, refl, (locks ops refl).0, inr (locks ops refl).1))
add_result-Round start_ts key skipped e p (err x) locks h = cc

module _ (e : Entry) (req : PrewriteRequest) (action : PessimisticAction) (m : Mutation)
    (p : Progress) where
  abbrev outcome : Result (List BatchOp)
  outcome =
      prewrite_mutation e m req.start_version req.primary_lock req.lock_ttl req.txn_size action
        req.min_commit_ts req.assertion_level

  abbrev insert_check : Option MvccError
  insert_check =
      if (is_insert m.op || is_check_not_exists m.op) && req.for_update_ts == 0
      then check_insert e m req.start_version req.resolved_locks
      else none

  -- The three ways through a round.
  prewrite_one_cases :
      ((x : MvccError) × (prewrite_one e req action m p ≡ add_result p (err x)))
      ⊎ ((is_check_not_exists m.op ≡ true) × (prewrite_one e req action m p ≡ p))
      ⊎ (prewrite_one e req action m p ≡ add_result p outcome)
  unfolding prewrite_one
  prewrite_one_cases = elim (Option-cases insert_check) [
    | inr (x, exists) ↦ inl (x, rw (exists, prewrite_one))
    | inl free ↦ elim (Bool-cases (is_check_not_exists m.op)) [
      | inl skip ↦ inr (inl (skip, rw (free, prewrite_one) (rw skip)))
      | inr writes ↦ inr (inr (rw (free, prewrite_one) (rw writes)))
    ]
  ]

  prewrite_one-any :
      p.any_error ≡ any_some p.errs
      → (prewrite_one e req action m p).any_error ≡ any_some (prewrite_one e req action m p).errs
  prewrite_one-any h = elim prewrite_one_cases [
    | inl (x, failed) ↦ rw failed (add_result-any p (err x) h)
    | inr (inl (skip, same)) ↦ rw same h
    | inr (inr done) ↦ rw done (add_result-any p outcome h)
  ]

  prewrite_one-Round :
      (prewrite_one e req action m p).any_error ≡ false
      → Round req.start_version m.key (is_check_not_exists m.op) e p (prewrite_one e req action m p)
  prewrite_one-Round h = elim prewrite_one_cases [
    | inl (x, failed) ↦ cc (add_result-err p x, rw failed at h)
    | inr (inl (skip, same)) ↦ rw same (rw same at h, ([], sym (append-nil p.batch), tt, inl skip))
    | inr (inr done) ↦ rw done (
        add_result-Round req.start_version m.key (is_check_not_exists m.op) e p outcome
          (λ ops o.
            prewrite_mutation-locks e m req.start_version req.primary_lock req.lock_ttl req.txn_size
              action req.min_commit_ts req.assertion_level ops o)
          (rw done at h))
  ]

-- A round that does not panic is one with some action.
prewrite_round_cases :
    (e : Entry) (req : PrewriteRequest) (a : Option PessimisticAction) (m : Mutation)
    (p p' : Progress)
    → prewrite_round e req a m p ≡ some p'
    → (action : PessimisticAction) × (prewrite_one e req action m p ≡ p')
unfolding prewrite_round
prewrite_round_cases e req (some action) m p p' h = (action, cc)
prewrite_round_cases e req none m p p' h = elim (Bool-cases (skips_action e req m)) [
  | inl skips ↦ (skip_pessimistic_check, cc (rw skips at h))
  | inr reaches ↦ absurd (cc (rw reaches at h))
]

module _ (L : Leveldb) (db : L.Db) (req : PrewriteRequest) where
  open L use {Db, write}

  loop-any :
      (ms : List Mutation) (i : ℕ) (p q : Progress)
      → prewrite_loop L db req ms i p ≡ some q
      → p.any_error ≡ any_some p.errs
      → q.any_error ≡ any_some q.errs
  unfolding prewrite_loop
  loop-any [] i p q h k = ground arith
  loop-any (m ∷ ms) i p q h k =
      elim (Option-cases
        (prewrite_round (read L db m.key) req (action_for req.pessimistic_actions i) m p)) [
          | inl panics ↦ absurd (ground arith)
          | inr (p', e) ↦
              let (action, one) =
                prewrite_round_cases (read L db m.key) req (action_for req.pessimistic_actions i) m
                  p p' e in
              loop-any ms (suc i) p' q (ground arith)
                (rw one at (prewrite_one-any (read L db m.key) req action m p k))
        ]

  -- The keys that a batch locks, of those that are not merely checked.
  abbrev Locks : List BatchOp → List Mutation → Type 0
  Locks batch ms =
      All
        (λ (m : Mutation).
          (is_check_not_exists m.op ≡ true)
          ⊎ LockedBy req.start_version (apply_batch m.key batch (read L db m.key)).lock)
        ms

  Locks-prepend :
      (ops batch : List BatchOp) (ms : List Mutation)
      → LocksOf req.start_version ops
      → LocksOf req.start_version batch
      → Locks batch ms
      → Locks (ops ++ batch) ms
  Locks-prepend ops batch [] h k l = tt
  Locks-prepend ops batch (m ∷ ms) h k (inl skip, l) = (inl skip, Locks-prepend ops batch ms h k l)
  Locks-prepend ops batch (m ∷ ms) h k (inr own, l) = (
    inr (
        rw (apply_batch-append m.key ops batch (read L db m.key), LockedBy)
          (LockedBy-mono req.start_version m.key batch (read L db m.key)
            (apply_batch m.key ops (read L db m.key)) k
            (apply_batch-LockedBy req.start_version m.key ops (read L db m.key) h) own)),
    Locks-prepend ops batch ms h k l,
  )

  first_locked :
      (ops later : List BatchOp) (m : Mutation)
      → LocksOf req.start_version later
      → ((is_check_not_exists m.op ≡ true)
          ⊎ LockedBy req.start_version (apply_batch m.key ops (read L db m.key)).lock)
      → (is_check_not_exists m.op ≡ true)
        ⊎ LockedBy req.start_version (apply_batch m.key (ops ++ later) (read L db m.key)).lock
  first_locked ops later m k (inl skip) = inl skip
  first_locked ops later m k (inr own) = inr (
      rw (apply_batch-append m.key ops later (read L db m.key), LockedBy)
        (apply_batch-LockedBy req.start_version m.key later
          (apply_batch m.key ops (read L db m.key)) k own))

  loop-Locks :
      (ms : List Mutation) (i : ℕ) (p q : Progress)
      → prewrite_loop L db req ms i p ≡ some q
      → q.any_error ≡ false
      → (p.any_error ≡ false)
        × ((ops : List BatchOp) × (q.batch ≡ p.batch ++ ops)
            × LocksOf req.start_version ops
            × Locks ops ms)
  unfolding prewrite_loop
  loop-Locks [] i p q h k = (ground arith, ([], ground (arith, append-nil p.batch), tt, tt))
  loop-Locks (m ∷ ms) i p q h k =
      elim (Option-cases
        (prewrite_round (read L db m.key) req (action_for req.pessimistic_actions i) m p)) [
          | inl panics ↦ absurd (ground arith)
          | inr (p', e) ↦
              let (action, one) =
                prewrite_round_cases (read L db m.key) req (action_for req.pessimistic_actions i) m
                  p p' e in
              let (clean', (later, eq', locks', all)) =
                loop-Locks ms (suc i) p' q (ground arith) k in
              let (clean, (ops, eq, locks, own)) =
                rw one at (prewrite_one-Round (read L db m.key) req action m p (rw one clean')) in
              (
                clean,
                (
                  ops ++ later,
                  eq' ∙ rw eq (append_assoc p.batch ops later),
                  LocksOf-append req.start_version ops later locks locks',
                  (
                    first_locked ops later m locks' own,
                    Locks-prepend ops later ms locks locks' all,
                  ),
                ),
              )
        ]

  -- Written, the batch does what it says.
  Locks-written :
      (batch : List BatchOp) (ms : List Mutation)
      → IsVersioned batch
      → Locks batch ms
      → All
          (λ (m : Mutation).
            (is_check_not_exists m.op ≡ true)
            ⊎ LockedBy req.start_version (read L (write db batch) m.key).lock)
          ms
  Locks-written batch [] v h = tt
  Locks-written batch (m ∷ ms) v (inl skip, h) = (inl skip, Locks-written batch ms v h)
  Locks-written batch (m ∷ ms) v (inr own, h) =
      (inr (rw (read-write L db batch m.key v, LockedBy) own), Locks-written batch ms v h)

  -- A prewrite that returns is all or nothing. If some mutation failed, then the database is as it
  -- was. If none failed, then every key of the request, but those that were only to be checked for
  -- absence, is locked by the transaction, and the versions of all keys are as they were.
  pub prewrite-All_or_nothing :
      (db' : Db) (errs : List (Option MvccError))
      → prewrite L db req ≡ some (db', errs)
      → ((any_some errs ≡ true) × (db' ≡ db))
        ⊎ ((any_some errs ≡ false)
            × All
                (λ (m : Mutation).
                  (is_check_not_exists m.op ≡ true)
                  ⊎ LockedBy req.start_version (read L db' m.key).lock)
                req.mutations
            × ((key : Bytes) → (read L db' key).versions ≡ (read L db key).versions))
  unfolding prewrite
  prewrite-All_or_nothing db' errs h =
      let start : Progress = record { errs = []; batch = []; any_error = false } in
      elim (Option-cases (prewrite_loop L db req req.mutations 0 start)) [
        | inl panics ↦ absurd (ground arith)
        | inr (q, e) ↦
            let known = loop-any req.mutations 0 start q e refl in
            let result : db' ≡ (if q.any_error then db else write db q.batch) = ground arith in
            let errors : errs ≡ q.errs = ground arith in
            elim (Bool-cases q.any_error) [
              | inl broken ↦ inl (rw errors (sym known) ∙ broken, result ∙ rw broken)
              | inr fine ↦
                  let (_, (ops, batch, locks, all)) = loop-Locks req.mutations 0 start q e fine in
                  let written : db' ≡ write db ops = result ∙ rw fine (ap (write db) batch) in
                  let v = LocksOf-IsVersioned req.start_version ops locks in
                  inr (
                    rw errors (sym known) ∙ fine,
                    rw written (Locks-written ops req.mutations v all),
                    λ key.
                        rw (written, read-write L db ops key v)
                          (apply_batch-versions req.start_version key ops (read L db key) locks),
                  )
            ]
      ]
