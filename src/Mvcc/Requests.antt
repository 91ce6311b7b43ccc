-- ===== src/Mvcc/Requests.antt =====
-- `Prewrite` for a whole request: all keys are locked, or nothing is written.
use client_go.Base.{
  ℕ, ◌≡◌, refl, ◌∙◌, ◌⊎◌, inl, inr, Bool, true, false, Option-cases, Bool-cases, Option, none, some,
  List, [], ◌∷◌, ◌++◌, Bytes, bytes_eq, bytes_eq_refl, arith,
}
use client_go.Mvcc.{
  MvccLock, MvccError, Mutation, PessimisticAction, AssertionLevel, ok, is_pessimistic_lock,
}
use client_go.Mvcc.Entry.{
  Entry, BatchOp, put_lock, put_value, delete_lock, delete_value, apply_batch, apply_op,
}
use client_go.Mvcc.Prewrite.{prewrite_mutation, max, put_checked, new_lock}
use client_go.Mvcc.Conflict.{check_conflict_value}

-- The batch holds locks of the transaction, and nothing else.
abbrev pub LocksOf : ℕ → List BatchOp → Type 0
LocksOf start_ts [] = Unit {0}
LocksOf start_ts (put_lock key l ∷ ops) = (l.start_ts ≡ start_ts) × LocksOf start_ts ops
LocksOf start_ts (put_value key ver v ∷ ops) = ⊥
LocksOf start_ts (delete_lock key ∷ ops) = ⊥
LocksOf start_ts (delete_value key ver ∷ ops) = ⊥

-- The key is locked by the transaction.
abbrev pub LockedBy : ℕ → Option MvccLock → Type 0
LockedBy start_ts none = ⊥
LockedBy start_ts (some l) = l.start_ts ≡ start_ts

pub LocksOf-append :
    (start_ts : ℕ) (xs ys : List BatchOp)
    → LocksOf start_ts xs
    → LocksOf start_ts ys
    → LocksOf start_ts (xs ++ ys)
LocksOf-append start_ts [] ys h k = k
LocksOf-append start_ts (put_lock key l ∷ xs) ys h k = (h.0, LocksOf-append start_ts xs ys h.1 k)
LocksOf-append start_ts (put_value key ver v ∷ xs) ys h k = absurd h
LocksOf-append start_ts (delete_lock key ∷ xs) ys h k = absurd h
LocksOf-append start_ts (delete_value key ver ∷ xs) ys h k = absurd h

put_lock-LockedBy :
    (start_ts : ℕ) (key j : Bytes) (l : MvccLock) (e : Entry)
    → l.start_ts ≡ start_ts
    → LockedBy start_ts e.lock
    → LockedBy start_ts (apply_op key (put_lock j l) e).lock
unfolding apply_op
put_lock-LockedBy start_ts key j l e o h = elim (Bool-cases (bytes_eq j key)) [
  | inl hit ↦ rw (hit, LockedBy, apply_op) o
  | inr miss ↦ rw (miss, LockedBy, apply_op) h
]

-- Such a batch leaves a key locked that was, and the versions alone.
pub apply_batch-LockedBy :
    (start_ts : ℕ) (key : Bytes) (ops : List BatchOp) (e : Entry)
    → LocksOf start_ts ops
    → LockedBy start_ts e.lock
    → LockedBy start_ts (apply_batch key ops e).lock
unfolding apply_batch
apply_batch-LockedBy start_ts key [] e h k = k
apply_batch-LockedBy start_ts key (put_lock j l ∷ ops) e h k =
    apply_batch-LockedBy start_ts key ops (apply_op key (put_lock j l) e) h.1
      (put_lock-LockedBy start_ts key j l e h.0 k)
apply_batch-LockedBy start_ts key (put_value j ver v ∷ ops) e h k = absurd h
apply_batch-LockedBy start_ts key (delete_lock j ∷ ops) e h k = absurd h
apply_batch-LockedBy start_ts key (delete_value j ver ∷ ops) e h k = absurd h

put_lock-versions :
    (key j : Bytes) (l : MvccLock) (e : Entry)
    → (apply_op key (put_lock j l) e).versions ≡ e.versions
unfolding apply_op
put_lock-versions key j l e = ground arith

pub apply_batch-versions :
    (start_ts : ℕ) (key : Bytes) (ops : List BatchOp) (e : Entry)
    → LocksOf start_ts ops
    → (apply_batch key ops e).versions ≡ e.versions
unfolding apply_batch
apply_batch-versions start_ts key [] e h = refl
apply_batch-versions start_ts key (put_lock j l ∷ ops) e h =
    apply_batch-versions start_ts key ops (apply_op key (put_lock j l) e) h.1
    ∙ put_lock-versions key j l e
apply_batch-versions start_ts key (put_value j ver v ∷ ops) e h = absurd h
apply_batch-versions start_ts key (delete_lock j ∷ ops) e h = absurd h
apply_batch-versions start_ts key (delete_value j ver ∷ ops) e h = absurd h

pub apply_batch-append :
    (key : Bytes) (xs ys : List BatchOp) (e : Entry)
    → apply_batch key (xs ++ ys) e ≡ apply_batch key ys (apply_batch key xs e)
unfolding apply_batch
apply_batch-append key [] ys e = refl
apply_batch-append key (x ∷ xs) ys e = apply_batch-append key xs ys (apply_op key x e)

put_checked_ok :
    (c : Option Bytes × Option MvccError) (key : Bytes) (l : MvccLock) (ops : List BatchOp)
    → put_checked c key l ≡ ok ops
    → ops ≡ put_lock key l ∷ []
unfolding put_checked
put_checked_ok (v, none) key l ops h = cc
put_checked_ok (v, some x) key l ops h = cc

-- One mutation that succeeds writes its lock, or finds its key locked by the transaction.
prewrite_mutation_inv :
    (e : Entry) (m : Mutation) (start_ts : ℕ) (primary : Bytes) (ttl size : ℕ)
    (action : PessimisticAction) (min_ts : ℕ) (level : AssertionLevel) (ops : List BatchOp)
    → prewrite_mutation e m start_ts primary ttl size action min_ts level ≡ ok ops
    → ((ops ≡ []) × ((l : MvccLock) × (e.lock ≡ some l) × (l.start_ts ≡ start_ts)))
      ⊎ ((l : MvccLock) × (ops ≡ put_lock m.key l ∷ []) × (l.start_ts ≡ start_ts))
unfolding prewrite_mutation new_lock
prewrite_mutation_inv e m start_ts primary ttl size action min_ts level ops h =
    let checked = check_conflict_value e.versions m start_ts start_ts false level false false in
    elim (Option-cases e.lock) [
      | inl free ↦
          let l : MvccLock = new_lock m start_ts primary ttl size min_ts in
          inr (l, put_checked_ok checked m.key l ops (ground arith), refl)
      | inr (l, held) ↦ elim (Bool-cases (is_pessimistic_lock l.op)) [
        | inr mine ↦ inl (ground arith, (l, held, ground arith))
        | inl pessimistic ↦
            let l' : MvccLock =
              new_lock m start_ts primary (max ttl l.ttl) size (max min_ts l.min_commit_ts) in
            inr (l', put_checked_ok checked m.key l' ops (ground arith), refl)
      ]
    ]

-- So its own batch leaves the key locked.
pub prewrite_mutation-locks :
    (e : Entry) (m : Mutation) (start_ts : ℕ) (primary : Bytes) (ttl size : ℕ)
    (action : PessimisticAction) (min_ts : ℕ) (level : AssertionLevel) (ops : List BatchOp)
    → prewrite_mutation e m start_ts primary ttl size action min_ts level ≡ ok ops
    → LocksOf start_ts ops × LockedBy start_ts (apply_batch m.key ops e).lock
unfolding apply_batch apply_op
prewrite_mutation-locks e m start_ts primary ttl size action min_ts level ops h =
    elim (prewrite_mutation_inv e m start_ts primary ttl size action min_ts level ops h) [
      | inl (nothing, (l, held, mine)) ↦ rw nothing (tt, rw (held, LockedBy) mine)
      | inr (l, put, mine) ↦ rw put ((mine, tt), rw (bytes_eq_refl m.key, LockedBy, apply_op) mine)
    ]

-- More locks before a batch never hurt.
pub LockedBy-mono :
    (start_ts : ℕ) (key : Bytes) (ops : List BatchOp) (e f : Entry)
    → LocksOf start_ts ops
    → (LockedBy start_ts e.lock → LockedBy start_ts f.lock)
    → LockedBy start_ts (apply_batch key ops e).lock
    → LockedBy start_ts (apply_batch key ops f).lock
unfolding apply_batch
LockedBy-mono start_ts key [] e f h k l = k l
LockedBy-mono start_ts key (put_lock j x ∷ ops) e f h k l =
    LockedBy-mono start_ts key ops (apply_op key (put_lock j x) e) (apply_op key (put_lock j x) f)
      h.1 (step (bytes_eq j key) refl) l
  where
    step :
        (b : Bool)
        → bytes_eq j key ≡ b
        → LockedBy start_ts (apply_op key (put_lock j x) e).lock
        → LockedBy start_ts (apply_op key (put_lock j x) f).lock
    step true hit y = unfold apply_op in rw (hit, LockedBy, apply_op) h.0
    step false miss y =
        unfold apply_op in rw (miss, LockedBy, apply_op) (k (rw (miss, LockedBy, apply_op) at y))
LockedBy-mono start_ts key (put_value j ver v ∷ ops) e f h k l = absurd h
LockedBy-mono start_ts key (delete_lock j ∷ ops) e f h k l = absurd h
LockedBy-mono start_ts key (delete_value j ver ∷ ops) e f h k l = absurd h
