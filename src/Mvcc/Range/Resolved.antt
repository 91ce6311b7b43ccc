-- ===== src/Mvcc/Range/Resolved.antt =====
-- What `ScanLock` finds, and what `ResolveLock` leaves.
use client_go.Base.{
  ℕ, ◌≡◌, refl, ◌∙◌, ap, sym, inl, inr, Bool, true, false, if◌then◌else◌, ltb, leb, ◌==◌, ◌||◌,
  Bool-cases, Option, none, some, List, [], ◌∷◌, ◌++◌, Bytes, bytes_eq, bytes_eq_refl, All, arith,
}
use mathlib.Core.Path.{subst}
use client_go.Mvcc.{MvccLock, MvccValue}
use client_go.Mvcc.Entry.{
  Entry, Row, BatchOp, put_lock, put_value, delete_lock, delete_value, Leveldb, settles_lock,
  apply_batch, apply_op,
}
use client_go.Mvcc.Prewrite.{read}
use client_go.Mvcc.Commit.{owns, commit_lock, rollback_lock, write_rollback}
use client_go.Mvcc.Durable.{read-write_lock}
use client_go.Mvcc.Range.{LockInfo, locks_below, resolve, resolve_batch, scan_lock, resolve_lock}
use client_go.Mvcc.Range.Visits.{Ranges, flatten, locks_of, visits_cases}

abbrev old_lock : ℕ → Bytes → Option MvccLock → List LockInfo
old_lock max_ts key none = []
old_lock max_ts key (some l) =
    if leb l.start_ts max_ts
    then record { primary_lock = l.primary; lock_version = l.start_ts; key = key } ∷ []
    else []

-- The locks of the range that started at `max_ts` or before, in the order of the keys.
abbrev pub old_locks : ℕ → List (Bytes × Entry) → List LockInfo
old_locks max_ts [] = []
old_locks max_ts ((key, e) ∷ es) = old_lock max_ts key e.lock ++ old_locks max_ts es

locks_below-step :
    (max_ts : ℕ) (key : Bytes) (lock : Option MvccLock) (vs : List (Bytes × Option MvccLock))
    → locks_below max_ts ((key, lock) ∷ vs) ≡ old_lock max_ts key lock ++ locks_below max_ts vs
unfolding locks_below
locks_below-step max_ts key none vs = refl
locks_below-step max_ts key (some l) vs = ground arith

locks_below-locks_of :
    (max_ts : ℕ) (es : List (Bytes × Entry))
    → locks_below max_ts (locks_of es) ≡ old_locks max_ts es
unfolding locks_below
locks_below-locks_of max_ts [] = refl
locks_below-locks_of max_ts ((key, e) ∷ es) =
    locks_below-step max_ts key e.lock (locks_of es)
    ∙ ap (λ (infos : List LockInfo). old_lock max_ts key e.lock ++ infos)
        (locks_below-locks_of max_ts es)

-- The batch puts no lock.
abbrev NoPut : List BatchOp → Type 0
NoPut [] = Unit {0}
NoPut (put_lock key l ∷ ops) = ⊥
NoPut (put_value key ver v ∷ ops) = NoPut ops
NoPut (delete_lock key ∷ ops) = NoPut ops
NoPut (delete_value key ver ∷ ops) = NoPut ops

abbrev deletes : Bytes → List BatchOp → Bool
deletes k [] = false
deletes k (put_lock key l ∷ ops) = deletes k ops
deletes k (put_value key ver v ∷ ops) = deletes k ops
deletes k (delete_lock key ∷ ops) = bytes_eq key k || deletes k ops
deletes k (delete_value key ver ∷ ops) = deletes k ops

deletes-append :
    (k : Bytes) (xs ys : List BatchOp) → deletes k (xs ++ ys) ≡ (deletes k xs || deletes k ys)
deletes-append k [] ys = refl
deletes-append k (put_lock key l ∷ xs) ys = deletes-append k xs ys
deletes-append k (put_value key ver v ∷ xs) ys = deletes-append k xs ys
deletes-append k (delete_lock key ∷ xs) ys = ground (arith, deletes-append k xs ys)
deletes-append k (delete_value key ver ∷ xs) ys = deletes-append k xs ys

NoPut-append : (xs ys : List BatchOp) → NoPut xs → NoPut ys → NoPut (xs ++ ys)
NoPut-append [] ys h k = k
NoPut-append (put_lock key l ∷ xs) ys h k = absurd h
NoPut-append (put_value key ver v ∷ xs) ys h k = NoPut-append xs ys h k
NoPut-append (delete_lock key ∷ xs) ys h k = NoPut-append xs ys h k
NoPut-append (delete_value key ver ∷ xs) ys h k = NoPut-append xs ys h k

put_value-lock :
    (k key : Bytes) (ver : ℕ) (v : MvccValue) (e : Entry)
    → (apply_op k (put_value key ver v) e).lock ≡ e.lock
unfolding apply_op
put_value-lock k key ver v e = ground arith

delete_value-lock :
    (k key : Bytes) (ver : ℕ) (e : Entry) → (apply_op k (delete_value key ver) e).lock ≡ e.lock
unfolding apply_op
delete_value-lock k key ver e = ground arith

delete_lock-lock :
    (k key : Bytes) (e : Entry)
    → (apply_op k (delete_lock key) e).lock ≡ (if bytes_eq key k then none else e.lock)
unfolding apply_op
delete_lock-lock k key e = ground arith

-- The operations of one resolved lock leave its row as its deletion does.
resolve-settles :
    (k : Bytes) (l : MvccLock) (key : Bytes) (commit_ts : ℕ) (rest : List BatchOp)
    → settles_lock k true (resolve l key commit_ts ++ rest) ≡ settles_lock k true rest
unfolding resolve commit_lock rollback_lock write_rollback
resolve-settles k l key commit_ts rest = elim (Bool-cases (ltb 0 commit_ts)) [
  | inl commits ↦ elim (Bool-cases (bytes_eq key k)) [
    | inl same ↦ rw (commits, same) refl
    | inr differ ↦ rw (commits, differ) refl
  ]
  | inr rolls_back ↦ elim (Bool-cases (bytes_eq key k)) [
    | inl same ↦ rw (rolls_back, same) refl
    | inr differ ↦ rw (rolls_back, differ) refl
  ]
]

-- What such a batch leaves of the lock of a key.
lock_after :
    (k : Bytes) (ops : List BatchOp) (e : Entry)
    → NoPut ops
    → (apply_batch k ops e).lock ≡ (if deletes k ops then none else e.lock)
unfolding apply_batch
lock_after k [] e h = refl
lock_after k (put_lock key l ∷ ops) e h = absurd h
lock_after k (put_value key ver v ∷ ops) e h =
    lock_after k ops (apply_op k (put_value key ver v) e) h ∙ rw (put_value-lock k key ver v e) refl
lock_after k (delete_lock key ∷ ops) e h =
    lock_after k ops (apply_op k (delete_lock key) e) h
    ∙ rw (delete_lock-lock k key e) (ground arith)
lock_after k (delete_value key ver ∷ ops) e h =
    lock_after k ops (apply_op k (delete_value key ver) e) h
    ∙ rw (delete_value-lock k key ver e) refl

resolve-deletes :
    (l : MvccLock) (key : Bytes) (commit_ts : ℕ)
    → NoPut (resolve l key commit_ts) × (deletes key (resolve l key commit_ts) ≡ true)
unfolding resolve commit_lock rollback_lock write_rollback
resolve-deletes l key commit_ts = elim (Bool-cases (ltb 0 commit_ts)) [
  | inl commits ↦ rw commits (tt, rw (bytes_eq_refl key) refl)
  | inr rolls_back ↦ rw rolls_back (tt, rw (bytes_eq_refl key) refl)
]

module _ (start_ts commit_ts : ℕ) where
  abbrev part : Bytes → Option MvccLock → List BatchOp
  part key none = []
  part key (some l) = if l.start_ts == start_ts then resolve l key commit_ts else []

  resolve_batch-step :
      (key : Bytes) (lock : Option MvccLock) (vs : List (Bytes × Option MvccLock))
      → resolve_batch start_ts commit_ts ((key, lock) ∷ vs)
        ≡ part key lock ++ resolve_batch start_ts commit_ts vs
  unfolding resolve_batch
  resolve_batch-step key none vs = refl
  resolve_batch-step key (some l) vs = ground arith

  part-NoPut : (key : Bytes) (lock : Option MvccLock) → NoPut (part key lock)
  part-NoPut key none = tt
  part-NoPut key (some l) = elim (Bool-cases (l.start_ts == start_ts)) [
    | inl own ↦ rw own ((resolve-deletes l key commit_ts).0)
    | inr foreign ↦ rw foreign tt
  ]

  resolve_batch-NoPut :
      (vs : List (Bytes × Option MvccLock)) → NoPut (resolve_batch start_ts commit_ts vs)
  unfolding resolve_batch
  resolve_batch-NoPut [] = tt
  resolve_batch-NoPut ((key, lock) ∷ vs) = rw (resolve_batch-step key lock vs) (
      NoPut-append (part key lock) (resolve_batch start_ts commit_ts vs) (part-NoPut key lock)
        (resolve_batch-NoPut vs))

  part-settles :
      (k key : Bytes) (lock : Option MvccLock) (rest : List BatchOp)
      → settles_lock k true (part key lock ++ rest) ≡ settles_lock k true rest
  part-settles k key none rest = refl
  part-settles k key (some l) rest = elim (Bool-cases (l.start_ts == start_ts)) [
    | inl own ↦ rw own (resolve-settles k l key commit_ts rest)
    | inr foreign ↦ rw foreign refl
  ]

  resolve_batch-settles :
      (k : Bytes) (vs : List (Bytes × Option MvccLock))
      → settles_lock k true (resolve_batch start_ts commit_ts vs) ≡ true
  unfolding resolve_batch
  resolve_batch-settles k [] = refl
  resolve_batch-settles k ((key, lock) ∷ vs) =
      ap (settles_lock k true) (resolve_batch-step key lock vs)
      ∙ part-settles k key lock (resolve_batch start_ts commit_ts vs)
      ∙ resolve_batch-settles k vs

  -- Own locks are deleted: what is left is not the transaction's.
  part_clears :
      (key : Bytes) (lock : Option MvccLock) (later : Bool)
      → owns (if deletes key (part key lock) || later then none else lock) start_ts ≡ none
  part_clears key none later = ground arith
  part_clears key (some l) later = elim (Bool-cases (l.start_ts == start_ts)) [
    | inl own ↦ rw own (rw ((resolve-deletes l key commit_ts).1) refl)
    | inr foreign ↦ ground arith
  ]

  still_clear :
      (earlier later : Bool) (lock : Option MvccLock)
      → owns (if later then none else lock) start_ts ≡ none
      → owns (if earlier || later then none else lock) start_ts ≡ none
  still_clear true later lock h = refl
  still_clear false later lock h = h

  abbrev Cleared : List BatchOp → List (Bytes × Entry) → Type 0
  Cleared batch es =
      All
        (λ (p : Bytes × Entry). owns (if deletes p.0 batch then none else p.1.lock) start_ts ≡ none)
        es

  Cleared-prepend :
      (ops batch : List BatchOp) (es : List (Bytes × Entry))
      → Cleared batch es
      → Cleared (ops ++ batch) es
  Cleared-prepend ops batch [] h = tt
  Cleared-prepend ops batch ((key, e) ∷ es) h = (
    rw (deletes-append key ops batch)
        (still_clear (deletes key ops) (deletes key batch) e.lock h.0),
    Cleared-prepend ops batch es h.1,
  )

  resolve_batch-Cleared :
      (es : List (Bytes × Entry)) → Cleared (resolve_batch start_ts commit_ts (locks_of es)) es
  resolve_batch-Cleared [] = tt
  resolve_batch-Cleared ((key, e) ∷ es) =
      let later : List BatchOp = resolve_batch start_ts commit_ts (locks_of es) in
      subst (λ (batch : List BatchOp). Cleared batch ((key, e) ∷ es))
        (sym (resolve_batch-step key e.lock (locks_of es)))
        (
          rw (deletes-append key (part key e.lock) later)
              (part_clears key e.lock (deletes key later)),
          Cleared-prepend (part key e.lock) later es (resolve_batch-Cleared es),
        )

module _ (L : Leveldb) (range : L.Db → Bytes → Bytes → List Row) where
  open L use {Db, write}

  -- Over a range whose rows are those of a list of keys, in which neighbours differ and each key has
  -- rows, `ScanLock` returns the locks of the keys
  -- that started at `max_ts` or before, each once, in the order of the keys.
  pub scan_lock_lem :
      (db : Db) (start_key end_key : Bytes) (max_ts : ℕ) (es : List (Bytes × Entry))
      → Ranges es
      → range db start_key end_key ≡ flatten es
      → scan_lock L range db start_key end_key max_ts ≡ old_locks max_ts es
  unfolding scan_lock locks_below
  scan_lock_lem db start_key end_key max_ts es r h = rw h (elim (visits_cases start_key es r) [
    | inl all ↦ rw all (locks_below-locks_of max_ts es)
    | inr all ↦ rw all (locks_below-locks_of max_ts es)
  ])

  written_clear :
      (db : Db) (start_ts : ℕ) (batch : List BatchOp) (es : List (Bytes × Entry))
      → NoPut batch
      → ((k : Bytes) → settles_lock k true batch ≡ true)
      → All (λ (p : Bytes × Entry). read L db p.0 ≡ p.1) es
      → Cleared start_ts 0 batch es
      → All (λ (p : Bytes × Entry). owns (read L (write db batch) p.0).lock start_ts ≡ none) es
  written_clear db start_ts batch [] n v h c = tt
  written_clear db start_ts batch ((key, e) ∷ es) n v h c = (
    rw (read-write_lock L db batch key (v key), h.0, lock_after key batch e n) (c.0),
    written_clear db start_ts batch es n v h.1 c.1,
  )

  -- Over a range whose rows are those of a list of keys, as point reads find them, in which
  -- neighbours differ and each key has rows, `ResolveLock`
  -- leaves no key of the range locked by the transaction, whether it commits or rolls back.
  pub resolve_lock_clears :
      (db : Db) (start_key end_key : Bytes) (start_ts commit_ts : ℕ) (es : List (Bytes × Entry))
      → Ranges es
      → range db start_key end_key ≡ flatten es
      → All (λ (p : Bytes × Entry). read L db p.0 ≡ p.1) es
      → All
          (λ (p : Bytes × Entry).
            owns
              (read L (resolve_lock L range db start_key end_key start_ts commit_ts) p.0).lock
              start_ts
            ≡ none)
          es
  unfolding resolve_lock resolve_batch
  resolve_lock_clears db start_key end_key start_ts commit_ts es r h k =
      let batch : List BatchOp = resolve_batch start_ts commit_ts (locks_of es) in
      let done : resolve_lock L range db start_key end_key start_ts commit_ts ≡ write db batch =
        rw (resolve_lock, h)
          (elim (visits_cases start_key es r) [ inl all ↦ rw all refl | inr all ↦ rw all refl ]) in
      subst
        (λ (db' : Db). All (λ (p : Bytes × Entry). owns (read L db' p.0).lock start_ts ≡ none) es)
        (sym done)
        (written_clear db start_ts batch es (resolve_batch-NoPut start_ts commit_ts (locks_of es))
          (λ key. resolve_batch-settles start_ts commit_ts key (locks_of es)) k
          (resolve_batch-Cleared start_ts commit_ts es))
