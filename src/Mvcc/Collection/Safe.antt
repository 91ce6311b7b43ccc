-- ===== src/Mvcc/Collection/Safe.antt =====
-- Garbage collection keeps every read from the safe point on.
use client_go.Base.{
  ℕ, ◌≤◌, ◌<◌, ◌≡◌, refl, ◌∙◌, ap, ◌⊎◌, inl, inr, true, false, Bool-cases, leb, Option, none, some,
  List, [], ◌∷◌, ◌++◌, Bytes, bytes_eq, bytes_eq_refl, bytes_eq→eq, All, arith,
}
use client_go.Mvcc.{MvccLock, MvccValue, lock_ver}
use client_go.Mvcc.Entry.{
  Entry, Row, BatchOp, delete_value, apply_op, apply_batch, delete_version, Leveldb, IsVersioned,
}
use client_go.Mvcc.Read.{visible}
use client_go.Mvcc.Prewrite.{read}
use client_go.Mvcc.Durable.{read-write}
use client_go.Mvcc.Versions.{Below, Below-mono}
use client_go.Mvcc.Range.{scan_start}
use client_go.Mvcc.Range.Visits.{Ranges, flatten}
use client_go.Mvcc.Collection.{gc, collected, collects, under_safe_point}
use client_go.Mvcc.Collection.Survivors.{
  gone, gone-Below, survivors, delete_all, delete_all-gone, visible-survivors, IsTrimmed,
  survivors-IsTrimmed,
}
use client_go.Mvcc.Collection.Rounds.{ops, plan, gc_start}

-- Each key of the range is there once.
abbrev pub DistinctKeys : List (Bytes × Entry) → Type 0
DistinctKeys [] = Unit {0}
DistinctKeys ((key, e) ∷ es) =
    All (λ (p : Bytes × Entry). bytes_eq p.0 key ≡ false) es × DistinctKeys es

eq_flip : (x y : Bytes) → bytes_eq x y ≡ false → bytes_eq y x ≡ false
eq_flip x y h = elim (Bool-cases (bytes_eq y x)) [
  | inl same ↦ cc (h, bytes_eq→eq y x same, bytes_eq_refl x)
  | inr differ ↦ differ
]

delete_own :
    (key : Bytes) (ver : ℕ) (e : Entry)
    → apply_op key (delete_value key ver) e ≡ record e { versions = delete_version ver e.versions }
unfolding apply_op
delete_own key ver e = rw (bytes_eq_refl key) refl

delete_other :
    (key k : Bytes) (ver : ℕ) (e : Entry)
    → bytes_eq key k ≡ false
    → apply_op k (delete_value key ver) e ≡ e
unfolding apply_op
delete_other key k ver e h = rw h refl

ops_own :
    (key : Bytes) (vers : List ℕ) (rest : List BatchOp) (e : Entry)
    → apply_batch key (ops key vers ++ rest) e
      ≡ apply_batch key rest (record e { versions = delete_all vers e.versions })
unfolding apply_batch delete_all
ops_own key [] rest e = refl
ops_own key (ver ∷ vers) rest e =
    ap (apply_batch key (ops key vers ++ rest)) (delete_own key ver e)
    ∙ ops_own key vers rest (record e { versions = delete_version ver e.versions })

ops_other :
    (key k : Bytes) (vers : List ℕ) (rest : List BatchOp) (e : Entry)
    → bytes_eq key k ≡ false
    → apply_batch k (ops key vers ++ rest) e ≡ apply_batch k rest e
unfolding apply_batch
ops_other key k [] rest e h = refl
ops_other key k (ver ∷ vers) rest e h =
    ap (apply_batch k (ops key vers ++ rest)) (delete_other key k ver e h)
    ∙ ops_other key k vers rest e h

-- The key of the range has a lock with the start timestamp.
abbrev pub LockedIn : List (Bytes × Entry) → Bytes → ℕ → Type 0
LockedIn [] k ts = ⊥
LockedIn ((key, e) ∷ es) k ts =
    ((k ≡ key) × ((l : MvccLock) × (e.lock ≡ some l) × (l.start_ts ≡ ts))) ⊎ LockedIn es k ts

module _ (safe_point : ℕ) where
  abbrev batch_of : List (Bytes × Entry) → List BatchOp
  batch_of [] = []
  batch_of ((key, e) ∷ es) = ops key (gone safe_point true e.versions) ++ batch_of es

  abbrev trimmed : Entry → Entry
  trimmed e = record e { versions = survivors safe_point true e.versions }

  untouched :
      (k : Bytes) (es : List (Bytes × Entry)) (e : Entry)
      → All (λ (p : Bytes × Entry). bytes_eq p.0 k ≡ false) es
      → apply_batch k (batch_of es) e ≡ e
  unfolding apply_batch
  untouched k [] e h = refl
  untouched k ((key, f) ∷ es) e h =
      ops_other key k (gone safe_point true f.versions) (batch_of es) e h.0 ∙ untouched k es e h.1

  lift_ops :
      (key : Bytes) (vers : List ℕ) (rest : List BatchOp) (es : List (Bytes × Entry))
      → All (λ (p : Bytes × Entry). bytes_eq p.0 key ≡ false) es
      → All (λ (p : Bytes × Entry). apply_batch p.0 rest p.1 ≡ trimmed p.1) es
      → All (λ (p : Bytes × Entry). apply_batch p.0 (ops key vers ++ rest) p.1 ≡ trimmed p.1) es
  lift_ops key vers rest [] h a = tt
  lift_ops key vers rest ((k, e) ∷ es) h a =
      (ops_other key k vers rest e (eq_flip k key h.0) ∙ a.0, lift_ops key vers rest es h.1 a.1)

  abbrev WellFormed : ℕ → List (Bytes × Entry) → Type 0
  WellFormed bound = All (λ (p : Bytes × Entry). Below bound p.1.versions)

  batch_trims :
      (bound : ℕ) (es : List (Bytes × Entry))
      → DistinctKeys es
      → WellFormed bound es
      → All (λ (p : Bytes × Entry). apply_batch p.0 (batch_of es) p.1 ≡ trimmed p.1) es
  batch_trims bound [] d w = tt
  batch_trims bound ((key, e) ∷ es) d w =
      let vers : List ℕ = gone safe_point true e.versions in
      (
        ops_own key vers (batch_of es) e
            ∙ untouched key es (record e { versions = delete_all vers e.versions }) d.0
            ∙ ap (λ (vs : List (ℕ × MvccValue)). record e { versions = vs })
                (delete_all-gone safe_point true bound e.versions w.0),
        lift_ops key vers (batch_of es) es d.0 (batch_trims bound es d.1 w.1),
      )

  ops-IsVersioned :
      (key : Bytes) (vers : List ℕ) (rest : List BatchOp)
      → All (λ (u : ℕ). u < lock_ver) vers
      → IsVersioned rest
      → IsVersioned (ops key vers ++ rest)
  ops-IsVersioned key [] rest h r = r
  ops-IsVersioned key (ver ∷ vers) rest h r = (h.0, ops-IsVersioned key vers rest h.1 r)

  batch-IsVersioned :
      (bound : ℕ) (es : List (Bytes × Entry))
      → bound ≤ lock_ver
      → WellFormed bound es
      → IsVersioned (batch_of es)
  batch-IsVersioned bound [] low w = tt
  batch-IsVersioned bound ((key, e) ∷ es) low w =
      ops-IsVersioned key (gone safe_point true e.versions) (batch_of es)
        (gone-Below safe_point true lock_ver e.versions
          (Below-mono bound lock_ver e.versions low w.0))
        (batch-IsVersioned bound es low w.1)

  -- No lock is at the safe point or before it.
  abbrev pub NoOldLock : Option MvccLock → Type 0
  NoOldLock none = Unit {0}
  NoOldLock (some l) = safe_point < l.start_ts

  -- The plan is the whole batch, or refuses because of a lock.
  abbrev Planned : List (Bytes × Entry) → Type 0
  Planned es =
      ((plan safe_point es ≡ collects (batch_of es))
        × All (λ (p : Bytes × Entry). NoOldLock p.1.lock) es)
      ⊎ ((key : Bytes) × ((start_ts : ℕ) × ((plan safe_point es ≡ under_safe_point key start_ts)
              × LockedIn es key start_ts
              × (start_ts ≤ safe_point))))

  plan_more :
      (key : Bytes) (lock : Option MvccLock) (vs : List (ℕ × MvccValue)) (es : List (Bytes × Entry))
      → Planned es
      → Planned ((key, record { lock = lock; versions = vs }) ∷ es)
  plan_more key none vs es (inl (p, a)) = inl (rw p refl, (tt, a))
  plan_more key none vs es (inr (k, (ts, (p, held, le)))) = inr (k, (ts, (rw p refl, inr held, le)))
  plan_more key (some l) vs es planned = elim (Bool-cases (leb l.start_ts safe_point)) [
    | inl old ↦
        inr (key, (l.start_ts, (rw old refl, inl (refl, (l, refl, refl)), ground (arith, old))))
    | inr new ↦
        let fresh : safe_point < l.start_ts = ground (arith, new) in
        elim planned [
          | inl (p, a) ↦ inl (rw (p, new) refl, (fresh, a))
          | inr (k, (ts, (p, held, le))) ↦ inr (k, (ts, (rw (p, new) refl, inr held, le)))
        ]
  ]

  plan_cases : (es : List (Bytes × Entry)) → Planned es
  plan_cases [] = inl (refl, tt)
  plan_cases ((key, e) ∷ es) = plan_more key e.lock e.versions es (plan_cases es)

-- What a collection makes of one key: the lock stays, and is after the safe point; of the versions
-- at the safe point or before it a put is left at most; the read at `ts` is the same.
abbrev pub IsCollected : ℕ → ℕ → Entry → Entry → Type 0
IsCollected safe_point ts old new =
    (new.lock ≡ old.lock)
    × NoOldLock safe_point old.lock
    × IsTrimmed safe_point new.versions
    × (visible new.versions ts ≡ visible old.versions ts)

module _ (L : Leveldb) (range : L.Db → Bytes → Bytes → List Row) where
  open L use {Db, write}

  IsCollected-keys :
      (db : Db) (batch : List BatchOp) (safe_point bound ts : ℕ) (es : List (Bytes × Entry))
      → safe_point ≤ ts
      → IsVersioned batch
      → All (λ (p : Bytes × Entry). read L db p.0 ≡ p.1) es
      → WellFormed safe_point bound es
      → All (λ (p : Bytes × Entry). NoOldLock safe_point p.1.lock) es
      → All (λ (p : Bytes × Entry). apply_batch p.0 batch p.1 ≡ trimmed safe_point p.1) es
      → All (λ (p : Bytes × Entry). IsCollected safe_point ts p.1 (read L (write db batch) p.0)) es
  IsCollected-keys db batch safe_point bound ts [] le v h w n a = tt
  IsCollected-keys db batch safe_point bound ts ((key, e) ∷ es) le v h w n a =
      let after : read L (write db batch) key ≡ trimmed safe_point e =
        read-write L db batch key v ∙ ap (apply_batch key batch) h.0 ∙ a.0 in
      (
        rw after (
          refl,
          n.0,
          survivors-IsTrimmed safe_point bound e.versions w.0,
          visible-survivors safe_point bound ts e.versions w.0 le,
        ),
        IsCollected-keys db batch safe_point bound ts es le v h.1 w.1 n.1 a.1,
      )

  -- Over a range whose rows are those of a list of distinct keys, as point reads find them, each with
  -- rows and with versions in descending order below the greatest timestamp 2^64-1: `GC` either refuses because of a lock that a key of the
  -- range has at the safe point or before it, and writes nothing, or it keeps all locks, which are then after the safe point,
  -- leaves of the versions at the safe point or before it a put per key at most, and changes no read
  -- at `ts`, which is the safe point or after it.
  pub gc_keeps_reads :
      (db : Db) (start_key end_key : Bytes) (safe_point bound ts : ℕ) (es : List (Bytes × Entry))
      → safe_point ≤ ts
      → bound ≤ lock_ver
      → Ranges es
      → DistinctKeys es
      → range db start_key end_key ≡ flatten es
      → All (λ (p : Bytes × Entry). read L db p.0 ≡ p.1) es
      → All (λ (p : Bytes × Entry). Below bound p.1.versions) es
      → ((key : Bytes) × ((start_ts : ℕ) × ((gc L range db start_key end_key safe_point
                ≡ (db, some (key, start_ts)))
              × LockedIn es key start_ts
              × (start_ts ≤ safe_point))))
        ⊎ (((gc L range db start_key end_key safe_point).1 ≡ none)
            × All
                (λ (p : Bytes × Entry).
                  IsCollected safe_point ts p.1
                    (read L (gc L range db start_key end_key safe_point).0 p.0))
                es)
  unfolding gc
  gc_keeps_reads db start_key end_key safe_point bound ts es le low r d h k w =
      let run : gc L range db start_key end_key safe_point
          ≡ collected L range db (plan safe_point es) =
        rw (gc, h)
          (ap (collected L range db)
            (gc_start safe_point (scan_start start_key (flatten es)) es r)) in
      elim (plan_cases safe_point es) [
        | inr (key, (start_ts, (refuses, held, old))) ↦
            inl (key, (start_ts, (run ∙ ap (collected L range db) refuses, held, old)))
        | inl (all, n) ↦
            let done : gc L range db start_key end_key safe_point
                ≡ (write db (batch_of safe_point es), none) =
              run ∙ ap (collected L range db) all in
            inr (
              rw done (
                refl,
                IsCollected-keys db (batch_of safe_point es) safe_point bound ts es le
                    (batch-IsVersioned safe_point bound es low w) k w n
                    (batch_trims safe_point bound es d w),
              ))
      ]
