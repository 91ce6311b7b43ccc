-- ===== src/Tests/Collecting.antt =====
-- Garbage collection of one key.
use client_go.Base.{ℕ, ◌≤◌, ◌≡◌, refl, ◌⊎◌, none, some, List, [], ◌∷◌, Bytes, All, arith}
use client_go.Mvcc.{MvccValue, ValueType, type_put, type_rollback, type_delete}
use client_go.Mvcc.Entry.{Entry, Row}
use client_go.Mvcc.Prewrite.{read}
use client_go.Mvcc.Range.Visits.{flatten}
use client_go.Mvcc.Collection.{gc}
use client_go.Mvcc.Collection.Safe.{IsCollected, LockedIn, gc_keeps_reads}
use client_go.Tests.Store.{memory, the_key, the_lock, decode_rows}

abbrev version : ℕ → ValueType → ℕ × MvccValue
version ts t = (ts, record { value_type = t; start_ts = ts; commit_ts = ts; value = ts ∷ [] })

-- A lock that started at 10, and versions on both sides of the safe point 8.
abbrev old_entry : Entry
old_entry = record {
  lock = some the_lock;
  versions =
      version 9 type_put
      ∷ version 7 type_rollback
      ∷ version 5 type_put
      ∷ version 4 type_delete
      ∷ version 3 type_put
      ∷ [];
}

abbrev old_store : Bytes → Entry
old_store key = old_entry

abbrev one_range : (Bytes → Entry) → Bytes → Bytes → List Row
one_range db start_key end_key = flatten ((the_key, db the_key) ∷ [])

read_old : read memory old_store the_key ≡ old_entry
unfolding read
read_old = decode_rows the_key old_entry.lock old_entry.versions

gc_keeps_reads_example :
    ((key : Bytes) × ((start_ts : ℕ) × ((gc memory one_range old_store [] [] 8
            ≡ (old_store, some (key, start_ts)))
          × LockedIn ((the_key, old_entry) ∷ []) key start_ts
          × (start_ts ≤ 8))))
    ⊎ (((gc memory one_range old_store [] [] 8).1 ≡ none)
        × All
            (λ (p : Bytes × Entry).
              IsCollected 8 8 p.1 (read memory (gc memory one_range old_store [] [] 8).0 p.0))
            ((the_key, old_entry) ∷ []))
gc_keeps_reads_example =
    gc_keeps_reads memory one_range old_store [] [] 8 20 8 ((the_key, old_entry) ∷ []) (omega arith)
      (omega arith) (refl, tt) (tt, tt) refl (read_old, tt)
      ((
        (
          omega arith,
          refl,
          (omega arith, refl, (omega arith, refl, (omega arith, refl, (omega arith, refl, tt)))),
        ),
        tt,
      ))
