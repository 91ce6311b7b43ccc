-- ===== src/Mvcc/Versions.antt =====
-- The versions of one key: well-formedness, reads after a write, and the record of a transaction.
use client_go.Base.{ℕ, ◌≤◌, ◌<◌, ◌≡◌, false, ◌==◌, none, some, List, [], ◌∷◌, All, arith}
use client_go.Mvcc.{MvccValue, type_put, type_rollback}
use client_go.Mvcc.Entry.{insert_version}
use client_go.Mvcc.Read.{visible}
use client_go.Mvcc.Commit.{get_txn_commit_info}

-- Strictly descending from a bound on, each version stored under its commit timestamp.
abbrev pub Below : ℕ → List (ℕ × MvccValue) → Type 0
Below bound [] = Unit {0}
Below bound ((ver, v) ∷ vs) = (ver < bound) × (v.commit_ts ≡ ver) × Below ver vs

pub Below-mono : (a b : ℕ) (vs : List (ℕ × MvccValue)) → a ≤ b → Below a vs → Below b vs
Below-mono a b [] h w = tt
Below-mono a b ((ver, v) ∷ vs) h w = (omega arith, w.1, w.2)

pub insert_version-Below :
    (bound ver : ℕ) (v : MvccValue) (vs : List (ℕ × MvccValue))
    → ver < bound
    → v.commit_ts ≡ ver
    → Below bound vs
    → Below bound (insert_version ver v vs)
unfolding insert_version
insert_version-Below bound ver v [] h e w = (h, e, tt)
insert_version-Below bound ver v ((u, x) ∷ vs) h e w =
    ground (arith, insert_version-Below u ver v vs, Below-mono u ver vs)

-- A version above `ts` changes no read at `ts`, whether it is new or replaces one.
pub visible-insert_above :
    (bound ver ts : ℕ) (v : MvccValue) (vs : List (ℕ × MvccValue))
    → Below bound vs
    → v.commit_ts ≡ ver
    → ts < ver
    → visible (insert_version ver v vs) ts ≡ visible vs ts
unfolding insert_version visible
visible-insert_above bound ver ts v [] w e h = ground arith
visible-insert_above bound ver ts v ((u, x) ∷ vs) w e h =
    ground (arith, visible-insert_above u ver ts v vs w.2)

-- A rollback record or a lock record that takes the place of no version changes no read at all.
pub visible-insert_record :
    (bound ver ts : ℕ) (v : MvccValue) (vs : List (ℕ × MvccValue))
    → Below bound vs
    → v.value_type ≡ type_rollback
    → All (λ (entry : ℕ × MvccValue). (entry.0 == ver) ≡ false) vs
    → visible (insert_version ver v vs) ts ≡ visible vs ts
unfolding insert_version visible
visible-insert_record bound ver ts v [] w e h = ground arith
visible-insert_record bound ver ts v ((u, x) ∷ vs) w e h =
    ground (arith, visible-insert_record u ver ts v vs w.2)

-- The newest version is read by every snapshot that is not older.
pub visible-insert_newest :
    (ver ts : ℕ) (v : MvccValue) (vs : List (ℕ × MvccValue))
    → Below ver vs
    → v.value_type ≡ type_put
    → v.commit_ts ≤ ts
    → visible (insert_version ver v vs) ts ≡ some v
unfolding insert_version visible
visible-insert_newest ver ts v [] w e h = ground arith
visible-insert_newest ver ts v ((u, x) ∷ vs) w e h = ground arith

-- What a transaction wrote is what it is known by, if nothing was known before.
pub get_txn_commit_info-insert :
    (ver : ℕ) (v : MvccValue) (vs : List (ℕ × MvccValue))
    → get_txn_commit_info vs v.start_ts ≡ none
    → get_txn_commit_info (insert_version ver v vs) v.start_ts ≡ some v
unfolding insert_version get_txn_commit_info
get_txn_commit_info-insert ver v [] h = ground arith
get_txn_commit_info-insert ver v ((u, x) ∷ vs) h =
    ground (arith, get_txn_commit_info-insert ver v vs)
