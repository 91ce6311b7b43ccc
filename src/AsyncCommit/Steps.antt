-- ===== src/AsyncCommit/Steps.antt =====
-- What one response adds.
use client_go.Base.{
  ℕ, ◌≤◌, ◌≡◌, refl, ap, ◌⊎◌, inl, inr, Bool, true, false, Bool-cases, not, if◌then◌else◌, ltb,
  ◌==◌, ◌&&◌, ◌||◌, none, List, [], ◌∷◌, ◌++◌, Bytes, arith,
}
use client_go.AsyncCommit.{
  CheckedLock, AsyncResolveData, Response, is_short, same_commit_ts, add_missing, add_lock,
  add_locks,
}

-- The highest of a timestamp and the minimal commit timestamps of the locks.
abbrev pub highest_of : ℕ → List CheckedLock → ℕ
highest_of ts [] = ts
highest_of ts (l ∷ locks) =
    highest_of (if ltb ts l.min_commit_ts then l.min_commit_ts else ts) locks

abbrev pub highest : ℕ → List Response → ℕ
highest ts [] = ts
highest ts (r ∷ responses) = highest (highest_of ts r.locks) responses

abbrev pub any_short : List Response → Bool
any_short [] = false
any_short (r ∷ responses) = is_short r || any_short responses

-- A response in which a lock is missing reports the commit timestamp that is decided.
abbrev Agreed : Bool → ℕ → Response → Type 0
Agreed true ts r = r.commit_ts ≡ ts
Agreed false ts r = Unit {0}

abbrev pub Agrees : ℕ → Response → Type 0
Agrees ts r = Agreed (is_short r) ts r

abbrev pub data_of : ℕ → List Bytes → Bool → AsyncResolveData
data_of ts keys missing = record { commit_ts = ts; keys = keys; missing_lock = missing }

-- A lock that is added without an error.
add_locks-later :
    (start_ts : ℕ) (d final : AsyncResolveData) (l : CheckedLock) (locks : List CheckedLock)
    → add_locks start_ts d (l ∷ locks) ≡ (final, none)
    → add_locks start_ts (add_lock d l) locks ≡ (final, none)
unfolding add_locks
add_locks-later start_ts d final l locks h = elim (Bool-cases (l.lock_version == start_ts)) [
  | inr other ↦ absurd (cc (ap (λ p. p.1) (rw other at h)))
  | inl own ↦ elim (Bool-cases l.use_async_commit) [
    | inr plain ↦ absurd (cc (ap (λ p. p.1) (rw (own, plain) at h)))
    | inl async ↦ rw (own, async) at h
  ]
]

-- With a lock missing the decision stands.
pub add_locks-frozen :
    (start_ts ts : ℕ) (keys : List Bytes) (final : AsyncResolveData) (locks : List CheckedLock)
    → add_locks start_ts (data_of ts keys true) locks ≡ (final, none)
    → (final.missing_lock ≡ true) × (final.commit_ts ≡ ts)
unfolding add_locks
add_locks-frozen start_ts ts keys final [] h =
    let same : data_of ts keys true ≡ final = ap (λ p. p.0) h in rw (← same) (refl, refl)
add_locks-frozen start_ts ts keys final (l ∷ locks) h =
    add_locks-frozen start_ts ts (keys ++ (l.key ∷ [])) final locks
      (add_locks-later start_ts (data_of ts keys true) final l locks h)

pub add_locks-growing :
    (start_ts ts : ℕ) (keys : List Bytes) (final : AsyncResolveData) (locks : List CheckedLock)
    → add_locks start_ts (data_of ts keys false) locks ≡ (final, none)
    → (final.missing_lock ≡ false) × (final.commit_ts ≡ highest_of ts locks)
unfolding add_locks
add_locks-growing start_ts ts keys final [] h =
    let same : data_of ts keys false ≡ final = ap (λ p. p.0) h in rw (← same) (refl, refl)
add_locks-growing start_ts ts keys final (l ∷ locks) h =
    add_locks-growing start_ts (if ltb ts l.min_commit_ts then l.min_commit_ts else ts)
      (keys ++ (l.key ∷ [])) final locks
      (add_locks-later start_ts (data_of ts keys false) final l locks h)

-- A response in which a lock is missing decides the commit timestamp, or agrees with it.
same_commit_ts-decides :
    (ts commit_ts : ℕ) (keys : List Bytes) (missing : Bool) (final : AsyncResolveData)
    → same_commit_ts (data_of ts keys missing) commit_ts ≡ (final, none)
    → (final.missing_lock ≡ true) × (final.commit_ts ≡ ts) × (commit_ts ≡ ts)
same_commit_ts-decides ts commit_ts keys missing final h = elim (Bool-cases (ts == commit_ts)) [
  | inr differ ↦ absurd (cc (ap (λ p. p.1) (rw differ at h)))
  | inl same ↦
      let done : data_of ts keys true ≡ final = ap (λ p. p.0) h in
      rw (← done) (refl, refl, ground (arith, same))
]

pub add_missing-frozen :
    (ts commit_ts : ℕ) (keys : List Bytes) (final : AsyncResolveData)
    → add_missing (data_of ts keys true) commit_ts ≡ (final, none)
    → (final.missing_lock ≡ true) × (final.commit_ts ≡ ts) × (commit_ts ≡ ts)
unfolding add_missing
add_missing-frozen ts commit_ts keys final h = same_commit_ts-decides ts commit_ts keys true final h

pub add_missing-first :
    (ts commit_ts : ℕ) (keys : List Bytes) (final : AsyncResolveData)
    → add_missing (data_of ts keys false) commit_ts ≡ (final, none)
    → (final.missing_lock ≡ true)
      × (final.commit_ts ≡ commit_ts)
      × ((commit_ts ≡ 0) ⊎ (ts ≤ commit_ts))
unfolding add_missing
add_missing-first ts commit_ts keys final h =
    elim (Bool-cases (not (commit_ts == 0) && ltb commit_ts ts)) [
      | inl low ↦ absurd (cc (ap (λ p. p.1) (rw low at h)))
      | inr fine ↦
          let (missing, decided, _) =
            same_commit_ts-decides commit_ts commit_ts keys false final (rw fine at h) in
          (missing, decided, ground (arith, fine))
    ]
