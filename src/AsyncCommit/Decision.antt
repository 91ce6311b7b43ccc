-- ===== src/AsyncCommit/Decision.antt =====
-- What the responses decide, in whatever order they come.
use client_go.Base.{
  ℕ, ◌≤◌, ◌≡◌, refl, ◌∙◌, sym, ap, ◌⊎◌, inl, inr, Bool, true, false, Bool-cases, if◌then◌else◌, ltb,
  Option, none, some, List, [], ◌∷◌, Bytes, All, arith,
}
use mathlib.Core.Path.{subst}
use client_go.AsyncCommit.{
  CheckedLock, AsyncResolveData, AddError, Response, is_short, add_missing, add_keys, add_all,
}
use client_go.AsyncCommit.Steps.{
  highest_of, highest, any_short, Agrees, data_of, add_locks-frozen, add_locks-growing,
  add_missing-frozen, add_missing-first,
}

first_of_run :
    (start_ts : ℕ) (final : AsyncResolveData) (responses : List Response)
    (p : AsyncResolveData × Option AddError)
    → (elim p.1 as (λ x. AsyncResolveData × Option AddError) [
      | none ↦ add_all start_ts p.0 responses
      | some e ↦ (p.0, some e)
    ])
      ≡ (final, none)
    → (p ≡ (p.0, none)) × (add_all start_ts p.0 responses ≡ (final, none))
first_of_run start_ts final responses (d, none) h = (refl, h)
first_of_run start_ts final responses (d, some e) h = absurd (cc (ap (λ p. p.1) h))

add_all-first :
    (start_ts : ℕ) (d final : AsyncResolveData) (r : Response) (responses : List Response)
    → add_all start_ts d (r ∷ responses) ≡ (final, none)
    → (next : AsyncResolveData) × ((add_keys start_ts d r ≡ (next, none))
        × (add_all start_ts next responses ≡ (final, none)))
unfolding add_all
add_all-first start_ts d final r responses h =
    let p = add_keys start_ts d r in
    let (ran, rest) = first_of_run start_ts final responses p h in (p.0, (ran, rest))

frozen_step :
    (start_ts ts : ℕ) (keys : List Bytes) (next : AsyncResolveData) (r : Response)
    → add_keys start_ts (data_of ts keys true) r ≡ (next, none)
    → (next.missing_lock ≡ true) × (next.commit_ts ≡ ts) × Agrees ts r
unfolding add_keys
frozen_step start_ts ts keys next r h = elim (Bool-cases (is_short r)) [
  | inl short ↦
      let (m, c, same) = add_missing-frozen ts r.commit_ts keys next (rw short at h) in
      (m, c, rw short same)
  | inr whole ↦
      let (m, c) = add_locks-frozen start_ts ts keys next r.locks (rw whole at h) in
      (m, c, rw whole tt)
]

same_data :
    (d : AsyncResolveData) (ts : ℕ) (missing : Bool)
    → d.missing_lock ≡ missing
    → d.commit_ts ≡ ts
    → d ≡ data_of ts d.keys missing
same_data d ts missing m c = rw (← m, ← c) refl

frozen_run :
    (start_ts ts : ℕ) (keys : List Bytes) (final : AsyncResolveData) (responses : List Response)
    → add_all start_ts (data_of ts keys true) responses ≡ (final, none)
    → (final.missing_lock ≡ true) × (final.commit_ts ≡ ts) × All (Agrees ts) responses
unfolding add_all
frozen_run start_ts ts keys final [] h =
    let same : data_of ts keys true ≡ final = ap (λ p. p.0) h in rw (← same) (refl, refl, tt)
frozen_run start_ts ts keys final (r ∷ responses) h =
    let (next, (ran, rest)) = add_all-first start_ts (data_of ts keys true) final r responses h in
    let (m, c, agrees) = frozen_step start_ts ts keys next r ran in
    let rest' = sym (ap (λ d. add_all start_ts d responses) (same_data next ts true m c)) ∙ rest in
    let (fm, fc, all) = frozen_run start_ts ts next.keys final responses rest' in
    (fm, fc, (agrees, all))

highest_of_above : (ts : ℕ) (locks : List CheckedLock) → ts ≤ highest_of ts locks
highest_of_above ts [] = omega arith
highest_of_above ts (l ∷ locks) =
    let later = highest_of_above (if ltb ts l.min_commit_ts then l.min_commit_ts else ts) locks in
    elim (Bool-cases (ltb ts l.min_commit_ts)) [
      | inl higher ↦ ground (arith, higher, later)
      | inr lower ↦ ground (arith, lower, later)
    ]

-- What is decided: the commit timestamp that a missing lock reports, else the highest minimal one; in
-- no case one below the timestamp of the primary, unless the transaction is rolled back.
abbrev pub IsDecided : ℕ → AsyncResolveData → List Response → Type 0
IsDecided ts final responses =
    (final.missing_lock ≡ any_short responses)
    × All (Agrees final.commit_ts) responses
    × ((any_short responses ≡ true) ⊎ (final.commit_ts ≡ highest ts responses))
    × ((final.commit_ts ≡ 0) ⊎ (ts ≤ final.commit_ts))

IsDecided-short :
    (start_ts ts : ℕ) (keys : List Bytes) (next final : AsyncResolveData) (r : Response)
    (responses : List Response)
    → is_short r ≡ true
    → add_missing (data_of ts keys false) r.commit_ts ≡ (next, none)
    → add_all start_ts next responses ≡ (final, none)
    → IsDecided ts final (r ∷ responses)
IsDecided-short start_ts ts keys next final r responses short ran rest =
    let (m, c, low) = add_missing-first ts r.commit_ts keys next ran in
    let rest' =
      sym (ap (λ d. add_all start_ts d responses) (same_data next r.commit_ts true m c)) ∙ rest in
    let (fm, fc, all) = frozen_run start_ts r.commit_ts next.keys final responses rest' in
    (
      rw (short, fm) refl,
      (rw short (sym fc), subst (λ (t : ℕ). All (Agrees t) responses) (sym fc) all),
      inl (rw short refl),
      rw fc low,
    )

IsDecided-run :
    (start_ts ts : ℕ) (keys : List Bytes) (final : AsyncResolveData) (responses : List Response)
    → add_all start_ts (data_of ts keys false) responses ≡ (final, none)
    → IsDecided ts final responses
unfolding add_all add_keys
IsDecided-run start_ts ts keys final [] h =
    let same : data_of ts keys false ≡ final = ap (λ p. p.0) h in
    rw (← same) (refl, tt, inr refl, inr (omega arith))
IsDecided-run start_ts ts keys final (r ∷ responses) h =
    let (next, (ran, rest)) = add_all-first start_ts (data_of ts keys false) final r responses h in
    elim (Bool-cases (is_short r)) [
      | inl short ↦
          IsDecided-short start_ts ts keys next final r responses short (rw short at ran) rest
      | inr whole ↦
          let (m, c) = add_locks-growing start_ts ts keys next r.locks (rw whole at ran) in
          let rest' =
            sym (
              ap (λ d. add_all start_ts d responses)
                (same_data next (highest_of ts r.locks) false m c))
            ∙ rest in
          let (fm, all, ts_of, low) =
            IsDecided-run start_ts (highest_of ts r.locks) next.keys final responses rest' in
          let above = highest_of_above ts r.locks in
          (
            rw whole fm,
            (rw whole tt, all),
            rw whole ts_of,
            elim low [ inl zero_ts ↦ inl zero_ts | inr le ↦ inr (omega (arith, le, above)) ],
          )
    ]

-- When no response to `checkSecondaries` gives an error, in the order in which they come, and no lock was
-- missing before: a lock is missing at the end exactly if it is in a response, every such response reports the commit
-- timestamp that is decided, without one it is the highest of the primary's and of all minimal commit
-- timestamps, and it is 0 or not below the primary's.
pub add_all_decides :
    (start_ts : ℕ) (data' final : AsyncResolveData) (responses : List Response)
    → data'.missing_lock ≡ false
    → add_all start_ts data' responses ≡ (final, none)
    → IsDecided data'.commit_ts final responses
add_all_decides start_ts data' final responses none_missing h =
    IsDecided-run start_ts data'.commit_ts data'.keys final responses (
      sym (
        ap (λ d. add_all start_ts d responses)
          (same_data data' data'.commit_ts false none_missing refl))
      ∙ h)
