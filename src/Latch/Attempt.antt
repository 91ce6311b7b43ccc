-- ===== src/Latch/Attempt.antt =====
-- What an attempt to acquire all keys ends with, in the states that calls reach.
use client_go.Base.{
  ℕ, zero, suc, ◌≡◌, ◌≢◌, inl, inr, true, Bool-cases, Option-cases, some, List, [], ◌∷◌, Bytes,
}
use client_go.Latch.{Request, AcquireResult, acquire_success, acquire_locked, acquire_stale}
use client_go.Latch.Table.{Latches, acquire_slot, acquire_loop, acquire, length_of}
use client_go.Latch.Requests.{HasKey, NoRepeat, acquired-Before, not-Before_self}
use client_go.Latch.Holders.{Holding, wanted_cases}
use client_go.Latch.Reached.{Reached, then_step, acquires, Reached-Holding}
use client_go.Latch.Runs.{Contains, Outcome, acquire_ends}

module _ (sum_32 : Bytes → ℕ) (size : ℕ) (start_ts : ℕ → ℕ) (keys : ℕ → List Bytes) where
  go_on :
      (rounds : ℕ) (t s' : Latches) (i : ℕ) (u result : AcquireResult)
      → Reached sum_32 size start_ts keys t
      → (elim u [
        | acquire_success ↦ acquire_loop rounds t i
        | acquire_locked ↦ some (t, acquire_locked)
        | acquire_stale ↦ some (t, acquire_stale)
      ])
        ≡ some (s', result)
      → (acquire_loop rounds t i ≡ some (s', result) → Reached sum_32 size start_ts keys s')
      → Reached sum_32 size start_ts keys s'
  go_on rounds t s' i acquire_success result reached e later = later e
  go_on rounds t s' i acquire_locked result reached e later =
      let state : t ≡ s' = cc e in rw (← state) reached
  go_on rounds t s' i acquire_stale result reached e later =
      let state : t ≡ s' = cc e in rw (← state) reached

  acquire_loop-Reached :
      (rounds : ℕ) (s s' : Latches) (i : ℕ) (result : AcquireResult)
      → Reached sum_32 size start_ts keys s
      → acquire_loop rounds s i ≡ some (s', result)
      → Reached sum_32 size start_ts keys s'
  unfolding acquire_loop
  acquire_loop-Reached zero s s' i result reached e =
      let state : s ≡ s' = cc e in rw (← state) reached
  acquire_loop-Reached (suc rounds) s s' i result reached e =
      elim (wanted_cases (s.locks i).wanted) [
        | inl nothing ↦
            let state : s ≡ s' = cc (rw (nothing, acquire_loop) at e) in rw (← state) reached
        | inr (r, (rest, wants)) ↦ elim (Option-cases (acquire_slot s i)) [
          | inl panics ↦ absurd (cc (rw (wants, panics, acquire_loop) at e))
          | inr ((t, u), runs) ↦
              let reached' = then_step s t reached (acquires s t i u runs) in
              go_on rounds t s' i u result reached' (rw (wants, runs, acquire_loop) at e)
                (acquire_loop-Reached rounds t s' i result reached')
        ]
      ]

  acquire-Reached :
      (s s' : Latches) (i : ℕ) (result : AcquireResult)
      → Reached sum_32 size start_ts keys s
      → acquire s i ≡ some (s', result)
      → Reached sum_32 size start_ts keys s'
  unfolding acquire
  acquire-Reached s s' i result reached e = elim (Bool-cases (s.locks i).is_stale) [
    | inl stale ↦ let state : s ≡ s' = cc (rw stale at e) in rw (← state) reached
    | inr fresh ↦
        acquire_loop-Reached (length_of (s.locks i).wanted) s s' i result reached (rw fresh at e)
  ]

  -- What the attempt leaves, by its result. A lock that has to wait is in the waiting list of the latch
  -- of its next key, which another lock has acquired.
  abbrev pub Attempted : Latches → ℕ → AcquireResult → Type 0
  Attempted s i acquire_success = (s.locks i).wanted ≡ []
  Attempted s i acquire_stale = (s.locks i).is_stale ≡ true
  Attempted s i acquire_locked =
      (r : Request) × ((rest : List Request) × (((s.locks i).wanted ≡ r ∷ rest)
          × Contains i (s.slots r.slot_id).waiting
          × ((holder : ℕ) × (holder ≢ i) × HasKey (s.locks holder).acquired r.key)))

  Outcome-Attempted :
      (s : Latches) (i : ℕ) (result : AcquireResult)
      → Holding sum_32 size s
      → Outcome s i result
      → Attempted s i result
  Outcome-Attempted s i acquire_success h o = o
  Outcome-Attempted s i acquire_stale h o = o
  Outcome-Attempted s i acquire_locked h (r, (rest, (wants, ((n, (v, (found, busy))), queued)))) =
      let routed = rw wants at (h.routed i).1 in
      let has : HasKey (s.locks v).acquired r.key =
        h.owned v r.key (n, rw routed.0 at found, busy) in
      let other = (λ (same : v ≡ i). not-Before_self r.key (
        acquired-Before (s.locks i).acquired r.key r rest (rw wants at (h.ordered i).between)
          (rw same at has))) in
      (r, (rest, (wants, queued, (v, other, has))))

  -- In every state that calls of the latches reach, in any order, when no list of keys has a key twice:
  -- `acquire` returns, in a state that is reached too, and with one of three results. On success no key
  -- is left to acquire. A stale result comes with the lock marked as stale. A locked result comes with
  -- the lock in the waiting list of the latch of its next key, and that key is acquired by another lock.
  pub acquire-Attempted :
      (s : Latches) (i : ℕ)
      → ((i : ℕ) → NoRepeat (keys i))
      → Reached sum_32 size start_ts keys s
      → (s' : Latches) × ((result : AcquireResult) × ((acquire s i ≡ some (s', result))
            × Attempted s' i result
            × Reached sum_32 size start_ts keys s'))
  acquire-Attempted s i n reached =
      let (s', (result, (runs, outcome))) = acquire_ends s i in
      let reached' = acquire-Reached s s' i result reached runs in
      (
        s',
        (
          result,
          (
            runs,
            Outcome-Attempted s' i result (Reached-Holding sum_32 size start_ts keys s' n reached')
                outcome,
            reached',
          ),
        ),
      )
