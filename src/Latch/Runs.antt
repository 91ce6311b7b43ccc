-- ===== src/Latch/Runs.antt =====
-- `acquire` and `release` run to the end of their loops.
use client_go.Base.{
  ℕ, zero, suc, ◌≡◌, ◌≤◌, refl, ap, ◌⊎◌, inl, inr, true, Bool-cases, ltb, Option, none, some, List,
  [], ◌∷◌, ◌++◌, Bytes, arith,
}
use client_go.Latch.{
  Request, Node, Latch, AcquireResult, acquire_success, acquire_locked, acquire_stale, find_node,
  is_free, acquire_latch, acquire_found, recycled,
}
use client_go.Latch.Table.{
  Latches, update, acquire_slot, acquire_at, after_acquire, acquire_loop, acquire, length_of,
}
use client_go.Latch.Holders.{if_same, wanted_cases}

abbrev pub Contains : ℕ → List ℕ → Type 0
Contains i [] = ⊥
Contains i (j ∷ js) = (i ≡ j) ⊎ Contains i js

add_last-Contains : (i : ℕ) (js : List ℕ) → Contains i (js ++ (i ∷ []))
add_last-Contains i [] = inl refl
add_last-Contains i (j ∷ js) = inr (add_last-Contains i js)

-- The latch has a value at the key, and the lock in its waiting list.
abbrev pub Queued : Latch → ℕ → Bytes → Type 0
Queued l i key =
    ((n : Node) × ((v : ℕ) × ((find_node l.queue key ≡ some n) × (n.value ≡ some v))))
    × Contains i l.waiting

value_cases : (o : Option ℕ) → (is_free o ≡ true) ⊎ ((v : ℕ) × (o ≡ some v))
value_cases none = inl refl
value_cases (some v) = inr (v, refl)

found-Queued :
    (l : Latch) (lock : ℕ) (key : Bytes) (ts : ℕ) (o : Option Node)
    → find_node l.queue key ≡ o
    → (acquire_found l lock key ts o).1 ≡ acquire_locked
    → Queued (acquire_found l lock key ts o).0 lock key
unfolding acquire_found
found-Queued l lock key ts none found e = cc
found-Queued l lock key ts (some n) found e = elim (Bool-cases (ltb ts n.max_commit_ts)) [
  | inl stale ↦ absurd (cc (rw stale at e))
  | inr fresh ↦ elim (value_cases n.value) [
    | inl free ↦ absurd (cc (rw (fresh, free) at e))
    | inr (v, busy) ↦ rw (fresh, busy) ((n, (v, (found, busy))), add_last-Contains lock l.waiting)
  ]
]

acquire_latch-Queued :
    (l : Latch) (lock : ℕ) (key : Bytes) (ts : ℕ)
    → (acquire_latch l lock key ts).1 ≡ acquire_locked
    → Queued (acquire_latch l lock key ts).0 lock key
unfolding acquire_latch
acquire_latch-Queued l lock key ts e =
    let l' : Latch = recycled ts l in found-Queued l' lock key ts (find_node l'.queue key) refl e

-- What an attempt leaves, by its result.
abbrev pub Outcome : Latches → ℕ → AcquireResult → Type 0
Outcome s i acquire_success = (s.locks i).wanted ≡ []
Outcome s i acquire_stale = (s.locks i).is_stale ≡ true
Outcome s i acquire_locked =
    (r : Request) × ((rest : List Request) × (((s.locks i).wanted ≡ r ∷ rest)
        × Queued (s.slots r.slot_id) i r.key))

abbrev SlotOutcome : Latches → ℕ → List Request → AcquireResult → Type 0
SlotOutcome s i rest acquire_success = (s.locks i).wanted ≡ rest
SlotOutcome s i rest acquire_stale = Outcome s i acquire_stale
SlotOutcome s i rest acquire_locked = Outcome s i acquire_locked

attempt :
    (s : Latches) (i : ℕ) (r : Request) (rest : List Request) (latch : Latch)
    (result : AcquireResult)
    → (s.locks i).wanted ≡ r ∷ rest
    → ((result ≡ acquire_locked) → Queued latch i r.key)
    → SlotOutcome
        (record {
          slots = update s.slots r.slot_id latch;
          locks = update s.locks i (after_acquire (s.locks i) r rest result);
        })
        i
        rest
        result
unfolding after_acquire
attempt s i r rest latch acquire_success wants q = rw (if_same i i refl) refl
attempt s i r rest latch acquire_stale wants q = rw (if_same i i refl) refl
attempt s i r rest latch acquire_locked wants q =
    (r, (rest, (rw (if_same i i refl) wants, rw (if_same r.slot_id r.slot_id refl) (q refl))))

acquire_slot_ends :
    (s : Latches) (i : ℕ) (r : Request) (rest : List Request)
    → (s.locks i).wanted ≡ r ∷ rest
    → (s' : Latches) × ((result : AcquireResult) × ((acquire_slot s i ≡ some (s', result))
          × SlotOutcome s' i rest result))
unfolding acquire_slot acquire_at
acquire_slot_ends s i r rest wants =
    let l : Latch = s.slots r.slot_id in
    let p = acquire_latch l i r.key (s.locks i).start_ts in
    (
      record {
        slots = update s.slots r.slot_id p.0;
        locks = update s.locks i (after_acquire (s.locks i) r rest p.1);
      },
      (
        p.1,
        (
          ap (acquire_at s i (s.locks i)) wants,
          attempt s i r rest p.0 p.1 wants (acquire_latch-Queued l i r.key (s.locks i).start_ts),
        ),
      ),
    )

abbrev Ends : Option (Latches × AcquireResult) → ℕ → Type 0
Ends o i =
    (s' : Latches) × ((result : AcquireResult) × ((o ≡ some (s', result)) × Outcome s' i result))

loop_done :
    (rounds : ℕ) (s : Latches) (i : ℕ)
    → (s.locks i).wanted ≡ []
    → acquire_loop rounds s i ≡ some (s, acquire_success)
unfolding acquire_loop
loop_done zero s i nothing = refl
loop_done (suc rounds) s i nothing = rw (nothing, acquire_loop) refl

loop_on :
    (rounds : ℕ) (s s' : Latches) (i : ℕ) (r : Request) (rest : List Request)
    → (s.locks i).wanted ≡ r ∷ rest
    → acquire_slot s i ≡ some (s', acquire_success)
    → acquire_loop (suc rounds) s i ≡ acquire_loop rounds s' i
unfolding acquire_loop
loop_on rounds s s' i r rest wants runs = rw (wants, runs, acquire_loop) refl

loop_locked :
    (rounds : ℕ) (s s' : Latches) (i : ℕ) (r : Request) (rest : List Request)
    → (s.locks i).wanted ≡ r ∷ rest
    → acquire_slot s i ≡ some (s', acquire_locked)
    → acquire_loop (suc rounds) s i ≡ some (s', acquire_locked)
unfolding acquire_loop
loop_locked rounds s s' i r rest wants runs = rw (wants, runs, acquire_loop) refl

loop_stale :
    (rounds : ℕ) (s s' : Latches) (i : ℕ) (r : Request) (rest : List Request)
    → (s.locks i).wanted ≡ r ∷ rest
    → acquire_slot s i ≡ some (s', acquire_stale)
    → acquire_loop (suc rounds) s i ≡ some (s', acquire_stale)
unfolding acquire_loop
loop_stale rounds s s' i r rest wants runs = rw (wants, runs, acquire_loop) refl

loop_next :
    (rounds : ℕ) (s s' : Latches) (i : ℕ) (r : Request) (rest : List Request)
    (result : AcquireResult)
    → (s.locks i).wanted ≡ r ∷ rest
    → acquire_slot s i ≡ some (s', result)
    → SlotOutcome s' i rest result
    → ((s'.locks i).wanted ≡ rest → Ends (acquire_loop rounds s' i) i)
    → Ends (acquire_loop (suc rounds) s i) i
loop_next rounds s s' i r rest acquire_success wants runs left later =
    rw (loop_on rounds s s' i r rest wants runs) (later left)
loop_next rounds s s' i r rest acquire_stale wants runs left later =
    (s', (acquire_stale, (loop_stale rounds s s' i r rest wants runs, left)))
loop_next rounds s s' i r rest acquire_locked wants runs left later =
    (s', (acquire_locked, (loop_locked rounds s s' i r rest wants runs, left)))

acquire_loop-Ends :
    (rounds : ℕ) (s : Latches) (i : ℕ)
    → length_of (s.locks i).wanted ≤ rounds
    → Ends (acquire_loop rounds s i) i
acquire_loop-Ends zero s i h = elim (wanted_cases (s.locks i).wanted) [
  | inl nothing ↦ (s, (acquire_success, (loop_done 0 s i nothing, nothing)))
  | inr (r, (rest, wants)) ↦ absurd (omega (arith, rw wants at h))
]
acquire_loop-Ends (suc rounds) s i h = elim (wanted_cases (s.locks i).wanted) [
  | inl nothing ↦ (s, (acquire_success, (loop_done (suc rounds) s i nothing, nothing)))
  | inr (r, (rest, wants)) ↦
      let fewer : length_of rest ≤ rounds = omega (arith, rw wants at h) in
      let (s', (result, (runs, left))) = acquire_slot_ends s i r rest wants in
      loop_next rounds s s' i r rest result wants runs left
        (λ e. acquire_loop-Ends rounds s' i (rw e fewer))
]

-- `acquire` returns from any state: success with no key left to acquire, stale with the lock marked
-- as stale, or locked with some lock as the value of the next key's node and this lock in the waiting
-- list of its latch.
pub acquire_ends :
    (s : Latches) (i : ℕ)
    → (s' : Latches) × ((result : AcquireResult) × ((acquire s i ≡ some (s', result))
          × Outcome s' i result))
unfolding acquire
acquire_ends s i = elim (Bool-cases (s.locks i).is_stale) [
  | inl stale ↦ rw stale (s, (acquire_stale, (refl, stale)))
  | inr fresh ↦ rw fresh (acquire_loop-Ends (length_of (s.locks i).wanted) s i (omega arith))
]
