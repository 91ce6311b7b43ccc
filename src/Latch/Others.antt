-- ===== src/Latch/Others.antt =====
-- What an attempt of one lock leaves of the others, and of the waiting lists.
use client_go.Base.{
  ℕ, zero, suc, ◌≡◌, refl, ◌∙◌, sym, ap, inl, inr, false, ◌==◌, Bool-cases, Option-cases, ltb,
  Option, none, some, List, [], ◌∷◌, ◌++◌, Bytes,
}
use client_go.Latch.{
  Node, Latch, AcquireResult, acquire_success, acquire_locked, acquire_stale, find_node, is_free,
  acquire_latch, acquire_found, recycled,
}
use client_go.Latch.Table.{
  Latches, update, acquire_slot, acquire_at, after_acquire, acquire_loop, acquire, length_of,
}
use client_go.Latch.Queue.{recycled-waiting}
use client_go.Latch.Holders.{if_same, nat_dec, wanted_cases}
use client_go.Latch.Runs.{Contains}

append-Contains : (i j : ℕ) (js : List ℕ) → Contains i js → Contains i (js ++ (j ∷ []))
append-Contains i j [] h = elim h [ ]
append-Contains i j (k ∷ js) (inl e) = inl e
append-Contains i j (k ∷ js) (inr h) = inr (append-Contains i j js h)

found_keeps :
    (l : Latch) (lock : ℕ) (key : Bytes) (ts j : ℕ) (o : Option Node)
    → Contains j l.waiting
    → Contains j (acquire_found l lock key ts o).0.waiting
unfolding acquire_found
found_keeps l lock key ts j none h = h
found_keeps l lock key ts j (some n) h = elim (Bool-cases (ltb ts n.max_commit_ts)) [
  | inl stale ↦ rw stale h
  | inr fresh ↦ elim (Bool-cases (is_free n.value)) [
    | inl free ↦ rw (fresh, free) h
    | inr busy ↦ rw (fresh, busy) (append-Contains j lock l.waiting h)
  ]
]

acquire_latch_keeps :
    (l : Latch) (lock : ℕ) (key : Bytes) (ts j : ℕ)
    → Contains j l.waiting
    → Contains j (acquire_latch l lock key ts).0.waiting
unfolding acquire_latch
acquire_latch_keeps l lock key ts j h =
    let l' : Latch = recycled ts l in
    found_keeps l' lock key ts j (find_node l'.queue key) (rw (recycled-waiting ts l) h)

-- The lock is in some waiting list.
abbrev pub IsWaiting : Latches → ℕ → Type 0
IsWaiting s j = (at : ℕ) × Contains j (s.slots at).waiting

acquire_slot_keeps :
    (s s' : Latches) (i j : ℕ) (result : AcquireResult)
    → acquire_slot s i ≡ some (s', result)
    → IsWaiting s j
    → IsWaiting s' j
unfolding acquire_slot acquire_at
acquire_slot_keeps s s' i j result e (at, h) = elim (wanted_cases (s.locks i).wanted) [
  | inl nothing ↦ absurd (cc (rw (nothing, acquire_at) at e))
  | inr (r, (rest, wants)) ↦
      let p = acquire_latch (s.slots r.slot_id) i r.key (s.locks i).start_ts in
      let after : Latches = record {
        slots = update s.slots r.slot_id p.0;
        locks = update s.locks i (after_acquire (s.locks i) r rest p.1);
      } in
      let runs : some (after, p.1) ≡ some (s', result) =
        sym (ap (acquire_at s i (s.locks i)) wants) ∙ e in
      let state : after ≡ s' = cc runs in
      rw (← state) (
        at,
        elim (nat_dec r.slot_id at) [
          | inl here ↦
              rw (if_same r.slot_id at here)
                (acquire_latch_keeps (s.slots r.slot_id) i r.key (s.locks i).start_ts j (rw here h))
          | inr other ↦ rw other h
        ],
      )
]

abbrev next_round : ℕ → Latches → ℕ → AcquireResult → Option (Latches × AcquireResult)
next_round rounds t i acquire_success = acquire_loop rounds t i
next_round rounds t i acquire_locked = some (t, acquire_locked)
next_round rounds t i acquire_stale = some (t, acquire_stale)

loop_keeps :
    (rounds : ℕ) (s t s' : Latches) (i j : ℕ) (u result : AcquireResult)
    → IsWaiting t j
    → next_round rounds t i u ≡ some (s', result)
    → (acquire_loop rounds t i ≡ some (s', result) → IsWaiting t j → IsWaiting s' j)
    → IsWaiting s' j
loop_keeps rounds s t s' i j acquire_success result h e later = later e h
loop_keeps rounds s t s' i j acquire_locked result h e later =
    let state : t ≡ s' = cc e in rw (← state) h
loop_keeps rounds s t s' i j acquire_stale result h e later =
    let state : t ≡ s' = cc e in rw (← state) h

acquire_loop_keeps :
    (rounds : ℕ) (s s' : Latches) (i j : ℕ) (result : AcquireResult)
    → acquire_loop rounds s i ≡ some (s', result)
    → IsWaiting s j
    → IsWaiting s' j
unfolding acquire_loop
acquire_loop_keeps zero s s' i j result e h = let state : s ≡ s' = cc e in rw (← state) h
acquire_loop_keeps (suc rounds) s s' i j result e h = elim (wanted_cases (s.locks i).wanted) [
  | inl nothing ↦ let state : s ≡ s' = cc (rw (nothing, acquire_loop) at e) in rw (← state) h
  | inr (r, (rest, wants)) ↦ elim (Option-cases (acquire_slot s i)) [
    | inl panics ↦ absurd (cc (rw (wants, panics, acquire_loop) at e))
    | inr ((t, u), runs) ↦
        loop_keeps rounds s t s' i j u result (acquire_slot_keeps s t i j u runs h)
          (rw (wants, runs, acquire_loop) at e) (acquire_loop_keeps rounds t s' i j result)
  ]
]

pub acquire_keeps :
    (s s' : Latches) (i j : ℕ) (result : AcquireResult)
    → acquire s i ≡ some (s', result)
    → IsWaiting s j
    → IsWaiting s' j
unfolding acquire
acquire_keeps s s' i j result e h = elim (Bool-cases (s.locks i).is_stale) [
  | inl stale ↦ let state : s ≡ s' = cc (rw stale at e) in rw (← state) h
  | inr fresh ↦ acquire_loop_keeps (length_of (s.locks i).wanted) s s' i j result (rw fresh at e) h
]

acquire_slot_apart :
    (s s' : Latches) (i j : ℕ) (result : AcquireResult)
    → (i == j) ≡ false
    → acquire_slot s i ≡ some (s', result)
    → s'.locks j ≡ s.locks j
unfolding acquire_slot acquire_at
acquire_slot_apart s s' i j result apart e = elim (wanted_cases (s.locks i).wanted) [
  | inl nothing ↦ absurd (cc (rw (nothing, acquire_at) at e))
  | inr (r, (rest, wants)) ↦
      let p = acquire_latch (s.slots r.slot_id) i r.key (s.locks i).start_ts in
      let after : Latches = record {
        slots = update s.slots r.slot_id p.0;
        locks = update s.locks i (after_acquire (s.locks i) r rest p.1);
      } in
      let runs : some (after, p.1) ≡ some (s', result) =
        sym (ap (acquire_at s i (s.locks i)) wants) ∙ e in
      let state : after ≡ s' = cc runs in rw (← state) (rw apart refl)
]

loop_apart :
    (rounds : ℕ) (t s' : Latches) (i j : ℕ) (u result : AcquireResult)
    → next_round rounds t i u ≡ some (s', result)
    → (acquire_loop rounds t i ≡ some (s', result) → s'.locks j ≡ t.locks j)
    → s'.locks j ≡ t.locks j
loop_apart rounds t s' i j acquire_success result e later = later e
loop_apart rounds t s' i j acquire_locked result e later =
    let state : t ≡ s' = cc e in rw (← state) refl
loop_apart rounds t s' i j acquire_stale result e later =
    let state : t ≡ s' = cc e in rw (← state) refl

acquire_loop_apart :
    (rounds : ℕ) (s s' : Latches) (i j : ℕ) (result : AcquireResult)
    → (i == j) ≡ false
    → acquire_loop rounds s i ≡ some (s', result)
    → s'.locks j ≡ s.locks j
unfolding acquire_loop
acquire_loop_apart zero s s' i j result apart e = let state : s ≡ s' = cc e in rw (← state) refl
acquire_loop_apart (suc rounds) s s' i j result apart e = elim (wanted_cases (s.locks i).wanted) [
  | inl nothing ↦ let state : s ≡ s' = cc (rw (nothing, acquire_loop) at e) in rw (← state) refl
  | inr (r, (rest, wants)) ↦ elim (Option-cases (acquire_slot s i)) [
    | inl panics ↦ absurd (cc (rw (wants, panics, acquire_loop) at e))
    | inr ((t, u), runs) ↦
        loop_apart rounds t s' i j u result (rw (wants, runs, acquire_loop) at e)
          (acquire_loop_apart rounds t s' i j result apart)
        ∙ acquire_slot_apart s t i j u apart runs
  ]
]

-- An attempt of one lock leaves the others as they are.
pub acquire_apart :
    (s s' : Latches) (i j : ℕ) (result : AcquireResult)
    → (i == j) ≡ false
    → acquire s i ≡ some (s', result)
    → s'.locks j ≡ s.locks j
unfolding acquire
acquire_apart s s' i j result apart e = elim (Bool-cases (s.locks i).is_stale) [
  | inl stale ↦ let state : s ≡ s' = cc (rw stale at e) in rw (← state) refl
  | inr fresh ↦
      acquire_loop_apart (length_of (s.locks i).wanted) s s' i j result apart (rw fresh at e)
]
