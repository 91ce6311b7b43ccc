-- ===== src/Latch/Scheduled.antt =====
-- The states that calls reach in the order that the scheduler keeps, and the search of `releaseSlot`.
use client_go.Base.{
  ℕ, ◌≡◌, refl, ◌∙◌, sym, ap, inl, inr, false, Bool-cases, Option-cases, Option, some, List, [],
  ◌∷◌, Bytes, bytes_eq,
}
use client_go.Latch.{
  Request, Lock, Woken, search_panics, release_latch, recycle, acquire_latch, AcquireResult,
}
use client_go.Latch.Table.{
  Latches, update, acquire_slot, acquire_at, after_acquire, release_slot, release_at, wake_lock,
  recycle_slot, set_commit_ts, new_latches,
}
use client_go.Latch.Holders.{if_same, nat_dec, wanted_cases}
use client_go.Latch.Runs.{Contains}
use client_go.Latch.Release.{gives_back}
use client_go.Latch.Reached.{
  Turn, acquires, releases, recycles, commits, Reached, at_first, then_step,
}
use client_go.Latch.Waiting.{NotWaiting, NextAt, Waits, acquire_latch-Queues, attempted-Waits}
use client_go.Latch.Departure.{
  Left, Unwoken, WokenFrom, release_latch-Left, still_waits, released-Waits,
}

next_there :
    (locks : ℕ → Lock) (key : Bytes) (at : ℕ) (waiting : List ℕ)
    → ((j : ℕ) → Contains j waiting → NextAt (locks j).wanted at)
    → search_panics locks key waiting ≡ false
unfolding search_panics
next_there locks key at [] h = refl
next_there locks key at (w ∷ waiting) h = elim (wanted_cases (locks w).wanted) [
  | inl nothing ↦ elim (rw nothing at (h w (inl refl))) [ ]
  | inr (r, (rest, wants)) ↦ elim (Bool-cases (bytes_eq r.key key)) [
    | inl hit ↦ rw (search_panics, wants) (rw hit refl)
    | inr miss ↦
        rw (search_panics, wants) (rw miss (next_there locks key at waiting (λ j k. h j (inr k))))
  ]
]

-- Where every lock in a waiting list waits for a key of the slot, the search finds no index out of
-- range.
pub Waits-search :
    (s : Latches) (i : ℕ) (r : Request) (rest : List Request)
    → Waits s
    → NotWaiting s i
    → search_panics (gives_back s i r rest) r.key (s.slots r.slot_id).waiting ≡ false
Waits-search s i r rest w absent =
    next_there (gives_back s i r rest) r.key r.slot_id (s.slots r.slot_id).waiting (λ j h.
      elim (nat_dec i j) [
        | inl same ↦ absurd (absent r.slot_id (rw same h))
        | inr other ↦ rw other (w.next r.slot_id j h)
      ])

acquire_turn-Waits :
    (s s' : Latches) (i : ℕ) (result : AcquireResult)
    → Waits s
    → NotWaiting s i
    → acquire_slot s i ≡ some (s', result)
    → Waits s'
unfolding acquire_slot acquire_at
acquire_turn-Waits s s' i result w absent e = elim (wanted_cases (s.locks i).wanted) [
  | inl nothing ↦ absurd (cc (rw (nothing, acquire_at) at e))
  | inr (r, (rest, wants)) ↦
      let p = acquire_latch (s.slots r.slot_id) i r.key (s.locks i).start_ts in
      let after : Latches = record {
        slots = update s.slots r.slot_id p.0;
        locks = update s.locks i (after_acquire (s.locks i) r rest p.1);
      } in
      let runs : some (after, p.1) ≡ some (s', result) =
        sym (ap (acquire_at s i (s.locks i)) wants) ∙ e in
      let state : after ≡ s' = cc runs in
      rw (← state) (
        attempted-Waits s i r rest p w absent wants
          (acquire_latch-Queues (s.slots r.slot_id) i r.key (s.locks i).start_ts))
]

-- Who waits after a release waited before, and was not woken; who was woken waited before.
abbrev pub Departs : Latches → Latches → Option Woken → Type 0
Departs s s' v =
    ((at j : ℕ) → Contains j (s'.slots at).waiting → Contains j (s.slots at).waiting × Unwoken j v)
    × ((at : ℕ) × WokenFrom (s.slots at).waiting v)

pub release_turn-Waits :
    (s s' : Latches) (i : ℕ) (woken : Option Woken)
    → Waits s
    → NotWaiting s i
    → release_slot s i ≡ some (s', woken)
    → Waits s' × Departs s s' woken
unfolding release_slot release_at
release_turn-Waits s s' i woken w absent e = elim (wanted_cases (s.locks i).acquired) [
  | inl nothing ↦ absurd (cc (rw (nothing, release_at) at e))
  | inr (r, (rest, has)) ↦
      let run =
        release_latch (gives_back s i r rest) (s.slots r.slot_id) i r.key (s.locks i).commit_ts in
      let e' : release_at s i (s.locks i) (r ∷ rest) ≡ some (s', woken) =
        sym (ap (release_at s i (s.locks i)) has) ∙ e in
      elim (Option-cases run) [
        | inl panics ↦ absurd (cc (rw (panics, release_at) at e'))
        | inr ((l, v), runs) ↦
            let after : Latches = record {
              slots = update s.slots r.slot_id l;
              locks = wake_lock (gives_back s i r rest) v;
            } in
            let same : some (after, v) ≡ some (s', woken) = rw (runs, release_at) at e' in
            let state : after ≡ s' = cc same in
            let which : v ≡ woken = cc same in
            let left : Left (s.slots r.slot_id).waiting l.waiting v =
              release_latch-Left (gives_back s i r rest) (s.slots r.slot_id) l i r.key
                (s.locks i).commit_ts v runs in
            rw (← state, ← which)
              (
                released-Waits s i r rest l v w absent left,
                (still_waits s i r rest l v w absent left, (r.slot_id, left.0)),
              )
      ]
]

recycle_slot-Waits : (s : Latches) (at ts : ℕ) → Waits s → Waits (recycle_slot s at ts)
unfolding recycle_slot recycle
recycle_slot-Waits s at ts w = record {
  once = λ b. elim (nat_dec at b) [
    | inl same ↦ rw (if_same at b same) (w.once at)
    | inr other ↦ rw other (w.once b)
  ];
  next = λ b j h. elim (nat_dec at b) [
    | inl same ↦ w.next b j (rw (← same) (rw (if_same at b same) at h))
    | inr other ↦ w.next b j (rw other at h)
  ];
}

set_commit_ts-Waits : (s : Latches) (i ts : ℕ) → Waits s → Waits (set_commit_ts s i ts)
unfolding set_commit_ts
set_commit_ts-Waits s i ts w = record {
  once = w.once;
  next = λ b j h. elim (nat_dec i j) [
    | inl same ↦ rw (if_same i j same, same) (w.next b j h)
    | inr other ↦ rw other (w.next b j h)
  ];
}

-- The lock that takes the turn is in no waiting list.
abbrev pub Awake : (s s' : Latches) → Turn s s' → Type 0
Awake s s' (acquires _ _ i result e) = NotWaiting s i
Awake s s' (releases _ _ i woken e) = NotWaiting s i
Awake s _ (recycles _ at ts) = Unit {0}
Awake s _ (commits _ i ts) = Unit {0}

module _ (sum_32 : Bytes → ℕ) (size : ℕ) (start_ts : ℕ → ℕ) (keys : ℕ → List Bytes) where
  -- The states that are reached by turns of locks that do not wait.
  pub data Scheduled : Latches → Type 0 where
    at_start : Scheduled (new_latches sum_32 size start_ts keys)
    then_turn : (s s' : Latches) → Scheduled s → (t : Turn s s') → Awake s s' t → Scheduled s'

  pub Scheduled-Reached : (s : Latches) → Scheduled s → Reached sum_32 size start_ts keys s
  Scheduled-Reached _ at_start = at_first
  Scheduled-Reached _ (then_turn s s' before t awake) =
      then_step s s' (Scheduled-Reached s before) t

  new_latches-Waits : Waits (new_latches sum_32 size start_ts keys)
  unfolding new_latches
  new_latches-Waits = record { once = λ at. tt; next = λ at i h. elim h [ ] }

  Turn-Waits : (s s' : Latches) → Waits s → (t : Turn s s') → Awake s s' t → Waits s'
  Turn-Waits s s' w (acquires _ _ i result e) awake = acquire_turn-Waits s s' i result w awake e
  Turn-Waits s s' w (releases _ _ i woken e) awake = (release_turn-Waits s s' i woken w awake e).0
  Turn-Waits s _ w (recycles _ at ts) awake = recycle_slot-Waits s at ts w
  Turn-Waits s _ w (commits _ i ts) awake = set_commit_ts-Waits s i ts w

  pub Scheduled-Waits : (s : Latches) → Scheduled s → Waits s
  Scheduled-Waits _ at_start = new_latches-Waits
  Scheduled-Waits _ (then_turn s s' before t awake) =
      Turn-Waits s s' (Scheduled-Waits s before) t awake
