-- ===== src/Latch/Departure.antt =====
-- What a release does to the waiting list of its latch.
use client_go.Base.{
  ℕ, ◌≡◌, ◌≢◌, refl, sym, inl, inr, Bool-cases, Option-cases, ltb, Option, none, some, List, [],
  ◌∷◌, Bytes,
}
use mathlib.Core.Path.{subst}
use client_go.Latch.{
  Request, Lock, Latch, Woken, next_is, search_panics, take_waiting, wake, release_found,
  release_latch, max_uint64, holds_value, find_node,
}
use client_go.Latch.Table.{Latches, update, wake_lock}
use client_go.Latch.Holders.{if_same, nat_dec}
use client_go.Latch.Runs.{Contains}
use client_go.Latch.Release.{gives_back}
use client_go.Latch.Waiting.{NotWaiting, Once, NextAt-unique, Waits}

-- What the search of `releaseSlot` takes out of a waiting list.
abbrev Taken : List ℕ → ℕ × List ℕ → Type 0
Taken waiting (w, rest) =
    Contains w waiting
    × ((j : ℕ) → Contains j rest → Contains j waiting)
    × (Once waiting → Once rest × (¬ Contains w rest))

take_later :
    (v u : ℕ) (waiting others : List ℕ)
    → Taken waiting (u, others)
    → Taken (v ∷ waiting) (u, v ∷ others)
take_later v u waiting others (here, within, once) = (
  inr here,
  λ j h. elim h [ inl same ↦ inl same | inr later ↦ inr (within j later) ],
  λ o. (
    ((λ h. o.0 (within v h)), (once o.1).0),
    λ h. elim h [ inl same ↦ o.0 (rw same at here) | inr later ↦ (once o.1).1 later ],
  ),
)

take_waiting-Taken :
    (locks : ℕ → Lock) (key : Bytes) (waiting rest : List ℕ) (w : ℕ)
    → take_waiting locks key waiting ≡ some (w, rest)
    → Taken waiting (w, rest)
unfolding take_waiting
take_waiting-Taken locks key [] rest w e = cc
take_waiting-Taken locks key (v ∷ waiting) rest w e =
    elim (Bool-cases (next_is (locks v).wanted key)) [
      | inl hit ↦
          let same : some (v, waiting) ≡ some (w, rest) = rw (hit, take_waiting) at e in
          let first : v ≡ w = cc same in
          let others : waiting ≡ rest = cc same in
          rw (← first, ← others) (inl refl, (λ j h. inr h), (λ o. (o.1, o.0)))
      | inr miss ↦ elim (Option-cases (take_waiting locks key waiting)) [
        | inl nothing ↦ absurd (cc (rw (miss, nothing) at e))
        | inr ((u, others), found) ↦
            let same : some (u, v ∷ others) ≡ some (w, rest) = rw (miss, found) at e in
            let pair : (u, v ∷ others) ≡ (w, rest) = cc same in
            subst (Taken (v ∷ waiting)) pair
              (take_later v u waiting others (take_waiting-Taken locks key waiting others u found))
      ]
    ]

-- A lock that is not woken.
abbrev pub Unwoken : ℕ → Option Woken → Type 0
Unwoken i none = Unit {0}
Unwoken i (some v) = i ≢ v.next_lock

abbrev pub WokenFrom : List ℕ → Option Woken → Type 0
WokenFrom waiting none = Unit {0}
WokenFrom waiting (some v) = Contains v.next_lock waiting

-- What a release leaves of the waiting list: the lock that is woken has been in it, and is gone.
abbrev pub Left : List ℕ → List ℕ → Option Woken → Type 0
Left old new v =
    WokenFrom old v
    × ((j : ℕ) → Contains j new → Contains j old)
    × (Once old → Once new × ((j : ℕ) → Contains j new → Unwoken j v))

wake-Left :
    (locks : ℕ → Lock) (l : Latch) (key : Bytes) (m : ℕ) (taken : Option (ℕ × List ℕ))
    → take_waiting locks key l.waiting ≡ taken
    → Left l.waiting (wake locks l key m taken).0.waiting (wake locks l key m taken).1
unfolding wake
wake-Left locks l key m none e = (tt, (λ j h. h), (λ o. (o, (λ j h. tt))))
wake-Left locks l key m (some (w, rest)) e =
    let (here, within, once) = take_waiting-Taken locks key l.waiting rest w e in
    let gone = (λ (o : Once l.waiting) (j : ℕ) (h : Contains j rest) (same : j ≡ w).
      (once o).1 (rw same at h)) in
    elim (Bool-cases (ltb (locks w).start_ts m)) [
      | inl stale ↦ rw stale (here, within, (λ o. ((once o).0, gone o)))
      | inr fresh ↦ rw fresh (here, within, (λ o. ((once o).0, gone o)))
    ]

pub release_latch-Left :
    (locks : ℕ → Lock) (l l' : Latch) (lock : ℕ) (key : Bytes) (ts : ℕ) (w : Option Woken)
    → release_latch locks l lock key ts ≡ some (l', w)
    → Left l.waiting l'.waiting w
unfolding release_latch release_found
release_latch-Left locks l l' lock key ts w e = elim (Option-cases (find_node l.queue key)) [
  | inl missing ↦ absurd (cc (rw (missing, release_found) at e))
  | inr (m, found) ↦ elim (Bool-cases (holds_value (some m) lock)) [
    | inr wrong ↦ absurd (cc (rw (found, wrong) at e))
    | inl right ↦ elim (Bool-cases (search_panics locks key l.waiting)) [
      | inl panics ↦ absurd (cc (rw (found, right, panics) at e))
      | inr fine ↦
          let top : ℕ = max_uint64 m.max_commit_ts ts in
          let p = wake locks l key top (take_waiting locks key l.waiting) in
          let same : some (p.0, p.1) ≡ some (l', w) = rw (found, right, fine) at e in
          let latch : p.0 ≡ l' = cc same in
          let woken : p.1 ≡ w = cc same in
          rw (← latch, ← woken) (wake-Left locks l key top (take_waiting locks key l.waiting) refl)
    ]
  ]
]

pub wake_lock-other :
    (locks : ℕ → Lock) (i : ℕ) (w : Option Woken) → Unwoken i w → wake_lock locks w i ≡ locks i
unfolding wake_lock
wake_lock-other locks i none h = refl
wake_lock-other locks i (some v) h = elim (Bool-cases v.made_stale) [
  | inr awake ↦ rw awake refl
  | inl stale ↦ elim (nat_dec v.next_lock i) [
    | inl same ↦ absurd (h (sym same))
    | inr other ↦ rw (stale, other) refl
  ]
]

module _ (s : Latches) (i : ℕ) (r : Request) (rest : List Request) (l : Latch) (v : Option Woken)
    (w : Waits s) (absent : NotWaiting s i)
    (left : Left (s.slots r.slot_id).waiting l.waiting v) where
  abbrev pub released : Latches
  released = record {
    slots = update s.slots r.slot_id l;
    locks = wake_lock (gives_back s i r rest) v;
  }

  elsewhere :
      (at j : ℕ) (v : Option Woken)
      → r.slot_id ≢ at
      → Contains j (s.slots at).waiting
      → WokenFrom (s.slots r.slot_id).waiting v
      → Unwoken j v
  elsewhere at j none differ queued from = tt
  elsewhere at j (some x) differ queued from = λ same. differ (
      NextAt-unique (s.locks j).wanted r.slot_id at (w.next r.slot_id j (rw same from))
        (w.next at j queued))

  -- A lock that still waits waited before, and was not woken, neither here nor elsewhere.
  pub still_waits :
      (at j : ℕ)
      → Contains j (released.slots at).waiting
      → Contains j (s.slots at).waiting × Unwoken j v
  still_waits at j h = elim (nat_dec r.slot_id at) [
    | inl here ↦
        let queued : Contains j l.waiting = rw (if_same r.slot_id at here) at h in
        (rw (← here) (left.1 j queued), (left.2 (w.once r.slot_id)).1 j queued)
    | inr other ↦
        let queued : Contains j (s.slots at).waiting = rw other at h in
        (queued, elsewhere at j v (λ e. cc (if_same r.slot_id at e, other)) queued left.0)
  ]

  pub released-Waits : Waits released
  released-Waits = record {
    once = λ at. elim (nat_dec r.slot_id at) [
      | inl here ↦ rw (if_same r.slot_id at here) ((left.2 (w.once r.slot_id)).0)
      | inr other ↦ rw other (w.once at)
    ];
    next = λ at j h.
        let (queued, unwoken) = still_waits at j h in
        rw (wake_lock-other (gives_back s i r rest) j v unwoken) (elim (nat_dec i j) [
          | inl same ↦ absurd (absent at (rw same queued))
          | inr other ↦ rw other (w.next at j queued)
        ]);
  }
