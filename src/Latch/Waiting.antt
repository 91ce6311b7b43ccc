-- ===== src/Latch/Waiting.antt =====
-- The order of calls that the scheduler keeps: a lock in a waiting list neither acquires nor gives back
-- a key until it is woken. The waiting lists then hold what the search of `releaseSlot` relies on.
use client_go.Base.{
  ℕ, ◌≡◌, refl, ◌∙◌, sym, ap, ◌⊎◌, inl, inr, Bool-cases, ltb, Option, none, some, List, [], ◌∷◌,
  ◌++◌, Bytes,
}
use client_go.Latch.{
  Request, Node, Latch, AcquireResult, acquire_locked, find_node, is_free, recycled, acquire_found,
  acquire_latch,
}
use client_go.Latch.Table.{Latches, update, after_acquire}
use client_go.Latch.Queue.{recycled-waiting}
use client_go.Latch.Holders.{if_same, nat_dec}
use client_go.Latch.Runs.{Contains}

-- The lock is in no waiting list.
abbrev pub NotWaiting : Latches → ℕ → Type 0
NotWaiting s i = (at : ℕ) → ¬ Contains i (s.slots at).waiting

abbrev pub Once : List ℕ → Type 0
Once [] = Unit {0}
Once (i ∷ waiting) = (¬ Contains i waiting) × Once waiting

-- The next key that is wanted is there, and is one of the slot.
abbrev pub NextAt : List Request → ℕ → Type 0
NextAt [] at = ⊥
NextAt (r ∷ rest) at = r.slot_id ≡ at

-- A lock is in a waiting list once, and waits there for a key of the slot.
pub record Waits (s : Latches) : Type 0 where
  pub once : (at : ℕ) → Once (s.slots at).waiting
  pub next : (at i : ℕ) → Contains i (s.slots at).waiting → NextAt (s.locks i).wanted at

pub NextAt-unique : (rs : List Request) (a b : ℕ) → NextAt rs a → NextAt rs b → a ≡ b
NextAt-unique [] a b h k = elim h [ ]
NextAt-unique (r ∷ rest) a b h k = sym h ∙ k

-- Who waits after a lock was put behind the others.
pub split_last : (i j : ℕ) (js : List ℕ) → Contains i (js ++ (j ∷ [])) → Contains i js ⊎ (i ≡ j)
split_last i j [] (inl e) = inr e
split_last i j [] (inr h) = inl h
split_last i j (k ∷ js) (inl e) = inl (inl e)
split_last i j (k ∷ js) (inr h) = elim (split_last i j js h) [
  | inl before ↦ inl (inr before)
  | inr last ↦ inr last
]

pub Once-append : (i : ℕ) (js : List ℕ) → ¬ Contains i js → Once js → Once (js ++ (i ∷ []))
Once-append i [] n o = ((λ h. elim h [ ]), tt)
Once-append i (j ∷ js) n o = (
  λ h. elim (split_last j i js h) [ inl before ↦ o.0 before | inr last ↦ n (inl (sym last)) ],
  Once-append i js (λ h. n (inr h)) o.1,
)

abbrev pub Queues : Latch → ℕ → Latch × AcquireResult → Type 0
Queues l lock p =
    (p.0.waiting ≡ l.waiting) ⊎ ((p.1 ≡ acquire_locked) × (p.0.waiting ≡ l.waiting ++ (lock ∷ [])))

found-Queues :
    (l : Latch) (lock : ℕ) (key : Bytes) (ts : ℕ) (o : Option Node)
    → Queues l lock (acquire_found l lock key ts o)
unfolding acquire_found
found-Queues l lock key ts none = inl refl
found-Queues l lock key ts (some n) = elim (Bool-cases (ltb ts n.max_commit_ts)) [
  | inl stale ↦ rw stale (inl refl)
  | inr fresh ↦ elim (Bool-cases (is_free n.value)) [
    | inl free ↦ rw (fresh, free) (inl refl)
    | inr busy ↦ rw (fresh, busy) (inr (refl, refl))
  ]
]

pub acquire_latch-Queues :
    (l : Latch) (lock : ℕ) (key : Bytes) (ts : ℕ) → Queues l lock (acquire_latch l lock key ts)
unfolding acquire_latch
acquire_latch-Queues l lock key ts =
    let l' : Latch = recycled ts l in
    elim (found-Queues l' lock key ts (find_node l'.queue key)) [
      | inl same ↦ inl (same ∙ recycled-waiting ts l)
      | inr (locked, behind) ↦
          inr (locked, behind ∙ ap (λ (ws : List ℕ). ws ++ (lock ∷ [])) (recycled-waiting ts l))
    ]

module _ (s : Latches) (i : ℕ) (r : Request) (rest : List Request) (p : Latch × AcquireResult)
    (w : Waits s) (absent : NotWaiting s i) (wants : (s.locks i).wanted ≡ r ∷ rest)
    (queues : Queues (s.slots r.slot_id) i p) where
  abbrev pub attempted : Latches
  attempted = record {
    slots = update s.slots r.slot_id p.0;
    locks = update s.locks i (after_acquire (s.locks i) r rest p.1);
  }

  queue-Once : Once p.0.waiting
  queue-Once = elim queues [
    | inl same ↦ rw same (w.once r.slot_id)
    | inr (locked, behind) ↦
        rw behind (Once-append i (s.slots r.slot_id).waiting (absent r.slot_id) (w.once r.slot_id))
  ]

  -- A lock that waits now waited before, or is the one that has to wait.
  queue_next :
      (at j : ℕ)
      → Contains j (attempted.slots at).waiting
      → Contains j (s.slots at).waiting ⊎ ((j ≡ i) × (r.slot_id ≡ at) × (p.1 ≡ acquire_locked))
  queue_next at j h = elim (nat_dec r.slot_id at) [
    | inr other ↦ inl (rw other at h)
    | inl here ↦
        let queued : Contains j p.0.waiting = rw (if_same r.slot_id at here) at h in
        elim queues [
          | inl same ↦ inl (rw (← here) (rw same at queued))
          | inr (locked, behind) ↦
              elim (split_last j i (s.slots r.slot_id).waiting (rw behind at queued)) [
                | inl before ↦ inl (rw (← here) before)
                | inr last ↦ inr (last, here, locked)
              ]
        ]
  ]

  pub attempted-Waits : Waits attempted
  unfolding after_acquire
  attempted-Waits = record {
    once = λ at. elim (nat_dec r.slot_id at) [
      | inl here ↦ rw (if_same r.slot_id at here) queue-Once
      | inr other ↦ rw other (w.once at)
    ];
    next = λ at j h. elim (queue_next at j h) [
      | inl before ↦ elim (nat_dec i j) [
        | inl same ↦ absurd (absent at (rw same before))
        | inr other ↦ rw other (w.next at j before)
      ]
      | inr (last, here, locked) ↦ rw (if_same i j (sym last), locked) (rw wants here)
    ];
  }
