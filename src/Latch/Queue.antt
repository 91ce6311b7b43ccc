-- ===== src/Latch/Queue.antt =====
-- The nodes of one latch, found by their keys.
pub mod Acquired
pub mod Released
use client_go.Base.{
  ℕ, ◌≡◌, ◌≢◌, refl, ◌⊎◌, inl, inr, true, false, Bool-cases, Option-cases, if◌then◌else◌, ltb, leb,
  Option, none, some, List, [], ◌∷◌, Bytes, bytes_eq, bytes_eq_refl, bytes_eq→eq, arith,
}
use client_go.Latch.{
  Lock, Woken, wake, take_waiting, next_is, release_latch, release_found, max_uint64, Node, Latch,
  AcquireResult, acquire_success, acquire_found, acquire_latch, find_node, set_node, recycle_queue,
  expired, is_free, latch_list_count, recycled, recycle,
}

pub bytes_eq_ne : (xs ys : Bytes) → xs ≢ ys → bytes_eq xs ys ≡ false
bytes_eq_ne xs ys h = elim (Bool-cases (bytes_eq xs ys)) [
  | inl same ↦ absurd (h (bytes_eq→eq xs ys same))
  | inr differ ↦ differ
]

-- No two nodes have the same key.
abbrev pub Distinct : List Node → Type 0
Distinct [] = Unit {0}
Distinct (n ∷ queue) = (find_node queue n.key ≡ none) × Distinct queue

find-key : (queue : List Node) (key : Bytes) (n : Node) → find_node queue key ≡ some n → n.key ≡ key
unfolding find_node
find-key [] key n h = cc
find-key (m ∷ queue) key n h = ground (arith, bytes_eq→eq m.key key, find-key queue key n)

pub find-set_other :
    (queue : List Node) (key other : Bytes) (max : ℕ) (value : Option ℕ)
    → key ≢ other
    → find_node (set_node queue key max value) other ≡ find_node queue other
unfolding find_node set_node
find-set_other [] key other max value h = refl
find-set_other (n ∷ queue) key other max value h = ground (
  arith,
  find-set_other queue key other max value h,
  bytes_eq→eq n.key key,
  bytes_eq→eq n.key other,
)

pub find-set_self :
    (queue : List Node) (key : Bytes) (n : Node) (max : ℕ) (value : Option ℕ)
    → find_node queue key ≡ some n
    → find_node (set_node queue key max value) key
      ≡ some (record n { max_commit_ts = max; value = value })
unfolding find_node set_node
find-set_self [] key n max value h = cc
find-set_self (m ∷ queue) key n max value h = ground (arith, find-set_self queue key n max value)

set_missing :
    (queue : List Node) (key other : Bytes) (max : ℕ) (value : Option ℕ)
    → find_node queue other ≡ none
    → find_node (set_node queue key max value) other ≡ none
unfolding find_node set_node
set_missing [] key other max value h = refl
set_missing (n ∷ queue) key other max value h =
    ground (arith, set_missing queue key other max value)

pub set_node-Distinct :
    (queue : List Node) (key : Bytes) (max : ℕ) (value : Option ℕ)
    → Distinct queue
    → Distinct (set_node queue key max value)
unfolding set_node
set_node-Distinct [] key max value d = tt
set_node-Distinct (n ∷ queue) key max value d = elim (Bool-cases (bytes_eq n.key key)) [
  | inl here ↦ rw here d
  | inr later ↦
      rw later
        (set_missing queue key n.key max value d.0, set_node-Distinct queue key max value d.1)
]

-- A node of the old queue that is found in the new one, or had no owner and is gone.
abbrev pub Kept : Option Node → Option Node → Type 0
Kept old new = (new ≡ old) ⊎ ((new ≡ none) × ((n : Node) × (old ≡ some n) × (n.value ≡ none)))

recycle_missing :
    (ts : ℕ) (queue : List Node) (key : Bytes)
    → find_node queue key ≡ none
    → find_node (recycle_queue ts queue).0 key ≡ none
unfolding find_node recycle_queue
recycle_missing ts [] key h = refl
recycle_missing ts (n ∷ queue) key h = ground (arith, recycle_missing ts queue key)

pub recycle_queue-Distinct :
    (ts : ℕ) (queue : List Node) → Distinct queue → Distinct (recycle_queue ts queue).0
unfolding recycle_queue
recycle_queue-Distinct ts [] d = tt
recycle_queue-Distinct ts (n ∷ queue) d = elim (Bool-cases (expired ts n)) [
  | inl old ↦ rw old (recycle_queue-Distinct ts queue d.1)
  | inr kept ↦ rw kept (recycle_missing ts queue n.key d.0, recycle_queue-Distinct ts queue d.1)
]

pub free_none {ℓ} : {A : Type ℓ} (o : Option A) → is_free o ≡ true → o ≡ none
free_none none h = refl
free_none (some a) h = cc

expired_free : (ts : ℕ) (n : Node) → expired ts n ≡ true → n.value ≡ none
expired_free ts n h = free_none n.value (ground arith)

pub recycle_queue-Kept :
    (ts : ℕ) (queue : List Node) (key : Bytes)
    → Distinct queue
    → Kept (find_node queue key) (find_node (recycle_queue ts queue).0 key)
unfolding find_node recycle_queue
recycle_queue-Kept ts [] key d = inl refl
recycle_queue-Kept ts (n ∷ queue) key d = elim (Bool-cases (bytes_eq n.key key)) [
  | inl here ↦ elim (Bool-cases (expired ts n)) [
    | inl old ↦
        rw (here, old)
          (inr (
            rw (← bytes_eq→eq n.key key here) (recycle_missing ts queue n.key d.0),
            (n, refl, expired_free ts n old),
          ))
    | inr kept ↦ inl (ground arith)
  ]
  | inr other ↦ elim (Bool-cases (expired ts n)) [
    | inl old ↦ rw (old, other) (recycle_queue-Kept ts queue key d.1)
    | inr kept ↦ rw kept (rw other (recycle_queue-Kept ts queue key d.1))
  ]
]

pub recycled-Distinct : (ts : ℕ) (l : Latch) → Distinct l.queue → Distinct (recycled ts l).queue
unfolding recycle
recycled-Distinct ts l d = elim (Bool-cases (leb latch_list_count l.count)) [
  | inl full ↦ rw full (recycle_queue-Distinct ts l.queue d)
  | inr small ↦ rw small d
]

pub recycled-Kept :
    (ts : ℕ) (l : Latch) (key : Bytes)
    → Distinct l.queue
    → Kept (find_node l.queue key) (find_node (recycled ts l).queue key)
unfolding recycle
recycled-Kept ts l key d = elim (Bool-cases (leb latch_list_count l.count)) [
  | inl full ↦ rw full (recycle_queue-Kept ts l.queue key d)
  | inr small ↦ rw small (inl refl)
]

pub recycled-waiting : (ts : ℕ) (l : Latch) → (recycled ts l).waiting ≡ l.waiting
unfolding recycle
recycled-waiting ts l = ground arith
