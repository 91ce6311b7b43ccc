-- ===== src/Latch.antt =====
-- internal/latch: the latches that serialise transactions with common keys. This file has the data
-- and the operations on one latch; `Table` has those on all latches and locks.
pub mod Queue
pub mod Requests
pub mod Table
pub mod Holders
pub mod Acquire
pub mod Release
pub mod Reached
pub mod Exclusion
pub mod Runs
pub mod Attempt
pub mod Others
pub mod Waiting
pub mod Departure
pub mod Scheduled
pub mod Unlock
pub mod Scheduler
use client_go.Base.{
  ℕ, suc, ◌+◌, ◌-◌, Bool, true, false, if◌then◌else◌, ltb, leb, ◌==◌, ◌&&◌, Option, none, some,
  List, [], ◌∷◌, ◌++◌, Bytes, bytes_eq,
}
use client_go.Oracle.{extract_physical}

-- A key that a lock needs, with the slot of the key: an element of `keys` and the element of
-- `requiredSlots` at the same index.
pub record Request : Type 0 where
  pub key : Bytes
  pub slot_id : ℕ

-- `Lock`. What is below `acquiredCount` is `acquired`, the last one first; what is not is `wanted`. A
-- pointer to a lock is its number.
pub record Lock : Type 0 where
  pub acquired : List Request
  pub wanted : List Request
  pub start_ts : ℕ
  pub commit_ts : ℕ
  pub is_stale : Bool

-- `node`; `next` is the rest of the list.
pub record Node : Type 0 where
  pub key : Bytes
  pub max_commit_ts : ℕ
  pub value : Option ℕ

pub record Latch : Type 0 where
  pub queue : List Node
  pub count : ℕ
  pub waiting : List ℕ

pub data AcquireResult : Type 0 where
  acquire_success acquire_locked acquire_stale : AcquireResult

abbrev pub is_free {ℓ} : {A : Type ℓ} → Option A → Bool
is_free none = true
is_free (some a) = false

unfoldable pub find_node : List Node → Bytes → Option Node
find_node [] key = none
find_node (n ∷ queue) key =
    let later = find_node queue key in if bytes_eq n.key key then some n else later

-- Writes through the pointer that `findNode` returned.
unfoldable pub set_node : List Node → Bytes → ℕ → Option ℕ → List Node
set_node [] key max_commit_ts value = []
set_node (n ∷ queue) key max_commit_ts value =
    let later = set_node queue key max_commit_ts value in
    if bytes_eq n.key key
    then record n { max_commit_ts = max_commit_ts; value = value } ∷ queue
    else n ∷ later

-- `expireDuration`, in milliseconds.
abbrev pub expire_duration : ℕ
expire_duration = 120_000

abbrev pub latch_list_count : ℕ
latch_list_count = 5

-- `tsoSub(currentTS, curr.maxCommitTS) >= expireDuration && curr.value == nil`
abbrev pub expired : ℕ → Node → Bool
expired current_ts n =
    leb expire_duration (extract_physical current_ts - extract_physical n.max_commit_ts)
    && is_free n.value

-- The list that `recycle` leaves, and the number of nodes that it takes out.
unfoldable pub recycle_queue : ℕ → List Node → List Node × ℕ
recycle_queue current_ts [] = ([], 0)
recycle_queue current_ts (n ∷ queue) =
    let (rest, total) = recycle_queue current_ts queue in
    if expired current_ts n then (rest, suc total) else (n ∷ rest, total)

unfoldable pub recycle : ℕ → Latch → Latch × ℕ
unfolding recycle_queue
recycle current_ts l =
    let (queue, total) = recycle_queue current_ts l.queue in
    (record l { queue = queue; count = l.count - total }, total)

-- `acquireSlot`, on the latch: for the lock with this number, at this key.
abbrev pub recycled : ℕ → Latch → Latch
recycled start_ts l = if leb latch_list_count l.count then (recycle start_ts l).0 else l

unfoldable pub acquire_found : Latch → ℕ → Bytes → ℕ → Option Node → Latch × AcquireResult
acquire_found l lock key start_ts none = (
  record l {
    queue = record { key = key; max_commit_ts = 0; value = some lock } ∷ l.queue;
    count = l.count + 1;
  },
  acquire_success,
)
acquire_found l lock key start_ts (some n) =
    if ltb start_ts n.max_commit_ts
    then (l, acquire_stale)
    else if is_free n.value
    then (record l { queue = set_node l.queue key n.max_commit_ts (some lock) }, acquire_success)
    else (record l { waiting = l.waiting ++ (lock ∷ []) }, acquire_locked)

unfoldable pub acquire_latch : Latch → ℕ → Bytes → ℕ → Latch × AcquireResult
unfolding acquire_found
acquire_latch l lock key start_ts =
    let l' : Latch = recycled start_ts l in
    acquire_found l' lock key start_ts (find_node l'.queue key)

-- `bytes.Equal(waiting.keys[waiting.acquiredCount], key)`, for a lock that has a key at that index;
-- `search_panics` has the case that it has none.
abbrev pub next_is : List Request → Bytes → Bool
next_is [] key = false
next_is (r ∷ wanted) key = bytes_eq r.key key

-- The first waiting lock that waits for the key, and the others.
unfoldable pub take_waiting : (ℕ → Lock) → Bytes → List ℕ → Option (ℕ × List ℕ)
take_waiting locks key [] = none
take_waiting locks key (w ∷ waiting) =
    let later = take_waiting locks key waiting in
    if next_is (locks w).wanted key
    then some (w, waiting)
    else elim later [ none ↦ none | some (v, rest) ↦ some (v, w ∷ rest) ]

-- The search through the waiting list meets, before it ends, a lock that has acquired all its keys,
-- for which `waiting.keys[waiting.acquiredCount]` is out of range.
unfoldable pub search_panics : (ℕ → Lock) → Bytes → List ℕ → Bool
search_panics locks key [] = false
search_panics locks key (w ∷ waiting) =
    let later = search_panics locks key waiting in
    elim (locks w).wanted [ [] ↦ true | r ∷ rest ↦ if bytes_eq r.key key then false else later ]

-- The lock that `releaseSlot` returns, and whether it was made stale.
pub record Woken : Type 0 where
  pub next_lock : ℕ
  pub made_stale : Bool

abbrev pub max_uint64 : ℕ → ℕ → ℕ
max_uint64 a b = if ltb a b then b else a

-- What `releaseSlot` does behind its check, `max_commit_ts` being the new one of the node.
unfoldable pub wake : (ℕ → Lock) → Latch → Bytes → ℕ → Option (ℕ × List ℕ) → Latch × Option Woken
wake locks l key max_commit_ts none =
    (record l { queue = set_node l.queue key max_commit_ts none }, none)
wake locks l key max_commit_ts (some (w, waiting)) =
    if ltb (locks w).start_ts max_commit_ts
    then (
      record l { queue = set_node l.queue key max_commit_ts (some w); waiting = waiting },
      some (record { next_lock = w; made_stale = true }),
    )
    else (
      record l { queue = set_node l.queue key max_commit_ts none; waiting = waiting },
      some (record { next_lock = w; made_stale = false }),
    )

abbrev pub holds_value : Option Node → ℕ → Bool
holds_value none lock = false
holds_value (some n) lock = elim n.value [ none ↦ false | some v ↦ v == lock ]

-- `releaseSlot`, on the latch. `none` is one of its panics: the nil pointer that `findNode` may return,
-- a node with another value, or an index out of range in the search.
unfoldable pub release_found :
    (ℕ → Lock) → Latch → ℕ → Bytes → ℕ → Option Node → Option (Latch × Option Woken)
unfolding wake
release_found locks l lock key commit_ts none = none
release_found locks l lock key commit_ts (some n) =
    if holds_value (some n) lock
    then if search_panics locks key l.waiting
      then none
      else some (
          wake locks l key (max_uint64 n.max_commit_ts commit_ts)
            (take_waiting locks key l.waiting))
    else none

unfoldable pub release_latch : (ℕ → Lock) → Latch → ℕ → Bytes → ℕ → Option (Latch × Option Woken)
unfolding release_found
release_latch locks l lock key commit_ts =
    release_found locks l lock key commit_ts (find_node l.queue key)
