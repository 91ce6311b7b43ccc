-- ===== src/Latch/Table.antt =====
-- `Latches`: all latches, and the locks that use them.
use client_go.Base.{
  ℕ, suc, zero, ◌%◌, true, false, if◌then◌else◌, ◌==◌, Option, none, some, List, [], ◌∷◌, ◌++◌,
  Bytes, bytes_compare, Ordering,
}
use client_go.Latch.{
  Request, Lock, Latch, AcquireResult, acquire_success, acquire_locked, acquire_stale, recycle,
  acquire_latch, release_latch, Woken,
}

abbrev pub update {ℓ} : {A : Type ℓ} → (ℕ → A) → ℕ → A → ℕ → A
update f i a j = if i == j then a else f j

-- `slots`, and the locks that the callers hold pointers to.
pub record Latches : Type 0 where
  pub slots : ℕ → Latch
  pub locks : ℕ → Lock

-- `sort.Sort(bytesSlice(keys))`
unfoldable pub insert_key : Bytes → List Bytes → List Bytes
insert_key key [] = key ∷ []
insert_key key (k ∷ keys) =
    let later = insert_key key keys in
    elim (bytes_compare k key) [ Ordering.lt ↦ k ∷ later | _ ↦ key ∷ (k ∷ keys) ]

unfoldable pub sort_keys : List Bytes → List Bytes
sort_keys [] = []
sort_keys (k ∷ keys) = insert_key k (sort_keys keys)

-- What `acquireSlot` does to the lock.
unfoldable pub after_acquire : Lock → Request → List Request → AcquireResult → Lock
after_acquire l r rest acquire_success = record l { acquired = r ∷ l.acquired; wanted = rest }
after_acquire l r rest acquire_stale = record l { is_stale = true }
after_acquire l r rest acquire_locked = l

-- What `releaseSlot` does to the lock that it wakes.
unfoldable pub stale_lock : Lock → List Request → Lock
stale_lock l [] = l
stale_lock l (r ∷ rest) = record l { acquired = r ∷ l.acquired; wanted = rest; is_stale = true }

unfoldable pub wake_lock : (ℕ → Lock) → Option Woken → ℕ → Lock
unfolding stale_lock
wake_lock locks none = locks
wake_lock locks (some v) =
    if v.made_stale
    then update locks v.next_lock (stale_lock (locks v.next_lock) (locks v.next_lock).wanted)
    else locks

-- The number of slots is a power of two, and `murmur3.Sum32` is a parameter.
module _ (sum_32 : Bytes → ℕ) (size : ℕ) where
  abbrev pub slot_of : Bytes → ℕ
  slot_of key = sum_32 key % size

  unfoldable pub gen_slot_ids : List Bytes → List Request
  gen_slot_ids [] = []
  gen_slot_ids (k ∷ keys) = record { key = k; slot_id = slot_of k } ∷ gen_slot_ids keys

  unfoldable pub gen_lock : ℕ → List Bytes → Lock
  unfolding gen_slot_ids sort_keys
  gen_lock start_ts keys = record {
    acquired = [];
    wanted = gen_slot_ids (sort_keys keys);
    start_ts = start_ts;
    commit_ts = 0;
    is_stale = false;
  }

-- `acquireSlot`; the panic of an index out of range is the lock that wants nothing, which `acquire`
-- excludes.
unfoldable pub acquire_at : Latches → ℕ → Lock → List Request → Option (Latches × AcquireResult)
unfolding after_acquire
acquire_at s i l [] = none
acquire_at s i l (r ∷ rest) =
    let (latch, result) = acquire_latch (s.slots r.slot_id) i r.key l.start_ts in
    some (
      record {
        slots = update s.slots r.slot_id latch;
        locks = update s.locks i (after_acquire l r rest result);
      },
      result,
    )

unfoldable pub acquire_slot : Latches → ℕ → Option (Latches × AcquireResult)
unfolding acquire_at
acquire_slot s i = acquire_at s i (s.locks i) (s.locks i).wanted

-- The loop of `acquire`, on as many rounds as there are wanted keys.
unfoldable pub acquire_loop : ℕ → Latches → ℕ → Option (Latches × AcquireResult)
acquire_loop zero s i = some (s, acquire_success)
acquire_loop (suc rounds) s i = elim (s.locks i).wanted [
  | [] ↦ some (s, acquire_success)
  | r ∷ rest ↦ elim (acquire_slot s i) [
    | none ↦ none
    | some (s', acquire_success) ↦ acquire_loop rounds s' i
    | some (s', acquire_locked) ↦ some (s', acquire_locked)
    | some (s', acquire_stale) ↦ some (s', acquire_stale)
  ]
]

abbrev pub length_of : List Request → ℕ
length_of [] = 0
length_of (r ∷ rs) = suc (length_of rs)

unfoldable pub acquire : Latches → ℕ → Option (Latches × AcquireResult)
unfolding acquire_loop
acquire s i =
    if (s.locks i).is_stale
    then some (s, acquire_stale)
    else acquire_loop (length_of (s.locks i).wanted) s i

-- `releaseSlot`, of the key that was acquired last; `none` is a panic.
unfoldable pub release_at : Latches → ℕ → Lock → List Request → Option (Latches × Option Woken)
unfolding wake_lock
release_at s i l [] = none
release_at s i l (r ∷ rest) =
    let locks : ℕ → Lock = update s.locks i (record l { acquired = rest; wanted = r ∷ l.wanted }) in
    elim (release_latch locks (s.slots r.slot_id) i r.key l.commit_ts) [
      | none ↦ none
      | some (latch, woken) ↦
          some (
            record { slots = update s.slots r.slot_id latch; locks = wake_lock locks woken },
            woken,
          )
    ]

unfoldable pub release_slot : Latches → ℕ → Option (Latches × Option Woken)
unfolding release_at
release_slot s i = release_at s i (s.locks i) (s.locks i).acquired

-- The loop of `release`, with the locks to wake up in the order in which they are found.
unfoldable pub release_loop : ℕ → Latches → ℕ → List ℕ → Option (Latches × List ℕ)
release_loop zero s i wakeup_list = some (s, wakeup_list)
release_loop (suc rounds) s i wakeup_list = elim (s.locks i).acquired [
  | [] ↦ some (s, wakeup_list)
  | r ∷ rest ↦ elim (release_slot s i) [
    | none ↦ none
    | some (s', none) ↦ release_loop rounds s' i wakeup_list
    | some (s', some v) ↦ release_loop rounds s' i (wakeup_list ++ (v.next_lock ∷ []))
  ]
]

-- On as many rounds as there are acquired keys.
unfoldable pub release : Latches → ℕ → Option (Latches × List ℕ)
unfolding release_loop
release s i = release_loop (length_of (s.locks i).acquired) s i []

-- One turn of the loop of `recycle`, at one slot.
unfoldable pub recycle_slot : Latches → ℕ → ℕ → Latches
recycle_slot s slot current_ts = record s {
  slots = update s.slots slot (recycle current_ts (s.slots slot)).0;
}

unfoldable pub recycle_slots : ℕ → Latches → ℕ → Latches
unfolding recycle_slot
recycle_slots zero s current_ts = s
recycle_slots (suc slots) s current_ts =
    recycle_slot (recycle_slots slots s current_ts) slots current_ts

-- `SetCommitTS`
unfoldable pub set_commit_ts : Latches → ℕ → ℕ → Latches
set_commit_ts s i commit_ts = record s {
  locks = update s.locks i (record (s.locks i) { commit_ts = commit_ts });
}

module _ (sum_32 : Bytes → ℕ) (size : ℕ) where
  -- `NewLatches`, with the locks that transactions will ask for, each as `genLock` makes it.
  unfoldable pub new_latches : (ℕ → ℕ) → (ℕ → List Bytes) → Latches
  unfolding gen_lock
  new_latches start_ts keys = record {
    slots = λ at. record { queue = []; count = 0; waiting = [] };
    locks = λ i. gen_lock sum_32 size (start_ts i) (keys i);
  }
