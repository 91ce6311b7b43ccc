-- ===== src/Tests/Latching.antt =====
-- Two locks with a common key, on four latches.
use client_go.Base.{
  ℕ, zero, suc, ◌≡◌, refl, inl, inr, false, Option, none, some, List, [], ◌∷◌, Bytes, bytes_compare,
  bytes_eq, ◌+◌, arith,
}
use client_go.Latch.{
  AcquireResult, acquire_success, acquire_locked, find_node, set_node, acquire_found, acquire_latch,
}
use client_go.Latch.Table.{
  Latches, insert_key, sort_keys, gen_slot_ids, gen_lock, new_latches, after_acquire, acquire_at,
  acquire_slot, acquire, release,
}
use client_go.Latch.Requests.{HasKey, NoRepeat}
use client_go.Latch.Holders.{Owns, nat_dec}
use client_go.Latch.Reached.{Reached, at_first, then_step, acquires}
use client_go.Latch.Exclusion.{WaitsFor, acquired_exclusive, no_deadlock}
use client_go.Latch.Attempt.{Attempted, acquire-Attempted}
use client_go.Latch.Runs.{Contains}
use client_go.Latch.Waiting.{NotWaiting, Once}
use client_go.Latch.Scheduled.{Scheduled, at_start, then_turn}
use client_go.Latch.Unlock.{release_ends}
use client_go.Latch.Scheduler.{Scheduler}

abbrev first_byte : Bytes → ℕ
first_byte [] = 0
first_byte (b ∷ bs) = b

abbrev lock_keys_of : ℕ → List Bytes
lock_keys_of zero = (5 ∷ []) ∷ (2 ∷ []) ∷ []
lock_keys_of (suc zero) = (2 ∷ []) ∷ []
lock_keys_of (suc (suc i)) = []

abbrev start_of : ℕ → ℕ
start_of i = i + 10

abbrev state_of : Option (Latches × AcquireResult) → Latches → Latches
state_of none s = s
state_of (some (s', result)) s = s'

abbrev fresh_state : Latches
fresh_state = new_latches first_byte 4 start_of lock_keys_of

-- Lock 0 has its first key, [2].
abbrev one_held : Latches
one_held = state_of (acquire_slot fresh_state 0) fresh_state

-- Lock 1 waits for it.
abbrev one_waits : Latches
one_waits = state_of (acquire_slot one_held 1) one_held

keys-NoRepeat : (i : ℕ) → NoRepeat (lock_keys_of i)
keys-NoRepeat zero = ((λ e. cc e, tt), (tt, tt))
keys-NoRepeat (suc zero) = (tt, tt)
keys-NoRepeat (suc (suc i)) = tt

first_acquired : acquire_slot fresh_state 0 ≡ some (one_held, acquire_success)
unfolding new_latches gen_lock gen_slot_ids sort_keys insert_key bytes_compare acquire_slot
    acquire_at after_acquire acquire_latch acquire_found find_node set_node bytes_eq
first_acquired = refl

second_waits : acquire_slot one_held 1 ≡ some (one_waits, acquire_locked)
unfolding new_latches gen_lock gen_slot_ids sort_keys insert_key bytes_compare acquire_slot
    acquire_at after_acquire acquire_latch acquire_found find_node set_node bytes_eq
second_waits = refl

one_held-Reached : Reached first_byte 4 start_of lock_keys_of one_held
one_held-Reached =
    then_step fresh_state one_held at_first
      (acquires fresh_state one_held 0 acquire_success first_acquired)

one_waits-Reached : Reached first_byte 4 start_of lock_keys_of one_waits
one_waits-Reached =
    then_step one_held one_waits one_held-Reached
      (acquires one_held one_waits 1 acquire_locked second_waits)

zero_has : HasKey (one_waits.locks 0).acquired (2 ∷ [])
unfolding new_latches gen_lock gen_slot_ids sort_keys insert_key bytes_compare acquire_slot
    acquire_at after_acquire acquire_latch acquire_found find_node set_node bytes_eq
zero_has = inl refl

acquired_exclusive_example : ◌≡◌ {A = ℕ} 0 0
acquired_exclusive_example =
    acquired_exclusive first_byte 4 start_of lock_keys_of one_waits 0 0 (2 ∷ []) keys-NoRepeat
      one_waits-Reached zero_has zero_has

no_deadlock_example : ¬ WaitsFor first_byte 4 start_of lock_keys_of one_waits 1 1
no_deadlock_example =
    no_deadlock first_byte 4 start_of lock_keys_of one_waits 1 keys-NoRepeat one_waits-Reached

zero-NotWaiting : NotWaiting one_waits 0
unfolding new_latches gen_lock gen_slot_ids sort_keys insert_key bytes_compare acquire_slot
    acquire_at after_acquire acquire_latch acquire_found find_node set_node bytes_eq
zero-NotWaiting at h = elim (nat_dec 2 at) [
  | inl here ↦ elim (rw (← here) at h) [ inl e ↦ omega (arith, e) | inr none_left ↦ none_left ]
  | inr other ↦ rw other at h
]

one_held-NotWaiting : NotWaiting one_held 1
unfolding new_latches gen_lock gen_slot_ids sort_keys insert_key bytes_compare acquire_slot
    acquire_at after_acquire acquire_latch acquire_found find_node set_node bytes_eq
one_held-NotWaiting at h = elim (nat_dec 2 at) [
  | inl here ↦ rw (← here) at h
  | inr other ↦ rw other at h
]

one_held-Scheduled : Scheduled first_byte 4 start_of lock_keys_of one_held
unfolding new_latches
one_held-Scheduled =
    then_turn fresh_state one_held at_start
      (acquires fresh_state one_held 0 acquire_success first_acquired) (λ at h. h)

one_waits-Scheduled : Scheduled first_byte 4 start_of lock_keys_of one_waits
one_waits-Scheduled =
    then_turn one_held one_waits one_held-Scheduled
      (acquires one_held one_waits 1 acquire_locked second_waits) one_held-NotWaiting

release_ends_example :
    (s' : Latches) × ((woken : List ℕ) × ((release one_waits 0 ≡ some (s', woken))
        × ((s'.locks 0).acquired ≡ [])
        × ((key : Bytes) → ¬ Owns first_byte 4 s' 0 key)
        × Scheduled first_byte 4 start_of lock_keys_of s'
        × Once woken
        × ((j : ℕ) → Contains j woken → NotWaiting s' j)))
release_ends_example =
    release_ends first_byte 4 start_of lock_keys_of one_waits 0 keys-NoRepeat one_waits-Scheduled
      zero-NotWaiting

acquire-Attempted_example :
    (s' : Latches) × ((result : AcquireResult) × ((acquire one_held 1 ≡ some (s', result))
        × Attempted first_byte 4 start_of lock_keys_of s' 1 result
        × Reached first_byte 4 start_of lock_keys_of s'))
acquire-Attempted_example =
    acquire-Attempted first_byte 4 start_of lock_keys_of one_held 1 keys-NoRepeat one_held-Reached

abbrev woken_one : Scheduler
woken_one = record {
  latches = one_waits;
  unlock_ch = [];
  closed = false;
  last_recycle_time = 0;
  counter = 0;
  done = λ i. false;
}
