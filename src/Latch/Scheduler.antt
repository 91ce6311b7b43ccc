-- ===== src/Latch/Scheduler.antt =====
-- internal/latch/scheduler.go: the scheduler that transactions use the latches by. The channel of
-- locks to unlock is a list, and the wait group of a lock is the flag that its `Done` sets.
pub mod Wakeup
use client_go.Base.{
  ℕ, zero, suc, ◌+◌, ◌-◌, ◌≡◌, Bool, true, false, if◌then◌else◌, ltb, Option, none, some, List, [],
  ◌∷◌, ◌++◌, Bytes,
}
use client_go.Oracle.{extract_physical}
use client_go.Latch.{Lock, AcquireResult, acquire_success, acquire_locked, acquire_stale}
use client_go.Latch.Table.{Latches, update, acquire, release, gen_lock}

pub record Scheduler : Type 0 where
  pub latches : Latches
  pub unlock_ch : List ℕ
  pub closed : Bool
  pub last_recycle_time : ℕ
  pub counter : ℕ
  pub done : ℕ → Bool

-- In milliseconds.
abbrev pub check_interval : ℕ
check_interval = 60_000

abbrev pub check_counter : ℕ
check_counter = 50_000

-- `Done` unless the lock waits again.
abbrev pub done_unless_locked : (ℕ → Bool) → ℕ → AcquireResult → ℕ → Bool
done_unless_locked done i acquire_success = update done i true
done_unless_locked done i acquire_stale = update done i true
done_unless_locked done i acquire_locked = done

unfoldable pub wakeup : Scheduler → List ℕ → Option Scheduler
wakeup s [] = some s
wakeup s (i ∷ wakeup_list) = elim (acquire s.latches i) [
  | none ↦ none
  | some (latches, result) ↦
      wakeup (record s { latches = latches; done = done_unless_locked s.done i result }) wakeup_list
]

-- The end of a turn of `run`: the timestamp for which a recycling starts, if one does.
unfoldable pub after_release : Scheduler → Lock → Scheduler × Option ℕ
after_release s l =
    if ltb l.start_ts l.commit_ts
    then (if (if ltb check_interval
            (extract_physical l.commit_ts - extract_physical s.last_recycle_time)
          then true
          else ltb check_counter s.counter)
        then (record s { last_recycle_time = l.commit_ts; counter = 1 }, some l.commit_ts)
        else (record s { counter = s.counter + 1 }, none))
    else (record s { counter = s.counter + 1 }, none)

-- What a turn of the loop of `run` does with a lock.
unfoldable pub serve : Scheduler → ℕ → Option (Scheduler × Option ℕ)
unfolding after_release
serve s i = elim (release s.latches i) [
  | none ↦ none
  | some (latches, wakeup_list) ↦ elim (wakeup (record s { latches = latches }) wakeup_list) [
    | none ↦ none
    | some s' ↦ some (after_release s' (s'.latches.locks i))
  ]
]

-- A turn of `run`: with an empty channel it waits.
unfoldable pub run_turn : Scheduler → Option (Scheduler × Option ℕ)
unfolding serve
run_turn s = elim s.unlock_ch [
  | [] ↦ some (s, none)
  | i ∷ unlock_ch ↦ serve (record s { unlock_ch = unlock_ch }) i
]

-- `UnLock`
unfoldable pub un_lock : Scheduler → ℕ → Scheduler
un_lock s i = if s.closed then s else record s { unlock_ch = s.unlock_ch ++ (i ∷ []) }

unfoldable pub close_channel : Scheduler → Scheduler
close_channel s = record s { closed = true }

-- `isLocked`
abbrev pub still_locked : Lock → Bool
still_locked l = if l.is_stale then false else elim l.wanted [ [] ↦ false | r ∷ rest ↦ true ]

module _ (sum_32 : Bytes → ℕ) (size : ℕ) where
  -- `Lock` until its wait, with the number of the new lock.
  unfoldable pub lock_keys : Scheduler → ℕ → ℕ → List Bytes → Option (Scheduler × AcquireResult)
  unfolding gen_lock
  lock_keys s i start_ts keys =
      let latches : Latches = record s.latches {
        locks = update s.latches.locks i (gen_lock sum_32 size start_ts keys);
      } in
      elim (acquire latches i) [
        | none ↦ none
        | some (latches', result) ↦
            some (record s { latches = latches'; done = update s.done i false }, result)
      ]
