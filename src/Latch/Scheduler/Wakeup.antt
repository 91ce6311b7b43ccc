-- ===== src/Latch/Scheduler/Wakeup.antt =====
-- A lock that is woken goes on just where its attempt is over, and waits in a latch where it is not.
use client_go.Base.{ℕ, ◌≡◌, ◌⊎◌, true, []}
use client_go.Latch.{AcquireResult}
use client_go.Latch.Table.{Latches}
use client_go.Latch.Scheduler.{Scheduler, done_unless_locked}
use client_go.Latch.Others.{IsWaiting}

-- The attempt of the lock is over, it having all its keys or being stale, and its wait is ended; or
-- its wait is as it was, and the lock is in a waiting list.
abbrev pub Attended : Scheduler → Scheduler → ℕ → Type 0
Attended s s' j =
    ((s'.done j ≡ true)
      × (((s'.latches.locks j).wanted ≡ []) ⊎ ((s'.latches.locks j).is_stale ≡ true)))
    ⊎ ((s'.done j ≡ s.done j) × IsWaiting s'.latches j)

-- The lock and its wait are as they were.
abbrev pub IsUntouched : Scheduler → Scheduler → ℕ → Type 0
IsUntouched s s' j = (s'.done j ≡ s.done j) × (s'.latches.locks j ≡ s.latches.locks j)

abbrev woken_state : Scheduler → ℕ → Latches → AcquireResult → Scheduler
woken_state s i latches result = record s {
  latches = latches;
  done = done_unless_locked s.done i result;
}
