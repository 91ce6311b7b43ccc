-- ===== src/Latch/Unlock.antt =====
-- `release` gives back all keys of a lock.
use client_go.Base.{
  ℕ, zero, suc, ◌≡◌, ◌≤◌, refl, ◌∙◌, sym, ap, inl, inr, Option-cases, Option, none, some, List, [],
  ◌∷◌, ◌++◌, Bytes, arith,
}
use client_go.Latch.{Request, Lock, Woken, release_latch}
use client_go.Latch.Table.{
  Latches, update, release_slot, release_at, wake_lock, release_loop, release, length_of,
}
use client_go.Latch.Requests.{NoRepeat}
use client_go.Latch.Holders.{if_same, nat_dec, wanted_cases, Owns}
use client_go.Latch.Runs.{Contains}
use client_go.Latch.Reached.{releases, Reached-Holding}
use client_go.Latch.Waiting.{NotWaiting, Once, Once-append, split_last}
use client_go.Latch.Scheduled.{
  Scheduled, then_turn, Scheduled-Reached, Scheduled-Waits, Waits-search, Departs,
  release_turn-Waits,
}
use client_go.Latch.Departure.{Left, Unwoken, release_latch-Left, wake_lock-other}
use client_go.Latch.Release.{release_slot-Holding}

-- A lock that was not in the waiting list is not there after a release, and is not woken.
Left-other :
    (i : ℕ) (old new : List ℕ) (v : Option Woken)
    → Left old new v
    → ¬ Contains i old
    → (¬ Contains i new) × Unwoken i v
Left-other i old new none left n = ((λ h. n (left.1 i h)), tt)
Left-other i old new (some v) left n = ((λ h. n (left.1 i h)), (λ same. n (rw same left.0)))

release_slot-frees :
    (s s' : Latches) (i : ℕ) (r : Request) (rest : List Request) (w : Option Woken)
    → (s.locks i).acquired ≡ r ∷ rest
    → release_slot s i ≡ some (s', w)
    → NotWaiting s i
    → ((s'.locks i).acquired ≡ rest) × NotWaiting s' i
unfolding release_slot release_at
release_slot-frees s s' i r rest w has e n =
    let given : Lock = record (s.locks i) { acquired = rest; wanted = r ∷ (s.locks i).wanted } in
    let locks : ℕ → Lock = update s.locks i given in
    let run = release_latch locks (s.slots r.slot_id) i r.key (s.locks i).commit_ts in
    let e' : release_at s i (s.locks i) (r ∷ rest) ≡ some (s', w) =
      sym (ap (release_at s i (s.locks i)) has) ∙ e in
    elim (Option-cases run) [
      | inl panics ↦ absurd (cc (rw (panics, release_at) at e'))
      | inr ((l, v), runs) ↦
          let (absent, unwoken) =
            Left-other i (s.slots r.slot_id).waiting l.waiting v
              (release_latch-Left locks (s.slots r.slot_id) l i r.key (s.locks i).commit_ts v runs)
              (n r.slot_id) in
          let after : Latches = record {
            slots = update s.slots r.slot_id l;
            locks = wake_lock locks v;
          } in
          let same : some (after, v) ≡ some (s', w) = rw (runs, release_at) at e' in
          let state : after ≡ s' = cc same in
          rw (← state) (
            rw (wake_lock-other locks i v unwoken, if_same i i refl) refl,
            λ at. elim (nat_dec r.slot_id at) [
              | inl here ↦ rw (if_same r.slot_id at here) absent
              | inr other ↦ rw other (n at)
            ],
          )
    ]

-- The locks to wake up are different, and wait no more.
abbrev Waked : Latches → List ℕ → Type 0
Waked s woken = Once woken × ((j : ℕ) → Contains j woken → NotWaiting s j)

abbrev Freed : Option (Latches × List ℕ) → ℕ → (Latches → Type 0) → Type 0
Freed o i P =
    (s' : Latches) × ((woken : List ℕ) × ((o ≡ some (s', woken))
        × ((s'.locks i).acquired ≡ [])
        × P s'
        × Waked s' woken))

released_none :
    (rounds : ℕ) (s : Latches) (i : ℕ) (woken : List ℕ)
    → (s.locks i).acquired ≡ []
    → release_loop rounds s i woken ≡ some (s, woken)
unfolding release_loop
released_none zero s i woken h = refl
released_none (suc rounds) s i woken h = rw (h, release_loop) refl

-- The list of locks to wake up, after one more release.
abbrev longer : List ℕ → Option Woken → List ℕ
longer woken none = woken
longer woken (some v) = woken ++ (v.next_lock ∷ [])

longer-Waked :
    (s s' : Latches) (woken : List ℕ) (v : Option Woken)
    → Departs s s' v
    → Waked s woken
    → Waked s' (longer woken v)
longer-Waked s s' woken none (before, _) (once, absent) =
    (once, λ j there at h. absent j there at (before at j h).0)
longer-Waked s s' woken (some x) (before, (slot, queued)) (once, absent) = (
  Once-append x.next_lock woken (λ there. absent x.next_lock there slot queued) once,
  λ j there at h. elim (split_last j x.next_lock woken there) [
    | inl earlier ↦ absent j earlier at (before at j h).0
    | inr last ↦ (before at j h).1 last
  ],
)

released_one :
    (rounds : ℕ) (s s' : Latches) (i : ℕ) (woken : List ℕ) (r : Request) (rest : List Request)
    (w : Option Woken)
    → (s.locks i).acquired ≡ r ∷ rest
    → release_slot s i ≡ some (s', w)
    → release_loop (suc rounds) s i woken ≡ release_loop rounds s' i (longer woken w)
unfolding release_loop
released_one rounds s s' i woken r rest none h e = rw (h, e, release_loop) refl
released_one rounds s s' i woken r rest (some v) h e = rw (h, e, release_loop) refl

module _ (sum_32 : Bytes → ℕ) (size : ℕ) (start_ts : ℕ → ℕ) (keys : ℕ → List Bytes) where
  release_loop_ends :
      (rounds : ℕ) (s : Latches) (i : ℕ) (woken : List ℕ)
      → ((i : ℕ) → NoRepeat (keys i))
      → Scheduled sum_32 size start_ts keys s
      → NotWaiting s i
      → length_of (s.locks i).acquired ≤ rounds
      → Waked s woken
      → Freed (release_loop rounds s i woken) i (Scheduled sum_32 size start_ts keys)
  release_loop_ends zero s i woken n reached absent h k = elim (wanted_cases (s.locks i).acquired) [
    | inl nothing ↦ (s, (woken, (released_none 0 s i woken nothing, nothing, reached, k)))
    | inr (r, (rest, has)) ↦ absurd (omega (arith, rw has at h))
  ]
  release_loop_ends (suc rounds) s i woken n reached absent h k =
      elim (wanted_cases (s.locks i).acquired) [
        | inl nothing ↦
            (s, (woken, (released_none (suc rounds) s i woken nothing, nothing, reached, k)))
        | inr (r, (rest, has)) ↦
            let holding =
              Reached-Holding sum_32 size start_ts keys s n
                (Scheduled-Reached sum_32 size start_ts keys s reached) in
            let (s', (w, runs, _)) = release_slot-Holding sum_32 size s i r rest holding has (
              Waits-search s i r rest (Scheduled-Waits sum_32 size start_ts keys s reached)
                absent) in
            let (left, absent') = release_slot-frees s s' i r rest w has runs absent in
            let fewer : length_of rest ≤ rounds = omega (arith, rw has at h) in
            rw (released_one rounds s s' i woken r rest w has runs) (
              release_loop_ends rounds s' i (longer woken w) n
                (then_turn s s' reached (releases s s' i w runs) absent) absent' (rw left fewer)
                (longer-Waked s s' woken w
                  (release_turn-Waits s s' i w (Scheduled-Waits sum_32 size start_ts keys s reached)
                    absent runs).1
                  k))
      ]

  -- In every state that calls of the latches reach, in any order in which only locks in no waiting list
  -- acquire and give back keys, when no list of keys has a key twice: `release` of a lock that is in no
  -- waiting list does not panic, and leaves, in a state that is reached so too, no key acquired by the
  -- lock and no node with the lock as its value. The locks that it returns to be woken up are different
  -- ones, and are in no waiting list.
  pub release_ends :
      (s : Latches) (i : ℕ)
      → ((i : ℕ) → NoRepeat (keys i))
      → Scheduled sum_32 size start_ts keys s
      → NotWaiting s i
      → (s' : Latches) × ((woken : List ℕ) × ((release s i ≡ some (s', woken))
            × ((s'.locks i).acquired ≡ [])
            × ((key : Bytes) → ¬ Owns sum_32 size s' i key)
            × Scheduled sum_32 size start_ts keys s'
            × Once woken
            × ((j : ℕ) → Contains j woken → NotWaiting s' j)))
  unfolding release
  release_ends s i n reached absent =
      let (s', (woken, (runs, free, reached', (once, absent')))) =
        release_loop_ends (length_of (s.locks i).acquired) s i [] n reached absent (omega arith)
          (tt, λ j there. absurd there) in
      (
        s',
        (
          woken,
          (
            runs,
            free,
            (λ key owns. rw free at (
                (Reached-Holding sum_32 size start_ts keys s' n
                    (Scheduled-Reached sum_32 size start_ts keys s' reached')).owned
                  i key owns)),
            reached',
            once,
            absent',
          ),
        ),
      )
