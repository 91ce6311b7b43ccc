-- ===== src/Latch/Queue/Released.antt =====
-- The nodes of one latch after the release of a key.
use client_go.Base.{
  ℕ, ◌≡◌, ◌≢◌, refl, inl, inr, true, false, Bool-cases, Option-cases, if◌then◌else◌, ltb, Option,
  none, some, List, [], ◌∷◌, Bytes, arith,
}
use client_go.Latch.{
  Lock, Woken, wake, take_waiting, search_panics, next_is, release_latch, release_found, max_uint64,
  Node, Latch, find_node, set_node, holds_value,
}
use client_go.Latch.Queue.{Distinct, find-set_other, find-set_self, set_node-Distinct}

-- The owner of the node after a release: a lock that was made stale has acquired it.
abbrev pub owner_of : Option Woken → Option ℕ
owner_of none = none
owner_of (some w) = if w.made_stale then some w.next_lock else none

abbrev pub WaitedFor : (ℕ → Lock) → Bytes → Option Woken → Type 0
WaitedFor locks key none = Unit {0}
WaitedFor locks key (some w) = next_is (locks w.next_lock).wanted key ≡ true

-- What they are after a release of one key.
pub record Released (old new : List Node) (lock : ℕ) (key : Bytes) (w : Option Woken) : Type 0 where
  pub distinct : Distinct new
  pub other : (k : Bytes) → key ≢ k → find_node new k ≡ find_node old k
  pub here : (n : Node) × (find_node new key ≡ some n) × (n.value ≡ owner_of w)

set_Released :
    (l : Latch) (lock : ℕ) (key : Bytes) (max : ℕ) (n : Node) (value : Option ℕ) (w : Option Woken)
    → value ≡ owner_of w
    → Distinct l.queue
    → find_node l.queue key ≡ some n
    → Released l.queue (set_node l.queue key max value) lock key w
set_Released l lock key max n value w e d h = record {
  distinct = set_node-Distinct l.queue key max value d;
  other = λ k apart. find-set_other l.queue key k max value apart;
  here =
      (record n { max_commit_ts = max; value = value }, find-set_self l.queue key n max value h, e);
}

wake-Released :
    (locks : ℕ → Lock) (l : Latch) (lock : ℕ) (key : Bytes) (max : ℕ) (n : Node)
    (taken : Option (ℕ × List ℕ))
    → Distinct l.queue
    → find_node l.queue key ≡ some n
    → Released l.queue (wake locks l key max taken).0.queue lock key (wake locks l key max taken).1
unfolding wake
wake-Released locks l lock key max n none d h = set_Released l lock key max n none none refl d h
wake-Released locks l lock key max n (some (w, waiting)) d h =
    elim (Bool-cases (ltb (locks w).start_ts max)) [
      | inl stale ↦ rw stale (
          set_Released l lock key max n (some w)
            (some (record { next_lock = w; made_stale = true })) refl d h)
      | inr fresh ↦ rw fresh (
          set_Released l lock key max n none (some (record { next_lock = w; made_stale = false }))
            refl d h)
    ]

take_waiting-next_is :
    (locks : ℕ → Lock) (key : Bytes) (waiting rest : List ℕ) (w : ℕ)
    → take_waiting locks key waiting ≡ some (w, rest)
    → next_is (locks w).wanted key ≡ true
unfolding take_waiting
take_waiting-next_is locks key [] rest w h = cc
take_waiting-next_is locks key (v ∷ waiting) rest w h =
    elim (Bool-cases (next_is (locks v).wanted key)) [
      | inl hit ↦ let same : v ≡ w = cc (rw (hit, take_waiting) at h) in rw (← same) hit
      | inr miss ↦ elim (Option-cases (take_waiting locks key waiting)) [
        | inl nothing ↦ absurd (cc (rw (miss, nothing) at h))
        | inr ((u, others), found) ↦
            let same : u ≡ w = cc (rw (miss, found) at h) in
            rw (← same) (take_waiting-next_is locks key waiting others u found)
      ]
    ]

wake-WaitedFor :
    (locks : ℕ → Lock) (l : Latch) (key : Bytes) (max : ℕ) (taken : Option (ℕ × List ℕ))
    → take_waiting locks key l.waiting ≡ taken
    → WaitedFor locks key (wake locks l key max taken).1
unfolding wake
wake-WaitedFor locks l key max none h = tt
wake-WaitedFor locks l key max (some (w, waiting)) h =
    let wants = take_waiting-next_is locks key l.waiting waiting w h in
    elim (Bool-cases (ltb (locks w).start_ts max)) [
      | inl stale ↦ rw stale wants
      | inr fresh ↦ rw fresh wants
    ]

release_owned :
    (locks : ℕ → Lock) (l : Latch) (lock : ℕ) (key : Bytes) (commit_ts : ℕ) (n : Node)
    → n.value ≡ some lock
    → search_panics locks key l.waiting ≡ false
    → release_found locks l lock key commit_ts (some n)
      ≡ some (
          wake locks l key
            (max_uint64 n.max_commit_ts commit_ts)
            (take_waiting locks key l.waiting))
unfolding release_found
release_owned locks l lock key commit_ts n h fine = ground arith

-- A lock that owns the node releases the key, unless the search panics, and the lock that is woken waits for that key.
pub release_latch-Released :
    (locks : ℕ → Lock) (l : Latch) (lock : ℕ) (key : Bytes) (commit_ts : ℕ) (n : Node)
    → Distinct l.queue
    → find_node l.queue key ≡ some n
    → n.value ≡ some lock
    → search_panics locks key l.waiting ≡ false
    → (l' : Latch) × ((w : Option Woken) × (release_latch locks l lock key commit_ts ≡ some (l', w))
        × Released l.queue l'.queue lock key w
        × WaitedFor locks key w)
unfolding release_latch release_found
release_latch-Released locks l lock key commit_ts n d h owns fine =
    let m : ℕ = max_uint64 n.max_commit_ts commit_ts in
    let woken = wake locks l key m (take_waiting locks key l.waiting) in
    (
      woken.0,
      (
        woken.1,
        rw (h, release_latch) (release_owned locks l lock key commit_ts n owns fine),
        wake-Released locks l lock key m n (take_waiting locks key l.waiting) d h,
        wake-WaitedFor locks l key m (take_waiting locks key l.waiting) refl,
      ),
    )

pub release_latch_panics :
    (locks : ℕ → Lock) (l : Latch) (lock : ℕ) (key : Bytes) (commit_ts : ℕ)
    → search_panics locks key l.waiting ≡ true
    → release_latch locks l lock key commit_ts ≡ none
unfolding release_latch release_found
release_latch_panics locks l lock key commit_ts h = elim (Option-cases (find_node l.queue key)) [
  | inl missing ↦ rw missing refl
  | inr (n, found) ↦ elim (Bool-cases (holds_value (some n) lock)) [
    | inl right ↦ rw (found, right, h) refl
    | inr wrong ↦ rw (found, wrong) refl
  ]
]
