-- ===== src/Latch/Release/Wake.antt =====
-- What a lock has acquired after one is woken.
use client_go.Base.{
  ℕ, ◌≡◌, ◌∙◌, sym, ap, ◌⊎◌, inl, inr, true, Bool-cases, Option, none, some, List, ◌∷◌, Bytes,
  bytes_eq→eq,
}
use client_go.Latch.{Request, Lock, Woken, next_is}
use client_go.Latch.Table.{wake_lock, stale_lock}
use client_go.Latch.Queue.Released.{owner_of, WaitedFor}
use client_go.Latch.Requests.{HasKey}
use client_go.Latch.Holders.{nat_dec, if_same, update_all, wanted_cases}

next_is-key :
    (wanted : List Request) (r : Request) (rest : List Request) (key : Bytes)
    → wanted ≡ r ∷ rest
    → next_is wanted key ≡ true
    → r.key ≡ key
next_is-key wanted r rest key e h = bytes_eq→eq r.key key (rw e at h)

module _ (locks : ℕ → Lock) (key : Bytes) where
  pub wake_old :
      (w : Option Woken) (j : ℕ) (k : Bytes)
      → WaitedFor locks key w
      → HasKey (locks j).acquired k
      → HasKey (wake_lock locks w j).acquired k
  unfolding wake_lock stale_lock
  wake_old none j k waited h = h
  wake_old (some v) j k waited h = elim (Bool-cases v.made_stale) [
    | inr awake ↦ rw awake h
    | inl stale ↦ elim (nat_dec v.next_lock j) [
      | inr other ↦ rw (stale, other) h
      | inl same ↦ elim (wanted_cases (locks v.next_lock).wanted) [
        | inl nothing ↦ absurd (cc (rw nothing at waited))
        | inr (r, (rest, wants)) ↦
            rw (stale, if_same v.next_lock j same, wants, stale_lock) (inr (rw same h))
      ]
    ]
  ]

  pub wake_new :
      (w : Option Woken) (j : ℕ)
      → WaitedFor locks key w
      → owner_of w ≡ some j
      → HasKey (wake_lock locks w j).acquired key
  unfolding wake_lock stale_lock
  wake_new none j waited own = cc
  wake_new (some v) j waited own = elim (Bool-cases v.made_stale) [
    | inr awake ↦ absurd (cc (rw awake at own))
    | inl stale ↦
        let same : v.next_lock ≡ j = cc (rw stale at own) in
        elim (wanted_cases (locks v.next_lock).wanted) [
          | inl nothing ↦ absurd (cc (rw nothing at waited))
          | inr (r, (rest, wants)) ↦
              rw (stale, if_same v.next_lock j same, wants, stale_lock)
                (inl (next_is-key (locks v.next_lock).wanted r rest key wants waited))
        ]
  ]

  pub wake_cases :
      (w : Option Woken) (j : ℕ) (k : Bytes)
      → WaitedFor locks key w
      → HasKey (wake_lock locks w j).acquired k
      → ((owner_of w ≡ some j) × (key ≡ k)) ⊎ HasKey (locks j).acquired k
  unfolding wake_lock stale_lock
  wake_cases none j k waited h = inr h
  wake_cases (some v) j k waited h = elim (Bool-cases v.made_stale) [
    | inr awake ↦ inr (rw awake at h)
    | inl stale ↦ elim (nat_dec v.next_lock j) [
      | inr other ↦ inr (rw (stale, other) at h)
      | inl same ↦ elim (wanted_cases (locks v.next_lock).wanted) [
        | inl nothing ↦ absurd (cc (rw nothing at waited))
        | inr (r, (rest, wants)) ↦
            elim (rw (stale, if_same v.next_lock j same, wants, stale_lock) at h) [
              | inl e ↦ inl (
                rw stale (ap some same),
                sym (next_is-key (locks v.next_lock).wanted r rest key wants waited) ∙ e,
              )
              | inr had ↦ inr (rw (← same) had)
            ]
      ]
    ]
  ]

  pub wake_all :
      (P : Lock → Type 0) (w : Option Woken)
      → ((j : ℕ) → P (locks j))
      → ((l : Lock) → P l → P (stale_lock l l.wanted))
      → (j : ℕ) → P (wake_lock locks w j)
  unfolding wake_lock
  wake_all P none old new j = old j
  wake_all P (some v) old new j = elim (Bool-cases v.made_stale) [
    | inr awake ↦ rw awake (old j)
    | inl stale ↦ rw stale (
        update_all locks P v.next_lock (stale_lock (locks v.next_lock) (locks v.next_lock).wanted)
          old (new (locks v.next_lock) (old v.next_lock)) j)
  ]
