-- ===== src/Latch/Acquire.antt =====
-- `acquireSlot` keeps the agreement of nodes and locks.
use client_go.Base.{ℕ, ◌≡◌, ◌≢◌, refl, ◌∙◌, sym, ◌⊎◌, inl, inr, some, List, ◌∷◌, Bytes}
use client_go.Latch.{
  Request, Lock, Latch, AcquireResult, acquire_success, acquire_locked, acquire_stale, find_node,
  acquire_latch,
}
use client_go.Latch.Table.{Latches, update, acquire_slot, acquire_at, after_acquire}
use client_go.Latch.Queue.{Distinct, Kept}
use client_go.Latch.Queue.Acquired.{Acquired, acquire_latch-Acquired}
use client_go.Latch.Requests.{HasKey, InOrder, InOrder-acquire, Routed, bytes_dec}
use client_go.Latch.Holders.{
  nat_dec, if_same, slot, node_of, Owns, Holding, Owns-same, update_all, wanted_cases, Kept-at,
  Kept-Owns, Kept-Owns_back,
}

grows :
    (l : Lock) (r : Request) (rest : List Request) (result : AcquireResult) (k : Bytes)
    → HasKey l.acquired k
    → HasKey (after_acquire l r rest result).acquired k
unfolding after_acquire
grows l r rest acquire_success k h = inr h
grows l r rest acquire_locked k h = h
grows l r rest acquire_stale k h = h

gains :
    (l : Lock) (r : Request) (rest : List Request) (result : AcquireResult)
    → result ≡ acquire_success
    → HasKey (after_acquire l r rest result).acquired r.key
unfolding after_acquire
gains l r rest acquire_success e = inl refl
gains l r rest acquire_locked e = cc
gains l r rest acquire_stale e = cc

shrinks :
    (l : Lock) (r : Request) (rest : List Request) (result : AcquireResult) (k : Bytes)
    → HasKey (after_acquire l r rest result).acquired k
    → ((result ≡ acquire_success) × (r.key ≡ k)) ⊎ HasKey l.acquired k
unfolding after_acquire
shrinks l r rest acquire_success k (inl e) = inl (refl, e)
shrinks l r rest acquire_success k (inr h) = inr h
shrinks l r rest acquire_locked k h = inr h
shrinks l r rest acquire_stale k h = inr h

after_acquire-InOrder :
    (l : Lock) (r : Request) (rest : List Request) (result : AcquireResult)
    → l.wanted ≡ r ∷ rest
    → InOrder l.acquired l.wanted
    → InOrder (after_acquire l r rest result).acquired (after_acquire l r rest result).wanted
unfolding after_acquire
after_acquire-InOrder l r rest acquire_success e o = InOrder-acquire l.acquired r rest (rw e at o)
after_acquire-InOrder l r rest acquire_locked e o = o
after_acquire-InOrder l r rest acquire_stale e o = o

module _ (sum_32 : Bytes → ℕ) (size : ℕ) where
  after_acquire-Routed :
      (l : Lock) (r : Request) (rest : List Request) (result : AcquireResult)
      → l.wanted ≡ r ∷ rest
      → Routed sum_32 size l.acquired × Routed sum_32 size l.wanted
      → Routed sum_32 size (after_acquire l r rest result).acquired
        × Routed sum_32 size (after_acquire l r rest result).wanted
  unfolding after_acquire
  after_acquire-Routed l r rest acquire_success e (ha, hw) =
      let routed : Routed sum_32 size (r ∷ rest) = rw e at hw in ((routed.0, ha), routed.1)
  after_acquire-Routed l r rest acquire_locked e h = h
  after_acquire-Routed l r rest acquire_stale e h = h

  first-Routed :
      (wanted : List Request) (r : Request) (rest : List Request)
      → wanted ≡ r ∷ rest
      → Routed sum_32 size wanted
      → r.slot_id ≡ slot sum_32 size r.key
  first-Routed wanted r rest e h =
      let routed : Routed sum_32 size (r ∷ rest) = rw e at h in routed.0

  module _ (s : Latches) (i : ℕ) (r : Request) (rest : List Request) (latch : Latch)
      (result : AcquireResult) where
    abbrev after : Latches
    after = record {
      slots = update s.slots r.slot_id latch;
      locks = update s.locks i (after_acquire (s.locks i) r rest result);
    }

    abbrev Change : Type 0
    Change = Acquired (s.slots r.slot_id).queue latch.queue i r.key result

    Kept-other :
        (k : Bytes)
        → Change
        → r.key ≢ k
        → Kept (node_of sum_32 size s k) (node_of sum_32 size after k)
    Kept-other k change apart =
        Kept-at sum_32 size s.slots latch r.slot_id k (λ same. rw same at (change.other k apart))

    here :
        r.slot_id ≡ slot sum_32 size r.key
        → (node_of sum_32 size s r.key ≡ find_node (s.slots r.slot_id).queue r.key)
          × (node_of sum_32 size after r.key ≡ find_node latch.queue r.key)
    here routed = (rw routed refl, rw (if_same r.slot_id (slot sum_32 size r.key) routed) refl)

    -- Who owned a node still does.
    still-Owns :
        (k : Bytes) (j : ℕ)
        → r.slot_id ≡ slot sum_32 size r.key
        → Change
        → Owns sum_32 size s j k
        → Owns sum_32 size after j k
    still-Owns k j routed change owns = elim (bytes_dec r.key k) [
      | inr apart ↦
          Kept-Owns (node_of sum_32 size s k) (node_of sum_32 size after k) j
            (Kept-other k change apart) owns
      | inl same ↦
          let (before, now) = here routed in
          let owned : Owns sum_32 size s j r.key = rw same owns in
          let (n, found, own) = owned in
          elim change.here [
            | inl (_, _, free) ↦ absurd (cc (own, free n (sym before ∙ found)))
            | inr (_, kept) ↦ rw (← same) (
                Kept-Owns (node_of sum_32 size s r.key) (node_of sum_32 size after r.key) j
                  (rw (before, now) kept) owned)
          ]
    ]

    gets :
        r.slot_id ≡ slot sum_32 size r.key
        → Change
        → result ≡ acquire_success
        → Owns sum_32 size after i r.key
    gets routed change success = elim change.here [
      | inl (_, (n, found, own), _) ↦ (n, (here routed).1 ∙ found, own)
      | inr (failed, _) ↦ absurd (failed success)
    ]

    owned_before :
        (k : Bytes) (j : ℕ)
        → r.slot_id ≡ slot sum_32 size r.key
        → Change
        → Owns sum_32 size after j k
        → ((result ≡ acquire_success) × (r.key ≡ k) × (j ≡ i)) ⊎ Owns sum_32 size s j k
    owned_before k j routed change owns = elim (bytes_dec r.key k) [
      | inr apart ↦ inr (
          Kept-Owns_back (node_of sum_32 size s k) (node_of sum_32 size after k) j
            (Kept-other k change apart) owns)
      | inl same ↦
          let (before, now) = here routed in
          let owned : Owns sum_32 size after j r.key = rw same owns in
          elim change.here [
            | inl (success, (n, found, own), _) ↦
                inl
                  (success, same, Owns-same sum_32 size after j i r.key owned (n, now ∙ found, own))
            | inr (_, kept) ↦ inr (
                rw (← same) (
                  Kept-Owns_back (node_of sum_32 size s r.key) (node_of sum_32 size after r.key) j
                    (rw (before, now) kept) owned))
          ]
    ]

    after-held :
        Holding sum_32 size s
        → (s.locks i).wanted ≡ r ∷ rest
        → Change
        → (j : ℕ) (k : Bytes) → HasKey (after.locks j).acquired k
        → Owns sum_32 size after j k
    after-held h e change j k has =
        let routed = first-Routed (s.locks i).wanted r rest e (h.routed i).1 in
        elim (nat_dec i j) [
          | inr other ↦ still-Owns k j routed change (h.held j k (rw other at has))
          | inl same ↦ elim (shrinks (s.locks i) r rest result k (rw (if_same i j same) at has)) [
            | inl (success, key) ↦ rw (← same, ← key) (gets routed change success)
            | inr had ↦ rw (← same) (still-Owns k i routed change (h.held i k had))
          ]
        ]

    after-owned :
        Holding sum_32 size s
        → (s.locks i).wanted ≡ r ∷ rest
        → Change
        → (j : ℕ) (k : Bytes) → Owns sum_32 size after j k
        → HasKey (after.locks j).acquired k
    after-owned h e change j k owns =
        let routed = first-Routed (s.locks i).wanted r rest e (h.routed i).1 in
        elim (owned_before k j routed change owns) [
          | inl (success, key, same) ↦
              rw (if_same i j (sym same), ← key) (gains (s.locks i) r rest result success)
          | inr owned ↦ elim (nat_dec i j) [
            | inr other ↦ rw other (h.owned j k owned)
            | inl same ↦
                rw (if_same i j same)
                  (grows (s.locks i) r rest result k (rw same (h.owned j k owned)))
          ]
        ]

    pub after_acquire-Holding :
        Holding sum_32 size s → (s.locks i).wanted ≡ r ∷ rest → Change → Holding sum_32 size after
    after_acquire-Holding h e change = record {
      distinct = λ at.
          update_all s.slots (λ (l : Latch). Distinct l.queue) r.slot_id latch h.distinct
            change.distinct at;
      routed =
          update_all s.locks
            (λ (l : Lock). Routed sum_32 size l.acquired × Routed sum_32 size l.wanted) i
            (after_acquire (s.locks i) r rest result) h.routed
            (after_acquire-Routed (s.locks i) r rest result e (h.routed i));
      ordered =
          update_all s.locks (λ (l : Lock). InOrder l.acquired l.wanted) i
            (after_acquire (s.locks i) r rest result) h.ordered
            (after_acquire-InOrder (s.locks i) r rest result e (h.ordered i));
      held = after-held h e change;
      owned = after-owned h e change;
    }

  -- `acquireSlot` returns unless the lock wants nothing.
  pub acquire_slot-Holding :
      (s : Latches) (i : ℕ)
      → Holding sum_32 size s
      → (s' : Latches) (result : AcquireResult) → acquire_slot s i ≡ some (s', result)
      → Holding sum_32 size s'
  unfolding acquire_slot acquire_at
  acquire_slot-Holding s i h s' result e = elim (wanted_cases (s.locks i).wanted) [
    | inl nothing ↦ absurd (cc (rw (nothing, acquire_at) at e))
    | inr (r, (rest, wants)) ↦
        let p = acquire_latch (s.slots r.slot_id) i r.key (s.locks i).start_ts in
        let same : after s i r rest p.0 p.1 ≡ s' = cc (rw (wants, acquire_at) at e) in
        rw (← same) (
          after_acquire-Holding s i r rest p.0 p.1 h wants (
            acquire_latch-Acquired (s.slots r.slot_id) i r.key (s.locks i).start_ts
              (h.distinct r.slot_id)))
  ]
