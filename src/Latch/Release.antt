-- ===== src/Latch/Release.antt =====
-- `releaseSlot` keeps the agreement of nodes and locks, and does not panic.
mod Wake
use client_go.Base.{
  ℕ, ◌≡◌, ◌≢◌, refl, ◌∙◌, sym, ap, ◌⊎◌, inl, inr, true, false, Bool-cases, Option, none, some, List,
  [], ◌∷◌, Bytes, bytes_eq→eq,
}
use client_go.Latch.{Request, Lock, Latch, Woken, find_node, next_is, search_panics}
use client_go.Latch.Table.{Latches, update, release_slot, release_at, wake_lock, stale_lock}
use client_go.Latch.Queue.{Distinct}
use client_go.Latch.Queue.Released.{
  Released, release_latch-Released, release_latch_panics, owner_of, WaitedFor,
}
use client_go.Latch.Requests.{
  HasKey, InOrder, InOrder-acquire, InOrder-release, Routed, bytes_dec, last_is_new,
}
use client_go.Latch.Holders.{
  nat_dec, if_same, update_all, wanted_cases, slot, node_of, Owns, Holding, Owns-same,
}
use client_go.Latch.Release.Wake.{wake_old, wake_new, wake_cases, wake_all}

-- The locks when `releaseSlot` has given the key back.
abbrev pub gives_back : Latches → ℕ → Request → List Request → ℕ → Lock
gives_back s i r rest =
    update s.locks i (record (s.locks i) { acquired = rest; wanted = r ∷ (s.locks i).wanted })

stale_lock-InOrder :
    (l : Lock) (wanted : List Request)
    → l.wanted ≡ wanted
    → InOrder l.acquired wanted
    → InOrder (stale_lock l wanted).acquired (stale_lock l wanted).wanted
unfolding stale_lock
stale_lock-InOrder l [] e o = rw e o
stale_lock-InOrder l (r ∷ rest) e o = InOrder-acquire l.acquired r rest o

module _ (sum_32 : Bytes → ℕ) (size : ℕ) where
  stale_lock-Routed :
      (l : Lock) (wanted : List Request)
      → l.wanted ≡ wanted
      → Routed sum_32 size l.acquired × Routed sum_32 size wanted
      → Routed sum_32 size (stale_lock l wanted).acquired
        × Routed sum_32 size (stale_lock l wanted).wanted
  unfolding stale_lock
  stale_lock-Routed l [] e h = rw e h
  stale_lock-Routed l (r ∷ rest) e (ha, hw) = ((hw.0, ha), hw.1)

  module _ (s : Latches) (i : ℕ) (r : Request) (rest : List Request) (latch : Latch)
      (w : Option Woken) where
    abbrev given_back : ℕ → Lock
    given_back = gives_back s i r rest

    abbrev after : Latches
    after = record { slots = update s.slots r.slot_id latch; locks = wake_lock given_back w }

    abbrev Change : Type 0
    Change = Released (s.slots r.slot_id).queue latch.queue i r.key w

    Has : Holding sum_32 size s → (s.locks i).acquired ≡ r ∷ rest → Owns sum_32 size s i r.key
    Has h e = h.held i r.key (rw e (inl refl))

    -- No lock has the key that is given back.
    lost :
        Holding sum_32 size s
        → (s.locks i).acquired ≡ r ∷ rest
        → (j : ℕ) (k : Bytes) → HasKey (given_back j).acquired k
        → (r.key ≢ k) × HasKey (s.locks j).acquired k
    lost h e j k has = elim (nat_dec i j) [
      | inl same ↦
          let had : HasKey rest k = rw (if_same i j same) at has in
          let order : InOrder (r ∷ rest) (s.locks i).wanted = rw e at (h.ordered i) in
          (last_is_new r.key k rest order.below.0 had, rw (← same, e) (inr had))
      | inr other ↦
          let had : HasKey (s.locks j).acquired k = rw other at has in
          (
            λ same. cc (
              other,
              if_same i j (Owns-same sum_32 size s i j k (rw same at (Has h e)) (h.held j k had)),
            ),
            had,
          )
    ]

    keeps :
        (s.locks i).acquired ≡ r ∷ rest
        → (j : ℕ) (k : Bytes) → r.key ≢ k
        → HasKey (s.locks j).acquired k
        → HasKey (given_back j).acquired k
    keeps e j k apart has = elim (nat_dec i j) [
      | inr other ↦ rw other has
      | inl same ↦
          let had : HasKey (r ∷ rest) k = rw (← same, e) at has in
          elim had [ inl here ↦ absurd (apart here) | inr later ↦ rw (if_same i j same) later ]
    ]

    node_other :
        (k : Bytes) → Change → r.key ≢ k → node_of sum_32 size after k ≡ node_of sum_32 size s k
    node_other k change apart = elim (nat_dec r.slot_id (slot sum_32 size k)) [
      | inr other ↦ rw other refl
      | inl same ↦
          rw (if_same r.slot_id (slot sum_32 size k) same) (rw same at (change.other k apart))
    ]

    node_here :
        r.slot_id ≡ slot sum_32 size r.key
        → node_of sum_32 size after r.key ≡ find_node latch.queue r.key
    node_here routed = rw (if_same r.slot_id (slot sum_32 size r.key) routed) refl

    after-held :
        Holding sum_32 size s
        → (s.locks i).acquired ≡ r ∷ rest
        → r.slot_id ≡ slot sum_32 size r.key
        → Change
        → WaitedFor given_back r.key w
        → (j : ℕ) (k : Bytes) → HasKey (after.locks j).acquired k
        → Owns sum_32 size after j k
    after-held h e routed change waited j k has =
        elim (wake_cases given_back r.key w j k waited has) [
          | inl (owner, same) ↦
              let (n, found, own) = change.here in
              rw (← same) (n, node_here routed ∙ found, own ∙ owner)
          | inr had ↦
              let (apart, old) = lost h e j k had in
              let (n, found, own) = h.held j k old in (n, node_other k change apart ∙ found, own)
        ]

    after-owned :
        Holding sum_32 size s
        → (s.locks i).acquired ≡ r ∷ rest
        → r.slot_id ≡ slot sum_32 size r.key
        → Change
        → WaitedFor given_back r.key w
        → (j : ℕ) (k : Bytes) → Owns sum_32 size after j k
        → HasKey (after.locks j).acquired k
    after-owned h e routed change waited j k (n, found, own) = elim (bytes_dec r.key k) [
      | inl same ↦
          let (m, found', own') = change.here in
          let equal : some m ≡ some n =
            sym found' ∙ sym (node_here routed) ∙ (rw (← same) at found) in
          rw (← same) (wake_new given_back r.key w j waited (cc (equal, own, own')))
      | inr apart ↦
          wake_old given_back r.key w j k waited
            (keeps e j k apart (h.owned j k (n, sym (node_other k change apart) ∙ found, own)))
    ]

    given_back-InOrder :
        Holding sum_32 size s
        → (s.locks i).acquired ≡ r ∷ rest
        → (j : ℕ) → InOrder (given_back j).acquired (given_back j).wanted
    given_back-InOrder h e =
        update_all s.locks (λ (l : Lock). InOrder l.acquired l.wanted) i
          (record (s.locks i) { acquired = rest; wanted = r ∷ (s.locks i).wanted }) h.ordered
          (InOrder-release r rest (s.locks i).wanted (rw e at (h.ordered i)))

    given_back-Routed :
        Holding sum_32 size s
        → (s.locks i).acquired ≡ r ∷ rest
        → (j : ℕ)
        → Routed sum_32 size (given_back j).acquired × Routed sum_32 size (given_back j).wanted
    given_back-Routed h e =
        let routed : Routed sum_32 size (r ∷ rest) = rw e at (h.routed i).0 in
        update_all s.locks
          (λ (l : Lock). Routed sum_32 size l.acquired × Routed sum_32 size l.wanted) i
          (record (s.locks i) { acquired = rest; wanted = r ∷ (s.locks i).wanted }) h.routed
          (routed.1, (routed.0, (h.routed i).1))

    after-Holding :
        Holding sum_32 size s
        → (s.locks i).acquired ≡ r ∷ rest
        → r.slot_id ≡ slot sum_32 size r.key
        → Change
        → WaitedFor given_back r.key w
        → Holding sum_32 size after
    after-Holding h e routed change waited = record {
      distinct =
          update_all s.slots (λ (l : Latch). Distinct l.queue) r.slot_id latch h.distinct
            change.distinct;
      routed =
          wake_all given_back r.key
            (λ (l : Lock). Routed sum_32 size l.acquired × Routed sum_32 size l.wanted) w
            (given_back-Routed h e) (λ l. stale_lock-Routed l l.wanted refl);
      ordered =
          wake_all given_back r.key (λ (l : Lock). InOrder l.acquired l.wanted) w
            (given_back-InOrder h e) (λ l. stale_lock-InOrder l l.wanted refl);
      held = after-held h e routed change waited;
      owned = after-owned h e routed change waited;
    }

  pub release_slot-Holding :
      (s : Latches) (i : ℕ) (r : Request) (rest : List Request)
      → Holding sum_32 size s
      → (s.locks i).acquired ≡ r ∷ rest
      → search_panics (gives_back s i r rest) r.key (s.slots r.slot_id).waiting ≡ false
      → (s' : Latches) × ((w : Option Woken) × (release_slot s i ≡ some (s', w))
          × Holding sum_32 size s')
  unfolding release_slot release_at
  release_slot-Holding s i r rest h e fine =
      let before : Routed sum_32 size (r ∷ rest) = rw e at (h.routed i).0 in
      let routed : r.slot_id ≡ slot sum_32 size r.key = before.0 in
      let (n, found, own) = h.held i r.key (rw e (inl refl)) in
      let here : find_node (s.slots r.slot_id).queue r.key ≡ some n = rw routed found in
      let (latch, (w, runs, change, waited)) =
        release_latch-Released (gives_back s i r rest) (s.slots r.slot_id) i r.key
          (s.locks i).commit_ts n (h.distinct r.slot_id) here own fine in
      (
        after s i r rest latch w,
        (
          w,
          rw (e, release_at) (rw runs refl),
          after-Holding s i r rest latch w h e routed change waited,
        ),
      )

-- The panic of the search is that of `releaseSlot`.
pub release_slot_panics :
    (s : Latches) (i : ℕ) (r : Request) (rest : List Request)
    → (s.locks i).acquired ≡ r ∷ rest
    → search_panics (gives_back s i r rest) r.key (s.slots r.slot_id).waiting ≡ true
    → release_slot s i ≡ none
unfolding release_slot release_at
release_slot_panics s i r rest e panics =
    rw (e, release_at)
      (rw
        (release_latch_panics (gives_back s i r rest) (s.slots r.slot_id) i r.key
          (s.locks i).commit_ts panics)
        refl)
