-- ===== src/Latch/Reached.antt =====
-- The states that calls of the latches reach, in any order and by any threads.
use client_go.Base.{ℕ, ◌≡◌, refl, inl, inr, Bool-cases, Option, some, List, Bytes}
use client_go.Latch.{Latch, search_panics, AcquireResult, Woken, find_node, recycle}
use client_go.Latch.Table.{
  Latches, acquire_slot, release_slot, release_at, recycle_slot, set_commit_ts, new_latches,
  gen_lock,
}
use client_go.Latch.Queue.{Distinct, recycle_queue-Distinct, recycle_queue-Kept}
use client_go.Latch.Requests.{NoRepeat, gen_lock-InOrder}
use client_go.Latch.Holders.{
  if_same, nat_dec, update_all, wanted_cases, slot, node_of, Holding, Kept-at, Kept-Owns,
  Kept-Owns_back,
}
use client_go.Latch.Acquire.{acquire_slot-Holding}
use client_go.Latch.Release.{gives_back, release_slot-Holding, release_slot_panics}

-- One call that takes the mutex of a latch, or a new commit timestamp.
pub data Turn : Latches → Latches → Type 0 where
  acquires :
      (s s' : Latches) (i : ℕ) (result : AcquireResult)
      → acquire_slot s i ≡ some (s', result)
      → Turn s s'
  releases :
      (s s' : Latches) (i : ℕ) (woken : Option Woken)
      → release_slot s i ≡ some (s', woken)
      → Turn s s'
  recycles : (s : Latches) (at current_ts : ℕ) → Turn s (recycle_slot s at current_ts)
  commits : (s : Latches) (i commit_ts : ℕ) → Turn s (set_commit_ts s i commit_ts)

module _ (sum_32 : Bytes → ℕ) (size : ℕ) where
  pub data Reached (start_ts : ℕ → ℕ) (keys : ℕ → List Bytes) : Latches → Type 0 where
    at_first : Reached start_ts keys (new_latches sum_32 size start_ts keys)
    then_step : (s s' : Latches) → Reached start_ts keys s → Turn s s' → Reached start_ts keys s'

  new_latches-Holding :
      (start_ts : ℕ → ℕ) (keys : ℕ → List Bytes)
      → ((i : ℕ) → NoRepeat (keys i))
      → Holding sum_32 size (new_latches sum_32 size start_ts keys)
  unfolding new_latches gen_lock find_node
  new_latches-Holding start_ts keys n = record {
    distinct = λ at. tt;
    routed = λ i. (tt, (gen_lock-InOrder sum_32 size (start_ts i) (keys i) (n i)).1);
    ordered = λ i. (gen_lock-InOrder sum_32 size (start_ts i) (keys i) (n i)).0;
    held = λ i k h. elim h [ ];
    owned = λ i k (m, found, own). cc found;
  }

  recycle_slot-Holding :
      (s : Latches) (at ts : ℕ) → Holding sum_32 size s → Holding sum_32 size (recycle_slot s at ts)
  unfolding recycle_slot recycle
  recycle_slot-Holding s at ts h =
      let s' : Latches = recycle_slot s at ts in
      let kept = (λ (k : Bytes).
        Kept-at sum_32 size s.slots (recycle ts (s.slots at)).0 at k (λ same. rw same (
          recycle_queue-Kept ts (s.slots (slot sum_32 size k)).queue k
            (h.distinct (slot sum_32 size k))))) in
      record {
        distinct =
            update_all s.slots (λ (l : Latch). Distinct l.queue) at (recycle ts (s.slots at)).0
              h.distinct (recycle_queue-Distinct ts (s.slots at).queue (h.distinct at));
        routed = h.routed;
        ordered = h.ordered;
        held = λ i k has.
            Kept-Owns (node_of sum_32 size s k) (node_of sum_32 size s' k) i (kept k)
              (h.held i k has);
        owned = λ i k owns.
            h.owned i k
              (Kept-Owns_back (node_of sum_32 size s k) (node_of sum_32 size s' k) i (kept k) owns);
      }

  set_fields :
      (s : Latches) (i commit_ts j : ℕ)
      → (((set_commit_ts s i commit_ts).locks j).acquired ≡ (s.locks j).acquired)
        × (((set_commit_ts s i commit_ts).locks j).wanted ≡ (s.locks j).wanted)
  unfolding set_commit_ts
  set_fields s i commit_ts j = elim (nat_dec i j) [
    | inl same ↦ rw (if_same i j same, same) (refl, refl)
    | inr other ↦ rw other (refl, refl)
  ]

  set_commit_ts-Holding :
      (s : Latches) (i commit_ts : ℕ)
      → Holding sum_32 size s
      → Holding sum_32 size (set_commit_ts s i commit_ts)
  unfolding set_commit_ts
  set_commit_ts-Holding s i commit_ts h = record {
    distinct = h.distinct;
    routed = λ j. let (a, w) = set_fields s i commit_ts j in rw (a, w) (h.routed j);
    ordered = λ j. let (a, w) = set_fields s i commit_ts j in rw (a, w) (h.ordered j);
    held = λ j k has. let (a, w) = set_fields s i commit_ts j in h.held j k (rw a at has);
    owned = λ j k owns. let (a, w) = set_fields s i commit_ts j in rw a (h.owned j k owns);
  }

  release_turn-Holding :
      (s s' : Latches) (i : ℕ) (woken : Option Woken)
      → Holding sum_32 size s
      → release_slot s i ≡ some (s', woken)
      → Holding sum_32 size s'
  unfolding release_slot release_at
  release_turn-Holding s s' i woken h e = elim (wanted_cases (s.locks i).acquired) [
    | inl nothing ↦ absurd (cc (rw (nothing, release_at) at e))
    | inr (r, (rest, has)) ↦
        elim (Bool-cases
          (search_panics (gives_back s i r rest) r.key (s.slots r.slot_id).waiting)) [
            | inl panics ↦ absurd (cc (release_slot_panics s i r rest has panics, e))
            | inr fine ↦
                let (t, (w, runs, after)) =
                  release_slot-Holding sum_32 size s i r rest h has fine in
                let same : t ≡ s' = cc (runs, e) in rw (← same) after
          ]
  ]

  Turn-Holding : (s s' : Latches) → Holding sum_32 size s → Turn s s' → Holding sum_32 size s'
  Turn-Holding s s' h (acquires _ _ i result e) = acquire_slot-Holding sum_32 size s i h s' result e
  Turn-Holding s s' h (releases _ _ i woken e) = release_turn-Holding s s' i woken h e
  Turn-Holding s _ h (recycles _ at ts) = recycle_slot-Holding s at ts h
  Turn-Holding s _ h (commits _ i ts) = set_commit_ts-Holding s i ts h

  pub Reached-Holding :
      (start_ts : ℕ → ℕ) (keys : ℕ → List Bytes) (s : Latches)
      → ((i : ℕ) → NoRepeat (keys i))
      → Reached start_ts keys s
      → Holding sum_32 size s
  Reached-Holding start_ts keys _ n at_first = new_latches-Holding start_ts keys n
  Reached-Holding start_ts keys _ n (then_step s s' before step) =
      Turn-Holding s s' (Reached-Holding start_ts keys s n before) step
