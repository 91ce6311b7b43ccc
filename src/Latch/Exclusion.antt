-- ===== src/Latch/Exclusion.antt =====
-- What the latches promise: exclusive keys, and waits that come to an end.
use client_go.Base.{ℕ, ◌≡◌, List, ◌∷◌, Bytes, bytes_compare_trans}
use client_go.Latch.{Request}
use client_go.Latch.Table.{Latches}
use client_go.Latch.Requests.{HasKey, Before, NoRepeat, acquired-Before, not-Before_self}
use client_go.Latch.Holders.{Owns, Holding, Owns-same}
use client_go.Latch.Reached.{Reached, Reached-Holding}

module _ (sum_32 : Bytes → ℕ) (size : ℕ) (start_ts : ℕ → ℕ) (keys : ℕ → List Bytes) where
  -- In every state that calls of the latches reach, in any order, when no list of keys has a key
  -- twice: two locks that have acquired the same key are the same lock.
  pub acquired_exclusive :
      (s : Latches) (i j : ℕ) (key : Bytes)
      → ((i : ℕ) → NoRepeat (keys i))
      → Reached sum_32 size start_ts keys s
      → HasKey (s.locks i).acquired key
      → HasKey (s.locks j).acquired key
      → i ≡ j
  acquired_exclusive s i j key n reached hi hj =
      let h = Reached-Holding sum_32 size start_ts keys s n reached in
      Owns-same sum_32 size s i j key (h.held i key hi) (h.held j key hj)

  -- Lock `i` wants, as its next key, a key whose node has lock `j` as its value.
  abbrev pub Waits : Latches → ℕ → ℕ → Type 0
  Waits s i j =
      (r : Request) × ((rest : List Request) × (((s.locks i).wanted ≡ r ∷ rest)
          × Owns sum_32 size s j r.key))

  pub data WaitsFor (s : Latches) : ℕ → ℕ → Type 0 where
    waits : (i j : ℕ) → Waits s i j → WaitsFor s i j
    through : (i j k : ℕ) → Waits s i j → WaitsFor s j k → WaitsFor s i k

  starts :
      (s : Latches) (i j : ℕ)
      → WaitsFor s i j
      → (r : Request) × ((rest : List Request) × ((s.locks i).wanted ≡ r ∷ rest))
  starts s _ _ (waits i j (r, (rest, (wants, _)))) = (r, (rest, wants))
  starts s _ _ (through i j k (r, (rest, (wants, _))) later) = (r, (rest, wants))

  wait_ascends :
      (s : Latches) (i j : ℕ) (r r' : Request) (rest rest' : List Request)
      → Holding sum_32 size s
      → Waits s i j
      → (s.locks i).wanted ≡ r ∷ rest
      → (s.locks j).wanted ≡ r' ∷ rest'
      → Before r.key r'.key
  wait_ascends s i j r r' rest rest' h (q, (others, (wants, owns))) e e' =
      let same : q ≡ r = cc (wants, e) in
      acquired-Before (s.locks j).acquired r.key r' rest' (rw e' at (h.ordered j).between)
        (h.owned j r.key (rw same at owns))

  waits_ascend :
      (s : Latches) (i j : ℕ) (r r' : Request) (rest rest' : List Request)
      → Holding sum_32 size s
      → WaitsFor s i j
      → (s.locks i).wanted ≡ r ∷ rest
      → (s.locks j).wanted ≡ r' ∷ rest'
      → Before r.key r'.key
  waits_ascend s _ _ r r' rest rest' h (waits i j w) e e' =
      wait_ascends s i j r r' rest rest' h w e e'
  waits_ascend s _ _ r r' rest rest' h (through i j k w later) e e' =
      let (q, (others, wants)) = starts s j k later in
      bytes_compare_trans r.key q.key r'.key (wait_ascends s i j r q rest others h w e wants)
        (waits_ascend s j k q r' others rest' h later wants e')

  -- In every state that calls of the latches reach, in any order, when no list of keys has a key
  -- twice: no lock waits for itself, neither at once nor through other locks, so waits do not
  -- deadlock.
  pub no_deadlock :
      (s : Latches) (i : ℕ)
      → ((i : ℕ) → NoRepeat (keys i))
      → Reached sum_32 size start_ts keys s
      → ¬ WaitsFor s i i
  no_deadlock s i n reached cycle =
      let (r, (rest, wants)) = starts s i i cycle in
      not-Before_self r.key (
        waits_ascend s i i r r rest rest (Reached-Holding sum_32 size start_ts keys s n reached)
          cycle wants wants)
