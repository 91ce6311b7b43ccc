-- ===== src/Deadlock.antt =====
-- internal/mockstore/deadlock/deadlock.go: the wait-for graph of transactions. The map from a
-- transaction to what it waits for is an association list with one entry for each key.
pub mod Search
pub mod Acyclic
pub mod Removal
use client_go.Base.{
  ℕ, zero, suc, Bool, false, if◌then◌else◌, ltb, ◌==◌, ◌&&◌, ◌||◌, List, [], ◌∷◌, ◌++◌,
}

pub record TxnKeyHashPair : Type 0 where
  pub txn : ℕ
  pub key_hash : ℕ

abbrev pub Detector : Type 0
Detector = List (ℕ × List TxnKeyHashPair)

pub new_detector : Detector
new_detector = []

-- `d.waitForMap[txn]`; the empty list for a missing key, since no entry of the map is empty.
unfoldable pub waits_for : Detector → ℕ → List TxnKeyHashPair
waits_for [] txn = []
waits_for ((t, pairs) ∷ d) txn = if t == txn then pairs else waits_for d txn

unfoldable pub set_waits : Detector → ℕ → List TxnKeyHashPair → Detector
set_waits [] txn pairs = (txn, pairs) ∷ []
set_waits ((t, old) ∷ d) txn pairs =
    if t == txn then (t, pairs) ∷ d else (t, old) ∷ set_waits d txn pairs

-- `delete(d.waitForMap, txn)`.
unfoldable pub clean_up : Detector → ℕ → Detector
clean_up [] txn = []
clean_up ((t, pairs) ∷ d) txn = if t == txn then clean_up d txn else (t, pairs) ∷ clean_up d txn

-- The answer of `doDetect`: no deadlock, or the key hash of `ErrDeadlock`. `lost` is no Go value: the
-- fuel ran out.
pub data Detected : Type 0 where
  clear : Detected
  deadlock : ℕ → Detected
  lost : Detected

-- The loop over the targets, `search` being the call of `doDetect` one level down.
unfoldable pub detect_targets : (ℕ → Detected) → ℕ → List TxnKeyHashPair → Detected
detect_targets search source_txn [] = clear
detect_targets search source_txn (next_target ∷ txns) =
    if next_target.txn == source_txn
    then deadlock next_target.key_hash
    else elim (search next_target.txn) [
      | clear ↦ detect_targets search source_txn txns
      | deadlock h ↦ deadlock h
      | lost ↦ lost
    ]

unfoldable pub do_detect : ℕ → Detector → ℕ → ℕ → Detected
unfolding detect_targets
do_detect zero d source_txn wait_for_txn = lost
do_detect (suc fuel) d source_txn wait_for_txn =
    detect_targets (do_detect fuel d source_txn) source_txn (waits_for d wait_for_txn)

abbrev pub is_pair : ℕ → ℕ → TxnKeyHashPair → Bool
is_pair txn key_hash tar = tar.txn == txn && tar.key_hash == key_hash

abbrev pub any_pair : ℕ → ℕ → List TxnKeyHashPair → Bool
any_pair txn key_hash [] = false
any_pair txn key_hash (tar ∷ txns) = is_pair txn key_hash tar || any_pair txn key_hash txns

unfoldable pub register : Detector → ℕ → ℕ → ℕ → Detector
register d source_txn wait_for_txn key_hash =
    let txns : List TxnKeyHashPair = waits_for d source_txn in
    if any_pair wait_for_txn key_hash txns
    then d
    else set_waits d source_txn (txns ++ (record { txn = wait_for_txn; key_hash = key_hash } ∷ []))

unfoldable pub detect : ℕ → Detector → ℕ → ℕ → ℕ → Detected × Detector
unfolding do_detect register
detect fuel d source_txn wait_for_txn key_hash = elim (do_detect fuel d source_txn wait_for_txn) [
  | clear ↦ (clear, register d source_txn wait_for_txn key_hash)
  | deadlock h ↦ (deadlock h, d)
  | lost ↦ (lost, d)
]

-- Removes the first pair that is the given one.
unfoldable pub remove_pair : ℕ → ℕ → List TxnKeyHashPair → List TxnKeyHashPair
remove_pair txn key_hash [] = []
remove_pair txn key_hash (tar ∷ txns) =
    if is_pair txn key_hash tar then txns else tar ∷ remove_pair txn key_hash txns

unfoldable pub clean_or_set : Detector → ℕ → List TxnKeyHashPair → Detector
clean_or_set d txn [] = clean_up d txn
clean_or_set d txn (tar ∷ txns) = set_waits d txn (tar ∷ txns)

unfoldable pub clean_up_wait_for : Detector → ℕ → ℕ → ℕ → Detector
unfolding clean_or_set
clean_up_wait_for d txn wait_for_txn key_hash =
    clean_or_set d txn (remove_pair wait_for_txn key_hash (waits_for d txn))

-- Removes the entries of transactions below `min_ts`.
unfoldable pub expire : Detector → ℕ → Detector
expire [] min_ts = []
expire ((t, pairs) ∷ d) min_ts =
    if ltb t min_ts then expire d min_ts else (t, pairs) ∷ expire d min_ts
