-- ===== src/Tests/Union.antt =====
-- A union iterator over two lists.
use client_go.Base.{
  ◌≡◌, refl, Bool, true, false, Option, none, some, List, [], ◌∷◌, Bytes, bytes_compare, arith,
}
use client_go.UnionStore.{
  KeyValue, Iterator, new_union_iter, update_cur, update_loop, update_round, round_at, same_key,
  dirty_first, dirty_next, snapshot_next, next, advance, get,
}
use client_go.UnionStore.Merge.{IsSorted, lookup}
use client_go.UnionStore.Updates.{Contents}
use client_go.UnionStore.Iteration.{collect, collect_from, scan, scan-get}

abbrev list_valid : List KeyValue → Bool
list_valid [] = false
list_valid (e ∷ es) = true

abbrev list_key : List KeyValue → Bytes
list_key [] = []
list_key (e ∷ es) = e.key

abbrev list_value : List KeyValue → Bytes
list_value [] = []
list_value (e ∷ es) = e.value

abbrev list_next : List KeyValue → Option (List KeyValue)
list_next [] = none
list_next (e ∷ es) = some es

abbrev list_iterator : Iterator
list_iterator = record {
  It = List KeyValue;
  valid = list_valid;
  key = list_key;
  value = list_value;
  next = list_next;
}

list_past_end : (it : List KeyValue) → it ≡ [] → list_valid it ≡ false
list_past_end it e = rw e refl

list_at_entry :
    (it : List KeyValue) (e : KeyValue) (es : List KeyValue)
    → it ≡ e ∷ es
    → (list_valid it ≡ true)
      × (list_key it ≡ e.key)
      × (list_value it ≡ e.value)
      × ((it' : List KeyValue) × ((list_next it ≡ some it') × (it' ≡ es)))
list_at_entry it e es h = rw h (refl, refl, refl, (es, (refl, refl)))

abbrev list_contents : Contents list_iterator
list_contents = record { entries = λ it. it; past_end = list_past_end; at_entry = list_at_entry }

-- Key 1 is deleted, key 3 is overwritten.
abbrev dirty_entries : List KeyValue
dirty_entries = record { key = 1 ∷ []; value = [] } ∷ record { key = 3 ∷ []; value = 30 ∷ [] } ∷ []

abbrev snapshot_entries : List KeyValue
snapshot_entries =
    record { key = 1 ∷ []; value = 7 ∷ [] }
    ∷ record { key = 2 ∷ []; value = 8 ∷ [] }
    ∷ record { key = 3 ∷ []; value = 9 ∷ [] }
    ∷ []

scan_runs :
    scan list_iterator list_iterator 6 6 dirty_entries snapshot_entries false
    ≡ some (record { key = 2 ∷ []; value = 8 ∷ [] } ∷ record { key = 3 ∷ []; value = 30 ∷ [] } ∷ [])
unfolding scan collect_from collect new_union_iter update_cur update_loop update_round round_at
    same_key dirty_first dirty_next snapshot_next next advance bytes_compare
scan_runs = refl

dirty_entries-IsSorted : IsSorted false dirty_entries
unfolding bytes_compare
dirty_entries-IsSorted = ((refl, tt), (tt, tt))

snapshot_entries-IsSorted : IsSorted false snapshot_entries
unfolding bytes_compare
snapshot_entries-IsSorted = ((refl, (refl, tt)), ((refl, tt), (tt, tt)))

scan-get_example :
    (es : List KeyValue) × ((scan list_iterator list_iterator 6 6 dirty_entries snapshot_entries
          false
        ≡ some es)
      × IsSorted false es
      × ((k : Bytes) → lookup es k ≡ get (lookup dirty_entries) (lookup snapshot_entries) k))
scan-get_example =
    scan-get list_iterator list_iterator list_contents list_contents false 6 6 dirty_entries
      snapshot_entries dirty_entries-IsSorted snapshot_entries-IsSorted (refl, (refl, (refl, tt)))
      (omega arith) (omega arith)
