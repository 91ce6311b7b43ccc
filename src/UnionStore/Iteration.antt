-- ===== src/UnionStore/Iteration.antt =====
-- A whole iteration over the union store.
use client_go.Base.{
  ℕ, zero, suc, ◌+◌, ◌<◌, ◌≡◌, refl, ◌∙◌, ap, inl, inr, Bool, true, false, if◌then◌else◌, Option,
  none, some, List, [], ◌∷◌, Bytes, length, arith,
}
use client_go.UnionStore.{
  KeyValue, Iterator, UnionIter, update_cur, new_union_iter, advance, next, current, get,
}
use client_go.UnionStore.Merge.{IsSorted, Merges, Merges-IsSorted, lookup}
use client_go.UnionStore.Reads.{NoEmpty, Merges-get}
use client_go.UnionStore.Updates.{Contents, Settled}
use client_go.UnionStore.Settling.{update_loop-Settled}

module _ (Dirty Snapshot : Iterator) where
  -- A caller's loop: the entries until the iterator is not valid. Each `Next` gets `fuel` rounds.
  unfoldable pub collect : ℕ → ℕ → UnionIter Dirty Snapshot → Option (List KeyValue)
  collect zero fuel iter = none
  collect (suc turns) fuel iter =
      if iter.is_valid
      then elim (next Dirty Snapshot fuel iter) [
        | none ↦ none
        | some iter' ↦ elim (collect turns fuel iter') [
          | none ↦ none
          | some entries ↦ some (current Dirty Snapshot iter ∷ entries)
        ]
      ]
      else some []

  unfoldable pub collect_from : ℕ → ℕ → Option (UnionIter Dirty Snapshot) → Option (List KeyValue)
  unfolding collect
  collect_from turns fuel none = none
  collect_from turns fuel (some iter) = collect turns fuel iter

  unfoldable pub scan : ℕ → ℕ → Dirty.It → Snapshot.It → Bool → Option (List KeyValue)
  unfolding collect_from
  scan turns fuel dirty_it snapshot_it reverse =
      collect_from turns fuel (new_union_iter Dirty Snapshot fuel dirty_it snapshot_it reverse)

  module _ (D : Contents Dirty) (S : Contents Snapshot) (reverse : Bool) where
    update_cur-Settled :
        (fuel : ℕ) (iter : UnionIter Dirty Snapshot) (ds ss : List KeyValue)
        → D.entries iter.dirty_it ≡ ds
        → S.entries iter.snapshot_it ≡ ss
        → iter.dirty_valid ≡ Dirty.valid iter.dirty_it
        → iter.snapshot_valid ≡ Snapshot.valid iter.snapshot_it
        → iter.reverse ≡ reverse
        → IsSorted reverse ds × IsSorted reverse ss
        → length ds < fuel
        → (iter' : UnionIter Dirty Snapshot) × ((update_cur Dirty Snapshot fuel iter ≡ some iter')
            × Settled Dirty Snapshot D S reverse iter' ds ss)
    unfolding update_cur
    update_cur-Settled fuel iter ds ss dirty snapshot dirty_flag snapshot_flag direction sorted h =
        update_loop-Settled Dirty Snapshot D S reverse fuel (record iter { is_valid = true }) ds ss
          (record {
            dirty = dirty;
            snapshot = snapshot;
            dirty_flag = dirty_flag;
            snapshot_flag = snapshot_flag;
            direction = direction;
            is_on = refl;
          })
          sorted h

    next-update_cur :
        (fuel : ℕ) (iter iter1 iter2 : UnionIter Dirty Snapshot)
        → advance Dirty Snapshot iter ≡ some iter1
        → update_cur Dirty Snapshot fuel iter1 ≡ some iter2
        → next Dirty Snapshot fuel iter ≡ some iter2
    unfolding next
    next-update_cur fuel iter iter1 iter2 moves runs = rw (moves, next) runs

    collect-next :
        (turns fuel : ℕ) (iter iter' : UnionIter Dirty Snapshot) (e : KeyValue) (es : List KeyValue)
        → iter.is_valid ≡ true
        → next Dirty Snapshot fuel iter ≡ some iter'
        → collect turns fuel iter' ≡ some es
        → current Dirty Snapshot iter ≡ e
        → collect (suc turns) fuel iter ≡ some (e ∷ es)
    unfolding collect
    collect-next turns fuel iter iter' e es valid moves rest shown =
        rw (← shown) (rw (moves, rest, valid) refl)

    abbrev Collected : Option (List KeyValue) → List KeyValue → List KeyValue → Type 0
    Collected o ds ss = (es : List KeyValue) × ((o ≡ some es) × Merges reverse ds ss es)

    collect-Merges :
        (turns fuel : ℕ) (iter : UnionIter Dirty Snapshot) (ds ss : List KeyValue)
        → Settled Dirty Snapshot D S reverse iter ds ss
        → length ds + length ss < turns
        → length ds + length ss < fuel
        → Collected (collect turns fuel iter) ds ss
    unfolding collect next
    collect-Merges zero fuel iter ds ss settled ht hf = absurd (omega arith)
    collect-Merges (suc turns) fuel iter ds ss (inl (done, m)) ht hf = ([], (rw done refl, m))
    collect-Merges (suc turns) fuel iter ds ss (inr (e, (ds', (ss', sh)))) ht hf =
        let (iter1, (moves, on)) = sh.then_on in
        let less = sh.fewer in
        let (iter2, (runs, settled)) =
          update_cur-Settled fuel iter1 ds' ss' on.dirty on.snapshot on.dirty_flag on.snapshot_flag
            on.direction sh.sorted (omega (arith, less, hf)) in
        let (es, (rest, m)) =
          collect-Merges turns fuel iter2 ds' ss' settled (omega (arith, less, ht))
            (omega (arith, less, hf)) in
        (
          e ∷ es,
          (
            collect-next turns fuel iter iter2 e es sh.shown
                (next-update_cur fuel iter iter1 iter2 moves runs) rest sh.entry,
            sh.joins es m,
          ),
        )

    -- A union iterator over sorted iterators whose operations do not fail, ascending or reversed, with
    -- fuel above the number of entries: the iteration ends, its entries are strictly sorted in the
    -- direction of the iterators, and at every key they have what `Get` of the union store returns,
    -- no value of the snapshot being empty.
    pub scan-get :
        (turns fuel : ℕ) (dirty_it : Dirty.It) (snapshot_it : Snapshot.It)
        → IsSorted reverse (D.entries dirty_it)
        → IsSorted reverse (S.entries snapshot_it)
        → NoEmpty (S.entries snapshot_it)
        → length (D.entries dirty_it) + length (S.entries snapshot_it) < turns
        → length (D.entries dirty_it) + length (S.entries snapshot_it) < fuel
        → (es : List KeyValue) × ((scan turns fuel dirty_it snapshot_it reverse ≡ some es)
            × IsSorted reverse es
            × ((k : Bytes)
                → lookup es k
                  ≡ get (lookup (D.entries dirty_it)) (lookup (S.entries snapshot_it)) k))
    unfolding scan collect_from new_union_iter
    scan-get turns fuel dirty_it snapshot_it hd hs ne ht hf =
        let ds = D.entries dirty_it in
        let ss = S.entries snapshot_it in
        let iter : UnionIter Dirty Snapshot = record {
          dirty_it = dirty_it;
          snapshot_it = snapshot_it;
          dirty_valid = Dirty.valid dirty_it;
          snapshot_valid = Snapshot.valid snapshot_it;
          cur_is_dirty = false;
          is_valid = false;
          reverse = reverse;
        } in
        let (iter', (starts, settled)) =
          update_cur-Settled fuel iter ds ss refl refl refl refl refl (hd, hs)
            (omega (arith, hf)) in
        let (es, (runs, m)) = collect-Merges turns fuel iter' ds ss settled ht hf in
        (
          es,
          (
            ap (collect_from turns fuel) starts ∙ runs,
            Merges-IsSorted reverse ds ss es m hd hs,
            λ k. Merges-get reverse ds ss es k m hd hs ne,
          ),
        )
