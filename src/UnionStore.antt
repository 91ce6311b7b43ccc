-- ===== src/UnionStore.antt =====
-- internal/unionstore: union_store.go and union_iter.go, the writes of a transaction over what it
-- reads of the store. The membuffer and the snapshot are behind their interfaces.
pub mod Merge
pub mod Reads
pub mod Direction
pub mod Updates
pub mod Settling
pub mod Iteration
use client_go.Base.{
  ℕ, zero, suc, Bool, true, false, not, ◌&&◌, if◌then◌else◌, Option, none, some, List, [], ◌∷◌,
  Bytes, bytes_compare, bytes_eq, Ordering,
}

pub record KeyValue : Type 0 where
  pub key : Bytes
  pub value : Bytes

-- What `Get` of a store returns: a value, `ErrNotExist` or another error.
pub data Found : Type 0 where
  value_of : Bytes → Found
  not_exist other_error : Found

abbrev pub unless_empty : Found → Found
unless_empty (value_of []) = not_exist
unless_empty (value_of (b ∷ value)) = value_of (b ∷ value)
unless_empty not_exist = not_exist
unless_empty other_error = other_error

-- What `KVUnionStore.Get` makes of what the membuffer and the snapshot return; the snapshot counts
-- only where the membuffer has no entry.
abbrev pub get_over : Found → Found → Found
get_over not_exist snapshot = unless_empty snapshot
get_over other_error snapshot = other_error
get_over (value_of v) snapshot = unless_empty (value_of v)

unfoldable pub get : (Bytes → Found) → (Bytes → Found) → Bytes → Found
get buffer_get snapshot_get k = get_over (buffer_get k) (snapshot_get k)

-- The interface `Iterator`; `next` is `none` where it returns an error.
pub record Iterator : Type 1 where
  pub It : Type 0
  pub valid : It → Bool
  pub key : It → Bytes
  pub value : It → Bytes
  pub next : It → Option It

abbrev pub is_nil : Bytes → Bool
is_nil [] = true
is_nil (b ∷ bs) = false

-- The sign of a comparison, for a reversed iterator.
abbrev pub negate : Ordering → Ordering
negate Ordering.lt = Ordering.gt
negate Ordering.eq = Ordering.eq
negate Ordering.gt = Ordering.lt

abbrev pub compare_in : Bool → Bytes → Bytes → Ordering
compare_in reverse x y = if reverse then negate (bytes_compare x y) else bytes_compare x y

module _ (Dirty Snapshot : Iterator) where
  pub record UnionIter : Type 0 where
    pub dirty_it : Dirty.It
    pub snapshot_it : Snapshot.It
    pub dirty_valid : Bool
    pub snapshot_valid : Bool
    pub cur_is_dirty : Bool
    pub is_valid : Bool
    pub reverse : Bool

  unfoldable pub dirty_next : UnionIter → Option UnionIter
  dirty_next iter = elim (Dirty.next iter.dirty_it) [
    | none ↦ none
    | some it ↦ some (record iter { dirty_it = it; dirty_valid = Dirty.valid it })
  ]

  unfoldable pub snapshot_next : UnionIter → Option UnionIter
  snapshot_next iter = elim (Snapshot.next iter.snapshot_it) [
    | none ↦ none
    | some it ↦ some (record iter { snapshot_it = it; snapshot_valid = Snapshot.valid it })
  ]

  -- How a round of the loop of `updateCur` ends: `break`, `continue` or `return err`.
  pub data Round : Type 0 where
    break continue : UnionIter → Round
    return_err : Round

  abbrev pub break_at : Option UnionIter → Round
  break_at none = return_err
  break_at (some iter) = break (record iter { cur_is_dirty = true })

  abbrev pub continue_at : Option UnionIter → Round
  continue_at none = return_err
  continue_at (some iter) = continue iter

  -- Both iterators are at the same key.
  unfoldable pub same_key : UnionIter → Round
  unfolding dirty_next snapshot_next
  same_key iter =
      if is_nil (Dirty.value iter.dirty_it)
      then elim (dirty_next iter) [
        | none ↦ return_err
        | some iter' ↦ continue_at (snapshot_next iter')
      ]
      else break_at (snapshot_next iter)

  unfoldable pub dirty_first : UnionIter → Round
  unfolding dirty_next
  dirty_first iter =
      if is_nil (Dirty.value iter.dirty_it)
      then continue_at (dirty_next iter)
      else break (record iter { cur_is_dirty = true })

  -- A round of the loop of `updateCur`, by `dirtyValid` and `snapshotValid`.
  unfoldable pub round_at : Bool → Bool → UnionIter → Round
  unfolding same_key dirty_first
  round_at false false iter = break (record iter { is_valid = false })
  round_at false true iter = break (record iter { cur_is_dirty = false })
  round_at true false iter = dirty_first (record iter { cur_is_dirty = true })
  round_at true true iter =
      elim (compare_in iter.reverse (Dirty.key iter.dirty_it) (Snapshot.key iter.snapshot_it)) [
        | Ordering.eq ↦ same_key iter
        | Ordering.gt ↦ break (record iter { cur_is_dirty = false })
        | Ordering.lt ↦ dirty_first iter
      ]

  unfoldable pub update_round : UnionIter → Round
  unfolding round_at
  update_round iter = round_at iter.dirty_valid iter.snapshot_valid iter

  -- The loop of `updateCur`; `none` is an error, or fuel that is spent.
  unfoldable pub update_loop : ℕ → UnionIter → Option UnionIter
  unfolding update_round
  update_loop zero iter = none
  update_loop (suc fuel) iter = elim (update_round iter) [
    | break iter' ↦ some iter'
    | continue iter' ↦ update_loop fuel iter'
    | return_err ↦ none
  ]

  unfoldable pub update_cur : ℕ → UnionIter → Option UnionIter
  unfolding update_loop
  update_cur fuel iter = update_loop fuel (record iter { is_valid = true })

  unfoldable pub new_union_iter : ℕ → Dirty.It → Snapshot.It → Bool → Option UnionIter
  unfolding update_cur
  new_union_iter fuel dirty_it snapshot_it reverse = update_cur fuel (record {
    dirty_it = dirty_it;
    snapshot_it = snapshot_it;
    dirty_valid = Dirty.valid dirty_it;
    snapshot_valid = Snapshot.valid snapshot_it;
    cur_is_dirty = false;
    is_valid = false;
    reverse = reverse;
  })

  unfoldable pub advance : UnionIter → Option UnionIter
  unfolding dirty_next snapshot_next
  advance iter = if not iter.cur_is_dirty then snapshot_next iter else dirty_next iter

  -- `Next`
  unfoldable pub next : ℕ → UnionIter → Option UnionIter
  unfolding advance update_cur
  next fuel iter = elim (advance iter) [ none ↦ none | some iter' ↦ update_cur fuel iter' ]

  -- `Key` and `Value`
  abbrev pub current : UnionIter → KeyValue
  current iter =
      if not iter.cur_is_dirty
      then record { key = Snapshot.key iter.snapshot_it; value = Snapshot.value iter.snapshot_it }
      else record { key = Dirty.key iter.dirty_it; value = Dirty.value iter.dirty_it }
