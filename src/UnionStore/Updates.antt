-- ===== src/UnionStore/Updates.antt =====
-- `updateCur` finds the next entry of the union.
use client_go.Base.{
  ◌+◌, ◌<◌, ◌≤◌, ◌≡◌, refl, ◌∙◌, ap, ◌⊎◌, inl, inr, Bool, true, false, some, List, [], ◌∷◌, length,
  arith,
}
use client_go.UnionStore.{
  KeyValue, Iterator, UnionIter, dirty_next, snapshot_next, round_at, update_round, advance,
  current,
}
use client_go.UnionStore.Merge.{IsSorted, Merges}

-- The entries that an iterator still has, and that its operations do not fail.
pub record Contents (I : Iterator) : Type 0 where
  pub entries : I.It → List KeyValue
  pub past_end : (it : I.It) → entries it ≡ [] → I.valid it ≡ false
  pub at_entry :
      (it : I.It) (e : KeyValue) (es : List KeyValue)
      → entries it ≡ e ∷ es
      → (I.valid it ≡ true)
        × (I.key it ≡ e.key)
        × (I.value it ≡ e.value)
        × ((it' : I.It) × ((I.next it ≡ some it') × (entries it' ≡ es)))

module _ (Dirty Snapshot : Iterator) (D : Contents Dirty) (S : Contents Snapshot)
    (reverse : Bool) where
  abbrev pub Iter : Type 0
  Iter = UnionIter Dirty Snapshot

  pub record On (iter : Iter) (ds ss : List KeyValue) : Type 0 where
    pub dirty : D.entries iter.dirty_it ≡ ds
    pub snapshot : S.entries iter.snapshot_it ≡ ss
    pub dirty_flag : iter.dirty_valid ≡ Dirty.valid iter.dirty_it
    pub snapshot_flag : iter.snapshot_valid ≡ Snapshot.valid iter.snapshot_it
    pub direction : iter.reverse ≡ reverse
    pub is_on : iter.is_valid ≡ true

  pub dirty_next-On :
      (iter : Iter) (d : KeyValue) (ds ss : List KeyValue)
      → On iter (d ∷ ds) ss
      → (iter' : Iter) × ((dirty_next Dirty Snapshot iter ≡ some iter') × On iter' ds ss)
  unfolding dirty_next
  dirty_next-On iter d ds ss on =
      let (_, _, _, (it, (runs, left))) = D.at_entry iter.dirty_it d ds on.dirty in
      (
        record iter { dirty_it = it; dirty_valid = Dirty.valid it },
        (
          rw (runs, dirty_next) refl,
          record {
            dirty = left;
            snapshot = on.snapshot;
            dirty_flag = refl;
            snapshot_flag = on.snapshot_flag;
            direction = on.direction;
            is_on = on.is_on;
          },
        ),
      )

  pub snapshot_next-On :
      (iter : Iter) (s : KeyValue) (ds ss : List KeyValue)
      → On iter ds (s ∷ ss)
      → (iter' : Iter) × ((snapshot_next Dirty Snapshot iter ≡ some iter') × On iter' ds ss)
  unfolding snapshot_next
  snapshot_next-On iter s ds ss on =
      let (_, _, _, (it, (runs, left))) = S.at_entry iter.snapshot_it s ss on.snapshot in
      (
        record iter { snapshot_it = it; snapshot_valid = Snapshot.valid it },
        (
          rw (runs, snapshot_next) refl,
          record {
            dirty = on.dirty;
            snapshot = left;
            dirty_flag = on.dirty_flag;
            snapshot_flag = refl;
            direction = on.direction;
            is_on = on.is_on;
          },
        ),
      )

  -- Where the flags of the iterators lead.
  pub round_by_flags :
      (iter : Iter) (ds ss : List KeyValue) (dv sv : Bool)
      → On iter ds ss
      → Dirty.valid iter.dirty_it ≡ dv
      → Snapshot.valid iter.snapshot_it ≡ sv
      → update_round Dirty Snapshot iter ≡ round_at Dirty Snapshot dv sv iter
  unfolding update_round
  round_by_flags iter ds ss dv sv on hd hs =
      ap (λ b. round_at Dirty Snapshot b iter.snapshot_valid iter) (on.dirty_flag ∙ hd)
      ∙ ap (λ b. round_at Dirty Snapshot dv b iter) (on.snapshot_flag ∙ hs)

  -- What the iterator shows, and what it goes on with.
  pub record Shows (iter : Iter) (ds ss : List KeyValue) (e : KeyValue) (ds' ss' : List KeyValue)
      : Type 0 where
    pub shown : iter.is_valid ≡ true
    pub entry : current Dirty Snapshot iter ≡ e
    pub then_on : (iter' : Iter) × ((advance Dirty Snapshot iter ≡ some iter') × On iter' ds' ss')
    pub joins : (es : List KeyValue) → Merges reverse ds' ss' es → Merges reverse ds ss (e ∷ es)
    pub sorted : IsSorted reverse ds' × IsSorted reverse ss'
    pub fewer : length ds' + length ss' < length ds + length ss

  -- Where `updateCur` leaves the iterator: at the end, or at an entry.
  abbrev pub Settled : Iter → List KeyValue → List KeyValue → Type 0
  Settled iter ds ss =
      ((iter.is_valid ≡ false) × Merges reverse ds ss [])
      ⊎ ((e : KeyValue) × ((ds' : List KeyValue) × ((ss' : List KeyValue) × Shows iter ds ss e ds'
                ss')))

  -- Entries that are skipped.
  pub Settled-more :
      (iter : Iter) (ds ss ds' ss' : List KeyValue)
      → ((es : List KeyValue) → Merges reverse ds' ss' es → Merges reverse ds ss es)
      → length ds' + length ss' ≤ length ds + length ss
      → Settled iter ds' ss'
      → Settled iter ds ss
  Settled-more iter ds ss ds' ss' more le (inl (done, m)) = inl (done, more [] m)
  Settled-more iter ds ss ds' ss' more le (inr (e, (ds2, (ss2, sh)))) = inr (
    e,
    (
      ds2,
      (
        ss2,
        record {
          shown = sh.shown;
          entry = sh.entry;
          then_on = sh.then_on;
          joins = λ es m. more (e ∷ es) (sh.joins es m);
          sorted = sh.sorted;
          fewer = omega (arith, sh.fewer, le);
        },
      ),
    ),
  )

  pub current-dirty :
      (iter : Iter) (d : KeyValue)
      → iter.cur_is_dirty ≡ true
      → Dirty.key iter.dirty_it ≡ d.key
      → Dirty.value iter.dirty_it ≡ d.value
      → current Dirty Snapshot iter ≡ d
  current-dirty iter d c hk hv = rw (c, hk, hv) refl

  pub current-snapshot :
      (iter : Iter) (s : KeyValue)
      → iter.cur_is_dirty ≡ false
      → Snapshot.key iter.snapshot_it ≡ s.key
      → Snapshot.value iter.snapshot_it ≡ s.value
      → current Dirty Snapshot iter ≡ s
  current-snapshot iter s c hk hv = rw (c, hk, hv) refl
