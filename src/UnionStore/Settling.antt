-- ===== src/UnionStore/Settling.antt =====
-- Each round of `updateCur` settles the iterator or skips an entry, so that enough fuel ends it.
use client_go.Base.{
  ordering_cases, ℕ, zero, suc, ◌+◌, ◌<◌, ◌≤◌, ◌≡◌, refl, ◌∙◌, ◌⊎◌, inl, inr, Bool, true, false,
  Bool-cases, some, List, [], ◌∷◌, length, arith,
}
use client_go.UnionStore.{
  KeyValue, Iterator, compare_in, is_nil, UnionIter, Round, break, continue, same_key, dirty_first,
  round_at, update_round, update_loop, advance,
}
use client_go.UnionStore.Merge.{
  AllLater, IsSorted, Merges, at_end, skip, take_dirty, take_snapshot, skip_both, take_over,
}
use client_go.UnionStore.Direction.{compare_in_eq, compare_in_gt, All-later}
use client_go.UnionStore.Updates.{
  Contents, On, Settled, Settled-more, dirty_next-On, snapshot_next-On, round_by_flags,
  current-dirty, current-snapshot,
}

module _ (Dirty Snapshot : Iterator) (D : Contents Dirty) (S : Contents Snapshot)
    (reverse : Bool) where
  abbrev Iter : Type 0
  Iter = UnionIter Dirty Snapshot

  abbrev IsOn : Iter → List KeyValue → List KeyValue → Type 0
  IsOn = On Dirty Snapshot D S reverse

  abbrev Done : Iter → List KeyValue → List KeyValue → Type 0
  Done = Settled Dirty Snapshot D S reverse

  -- What a round leads to.
  abbrev Leads : Round Dirty Snapshot → List KeyValue → List KeyValue → Type 0
  Leads round ds ss =
      ((iter : Iter) × ((round ≡ break iter) × Done iter ds ss))
      ⊎ ((iter : Iter) × ((ds' : List KeyValue) × ((ss' : List KeyValue) × ((round ≡ continue iter)
                × IsOn iter ds' ss'
                × (IsSorted reverse ds' × IsSorted reverse ss')
                × ((es : List KeyValue) → Merges reverse ds' ss' es → Merges reverse ds ss es)
                × (length ds' < length ds)
                × (length ss' ≤ length ss)))))

  at_dirty :
      (iter : Iter) (flag : Bool) (ds ss : List KeyValue)
      → IsOn iter ds ss
      → IsOn (record iter { cur_is_dirty = flag }) ds ss
  at_dirty iter flag ds ss on = record {
    dirty = on.dirty;
    snapshot = on.snapshot;
    dirty_flag = on.dirty_flag;
    snapshot_flag = on.snapshot_flag;
    direction = on.direction;
    is_on = on.is_on;
  }

  shows_dirty :
      (iter : Iter) (d : KeyValue) (ds ss ds0 ss0 : List KeyValue)
      → IsOn iter (d ∷ ds) ss
      → IsSorted reverse ds × IsSorted reverse ss
      → ((es : List KeyValue) → Merges reverse ds ss es → Merges reverse ds0 ss0 (d ∷ es))
      → length ds + length ss < length ds0 + length ss0
      → Done (record iter { cur_is_dirty = true }) ds0 ss0
  unfolding advance
  shows_dirty iter d ds ss ds0 ss0 on sorted joins fewer =
      let iter' : Iter = record iter { cur_is_dirty = true } in
      let (_, hk, hv, _) = D.at_entry iter.dirty_it d ds on.dirty in
      inr (
        d,
        (
          ds,
          (
            ss,
            record {
              shown = on.is_on;
              entry = current-dirty Dirty Snapshot D S reverse iter' d refl hk hv;
              then_on =
                  dirty_next-On Dirty Snapshot D S reverse iter' d ds ss
                    (at_dirty iter true (d ∷ ds) ss on);
              joins = joins;
              sorted = sorted;
              fewer = fewer;
            },
          ),
        ),
      )

  shows_snapshot :
      (iter : Iter) (s : KeyValue) (ds ss : List KeyValue)
      → IsOn iter ds (s ∷ ss)
      → IsSorted reverse ds × IsSorted reverse ss
      → AllLater reverse s.key ds
      → Done (record iter { cur_is_dirty = false }) ds (s ∷ ss)
  unfolding advance
  shows_snapshot iter s ds ss on sorted later =
      let iter' : Iter = record iter { cur_is_dirty = false } in
      let (_, hk, hv, _) = S.at_entry iter.snapshot_it s ss on.snapshot in
      inr (
        s,
        (
          ds,
          (
            ss,
            record {
              shown = on.is_on;
              entry = current-snapshot Dirty Snapshot D S reverse iter' s refl hk hv;
              then_on =
                  snapshot_next-On Dirty Snapshot D S reverse iter' s ds ss
                    (at_dirty iter false ds (s ∷ ss) on);
              joins = λ es m. take_snapshot s ds ss es later m;
              sorted = sorted;
              fewer = omega arith;
            },
          ),
        ),
      )

  dirty_first-Leads :
      (iter : Iter) (d : KeyValue) (ds ss : List KeyValue)
      → IsOn iter (d ∷ ds) ss
      → IsSorted reverse (d ∷ ds) × IsSorted reverse ss
      → AllLater reverse d.key ss
      → Leads (dirty_first Dirty Snapshot iter) (d ∷ ds) ss
  unfolding dirty_first
  dirty_first-Leads iter d ds ss on (sd, sorted) later =
      let (_, _, hv, _) = D.at_entry iter.dirty_it d ds on.dirty in
      elim (Bool-cases (is_nil d.value)) [
        | inl gone ↦
            let (iter', (runs, on')) = dirty_next-On Dirty Snapshot D S reverse iter d ds ss on in
            inr (
              iter',
              (
                ds,
                (
                  ss,
                  (
                    rw (hv, gone, runs, dirty_first) refl,
                    on',
                    (sd.1, sorted),
                    (λ es m. skip d ds ss es gone later m),
                    omega arith,
                    omega arith,
                  ),
                ),
              ),
            )
        | inr here ↦ inl (
          record iter { cur_is_dirty = true },
          (
            rw (hv, here, dirty_first) refl,
            shows_dirty iter d ds ss (d ∷ ds) ss on (sd.1, sorted)
                (λ es m. take_dirty d ds ss es here later m) (omega arith),
          ),
        )
      ]

  same_key-Leads :
      (iter : Iter) (d s : KeyValue) (ds ss : List KeyValue)
      → IsOn iter (d ∷ ds) (s ∷ ss)
      → IsSorted reverse (d ∷ ds) × IsSorted reverse (s ∷ ss)
      → d.key ≡ s.key
      → Leads (same_key Dirty Snapshot iter) (d ∷ ds) (s ∷ ss)
  unfolding same_key
  same_key-Leads iter d s ds ss on (sd, sorted) same =
      let (_, _, hv, _) = D.at_entry iter.dirty_it d ds on.dirty in
      elim (Bool-cases (is_nil d.value)) [
        | inl gone ↦
            let (iter', (runs, on')) =
              dirty_next-On Dirty Snapshot D S reverse iter d ds (s ∷ ss) on in
            let (iter2, (runs', on2)) =
              snapshot_next-On Dirty Snapshot D S reverse iter' s ds ss on' in
            inr (
              iter2,
              (
                ds,
                (
                  ss,
                  (
                    rw (hv, gone, runs, runs', same_key) refl,
                    on2,
                    (sd.1, sorted.1),
                    (λ es m. skip_both d s ds ss es same gone m),
                    omega arith,
                    omega arith,
                  ),
                ),
              ),
            )
        | inr here ↦
            let (iter', (runs, on')) =
              snapshot_next-On Dirty Snapshot D S reverse iter s (d ∷ ds) ss on in
            inl (
              record iter' { cur_is_dirty = true },
              (
                rw (hv, here, runs, same_key) refl,
                shows_dirty iter' d ds ss (d ∷ ds) (s ∷ ss) on' (sd.1, sorted.1)
                    (λ es m. take_over d s ds ss es same here m) (omega arith),
              ),
            )
      ]

  both-Leads :
      (iter : Iter) (d s : KeyValue) (ds ss : List KeyValue)
      → IsOn iter (d ∷ ds) (s ∷ ss)
      → IsSorted reverse (d ∷ ds) × IsSorted reverse (s ∷ ss)
      → Leads (round_at Dirty Snapshot true true iter) (d ∷ ds) (s ∷ ss)
  unfolding round_at
  both-Leads iter d s ds ss on (sd, sorted) =
      let (_, hd, _, _) = D.at_entry iter.dirty_it d ds on.dirty in
      let (_, hs, _, _) = S.at_entry iter.snapshot_it s ss on.snapshot in
      let keys : compare_in iter.reverse (Dirty.key iter.dirty_it) (Snapshot.key iter.snapshot_it)
          ≡ compare_in reverse d.key s.key =
        rw (on.direction, hd, hs) refl in
      elim (ordering_cases (compare_in reverse d.key s.key)) [
        | inl lt ↦
            rw (keys ∙ lt, round_at)
              (dirty_first-Leads iter d ds (s ∷ ss) on (sd, sorted)
                (lt, All-later reverse d.key s.key ss lt sorted.0))
        | inr (inl eq) ↦
            rw (keys ∙ eq, round_at)
              (same_key-Leads iter d s ds ss on (sd, sorted) (compare_in_eq reverse d.key s.key eq))
        | inr (inr gt) ↦
            let first = compare_in_gt reverse d.key s.key gt in
            rw (keys ∙ gt, round_at)
              (inl (
                record iter { cur_is_dirty = false },
                (
                  refl,
                  shows_snapshot iter s (d ∷ ds) ss on (sd, sorted.1)
                      (first, All-later reverse s.key d.key ds first sd.0),
                ),
              ))
      ]

  round-Leads :
      (iter : Iter) (ds ss : List KeyValue)
      → IsOn iter ds ss
      → IsSorted reverse ds × IsSorted reverse ss
      → Leads (update_round Dirty Snapshot iter) ds ss
  unfolding round_at
  round-Leads iter [] [] on sorted =
      rw
        (round_by_flags Dirty Snapshot D S reverse iter [] [] false false on
          (D.past_end iter.dirty_it on.dirty) (S.past_end iter.snapshot_it on.snapshot))
        (inl (record iter { is_valid = false }, (refl, inl (refl, at_end))))
  round-Leads iter [] (s ∷ ss) on sorted =
      let (sv, _, _, _) = S.at_entry iter.snapshot_it s ss on.snapshot in
      rw
        (round_by_flags Dirty Snapshot D S reverse iter [] (s ∷ ss) false true on
          (D.past_end iter.dirty_it on.dirty) sv)
        (inl (
          record iter { cur_is_dirty = false },
          (refl, shows_snapshot iter s [] ss on (tt, sorted.1.1) tt),
        ))
  round-Leads iter (d ∷ ds) [] on sorted =
      let (dv, _, _, _) = D.at_entry iter.dirty_it d ds on.dirty in
      rw
        (round_by_flags Dirty Snapshot D S reverse iter (d ∷ ds) [] true false on dv
          (S.past_end iter.snapshot_it on.snapshot))
        (dirty_first-Leads (record iter { cur_is_dirty = true }) d ds []
          (at_dirty iter true (d ∷ ds) [] on) sorted tt)
  round-Leads iter (d ∷ ds) (s ∷ ss) on sorted =
      let (dv, _, _, _) = D.at_entry iter.dirty_it d ds on.dirty in
      let (sv, _, _, _) = S.at_entry iter.snapshot_it s ss on.snapshot in
      rw (round_by_flags Dirty Snapshot D S reverse iter (d ∷ ds) (s ∷ ss) true true on dv sv)
        (both-Leads iter d s ds ss on sorted)

  pub update_loop-Settled :
      (fuel : ℕ) (iter : Iter) (ds ss : List KeyValue)
      → IsOn iter ds ss
      → IsSorted reverse ds × IsSorted reverse ss
      → length ds < fuel
      → (iter' : Iter) × ((update_loop Dirty Snapshot fuel iter ≡ some iter') × Done iter' ds ss)
  unfolding update_loop
  update_loop-Settled zero iter ds ss on sorted h = absurd (omega arith)
  update_loop-Settled (suc fuel) iter ds ss on sorted h = elim (round-Leads iter ds ss on sorted) [
    | inl (iter', (stops, done)) ↦ (iter', (rw (stops, update_loop) refl, done))
    | inr (iter', (ds', (ss', (goes, on', sorted', more, fewer, le)))) ↦
        let (last, (runs, done)) =
          update_loop-Settled fuel iter' ds' ss' on' sorted' (omega (arith, fewer, h)) in
        (
          last,
          (
            rw (goes, update_loop) runs,
            Settled-more Dirty Snapshot D S reverse last ds ss ds' ss' more
                (omega (arith, fewer, le)) done,
          ),
        )
  ]
