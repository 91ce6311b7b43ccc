-- ===== src/Mvcc/Collection/Rounds.antt =====
-- What the loops of `GC` collect over the rows of a range.
use client_go.Base.{
  ℕ, zero, suc, ◌≤◌, ◌≡◌, refl, ◌∙◌, ap, inl, inr, Bool, true, false, Bool-cases, Option, none,
  some, List, [], ◌∷◌, ◌++◌, map, length, Bytes, bytes_eq, bytes_eq_refl, bytes_eq→eq, arith,
}
use client_go.Mvcc.{MvccLock, MvccValue}
use client_go.Mvcc.Entry.{Entry, Row, BatchOp, delete_value}
use client_go.Mvcc.Range.{decode_lock}
use client_go.Mvcc.Range.Visits.{
  Ranges, Apart, flatten, rows_of, value_rows, holds_rows, next_of, rows_length,
}
use client_go.Mvcc.Collection.{
  keep_after, is_collected, gc_values, gc_loop, Collected, collects, under_safe_point, prepend,
  unless_locked,
}
use client_go.Mvcc.Collection.Survivors.{gone}

abbrev pub ops : Bytes → List ℕ → List BatchOp
ops key = map (delete_value key)

module _ (safe_point : ℕ) where
  stops :
      (key other : Bytes) (keep_next : Bool) (lock : Option MvccLock) (vs : List (ℕ × MvccValue))
      (more : List Row)
      → bytes_eq other key ≡ false
      → holds_rows lock vs ≡ true
      → gc_values safe_point key keep_next (rows_of other lock vs ++ more)
        ≡ ([], (other, rows_of other lock vs ++ more))
  unfolding gc_values value_rows
  stops key other keep_next none [] more h k = cc
  stops key other keep_next none ((ver, v) ∷ vs) more h k = rw h refl
  stops key other keep_next (some l) vs more h k = refl

  stops-flatten :
      (key : Bytes) (keep_next : Bool) (es : List (Bytes × Entry))
      → Apart key es
      → gc_values safe_point key keep_next (flatten es) ≡ ([], (next_of key es, flatten es))
  unfolding gc_values
  stops-flatten key keep_next [] a = refl
  stops-flatten key keep_next ((other, e) ∷ es) a =
      stops key other keep_next e.lock e.versions (flatten es) a.0 a.1

  values-gone :
      (key : Bytes) (keep_next : Bool) (vs : List (ℕ × MvccValue)) (es : List (Bytes × Entry))
      → Apart key es
      → gc_values safe_point key keep_next (value_rows key vs ++ flatten es)
        ≡ (ops key (gone safe_point keep_next vs), (next_of key es, flatten es))
  unfolding gc_values value_rows gone
  values-gone key keep_next [] es a = stops-flatten key keep_next es a
  values-gone key keep_next ((ver, v) ∷ vs) es a =
      let rest = values-gone key (keep_after safe_point keep_next v) vs es a in
      elim (Bool-cases (is_collected safe_point keep_next v)) [
        | inl old ↦ rw (bytes_eq_refl key, rest, old) refl
        | inr kept ↦ rw (bytes_eq_refl key, rest, kept) refl
      ]

  -- One round of the outer loop, at a key with rows.
  gc_round :
      (fuel : ℕ) (key : Bytes) (lock : Option MvccLock) (vs : List (ℕ × MvccValue))
      (es : List (Bytes × Entry))
      → Apart key es
      → holds_rows lock vs ≡ true
      → gc_loop (suc fuel) safe_point key (rows_of key lock vs ++ flatten es)
        ≡ unless_locked safe_point key lock (
            prepend
              (ops key (gone safe_point true vs))
              (gc_loop fuel safe_point (next_of key es) (flatten es)))
  unfolding gc_loop value_rows decode_lock
  gc_round fuel key none [] es a h = cc
  gc_round fuel key none ((ver, v) ∷ vs) es a h =
      rw (values-gone key true ((ver, v) ∷ vs) es a) refl
  gc_round fuel key (some l) vs es a h =
      rw (bytes_eq_refl key) (rw (values-gone key true vs es a) refl)

  -- What is to be done for the keys of a range.
  abbrev pub plan : List (Bytes × Entry) → Collected
  plan [] = collects []
  plan ((key, e) ∷ es) =
      unless_locked safe_point key e.lock
        (prepend (ops key (gone safe_point true e.versions)) (plan es))

  gc_nothing : (fuel : ℕ) (key : Bytes) → gc_loop fuel safe_point key [] ≡ collects []
  unfolding gc_loop
  gc_nothing zero key = refl
  gc_nothing (suc fuel) key = refl

  gc_loop-plan :
      (fuel : ℕ) (key : Bytes) (e : Entry) (es : List (Bytes × Entry))
      → Apart key es
      → holds_rows e.lock e.versions ≡ true
      → length (flatten ((key, e) ∷ es)) ≤ fuel
      → gc_loop fuel safe_point key (flatten ((key, e) ∷ es)) ≡ plan ((key, e) ∷ es)
  gc_loop-plan zero key e es a h k =
      absurd (omega (arith, rows_length key e.lock e.versions (flatten es) h))
  gc_loop-plan (suc fuel) key e [] a h k =
      gc_round fuel key e.lock e.versions [] a h
      ∙ ap
          (λ (c : Collected).
            unless_locked safe_point key e.lock
              (prepend (ops key (gone safe_point true e.versions)) c))
          (gc_nothing fuel key)
  gc_loop-plan (suc fuel) key e ((other, f) ∷ es) a h k =
      gc_round fuel key e.lock e.versions ((other, f) ∷ es) a h
      ∙ ap
          (λ (c : Collected).
            unless_locked safe_point key e.lock
              (prepend (ops key (gone safe_point true e.versions)) c))
          (gc_loop-plan fuel other f es a.2 a.1
            (omega (arith, rows_length key e.lock e.versions (flatten ((other, f) ∷ es)) h)))

  prepend-nil : (c : Collected) → prepend [] c ≡ c
  prepend-nil (collects batch) = refl
  prepend-nil (under_safe_point key ts) = refl

  -- At a key without rows the first round goes on to the first row.
  gc_early :
      (fuel : ℕ) (start key : Bytes) (lock : Option MvccLock) (vs : List (ℕ × MvccValue))
      (more : List Row)
      → bytes_eq key start ≡ false
      → holds_rows lock vs ≡ true
      → gc_loop (suc fuel) safe_point start (rows_of key lock vs ++ more)
        ≡ prepend [] (gc_loop fuel safe_point key (rows_of key lock vs ++ more))
  unfolding gc_loop gc_values value_rows decode_lock
  gc_early fuel start key none [] more h k = cc
  gc_early fuel start key none ((ver, v) ∷ vs) more h k = rw h refl
  gc_early fuel start key (some l) vs more h k = rw h refl

  pub gc_start :
      (start : Bytes) (es : List (Bytes × Entry))
      → Ranges es
      → gc_loop (suc (length (flatten es))) safe_point start (flatten es) ≡ plan es
  gc_start start [] r = gc_nothing 1 start
  gc_start start ((key, e) ∷ es) (h, a) =
      let fuel : ℕ = length (flatten ((key, e) ∷ es)) in
      elim (Bool-cases (bytes_eq key start)) [
        | inl here ↦
            rw (← bytes_eq→eq key start here) (gc_loop-plan (suc fuel) key e es a h (omega arith))
        | inr above ↦
            gc_early fuel start key e.lock e.versions (flatten es) above h
            ∙ prepend-nil (gc_loop fuel safe_point key (flatten ((key, e) ∷ es)))
            ∙ gc_loop-plan fuel key e es a h (omega arith)
      ]
