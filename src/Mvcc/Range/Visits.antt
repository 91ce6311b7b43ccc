-- ===== src/Mvcc/Range/Visits.antt =====
-- What the loop over a range visits.
use client_go.Base.{
  ℕ, zero, suc, ◌≤◌, ◌<◌, ◌≡◌, refl, ◌∙◌, ap, ◌⊎◌, inl, inr, Bool, true, false, Option, none, some,
  List, [], ◌∷◌, ◌++◌, Bytes, bytes_eq, bytes_eq_refl, bytes_eq→eq, length, length-append,
  Bool-cases, arith,
}
use client_go.Mvcc.{MvccLock, MvccValue}
use client_go.Mvcc.Entry.{Entry, Row, lock_row, value_row}
use client_go.Mvcc.Range.{decode_lock, skip, visit, visits, scan_start}

unfoldable pub value_rows : Bytes → List (ℕ × MvccValue) → List Row
value_rows key [] = []
value_rows key ((ver, v) ∷ vs) = value_row key ver v ∷ value_rows key vs

abbrev pub rows_of : Bytes → Option MvccLock → List (ℕ × MvccValue) → List Row
rows_of key none vs = value_rows key vs
rows_of key (some l) vs = lock_row key l ∷ value_rows key vs

-- The rows of a key that holds an entry.
abbrev pub rows : Bytes → Entry → List Row
rows key e = rows_of key e.lock e.versions

abbrev pub holds_rows : Option MvccLock → List (ℕ × MvccValue) → Bool
holds_rows none [] = false
holds_rows _ _ = true

-- The rows of a range of keys.
abbrev pub flatten : List (Bytes × Entry) → List Row
flatten [] = []
flatten ((key, e) ∷ es) = rows key e ++ flatten es

abbrev pub locks_of : List (Bytes × Entry) → List (Bytes × Option MvccLock)
locks_of [] = []
locks_of ((key, e) ∷ es) = (key, e.lock) ∷ locks_of es

-- Neighbouring keys differ, and no key is without rows.
abbrev pub Apart : Bytes → List (Bytes × Entry) → Type 0
Apart key [] = Unit {0}
Apart key ((other, e) ∷ es) =
    (bytes_eq other key ≡ false) × (holds_rows e.lock e.versions ≡ true) × Apart other es

abbrev pub next_of : Bytes → List (Bytes × Entry) → Bytes
next_of key [] = key
next_of key ((other, e) ∷ es) = other

skip_values :
    (key : Bytes) (vs : List (ℕ × MvccValue)) (more : List Row)
    → skip key (value_rows key vs ++ more) ≡ skip key more
unfolding skip value_rows
skip_values key [] more = refl
skip_values key ((ver, v) ∷ vs) more = rw (bytes_eq_refl key) (skip_values key vs more)

skip_other :
    (key other : Bytes) (lock : Option MvccLock) (vs : List (ℕ × MvccValue)) (more : List Row)
    → bytes_eq other key ≡ false
    → holds_rows lock vs ≡ true
    → skip key (rows_of other lock vs ++ more) ≡ (other, rows_of other lock vs ++ more)
unfolding skip value_rows
skip_other key other none [] more h k = cc
skip_other key other none ((ver, v) ∷ vs) more h k = rw h refl
skip_other key other (some l) vs more h k = rw h refl

skip-flatten :
    (key : Bytes) (es : List (Bytes × Entry))
    → Apart key es
    → skip key (flatten es) ≡ (next_of key es, flatten es)
unfolding skip
skip-flatten key [] h = refl
skip-flatten key ((other, e) ∷ es) h = skip_other key other e.lock e.versions (flatten es) h.0 h.1

-- One round of the loop, at a key with rows.
visit_round :
    (fuel : ℕ) (key : Bytes) (lock : Option MvccLock) (vs : List (ℕ × MvccValue))
    (es : List (Bytes × Entry))
    → Apart key es
    → holds_rows lock vs ≡ true
    → visit (suc fuel) key (rows_of key lock vs ++ flatten es)
      ≡ (key, lock) ∷ visit fuel (next_of key es) (flatten es)
unfolding visit value_rows decode_lock
visit_round fuel key none [] es a h = cc
visit_round fuel key none ((ver, v) ∷ vs) es a h =
    rw (skip_values key ((ver, v) ∷ vs) (flatten es), skip-flatten key es a) refl
visit_round fuel key (some l) vs es a h =
    rw (bytes_eq_refl key) (rw (skip_values key vs (flatten es), skip-flatten key es a) refl)

pub rows_length :
    (key : Bytes) (lock : Option MvccLock) (vs : List (ℕ × MvccValue)) (more : List Row)
    → holds_rows lock vs ≡ true
    → length more < length (rows_of key lock vs ++ more)
unfolding value_rows
rows_length key none [] more h = cc
rows_length key none ((ver, v) ∷ vs) more h = omega (arith, length-append (value_rows key vs) more)
rows_length key (some l) vs more h = omega (arith, length-append (value_rows key vs) more)

visit_nothing : (fuel : ℕ) (key : Bytes) → visit fuel key [] ≡ []
unfolding visit
visit_nothing zero key = refl
visit_nothing (suc fuel) key = refl

-- With as much fuel as rows the loop visits each key once, with its lock.
visit-flatten :
    (fuel : ℕ) (key : Bytes) (e : Entry) (es : List (Bytes × Entry))
    → Apart key es
    → holds_rows e.lock e.versions ≡ true
    → length (flatten ((key, e) ∷ es)) ≤ fuel
    → visit fuel key (flatten ((key, e) ∷ es)) ≡ locks_of ((key, e) ∷ es)
visit-flatten zero key e es a h k =
    absurd (omega (arith, rows_length key e.lock e.versions (flatten es) h))
visit-flatten (suc fuel) key e [] a h k =
    visit_round fuel key e.lock e.versions [] a h
    ∙ ap (λ (vs : List (Bytes × Option MvccLock)). (key, e.lock) ∷ vs) (visit_nothing fuel key)
visit-flatten (suc fuel) key e ((other, f) ∷ es) a h k =
    visit_round fuel key e.lock e.versions ((other, f) ∷ es) a h
    ∙ ap (λ (vs : List (Bytes × Option MvccLock)). (key, e.lock) ∷ vs)
        (visit-flatten fuel other f es a.2 a.1
          (omega (arith, rows_length key e.lock e.versions (flatten ((other, f) ∷ es)) h)))

-- At a key without rows the first round finds no lock and goes on to the first row.
visit_early :
    (fuel : ℕ) (start key : Bytes) (lock : Option MvccLock) (vs : List (ℕ × MvccValue))
    (more : List Row)
    → bytes_eq key start ≡ false
    → holds_rows lock vs ≡ true
    → visit (suc fuel) start (rows_of key lock vs ++ more)
      ≡ (start, none) ∷ visit fuel key (rows_of key lock vs ++ more)
unfolding visit value_rows decode_lock skip
visit_early fuel start key none [] more h k = cc
visit_early fuel start key none ((ver, v) ∷ vs) more h k = rw h refl
visit_early fuel start key (some l) vs more h k = rw h (rw h refl)

visit_cases :
    (start key : Bytes) (e : Entry) (es : List (Bytes × Entry))
    → Apart key es
    → holds_rows e.lock e.versions ≡ true
    → (visit (suc (length (flatten ((key, e) ∷ es)))) start (flatten ((key, e) ∷ es))
        ≡ locks_of ((key, e) ∷ es))
      ⊎ (visit (suc (length (flatten ((key, e) ∷ es)))) start (flatten ((key, e) ∷ es))
          ≡ (start, none) ∷ locks_of ((key, e) ∷ es))
visit_cases start key e es a h =
    let fuel : ℕ = length (flatten ((key, e) ∷ es)) in
    elim (Bool-cases (bytes_eq key start)) [
      | inl here ↦
          inl (
            rw (← bytes_eq→eq key start here) (visit-flatten (suc fuel) key e es a h (omega arith)))
      | inr above ↦ inr (
          visit_early fuel start key e.lock e.versions (flatten es) above h
          ∙ ap (λ (vs : List (Bytes × Option MvccLock)). (start, none) ∷ vs)
              (visit-flatten fuel key e es a h (omega arith)))
    ]

-- The keys of a range, as the loop finds them.
abbrev pub Ranges : List (Bytes × Entry) → Type 0
Ranges [] = Unit {0}
Ranges ((key, e) ∷ es) = (holds_rows e.lock e.versions ≡ true) × Apart key es

-- The loop visits each key of the range once, with its lock; before them it may visit the start key,
-- where it finds none.
pub visits_cases :
    (start : Bytes) (es : List (Bytes × Entry))
    → Ranges es
    → (visits start (flatten es) ≡ locks_of es)
      ⊎ (visits start (flatten es) ≡ (scan_start start (flatten es), none) ∷ locks_of es)
unfolding visits
visits_cases start [] r = inl (visit_nothing 1 (scan_start start []))
visits_cases start ((key, e) ∷ es) r =
    visit_cases (scan_start start (flatten ((key, e) ∷ es))) key e es r.1 r.0
