-- ===== src/Mvcc/Collection/Survivors.antt =====
-- The versions of one key that garbage collection leaves.
use client_go.Base.{
  ℕ, suc, ◌≤◌, ◌<◌, ◌≡◌, refl, ◌∙◌, ap, ◌⊎◌, inl, inr, Bool, true, false, Bool-cases, if◌then◌else◌,
  ltb, ◌==◌, List, [], ◌∷◌, All, arith,
}
use client_go.Mvcc.{
  MvccValue, ValueType, type_put, type_delete, type_rollback, type_lock, is_data, is_delete,
}
use client_go.Mvcc.Entry.{delete_version}
use client_go.Mvcc.Read.{visible}
use client_go.Mvcc.Versions.{Below}
use client_go.Mvcc.Collection.{keep_after, is_collected}

-- The versions that are deleted, and those that are left.
unfoldable pub gone : ℕ → Bool → List (ℕ × MvccValue) → List ℕ
gone safe_point keep_next [] = []
gone safe_point keep_next ((ver, v) ∷ vs) =
    let later = gone safe_point (keep_after safe_point keep_next v) vs in
    if is_collected safe_point keep_next v then v.commit_ts ∷ later else later

unfoldable pub survivors : ℕ → Bool → List (ℕ × MvccValue) → List (ℕ × MvccValue)
survivors safe_point keep_next [] = []
survivors safe_point keep_next ((ver, v) ∷ vs) =
    let later = survivors safe_point (keep_after safe_point keep_next v) vs in
    if is_collected safe_point keep_next v then later else (ver, v) ∷ later

unfoldable pub delete_all : List ℕ → List (ℕ × MvccValue) → List (ℕ × MvccValue)
unfolding delete_version
delete_all [] vs = vs
delete_all (ver ∷ vers) vs = delete_all vers (delete_version ver vs)

delete_all-keep :
    (vers : List ℕ) (ver : ℕ) (v : MvccValue) (vs : List (ℕ × MvccValue))
    → All (λ (u : ℕ). u < ver) vers
    → delete_all vers ((ver, v) ∷ vs) ≡ (ver, v) ∷ delete_all vers vs
unfolding delete_all delete_version
delete_all-keep [] ver v vs h = refl
delete_all-keep (u ∷ vers) ver v vs h =
    let other : (ver == u) ≡ false = ground (arith, h.0) in
    rw other (delete_all-keep vers ver v (delete_version u vs) h.1)

All-mono :
    (a b : ℕ) (vers : List ℕ) → a ≤ b → All (λ (u : ℕ). u < a) vers → All (λ (u : ℕ). u < b) vers
All-mono a b [] h k = tt
All-mono a b (u ∷ vers) h k = (omega (arith, h, k.0), All-mono a b vers h k.1)

pub gone-Below :
    (safe_point : ℕ) (keep_next : Bool) (bound : ℕ) (vs : List (ℕ × MvccValue))
    → Below bound vs
    → All (λ (u : ℕ). u < bound) (gone safe_point keep_next vs)
unfolding gone
gone-Below safe_point keep_next bound [] w = tt
gone-Below safe_point keep_next bound ((ver, v) ∷ vs) w =
    let later =
      All-mono ver bound (gone safe_point (keep_after safe_point keep_next v) vs)
        (omega (arith, w.0))
        (gone-Below safe_point (keep_after safe_point keep_next v) ver vs w.2) in
    elim (Bool-cases (is_collected safe_point keep_next v)) [
      | inl old ↦ rw old (omega (arith, w.0, w.1), later)
      | inr kept ↦ rw kept later
    ]

delete_first :
    (ver c : ℕ) (v : MvccValue) (vers : List ℕ) (vs : List (ℕ × MvccValue))
    → (ver == c) ≡ true
    → delete_all (c ∷ vers) ((ver, v) ∷ vs) ≡ delete_all vers vs
unfolding delete_all delete_version
delete_first ver c v vers vs h =
    ap (λ (b : Bool). delete_all vers (if b then vs else (ver, v) ∷ delete_version c vs)) h

pub delete_all-gone :
    (safe_point : ℕ) (keep_next : Bool) (bound : ℕ) (vs : List (ℕ × MvccValue))
    → Below bound vs
    → delete_all (gone safe_point keep_next vs) vs ≡ survivors safe_point keep_next vs
unfolding gone survivors delete_all delete_version
delete_all-gone safe_point keep_next bound [] w = refl
delete_all-gone safe_point keep_next bound ((ver, v) ∷ vs) w =
    let keep : Bool = keep_after safe_point keep_next v in
    let rest = delete_all-gone safe_point keep ver vs w.2 in
    elim (Bool-cases (is_collected safe_point keep_next v)) [
      | inl old ↦
          let same : (ver == v.commit_ts) ≡ true = ground (arith, w.1) in
          rw old (delete_first ver v.commit_ts v (gone safe_point keep vs) vs same ∙ rest)
      | inr kept ↦ rw kept (
          delete_all-keep (gone safe_point keep vs) ver v vs (gone-Below safe_point keep ver vs w.2)
          ∙ ap (λ (us : List (ℕ × MvccValue)). (ver, v) ∷ us) rest)
    ]

-- Behind the version that is kept, no version under the safe point is left.
survivors_none :
    (safe_point bound : ℕ) (vs : List (ℕ × MvccValue))
    → bound ≤ suc safe_point
    → Below bound vs
    → survivors safe_point false vs ≡ []
unfolding survivors
survivors_none safe_point bound [] h w = refl
survivors_none safe_point bound ((ver, v) ∷ vs) h w =
    let old : ltb safe_point v.commit_ts ≡ false = ground (arith, h, w.0, w.1) in
    let keep : keep_after safe_point false v ≡ false = ground (arith, old) in
    let collected : is_collected safe_point false v ≡ true = ground (arith, old) in
    rw (collected, keep) (survivors_none safe_point ver vs (omega (arith, h, w.0)) w.2)

pub visible-survivors :
    (safe_point bound ts : ℕ) (vs : List (ℕ × MvccValue))
    → Below bound vs
    → safe_point ≤ ts
    → visible (survivors safe_point true vs) ts ≡ visible vs ts
unfolding survivors visible
visible-survivors safe_point bound ts [] w h = refl
visible-survivors safe_point bound ts ((ver, v) ∷ vs) w h =
    let rest = visible-survivors safe_point ver ts vs w.2 h in
    elim (Bool-cases (ltb safe_point v.commit_ts)) [
      | inl new ↦ ground (arith, new, rest)
      | inr old ↦ elim (Bool-cases (is_data v.value_type)) [
        | inl data_row ↦
            let none_left = survivors_none safe_point ver vs (ground (arith, old, w.1)) w.2 in
            ground (arith, old, data_row, none_left, h)
        | inr record_row ↦ ground (arith, old, record_row, rest)
      ]
    ]

-- At most one version is at the safe point or before it, the last one, and it is a put.
abbrev pub IsTrimmed : ℕ → List (ℕ × MvccValue) → Type 0
IsTrimmed safe_point [] = Unit {0}
IsTrimmed safe_point ((ver, v) ∷ vs) =
    ((safe_point < v.commit_ts) × IsTrimmed safe_point vs) ⊎ ((v.value_type ≡ type_put) × (vs ≡ []))

put_kept : (t : ValueType) → is_data t ≡ true → is_delete t ≡ false → t ≡ type_put
put_kept type_put h k = refl
put_kept type_delete h k = cc
put_kept type_rollback h k = cc
put_kept type_lock h k = cc

pub survivors-IsTrimmed :
    (safe_point bound : ℕ) (vs : List (ℕ × MvccValue))
    → Below bound vs
    → IsTrimmed safe_point (survivors safe_point true vs)
unfolding survivors
survivors-IsTrimmed safe_point bound [] w = tt
survivors-IsTrimmed safe_point bound ((ver, v) ∷ vs) w =
    let rest = survivors-IsTrimmed safe_point ver vs w.2 in
    elim (Bool-cases (ltb safe_point v.commit_ts)) [
      | inl new ↦ rw new (inl (ground (arith, new), rest))
      | inr old ↦ elim (Bool-cases (is_data v.value_type)) [
        | inr record_row ↦ rw (old, record_row) rest
        | inl data_row ↦
            let none_left = survivors_none safe_point ver vs (ground (arith, old, w.1)) w.2 in
            elim (Bool-cases (is_delete v.value_type)) [
              | inl deletion ↦ rw (old, data_row, deletion) (rw none_left tt)
              | inr put ↦
                  rw (old, data_row, put) (inr (put_kept v.value_type data_row put, none_left))
            ]
      ]
    ]
