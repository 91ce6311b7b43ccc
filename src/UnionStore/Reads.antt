-- ===== src/UnionStore/Reads.antt =====
-- What the union iterator goes through is what `Get` of the union store returns.
use client_go.Base.{
  ◌≡◌, refl, ◌∙◌, sym, ap, inl, inr, Bool, true, false, Bool-cases, List, [], ◌∷◌, Bytes, bytes_eq,
  bytes_eq→eq, bytes_compare_refl, All,
}
use client_go.UnionStore.{KeyValue, is_nil, Found, value_of, not_exist, unless_empty, get}
use client_go.UnionStore.Merge.{
  First, AllLater, IsSorted, Merges, Merges-All, lookup, at_end, skip, take_dirty, take_snapshot,
  skip_both, take_over,
}

unless_nil : (v : Bytes) → is_nil v ≡ true → unless_empty (value_of v) ≡ not_exist
unless_nil [] h = refl
unless_nil (b ∷ v) h = cc

unless_some : (v : Bytes) → is_nil v ≡ false → unless_empty (value_of v) ≡ value_of v
unless_some [] h = cc
unless_some (b ∷ v) h = refl

get-missing : (b s : Bytes → Found) (k : Bytes) → b k ≡ not_exist → get b s k ≡ unless_empty (s k)
unfolding get
get-missing b s k h = rw (h, get) refl

get-value :
    (b s : Bytes → Found) (k v : Bytes) → b k ≡ value_of v → get b s k ≡ unless_empty (value_of v)
unfolding get
get-value b s k v h = rw (h, get) refl

get-same :
    (b b' s s' : Bytes → Found) (k : Bytes) → b k ≡ b' k → s k ≡ s' k → get b s k ≡ get b' s' k
unfolding get
get-same b b' s s' k hb hs = rw (hb, hs, get) refl

lookup-here :
    (e : KeyValue) (es : List KeyValue) (k : Bytes)
    → bytes_eq e.key k ≡ true
    → lookup (e ∷ es) k ≡ value_of e.value
unfolding lookup
lookup-here e es k h = rw h refl

lookup-later :
    (e : KeyValue) (es : List KeyValue) (k : Bytes)
    → bytes_eq e.key k ≡ false
    → lookup (e ∷ es) k ≡ lookup es k
unfolding lookup
lookup-later e es k h = rw h refl

-- No entry has an empty value.
abbrev pub NoEmpty : List KeyValue → Type 0
NoEmpty = All (λ (e : KeyValue). is_nil e.value ≡ false)

module _ (reverse : Bool) where
  not-First_self : (x : Bytes) → ¬ First reverse x x
  not-First_self x h = elim (Bool-cases reverse) [
    | inl back ↦ cc (rw (back, bytes_compare_refl x) at h)
    | inr ahead ↦ cc (rw (ahead, bytes_compare_refl x) at h)
  ]

  lookup-missing :
      (x k : Bytes) (es : List KeyValue)
      → AllLater reverse x es
      → bytes_eq x k ≡ true
      → lookup es k ≡ not_exist
  unfolding lookup
  lookup-missing x k [] later same = refl
  lookup-missing x k (e ∷ es) later same = elim (Bool-cases (bytes_eq e.key k)) [
    | inl here ↦
        absurd
          (not-First_self x (rw (bytes_eq→eq e.key k here ∙ sym (bytes_eq→eq x k same)) at later.0))
    | inr other ↦ rw other (lookup-missing x k es later.1 same)
  ]

  pub Merges-get :
      (ds ss es : List KeyValue) (k : Bytes)
      → Merges reverse ds ss es
      → IsSorted reverse ds
      → IsSorted reverse ss
      → NoEmpty ss
      → lookup es k ≡ get (lookup ds) (lookup ss) k
  unfolding get lookup
  Merges-get _ _ _ k at_end hd hs ne = refl
  Merges-get _ _ _ k (skip d ds ss es gone later m) hd hs ne =
      elim (Bool-cases (bytes_eq d.key k)) [
        | inl here ↦
            lookup-missing d.key k es
              (Merges-All reverse (λ e. First reverse d.key e.key) ds ss es m hd.0 later) here
            ∙ sym (
                get-value (lookup (d ∷ ds)) (lookup ss) k d.value (lookup-here d ds k here)
                ∙ unless_nil d.value gone)
        | inr other ↦
            Merges-get ds ss es k m hd.1 hs ne
            ∙ sym (
                get-same (lookup (d ∷ ds)) (lookup ds) (lookup ss) (lookup ss) k
                  (lookup-later d ds k other) refl)
      ]
  Merges-get _ _ _ k (take_dirty d ds ss es there later m) hd hs ne =
      elim (Bool-cases (bytes_eq d.key k)) [
        | inl here ↦
            lookup-here d es k here
            ∙ sym (
                get-value (lookup (d ∷ ds)) (lookup ss) k d.value (lookup-here d ds k here)
                ∙ unless_some d.value there)
        | inr other ↦
            lookup-later d es k other
            ∙ Merges-get ds ss es k m hd.1 hs ne
            ∙ sym (
                get-same (lookup (d ∷ ds)) (lookup ds) (lookup ss) (lookup ss) k
                  (lookup-later d ds k other) refl)
      ]
  Merges-get _ _ _ k (take_snapshot s ds ss es later m) hd hs ne =
      elim (Bool-cases (bytes_eq s.key k)) [
        | inl here ↦
            lookup-here s es k here
            ∙ sym (
                get-missing (lookup ds) (lookup (s ∷ ss)) k (lookup-missing s.key k ds later here)
                ∙ ap unless_empty (lookup-here s ss k here)
                ∙ unless_some s.value ne.0)
        | inr other ↦
            lookup-later s es k other
            ∙ Merges-get ds ss es k m hd hs.1 ne.1
            ∙ sym (
                get-same (lookup ds) (lookup ds) (lookup (s ∷ ss)) (lookup ss) k refl
                  (lookup-later s ss k other))
      ]
  Merges-get _ _ _ k (skip_both d s ds ss es same gone m) hd hs ne =
      elim (Bool-cases (bytes_eq d.key k)) [
        | inl here ↦
            lookup-missing d.key k es
              (Merges-All reverse (λ e. First reverse d.key e.key) ds ss es m hd.0 (rw same hs.0))
              here
            ∙ sym (
                get-value (lookup (d ∷ ds)) (lookup (s ∷ ss)) k d.value (lookup-here d ds k here)
                ∙ unless_nil d.value gone)
        | inr other ↦
            Merges-get ds ss es k m hd.1 hs.1 ne.1
            ∙ sym (
                get-same (lookup (d ∷ ds)) (lookup ds) (lookup (s ∷ ss)) (lookup ss) k
                  (lookup-later d ds k other) (lookup-later s ss k (rw same at other)))
      ]
  Merges-get _ _ _ k (take_over d s ds ss es same there m) hd hs ne =
      elim (Bool-cases (bytes_eq d.key k)) [
        | inl here ↦
            lookup-here d es k here
            ∙ sym (
                get-value (lookup (d ∷ ds)) (lookup (s ∷ ss)) k d.value (lookup-here d ds k here)
                ∙ unless_some d.value there)
        | inr other ↦
            lookup-later d es k other
            ∙ Merges-get ds ss es k m hd.1 hs.1 ne.1
            ∙ sym (
                get-same (lookup (d ∷ ds)) (lookup ds) (lookup (s ∷ ss)) (lookup ss) k
                  (lookup-later d ds k other) (lookup-later s ss k (rw same at other)))
      ]
