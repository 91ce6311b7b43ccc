-- ===== src/Latch/Holders.antt =====
-- Who holds which key: an invariant of the latches and locks.
use client_go.Base.{
  ℕ, ◌≡◌, refl, ◌∙◌, sym, ◌⊎◌, inl, inr, true, false, ◌==◌, Option, some, List, [], ◌∷◌, Bytes,
  arith,
}
use client_go.Latch.{Request, Node, Latch, find_node}
use client_go.Latch.Table.{Latches, update, slot_of}
use client_go.Latch.Queue.{Distinct, Kept}
use client_go.Latch.Requests.{HasKey, InOrder, Routed}

pub nat_dec : (i j : ℕ) → (i ≡ j) ⊎ ((i == j) ≡ false)
nat_dec i j = ground arith

pub if_same : (i j : ℕ) → i ≡ j → (i == j) ≡ true
if_same i j h = ground arith

pub update_all {ℓ} :
    {A : Type ℓ} (f : ℕ → A) (P : A → Type 0) (i : ℕ) (a : A)
    → ((j : ℕ) → P (f j))
    → P a
    → (j : ℕ) → P (update f i a j)
update_all f P i a old new j = elim (nat_dec i j) [
  | inl same ↦ rw (if_same i j same) new
  | inr other ↦ rw other (old j)
]

pub wanted_cases :
    (rs : List Request) → (rs ≡ []) ⊎ ((r : Request) × ((rest : List Request) × (rs ≡ r ∷ rest)))
wanted_cases [] = inl refl
wanted_cases (r ∷ rest) = inr (r, (rest, refl))

pub Kept-Owns :
    (old new : Option Node) (i : ℕ)
    → Kept old new
    → ((n : Node) × (old ≡ some n) × (n.value ≡ some i))
    → (n : Node) × (new ≡ some n) × (n.value ≡ some i)
Kept-Owns old new i (inl same) (n, found, own) = (n, same ∙ found, own)
Kept-Owns old new i (inr (gone, (m, found', free))) (n, found, own) = absurd (cc)

pub Kept-Owns_back :
    (old new : Option Node) (i : ℕ)
    → Kept old new
    → ((n : Node) × (new ≡ some n) × (n.value ≡ some i))
    → (n : Node) × (old ≡ some n) × (n.value ≡ some i)
Kept-Owns_back old new i (inl same) (n, found, own) = (n, sym same ∙ found, own)
Kept-Owns_back old new i (inr (gone, _)) (n, found, own) = absurd (cc)

module _ (sum_32 : Bytes → ℕ) (size : ℕ) where
  abbrev pub slot : Bytes → ℕ
  slot = slot_of sum_32 size

  abbrev pub node_of : Latches → Bytes → Option Node
  node_of s k = find_node (s.slots (slot k)).queue k

  -- The node of the key has the lock as its value.
  abbrev pub Owns : Latches → ℕ → Bytes → Type 0
  Owns s i k = (n : Node) × (node_of s k ≡ some n) × (n.value ≡ some i)

  -- Nodes and locks agree on who holds which key.
  pub record Holding (s : Latches) : Type 0 where
    pub distinct : (slot_id : ℕ) → Distinct (s.slots slot_id).queue
    pub routed :
        (i : ℕ) → Routed sum_32 size (s.locks i).acquired × Routed sum_32 size (s.locks i).wanted
    pub ordered : (i : ℕ) → InOrder (s.locks i).acquired (s.locks i).wanted
    pub held : (i : ℕ) (k : Bytes) → HasKey (s.locks i).acquired k → Owns s i k
    pub owned : (i : ℕ) (k : Bytes) → Owns s i k → HasKey (s.locks i).acquired k

  pub Owns-same : (s : Latches) (i j : ℕ) (k : Bytes) → Owns s i k → Owns s j k → i ≡ j
  Owns-same s i j k (n, found, own) (m, found', own') = cc

  -- Slots changed at one place, where the nodes of other keys are kept.
  pub Kept-at :
      (slots : ℕ → Latch) (l : Latch) (at : ℕ) (k : Bytes)
      → ((at ≡ slot k) → Kept (find_node (slots (slot k)).queue k) (find_node l.queue k))
      → Kept (find_node (slots (slot k)).queue k) (find_node (update slots at l (slot k)).queue k)
  Kept-at slots l at k h = elim (nat_dec at (slot k)) [
    | inl same ↦ rw (if_same at (slot k) same) (h same)
    | inr other ↦ rw other (inl refl)
  ]
