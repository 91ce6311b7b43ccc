-- ===== src/Latch/Queue/Acquired.antt =====
-- The nodes of one latch after an attempt to acquire a key.
use client_go.Base.{
  ℕ, ◌≡◌, ◌≢◌, refl, ◌⊎◌, inl, inr, Bool-cases, Option-cases, ltb, Option, none, some, List, Bytes,
  bytes_eq_refl, arith,
}
use client_go.Latch.{
  Node, Latch, AcquireResult, acquire_success, acquire_found, acquire_latch, find_node, is_free,
  recycled,
}
use client_go.Latch.Queue.{
  bytes_eq_ne, Distinct, find-set_other, find-set_self, set_node-Distinct, Kept, free_none,
  recycled-Distinct, recycled-Kept,
}

-- What the nodes of a latch are after an attempt to acquire one key for one lock.
pub record Acquired (old new : List Node) (lock : ℕ) (key : Bytes) (r : AcquireResult)
    : Type 0 where
  pub distinct : Distinct new
  pub other : (k : Bytes) → key ≢ k → Kept (find_node old k) (find_node new k)
  pub here :
      ((r ≡ acquire_success)
        × ((n : Node) × (find_node new key ≡ some n) × (n.value ≡ some lock))
        × ((n : Node) → find_node old key ≡ some n → n.value ≡ none))
      ⊎ ((r ≢ acquire_success) × Kept (find_node old key) (find_node new key))

free_before :
    (old new : Option Node) (n m : Node)
    → Kept old new
    → (new ≡ none) ⊎ ((new ≡ some m) × (m.value ≡ none))
    → old ≡ some n
    → n.value ≡ none
free_before old new n m kept found h = ground arith

acquire_new :
    (old : List Node) (l : Latch) (lock : ℕ) (key : Bytes) (ts : ℕ)
    → Distinct l.queue
    → ((k : Bytes) → Kept (find_node old k) (find_node l.queue k))
    → find_node l.queue key ≡ none
    → Acquired old
        (acquire_found l lock key ts none).0.queue
        lock
        key
        (acquire_found l lock key ts none).1
unfolding acquire_found find_node
acquire_new old l lock key ts d kept missing = record {
  distinct = (missing, d);
  other = λ k apart. rw (bytes_eq_ne key k apart) (kept k);
  here = inl (
    refl,
    (record { key = key; max_commit_ts = 0; value = some lock }, rw (bytes_eq_refl key), refl),
    λ n h. free_before (find_node old key) (find_node l.queue key) n n (kept key) (inl missing) h,
  );
}

acquire_old :
    (old : List Node) (l : Latch) (lock : ℕ) (key : Bytes) (ts : ℕ) (n : Node)
    → Distinct l.queue
    → ((k : Bytes) → Kept (find_node old k) (find_node l.queue k))
    → find_node l.queue key ≡ some n
    → Acquired old
        (acquire_found l lock key ts (some n)).0.queue
        lock
        key
        (acquire_found l lock key ts (some n)).1
unfolding acquire_found
acquire_old old l lock key ts n d kept found = elim (Bool-cases (ltb ts n.max_commit_ts)) [
  | inl stale ↦
      rw stale (record { distinct = d; other = λ k apart. kept k; here = inr (λ e. cc, kept key) })
  | inr fresh ↦ elim (Bool-cases (is_free n.value)) [
    | inl free ↦
        rw (fresh, free)
          (record {
            distinct = set_node-Distinct l.queue key n.max_commit_ts (some lock) d;
            other = λ k apart.
                rw (find-set_other l.queue key k n.max_commit_ts (some lock) apart) (kept k);
            here = inl (
              refl,
              (
                record n { value = some lock },
                find-set_self l.queue key n n.max_commit_ts (some lock) found,
                refl,
              ),
              λ m h.
                  free_before (find_node old key) (find_node l.queue key) m n (kept key)
                    (inr (found, free_none n.value free)) h,
            );
          })
    | inr busy ↦
        rw (fresh, busy)
          (record { distinct = d; other = λ k apart. kept k; here = inr (λ e. cc, kept key) })
  ]
]

pub acquire_latch-Acquired :
    (l : Latch) (lock : ℕ) (key : Bytes) (ts : ℕ)
    → Distinct l.queue
    → Acquired l.queue
        (acquire_latch l lock key ts).0.queue
        lock
        key
        (acquire_latch l lock key ts).1
unfolding acquire_latch
acquire_latch-Acquired l lock key ts d =
    let l' : Latch = recycled ts l in
    elim (Option-cases (find_node l'.queue key)) [
      | inl missing ↦ rw missing (
          acquire_new l.queue l' lock key ts (recycled-Distinct ts l d)
            (λ k. recycled-Kept ts l k d) missing)
      | inr (n, found) ↦ rw found (
          acquire_old l.queue l' lock key ts n (recycled-Distinct ts l d)
            (λ k. recycled-Kept ts l k d) found)
    ]
