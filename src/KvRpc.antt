-- ===== src/KvRpc.antt =====
-- internal/kvrpc/batch.go: the keys of a region, cut into batches.
pub mod Batches
pub mod Sizes
use client_go.Base.{
  ℕ, zero, suc, ◌+◌, ◌≤◌, ◌<◌, ◌≡◌, refl, if◌then◌else◌, ltb, leb, Bool-cases, List, [], ◌∷◌, ◌++◌,
  map, append_assoc, append-nil, Bytes, length, All, arith, length-append,
}

-- `locate.RegionVerID`.
pub record RegionVerId : Type 0 where
  pub id : ℕ
  pub conf_ver : ℕ
  pub ver : ℕ

pub record Batch : Type 0 where
  pub region_id : RegionVerId
  pub keys : List Bytes
  pub values : List Bytes
  pub ttls : List ℕ

-- `keys`, `values` and `ttls` of the loop, and `size`.
pub record Open : Type 0 where
  pub keys : List Bytes
  pub values : List Bytes
  pub ttls : List ℕ
  pub size : ℕ

abbrev pub fresh : Open
fresh = record { keys = []; values = []; ttls = []; size = 0 }

abbrev pub close : RegionVerId → Open → Batch
close region o = record { region_id = region; keys = o.keys; values = o.values; ttls = o.ttls }

-- The batch that is left over, if it has keys.
abbrev pub close_last : RegionVerId → List Batch → Open → List Bytes → List Batch
close_last region batches o [] = batches
close_last region batches o (k ∷ ks) = batches ++ (close region o ∷ [])

module _ (region : RegionVerId) (key_to_value : Bytes → Bytes) (key_to_ttl : Bytes → ℕ)
    (limit : ℕ) where
  unfoldable pub add_key : Open → Bytes → Open
  add_key o key = record {
    keys = o.keys ++ (key ∷ []);
    values = o.values ++ (key_to_value key ∷ []);
    ttls = o.ttls ++ (key_to_ttl key ∷ []);
    size = o.size + length key + length (key_to_value key);
  }

  unfoldable pub batch_loop : List Batch → Open → List Bytes → List Batch
  unfolding add_key
  batch_loop batches o [] = close_last region batches o o.keys
  batch_loop batches o (key ∷ group_keys) =
      batch_loop (if leb limit o.size then batches ++ (close region o ∷ []) else batches)
        (add_key (if leb limit o.size then fresh else o) key) group_keys

  -- A missing key of a map gives the zero value, which the two functions return.
  unfoldable pub append_batches : List Batch → List Bytes → List Batch
  unfolding batch_loop
  append_batches batches group_keys = batch_loop batches fresh group_keys

module _ (region : RegionVerId) (limit : ℕ) where
  abbrev pub close_keys : List Bytes → Batch
  close_keys keys = record { region_id = region; keys = keys; values = []; ttls = [] }

  abbrev close_last_keys : List Batch → List Bytes → List Batch
  close_last_keys batches [] = batches
  close_last_keys batches (k ∷ ks) = batches ++ (close_keys (k ∷ ks) ∷ [])

  unfoldable pub key_batch_loop : List Batch → List Bytes → ℕ → List Bytes → List Batch
  key_batch_loop batches keys count [] = close_last_keys batches keys
  key_batch_loop batches keys count (key ∷ group_keys) =
      key_batch_loop (if ltb limit count then batches ++ (close_keys keys ∷ []) else batches)
        ((if ltb limit count then [] else keys) ++ (key ∷ []))
        ((if ltb limit count then 0 else count) + 1) group_keys

  unfoldable pub append_key_batches : List Batch → List Bytes → List Batch
  unfolding key_batch_loop
  append_key_batches batches group_keys = key_batch_loop batches [] 0 group_keys
