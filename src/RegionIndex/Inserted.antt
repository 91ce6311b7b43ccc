-- ===== src/RegionIndex/Inserted.antt =====
-- A region that is inserted is found by its keys.
use client_go.Base.{◌≡◌, false, some, Bytes}
use client_go.RegionIndex.{Region, BTree, search_by_key, RegionIndexMu}

module _ (B : BTree) where
  -- The region is what the three parts of the index give for it.
  abbrev pub IsIndexed : RegionIndexMu B → Region → Bytes → Type 0
  IsIndexed mu r key =
      (search_by_key B mu.sorted key false ≡ some r)
      × (mu.regions r.ver_id ≡ some r)
      × (mu.latest_versions r.ver_id.id ≡ some r.ver_id)
