-- ===== src/Tests/Secondaries.antt =====
-- The secondary locks of an async-commit transaction, one of them missing.
use client_go.Base.{◌≡◌, refl, true, false, none, List, [], ◌∷◌}
use client_go.AsyncCommit.{AsyncResolveData, Response, add_missing, add_locks, add_keys, add_all}
use client_go.AsyncCommit.Decision.{IsDecided, add_all_decides}

abbrev primary_only : AsyncResolveData
primary_only = record { commit_ts = 5; keys = []; missing_lock = false }

abbrev two_responses : List Response
two_responses =
    record {
      locks =
          record { key = 1 ∷ []; lock_version = 3; use_async_commit = true; min_commit_ts = 9 }
          ∷ [];
      expected = 1;
      commit_ts = 0;
    }
    ∷ record { locks = []; expected = 1; commit_ts = 12 }
    ∷ []

abbrev decided_data : AsyncResolveData
decided_data = record { commit_ts = 12; keys = (1 ∷ []) ∷ []; missing_lock = true }

two_responses_run : add_all 3 primary_only two_responses ≡ (decided_data, none)
unfolding add_all add_keys add_missing add_locks
two_responses_run = refl

add_all_decides_example : IsDecided 5 decided_data two_responses
add_all_decides_example =
    add_all_decides 3 primary_only decided_data two_responses refl two_responses_run
