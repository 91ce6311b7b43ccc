-- ===== src/Tests/Waits.antt =====
-- A concrete wait-for graph.
use client_go.Base.{ℕ, ◌≡◌, [], ◌∷◌, if◌then◌else◌, ltb, ◌==◌, ◌-◌, arith}
use client_go.Deadlock.{Detector, waits_for, clean_up, clean_up_wait_for, expire, do_detect}
use client_go.Deadlock.Search.{Waits, Ranked, Answers, do_detect_correct}
use client_go.Deadlock.Acyclic.{IsAcyclic}
use client_go.Deadlock.Removal.{removal_keeps_IsAcyclic}

-- 1 waits for 2, and 2 for 3.
abbrev chain_of_three : Detector
chain_of_three =
    (1, record { txn = 2; key_hash = 20 } ∷ []) ∷ (2, record { txn = 3; key_hash = 30 } ∷ []) ∷ []

abbrev height : ℕ → ℕ
height t = 3 - t

chain_of_three-Ranked : Ranked height chain_of_three
unfolding waits_for
chain_of_three-Ranked t = ground arith

do_detect_correct_example : Answers (Waits chain_of_three 1 3) (do_detect 4 chain_of_three 3 1)
do_detect_correct_example =
    do_detect_correct height chain_of_three 4 3 1 chain_of_three-Ranked (omega arith)

removal_keeps_IsAcyclic_example :
    IsAcyclic (clean_up chain_of_three 1)
    × IsAcyclic (clean_up_wait_for chain_of_three 1 2 20)
    × IsAcyclic (expire chain_of_three 2)
    × (waits_for (clean_up chain_of_three 1) 2
        ≡ (if 1 == 2 then [] else waits_for chain_of_three 2))
    × (waits_for (expire chain_of_three 2) 2 ≡ (if ltb 2 2 then [] else waits_for chain_of_three 2))
removal_keeps_IsAcyclic_example =
    removal_keeps_IsAcyclic chain_of_three 1 2 20 2 2 (height, chain_of_three-Ranked)
