-- ===== src/Examples/Pools.antt =====
-- A pool of two calendars, of which one fails.
use ots.Prelude.{◌≡◌, arith, true, false, List, [], ◌∷◌, ◌⊎◌}
use ots.Result.{Result, ok, err, io_failed, calendars_failed}
use ots.Timestamp.{Timestamp}
use ots.Client.Pool.{stamp_all}
use ots.Client.Pool.Answers.{any_proof, stamp_all_lem}
use ots.Examples.Data.{toy_hashes, digest, tree}

abbrev answers : List (Result Timestamp)
answers = err io_failed ∷ ok tree ∷ []

stamp_all_lem_example :
    ((any_proof answers ≡ true) × ((t : Timestamp) × (stamp_all toy_hashes answers digest ≡ ok t)))
    ⊎ ((any_proof answers ≡ false) × (stamp_all toy_hashes answers digest ≡ err calendars_failed))
stamp_all_lem_example = stamp_all_lem toy_hashes answers digest (omega arith) (tt, (tt, tt))
