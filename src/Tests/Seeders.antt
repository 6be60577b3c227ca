-- ===== src/Tests/Seeders.antt =====
-- An empty database, and a second run with one name.
use express_core.Base.{[], ◌∷◌, ◌≡◌}
use express_core.Store.{Db, empty_db}
use express_core.Seeders.{run}
use express_core.Seeders.Twice.{Seeded, run-twice}
use express_core.Tests.{open_crypto}

run-twice_example :
    (s' : Db) × (run open_crypto (λ t. t) [] empty_db ≡ (0, s'))
    × Seeded s'
    × ((run open_crypto (λ t. t) ("role" ∷ []) s').1 ≡ s')
run-twice_example = run-twice open_crypto (λ t. t) ("role" ∷ []) empty_db
