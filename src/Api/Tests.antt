-- ===== src/Api/Tests.antt =====
-- The theorems on cmd/api at inputs that meet their hypotheses.
use task_api.Common.{◌≡◌, refl, ◌≢◌, ◌⊎◌, false, none, some, Option, str_eq}
use task_api.Common.Dict.{lookup}
use task_api.Task.Memory.{memory_repository}
use task_api.Task.Memory.Refines.{memory_contract}
use task_api.Task.Memory.Listings.{view}
use task_api.Task.Tests.{first_id, first, store, store-IsGood}
use task_api.Api.Cascade.{Files, delete_account_cascade}
use task_api.Api.Cascade.Empties.{delete_account_cascade_empties}

abbrev no_files : Option (Files (Unit {0}) (Unit {0}))
no_files = none

first_there : view store first_id ≡ some first
unfolding view lookup str_eq
first_there = refl

delete_account_cascade_empties_example :
    let (done, (s', _)) =
      delete_account_cascade no_files none "ann" memory_repository (store, (tt, tt)) in
    ((first.user_id ≢ "ann") × (view s' first_id ≡ some first))
    ⊎ ((first.user_id ≡ "ann") × ((done ≡ false) ⊎ (view s' first_id ≡ none)))
delete_account_cascade_empties_example =
    delete_account_cascade_empties memory_contract no_files none "ann" first_id first store (tt, tt)
      store-IsGood first_there
