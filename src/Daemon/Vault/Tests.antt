-- ===== src/Daemon/Vault/Tests.antt =====
-- The vault at a concrete content.
use kesharon.Prelude.{◌≡◌, refl, some, none, ok}
use kesharon.HashMap.{contains_key}
use kesharon.Daemon.Vault.{new_vault, get_secret, set_secret, delete_secret}
use kesharon.Daemon.Vault.Laws.{set_secret-delete_secret}

set_secret-delete_secret_example :
    (get_secret (set_secret new_vault "k" "s").1 "k" ≡ ok (some "s"))
    × (get_secret (delete_secret new_vault "k").1 "k" ≡ ok none)
    × ((delete_secret new_vault "k").0 ≡ ok (contains_key new_vault.inner "k"))
set_secret-delete_secret_example = set_secret-delete_secret new_vault "k" "s" "k" refl
