-- ===== src/Daemon/Vault.antt =====
-- `InMemoryCredentialVault` of crates/kesharon-daemon/src/vault.rs: a mutex over a map.
pub mod Laws
pub mod Tests
use kesharon.Prelude.{
  ◌≡◌, refl, ap, ◌∙◌, String, Bool, true, false, Option, none, some, arith, if◌then◌else◌, str_eq,
  Result, ok, err,
}
use kesharon.HashMap.{
  HashMap, empty, get, contains_key, insert, remove, get-insert, get-remove, contains_key-get,
}
use kesharon.Application.Error.{ApplicationError, vault}
use kesharon.Application.Ports.{CredentialVault}
use kesharon.Daemon.Session.State.{Mutex}

abbrev pub Secrets : Type 0
Secrets = Mutex (HashMap String)

-- `InMemoryCredentialVault::new`
abbrev pub new_vault : Secrets
new_vault = record { poisoned = false; inner = empty }

-- The text of the standard library's `PoisonError`.
abbrev lock_error : ApplicationError
lock_error = vault "poisoned lock: another task failed inside"

unfoldable pub get_secret : Secrets → String → Result (Option String) ApplicationError
get_secret v key = if v.poisoned then err lock_error else ok (get v.inner key)

unfoldable pub set_secret :
    Secrets → (key secret : String) → Result (Unit {0}) ApplicationError × Secrets
set_secret v key secret =
    if v.poisoned
    then (err lock_error, v)
    else (ok tt, record v { inner = insert v.inner key secret })

unfoldable pub delete_secret : Secrets → String → Result Bool ApplicationError × Secrets
delete_secret v key =
    if v.poisoned
    then (err lock_error, v)
    else (ok (contains_key v.inner key), record v { inner = remove v.inner key })

-- `impl CredentialVault for InMemoryCredentialVault`
abbrev pub in_memory : CredentialVault Secrets
in_memory = record {
  get_secret = get_secret;
  set_secret = set_secret;
  delete_secret = delete_secret;
}
