-- ===== src/Daemon/Vault/Laws.antt =====
-- What the vault holds after each call.
use kesharon.Prelude.{◌≡◌, String, false, none, some, arith, if◌then◌else◌, str_eq, ok}
use kesharon.HashMap.{contains_key, get-insert, get-remove}
use kesharon.Daemon.Vault.{Secrets, get_secret, set_secret, delete_secret}

-- While no thread panicked under the lock: a secret that was set is what `get_secret` gives, one that
-- was deleted is gone, `delete_secret` tells whether there was one, and the other keys keep theirs.
pub set_secret-delete_secret :
    (v : Secrets) (key secret other : String)
    → v.poisoned ≡ false
    → (get_secret (set_secret v key secret).1 other
        ≡ (if str_eq key other then ok (some secret) else get_secret v other))
      × (get_secret (delete_secret v key).1 other
          ≡ (if str_eq key other then ok none else get_secret v other))
      × ((delete_secret v key).0 ≡ ok (contains_key v.inner key))
unfolding get_secret set_secret delete_secret
set_secret-delete_secret v key secret other free =
    ground (arith, free, get-insert v.inner key secret other, get-remove v.inner key other)
