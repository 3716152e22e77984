-- ===== src/Daemon/Runtime/Permits.antt =====
-- At most eight connections are served at a time.
use kesharon.Prelude.{
  ℕ, suc, ◌^◌, ◌≤◌, ◌<◌, ◌≡◌, ap, ◌∙◌, some, ◌∷◌, ◌++◌, arith, length, length-append,
}
use kesharon.Daemon.Runtime.{
  max_active_connections, acquire, release, Runtime, RuntimeStep, RuntimeReach, serves,
  fails_to_spawn, rejects, ends, here, next,
}

-- The counter is the number of live permits, and that is at most eight.
pub record IsBounded (x : Runtime) : Type 0 where
  pub counted : x.active_connections ≡ length x.served
  pub fits : length x.served ≤ max_active_connections

acquire-some : (n : ℕ) {a : ℕ} → acquire n ≡ some a → (a ≡ suc n) × (n < max_active_connections)
unfolding acquire
acquire-some n h = ground (arith, h)

release-suc : (n : ℕ) → n < 2 ^ 64 → release (suc n) ≡ n
unfolding release
release-suc n h = omega (arith, h)

RuntimeStep-IsBounded : (x y : Runtime) → RuntimeStep x y → IsBounded x → IsBounded y
RuntimeStep-IsBounded x y (serves connection active a e) b =
    let (up, room) = acquire-some x.active_connections a in
    rw e (record { counted = omega (arith, up, b.counted); fits = omega (arith, room, b.counted) })
RuntimeStep-IsBounded x y (fails_to_spawn connection active a e) b =
    let (up, room) = acquire-some x.active_connections a in
    rw (e, up)
      (record {
        counted = rw (release-suc x.active_connections (omega (arith, room))) b.counted;
        fits = b.fits;
      })
RuntimeStep-IsBounded x y (rejects connection a e) b = rw e b
RuntimeStep-IsBounded x y (ends before after connection s e) b =
    let count : length x.served ≡ suc (length (before ++ after)) =
      omega (
        arith,
        ap length s,
        length-append before (connection ∷ after),
        length-append before after,
      ) in
    let one : x.active_connections ≡ suc (length (before ++ after)) = b.counted ∙ count in
    rw (e, one)
      (record {
        counted = release-suc (length (before ++ after)) (omega (arith, b.fits, count));
        fits = omega (arith, b.fits, count);
      })

-- From a machine whose counter is right, whatever the accept loop and the connections' threads do, the
-- counter is the number of connections that hold a permit, and these are at most eight.
pub RuntimeReach-IsBounded : (x y : Runtime) → RuntimeReach x y → IsBounded x → IsBounded y
RuntimeReach-IsBounded x _ here b = b
RuntimeReach-IsBounded x z (next {y = y} r s) b =
    RuntimeStep-IsBounded y z s (RuntimeReach-IsBounded x y r b)
