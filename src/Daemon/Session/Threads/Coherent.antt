-- ===== src/Daemon/Session/Threads/Coherent.antt =====
-- The invariant of the threads: the session's maps hold exactly the running operations.
use kesharon.Prelude.{
  ◌<◌, ◌≤◌, ◌≡◌, String, true, false, some, List, [], ◌∷◌, ◌++◌, map, arith, elem, length, str_eq,
  eq_iff,
}
use kesharon.HashMap.{get, contains_key}
use kesharon.HashMap.Tracks.{Tracks}
use kesharon.Daemon.Session.State.{Memory, open_project as fp_open}
use kesharon.Daemon.Session.Ledger.Invariant.{IsLedger}
use kesharon.Daemon.Session.Threads.{Operation}

-- The entries of an operation: its flag's address under its request identifier, and its path under
-- its key.
abbrev pub Owns : Memory → Operation → Type 0
Owns m op =
    (get m.active op.request_id ≡ some (record { cancellation = op.cancellation }))
    × (get m.in_flight op.key ≡ some (fp_open op.path))
    × (op.cancellation < length m.flags)

abbrev pub AllOwn : Memory → List Operation → Type 0
AllOwn m [] = Unit
AllOwn m (op ∷ ops) = Owns m op × AllOwn m ops

abbrev pub ids : List Operation → List String
ids = map (λ op. op.request_id)

abbrev pub keys : List Operation → List String
keys = map (λ op. op.key)

pub record IsCoherent (m : Memory) (ops : List Operation) : Type 0 where
  pub active : Tracks m.active (ids ops)
  pub in_flight : Tracks m.in_flight (keys ops)
  pub owned : AllOwn m ops
  pub ledger : IsLedger m.state
  pub apart : (k : String) → contains_key m.in_flight k ≡ true → contains_key m.completed k ≡ false

pub AllOwn-append :
    (m : Memory) (xs ys : List Operation) → AllOwn m xs → AllOwn m ys → AllOwn m (xs ++ ys)
AllOwn-append m [] ys h k = k
AllOwn-append m (x ∷ xs) ys h k = (h.0, AllOwn-append m xs ys h.1 k)

pub AllOwn-split :
    (m : Memory) (xs ys : List Operation) → AllOwn m (xs ++ ys) → AllOwn m xs × AllOwn m ys
AllOwn-split m [] ys h = (tt, h)
AllOwn-split m (x ∷ xs) ys h = let (l, r) = AllOwn-split m xs ys h.1 in ((h.0, l), r)

-- Operations with other identifiers keep their entries.
pub AllOwn-elsewhere :
    (m m' : Memory) (request_id key : String) (ops : List Operation)
    → ((j : String) → str_eq request_id j ≡ false → get m'.active j ≡ get m.active j)
    → ((j : String) → str_eq key j ≡ false → get m'.in_flight j ≡ get m.in_flight j)
    → length m.flags ≤ length m'.flags
    → elem request_id (ids ops) ≡ false
    → elem key (keys ops) ≡ false
    → AllOwn m ops
    → AllOwn m' ops
AllOwn-elsewhere m m' request_id key [] a f n h k o = tt
AllOwn-elsewhere m m' request_id key (op ∷ ops) a f n h k o = (
  ground (
    arith,
    a op.request_id,
    f op.key,
    eq_iff request_id op.request_id,
    eq_iff op.request_id request_id,
    eq_iff key op.key,
    eq_iff op.key key,
  ),
  AllOwn-elsewhere m m' request_id key ops a f n (ground arith) (ground arith) o.1,
)

-- And so where no entry changes at all.
pub AllOwn-same :
    (m m' : Memory) (ops : List Operation)
    → m'.active ≡ m.active
    → m'.in_flight ≡ m.in_flight
    → length m.flags ≤ length m'.flags
    → AllOwn m ops
    → AllOwn m' ops
AllOwn-same m m' [] a f n o = tt
AllOwn-same m m' (op ∷ ops) a f n o =
    ((rw a o.0.0, rw f o.0.1, omega (arith, o.0.2)), AllOwn-same m m' ops a f n o.1)
