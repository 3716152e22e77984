-- ===== src/Daemon/Session/Threads/Steps.antt =====
-- Every step of every thread keeps the invariant.
use mathlib.Core.Path.{subst}
use kesharon.Prelude.{
  ℕ, ◌≡◌, refl, ap, String, Option, List, [], ◌∷◌, ◌++◌, map, arith, get_elem?, Option-cases, inl,
  inr,
}
use kesharon.Application.Ports.{RepositoryService, IdGenerator, StateRepository}
use kesharon.Protocol.Event.{StreamMessage}
use kesharon.Daemon.Session.State.{Memory, Channel}
use kesharon.Daemon.Session.Cancel.{subscribe_locked}
use kesharon.Daemon.Session.Threads.{
  Operation, Machine, Step, Reach, advance, receive, hang_up, opens, answers, advances, finishes,
  cancels, subscribes, receives, hangs_up, here, next,
}
use kesharon.Daemon.Session.Threads.Coherent.{AllOwn, IsCoherent}
use kesharon.Daemon.Session.Threads.Begin.{IsQuiet, IsQuiet-refl, Begins, begin_lem}
use kesharon.Daemon.Session.Threads.Maps.{IsCoherent-quiet, IsCoherent-started}
use kesharon.Daemon.Session.Threads.Preserve.{finished, cancelled}

-- Channels and the subscriber play no part in it.
IsQuiet-channels :
    (m : Memory) (subscriber : Option ℕ) (channels : List Channel)
    → IsQuiet m
        (record m { state = record m.state { subscriber = subscriber }; channels = channels })
IsQuiet-channels m subscriber channels = record {
  active = refl;
  in_flight = refl;
  completed = refl;
  completed_order = refl;
  completed_requests = refl;
  completed_request_order = refl;
  flags = omega arith;
  kept = λ a h. h;
}

pub receive-IsQuiet :
    (m : Memory) (address : ℕ) (rest : List StreamMessage) → IsQuiet m (receive m address rest)
unfolding receive
receive-IsQuiet m address rest = elim (Option-cases (get_elem? m.channels address)) [
  | inl e ↦ rw (e, receive) (IsQuiet-refl m)
  | inr (c, e) ↦ rw (e, receive) (IsQuiet-channels m m.subscriber _)
]

pub hang_up-IsQuiet : (m : Memory) (address : ℕ) → IsQuiet m (hang_up m address)
unfolding hang_up
hang_up-IsQuiet m address = elim (Option-cases (get_elem? m.channels address)) [
  | inl e ↦ rw (e, hang_up) (IsQuiet-refl m)
  | inr (c, e) ↦ rw (e, hang_up) (IsQuiet-channels m m.subscriber _)
]

subscribe_locked-IsQuiet : (id : String) (m : Memory) → IsQuiet m (subscribe_locked id m).1
unfolding subscribe_locked
subscribe_locked-IsQuiet id m = IsQuiet-channels m _ _

-- A step of an operation leaves its identifier, its key, its path and its flag's address.
module _ (m n : Memory) (service : RepositoryService) (gen : IdGenerator) (op : Operation) where
  unmoved :
      (f : Operation → String) (before after : List Operation)
      → f (advance n service gen op) ≡ f op
      → map f (before ++ advance n service gen op ∷ after) ≡ map f (before ++ op ∷ after)
  unmoved f [] after e = ap (λ k. k ∷ map f after) e
  unmoved f (x ∷ before) after e = ap (λ ks. f x ∷ ks) (unmoved f before after e)

  AllOwn-advance :
      (before after : List Operation)
      → AllOwn m (before ++ op ∷ after)
      → AllOwn m (before ++ advance n service gen op ∷ after)
  unfolding advance
  AllOwn-advance [] after o = o
  AllOwn-advance (x ∷ before) after o = (o.0, AllOwn-advance before after o.1)

  IsCoherent-advance :
      (before after : List Operation)
      → IsCoherent m (before ++ op ∷ after)
      → IsCoherent m (before ++ advance n service gen op ∷ after)
  unfolding advance
  IsCoherent-advance before after c = record {
    active = rw (unmoved (λ o. o.request_id) before after refl) c.active;
    in_flight = rw (unmoved (λ o. o.key) before after refl) c.in_flight;
    owned = AllOwn-advance before after c.owned;
    ledger = c.ledger;
    apart = c.apart;
  }

module _ {S : Type 0} (id : String) (ports : StateRepository S) where
  abbrev pub Holds : Machine S → Type 0
  Holds x = IsCoherent x.world.memory x.operations

  quietly :
      (x : Machine S) (m : Memory) → IsQuiet x.world.memory m → Holds x → IsCoherent m x.operations
  quietly x m q c = IsCoherent-quiet x.world.memory m x.operations q c

  -- One step of any thread keeps the invariant.
  pub Step-IsCoherent : (x y : Machine S) → Step id ports x y → Holds x → Holds y
  Step-IsCoherent x y (opens op m _ _ b e) c = rw e (
      IsCoherent-started x.world.memory m x.operations op
        (subst (Begins x.world.memory op.request_id op.key op.path) b
          (begin_lem x.world.memory op.request_id op.key op.path id))
        c)
  Step-IsCoherent x y (answers request_id key path response m _ b e) c = rw e (
      quietly x m
        (subst (Begins x.world.memory request_id key path) b
          (begin_lem x.world.memory request_id key path id))
        c)
  Step-IsCoherent x y (advances before after op service gen o e) c = rw e (
      IsCoherent-advance x.world.memory x.world.memory service gen op before after
        (subst (IsCoherent x.world.memory) o c))
  Step-IsCoherent x y (finishes before after op result open_lock _ o e) c = rw e (
      finished id ports x.world before after op result open_lock
        (subst (IsCoherent x.world.memory) o c))
  Step-IsCoherent x y (cancels request_id key target _ e) c =
      rw e (cancelled x.world.memory request_id key target x.operations c)
  Step-IsCoherent x y (subscribes _ e) c =
      rw e (quietly x _ (subscribe_locked-IsQuiet id x.world.memory) c)
  Step-IsCoherent x y (receives address ch message rest _ _ e) c =
      rw e (quietly x _ (receive-IsQuiet x.world.memory address rest) c)
  Step-IsCoherent x y (hangs_up address e) c =
      rw e (quietly x _ (hang_up-IsQuiet x.world.memory address) c)

  -- Whatever the threads do and in whatever order, the session's maps hold exactly the running
  -- operations, each under its own identifier and key.
  pub Reach-IsCoherent : (x y : Machine S) → Reach id ports x y → Holds x → Holds y
  Reach-IsCoherent x _ here c = c
  Reach-IsCoherent x z (next {y = y} r s) c = Step-IsCoherent y z s (Reach-IsCoherent x y r c)
