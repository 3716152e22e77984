-- ===== src/Daemon/Runtime/Accepting/Admitted.antt =====
-- The accept loop keeps to the steps of the permits, and turns a connection away only when it must.
use kesharon.Prelude.{
  ℕ, suc, ◌≡◌, ◌<◌, ◌⊎◌, inl, inr, refl, ap, Bool, true, false, Option, none, some, List, [], ◌∷◌,
  ◌++◌, map, arith, length, drop,
}
use kesharon.Ipc.Accept.{IoError, Stream, Accepting}
use kesharon.Protocol.Frame.{Json}
use kesharon.Protocol.Request.{ClientRequest}
use kesharon.Protocol.Response.{ServerResponse}
use kesharon.Protocol.Token.{LaunchToken}
use kesharon.Daemon.Runtime.{
  Runtime, RuntimeReach, max_active_connections, acquire, serves, fails_to_spawn, next,
}
use kesharon.Daemon.Runtime.Permits.{IsBounded, RuntimeReach-IsBounded}
use kesharon.Daemon.Server.{io}
use kesharon.Daemon.Server.Serve.{Ending, over, blocked, broken}
use kesharon.Daemon.Runtime.Accepting.{
  Turn, Fate, in_thread, without_thread, turned_away, Admission, Looping, stopped, panicked,
  rejecting, accepting, running, Course, at_rest, and_then, is_timed_out, after_rejection,
  rejection, admit,
}
use kesharon.Daemon.Runtime.Accepting.Leaves.{acquire_room, acquire_full}
use kesharon.Daemon.Runtime.Accepting.Taken.{streams, offered}

module _ (requests : Json ClientRequest) (responses : Json ServerResponse)
    (token : LaunchToken) where
  -- What became of a connection that came when these were served.
  abbrev pub Fits : Stream → Runtime → Fate → Type 0
  Fits stream x in_thread = length x.served < max_active_connections
  Fits stream x without_thread = length x.served < max_active_connections
  Fits stream x (turned_away s) =
      (length x.served ≡ max_active_connections) × (s ≡ rejection requests responses token stream)

  abbrev pub AreFair : List Admission → Type 0
  AreFair [] = Unit
  AreFair (a ∷ others) = (IsBounded a.before × Fits a.stream a.before a.fate) × AreFair others

  -- Some connection's rejection has come to this.
  abbrev pub HasEnding : Ending → List Admission → Type 0
  HasEnding ending [] = ⊥
  HasEnding ending (a ∷ others) =
      (turned_away (rejection requests responses token a.stream) ≡ a.fate)
        × ((rejection requests responses token a.stream).ending ≡ ending)
      ⊎ HasEnding ending others

  -- Why the loop does not go on.
  abbrev pub Ends : Looping → List Admission → ℕ → List Turn → List (Accepting Stream) → Type 0
  Ends (stopped e) seen calls turns remaining =
      (x : IoError) × (is_timed_out x.kind ≡ false) × (e ≡ io x.message)
  Ends panicked seen calls turns remaining = HasEnding broken seen
  Ends rejecting seen calls turns remaining = HasEnding blocked seen
  Ends accepting seen calls turns remaining =
      (calls < length turns) × (remaining ≡ offered (drop (suc calls) turns))
  Ends running seen calls turns remaining = calls ≡ length turns

  -- A course of the loop from a machine, over the answers of the listener, of which `given` have been
  -- taken; the streams that are `due` have been accepted before it.
  pub record IsCourse (x : Runtime) (due : List Stream) (left : List (Accepting Stream))
      (turns : List Turn) (c : Course) : Type 0 where
    pub reaches : RuntimeReach x c.runtime
    pub fair : AreFair c.admissions
    pub given : List (Accepting Stream)
    pub remaining : List (Accepting Stream)
    pub parts : left ++ offered turns ≡ given ++ remaining
    pub complete : map (λ a. a.stream) c.admissions ≡ due ++ streams given
    pub ends : Ends c.looping c.admissions c.calls turns remaining

  pub called-Ends :
      (looping : Looping) (seen : List Admission) (calls : ℕ) (t : Turn) (turns : List Turn)
      (remaining : List (Accepting Stream))
      → Ends looping seen calls turns remaining
      → Ends looping seen (suc calls) (t ∷ turns) remaining
  called-Ends (stopped e) seen calls t turns remaining h = h
  called-Ends panicked seen calls t turns remaining h = h
  called-Ends rejecting seen calls t turns remaining h = h
  called-Ends accepting seen calls t turns remaining (h, e) = (omega (arith, h), e)
  called-Ends running seen calls t turns remaining h = ap suc h

  and_then-Ends :
      (a : Admission) (looping : Looping) (seen : List Admission) (calls : ℕ) (turns : List Turn)
      (remaining : List (Accepting Stream))
      → Ends looping seen calls turns remaining
      → Ends looping (a ∷ seen) calls turns remaining
  and_then-Ends a (stopped e) seen calls turns remaining h = h
  and_then-Ends a panicked seen calls turns remaining h = inr h
  and_then-Ends a rejecting seen calls turns remaining h = inr h
  and_then-Ends a accepting seen calls turns remaining h = h
  and_then-Ends a running seen calls turns remaining h = h

  module _ (x : Runtime) (b : IsBounded x) where
    -- A connection that has been admitted, before the rest of the course.
    admitted-IsCourse :
        (a : Admission) (left : List (Accepting Stream)) (turns : List Turn) (c : Course)
        → IsBounded a.before × Fits a.stream a.before a.fate
        → IsCourse x [] left turns c
        → IsCourse x (a.stream ∷ []) left turns (and_then a c)
    admitted-IsCourse a left turns c fit h = record {
      reaches = h.reaches;
      fair = (fit, h.fair);
      given = h.given;
      remaining = h.remaining;
      parts = h.parts;
      complete = ap (λ ss. a.stream ∷ ss) h.complete;
      ends = and_then-Ends a c.looping c.admissions c.calls turns h.remaining h.ends;
    }

    -- A rejection that does not return.
    last-IsCourse :
        (y : Runtime) (stream : Stream) (looping : Looping) (left : List (Accepting Stream))
        (turns : List Turn)
        → RuntimeReach x y
        → length y.served ≡ max_active_connections
        → Ends looping
            (record {
              stream = stream;
              before = y;
              fate = turned_away (rejection requests responses token stream);
            }
              ∷ [])
            0
            turns
            (left ++ offered turns)
        → IsCourse x (stream ∷ []) left turns (
            and_then
              (record {
                stream = stream;
                before = y;
                fate = turned_away (rejection requests responses token stream);
              })
              (at_rest looping y))
    last-IsCourse y stream looping left turns r full h = record {
      reaches = r;
      fair = ((RuntimeReach-IsBounded x y r b, (full, refl)), tt);
      given = [];
      remaining = left ++ offered turns;
      parts = refl;
      complete = refl;
      ends = h;
    }

    rejected-IsCourse :
        (y : Runtime) (stream : Stream) (left : List (Accepting Stream)) (turns : List Turn)
        (c : Course) (ending : Ending)
        → (rejection requests responses token stream).ending ≡ ending
        → RuntimeReach x y
        → length y.served ≡ max_active_connections
        → IsCourse x [] left turns c
        → IsCourse x (stream ∷ []) left turns (
            and_then
              (record {
                stream = stream;
                before = y;
                fate = turned_away (rejection requests responses token stream);
              })
              (after_rejection ending y c))
    rejected-IsCourse y stream left turns c (over o) e r full h =
        admitted-IsCourse _ left turns c (RuntimeReach-IsBounded x y r b, (full, refl)) h
    rejected-IsCourse y stream left turns c blocked e r full h =
        last-IsCourse y stream rejecting left turns r full (inl (refl, e))
    rejected-IsCourse y stream left turns c broken e r full h =
        last-IsCourse y stream panicked left turns r full (inl (refl, e))

    pub admit-IsCourse :
        (y : Runtime) (stream : Stream) (spawned : Bool) (acquired : Option ℕ)
        (f : Runtime → Course) (left : List (Accepting Stream)) (turns : List Turn)
        → acquire y.active_connections ≡ acquired
        → RuntimeReach x y
        → ((z : Runtime) → RuntimeReach x z → IsCourse x [] left turns (f z))
        → IsCourse x
            (stream ∷ [])
            left
            turns
            (admit requests responses token y stream spawned acquired f)
    unfolding admit
    admit-IsCourse y stream true (some active) f left turns e r h =
        let bounded = RuntimeReach-IsBounded x y r b in
        let room : length y.served < max_active_connections =
          omega (arith, acquire_room y.active_connections e, bounded.counted) in
        admitted-IsCourse _ left turns _ (bounded, room)
          (h _ (next r (serves stream.connection active e refl)))
    admit-IsCourse y stream false (some active) f left turns e r h =
        let bounded = RuntimeReach-IsBounded x y r b in
        let room : length y.served < max_active_connections =
          omega (arith, acquire_room y.active_connections e, bounded.counted) in
        admitted-IsCourse _ left turns _ (bounded, room)
          (h _ (next r (fails_to_spawn stream.connection active e refl)))
    admit-IsCourse y stream spawned none f left turns e r h =
        let bounded = RuntimeReach-IsBounded x y r b in
        let full : length y.served ≡ max_active_connections =
          omega (arith, acquire_full y.active_connections e, bounded.counted, bounded.fits) in
        rejected-IsCourse y stream left turns (f y) _ refl r full (h y r)
