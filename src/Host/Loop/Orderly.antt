-- ===== src/Host/Loop/Orderly.antt =====
-- What a view is sent over the life of its subscription.
use kesharon.Prelude.{◌+◌, ◌≡◌, String, true, false, Option, none, some, List, [], ◌∷◌, ◌++◌}
use kesharon.Protocol.Event.{StreamMessage, snapshot, event}
use kesharon.Host.{message, reconnecting, unavailable, Following, following}
use kesharon.Host.Loop.{Effect, sends, sleeps, Standing, at_outer, at_inner, over, notices}

-- A message that continues what a view has: the next event of its stream, or a snapshot.
abbrev pub Continues : Following → StreamMessage → Following → Type 0
Continues f (event e) f' =
    (e.stream_id ≡ f.current_stream_id)
    × (e.sequence ≡ f.expected_sequence)
    × (f' ≡ record f { expected_sequence = e.sequence + 1 })
Continues f (snapshot s) f' = f' ≡ following s.stream_id s

-- A view that is not connected gets nothing but a snapshot, before which the task may sleep; from
-- there on each message continues the ones before, until a `Reconnecting` ends the connection.
abbrev pub IsOrderly : Option Following → List Effect → Type 0
IsOrderly view [] = Unit
IsOrderly none (sleeps n ∷ es) = IsOrderly none es
IsOrderly none (sends (message (snapshot s)) ∷ es) =
    (id : String) × IsOrderly (some (following id s)) es
IsOrderly none (sends (message (event e)) ∷ es) = ⊥
IsOrderly none (sends reconnecting ∷ es) = ⊥
IsOrderly none (sends (unavailable text) ∷ es) = ⊥
IsOrderly (some f) (sleeps n ∷ es) = ⊥
IsOrderly (some f) (sends (message m) ∷ es) =
    (f' : Following) × Continues f m f' × IsOrderly (some f') es
IsOrderly (some f) (sends reconnecting ∷ es) = IsOrderly none es
IsOrderly (some f) (sends (unavailable text) ∷ es) = ⊥

-- What may be done from a standing on.
abbrev After : Standing → List Effect → Type 0
After (at_outer true l) es = es ≡ []
After (at_outer false l) es = IsOrderly none es
After (at_inner f) es = IsOrderly (some f) es
After over es = es ≡ []

-- At the head of the outer loop, a lost connection has been told to the view.
abbrev IsTold : Standing → Type 0
IsTold (at_outer true l) = Unit
IsTold (at_outer false l) = notices l ≡ false
IsTold _ = Unit

-- A round leads to a standing of which this still holds, and what it does fits what may come.
abbrev Fits : Standing → List Effect × Standing → Type 0
Fits s (effects, s') = IsTold s' × ((es : List Effect) → After s' es → After s (effects ++ es))
