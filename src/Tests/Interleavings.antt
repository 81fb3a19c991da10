-- ===== src/Tests/Interleavings.antt =====
-- A reply that is left in the waiter when Close comes, and what its caller then takes.
use griffino_go.Base.{some, [], refl, arith}
use griffino_go.Base.Maps.{lookup, insert}
use griffino_go.Rabbit.Broker.{full, closed, new_world}
use griffino_go.Rabbit.Connection.{failed_pending}
use griffino_go.Rabbit.Requests.{reply}
use griffino_go.Rabbit.Replies.{
  Replies, no_replies, begun, looked_up, sent, wakened, Reachable, at_start, further, begins,
  looks_up, sends, closes, wakes, takes_left,
}
use griffino_go.Rabbit.Replies.Invariant.{IsMatched}
use griffino_go.Rabbit.Replies.Matching.{Reachable-IsMatched}
use griffino_go.Tests.Samples.{settings}

abbrev answered : Replies
answered = sent 3 0 (full (some [])) (looked_up 3 "m1" [] (begun "m1" (no_replies settings)))

abbrev ended : Replies
ended =
    wakened 0 (reply (some [])) closed (record answered { world = failed_pending answered.world })

ended-Reachable : Reachable (no_replies settings) ended
unfolding lookup insert new_world
ended-Reachable =
    further
      (further
        (further (further (further at_start (begins "m1")) (looks_up 3 "m1" [] refl refl))
          (sends 3 0 [] (full (some [])) refl refl))
        closes)
      (wakes 0 (reply (some [])) closed (omega arith) takes_left)

Reachable-IsMatched_example : IsMatched ended
Reachable-IsMatched_example = Reachable-IsMatched settings ended-Reachable
