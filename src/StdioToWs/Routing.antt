-- ===== src/StdioToWs/Routing.antt =====
-- rust/src/gateways/stdio_to_ws.rs: which clients get what the child writes.
use mcpway.Base.{
  eq-false_of_ne, ◌≢◌, String, Bool, true, false, Option, none, some, List, [], ◌∷◌, ◌++◌, ◌≡◌,
  refl, arith, eq_iff, ◌==◌, if◌then◌else◌,
}
use mcpway.Base.Dict.{remove, Dict, lookup, lookup-remove}
use mcpway.Base.Dict.Sorted.{IsSorted, lookup-Above}
use mcpway.Json.{Value}
use mcpway.StdioToWs.{
  with_id, deliver, Gateway, send_each, remove_dead, broadcast, child_message, strip_prefixed_id,
}

-- The open clients, the first at the end, each with the message.
unfoldable pub sent_to : Value → Dict Bool → List (String × Value)
sent_to message [] = []
sent_to message ((client, true) ∷ more) = sent_to message more ++ ((client, message) ∷ [])
sent_to message ((client, false) ∷ more) = sent_to message more

-- How often a client gets something among what was sent.
unfoldable pub received : String → List (String × Value) → List Value
received client [] = []
received client ((to, message) ∷ sent) =
    let rest = received client sent in if to == client then message ∷ rest else rest

-- What a client with this entry has after `message` is sent to it.
unfoldable pub with_message : Option Bool → Value → List Value → List Value
with_message (some true) message old = message ∷ old
with_message _ message old = old

unfoldable pub without_closed : Option Bool → Option Bool → Option Bool
without_closed (some false) now = none
without_closed _ now = now

received-send_each :
    (client : String) (message : Value) (cs : Dict Bool) (sent : List (String × Value))
    → IsSorted cs
    → received client (send_each message cs sent)
      ≡ with_message (lookup client cs) message (received client sent)
unfolding received send_each lookup with_message
received-send_each client message [] sent h = refl
received-send_each client message ((k, true) ∷ more) sent h =
    let rest = received-send_each client message more ((k, message) ∷ sent) h.1 in
    ground (arith, rest, eq_iff k client, lookup-Above k more h.0)
received-send_each client message ((k, false) ∷ more) sent h = ground (
  arith,
  received-send_each client message more sent h.1,
  eq_iff k client,
  lookup-Above k more h.0,
)

lookup-remove_dead :
    (client : String) (closing clients : Dict Bool)
    → IsSorted closing
    → lookup client (remove_dead closing clients)
      ≡ without_closed (lookup client closing) (lookup client clients)
unfolding remove_dead lookup without_closed
lookup-remove_dead client [] clients h = refl
lookup-remove_dead client ((k, true) ∷ more) clients h =
    ground
      (arith, lookup-remove_dead client more clients h.1, eq_iff k client, lookup-Above k more h.0)
lookup-remove_dead client ((k, false) ∷ more) clients h = ground (
  arith,
  lookup-remove_dead client more (remove k clients) h.1,
  lookup-remove k client clients,
  eq_iff k client,
  lookup-Above k more h.0,
)

deliver-other :
    (target client : String) (message : Value) (entry : Option Bool) (g : Gateway)
    → target ≢ client
    → (received client (deliver target message entry g).delivered ≡ received client g.delivered)
      × (lookup client (deliver target message entry g).clients ≡ lookup client g.clients)
unfolding received
deliver-other target client message none g h = (refl, refl)
deliver-other target client message (some true) g h =
    (rw (eq-false_of_ne target client h) refl, refl)
deliver-other target client message (some false) g h =
    (refl, ground (arith, eq_iff target client, lookup-remove target client g.clients))

-- The clients' keys are in order. A message of the child that names no client goes once to each client
-- whose receiver is open, and the clients whose receiver is closed are taken out; the entries of the
-- others stay.
pub child_message-broadcast :
    (message : Value) (client : String) (g : Gateway)
    → IsSorted g.clients
    → strip_prefixed_id message ≡ none
    → (received client (child_message message g).delivered
        ≡ with_message (lookup client g.clients) message (received client g.delivered))
      × (lookup client (child_message message g).clients
          ≡ without_closed (lookup client g.clients) (lookup client g.clients))
unfolding child_message broadcast
child_message-broadcast message client g h e =
    rw (child_message, e)
      (
        received-send_each client message g.clients g.delivered h,
        lookup-remove_dead client g.clients g.clients h,
      )

-- The answer to a request of one client leaves what every other client has received, and its entry,
-- as they were.
pub child_message-others :
    (message : Value) (target client : String) (id : Value) (g : Gateway)
    → strip_prefixed_id message ≡ some (target, id)
    → target ≢ client
    → (received client (child_message message g).delivered ≡ received client g.delivered)
      × (lookup client (child_message message g).clients ≡ lookup client g.clients)
unfolding child_message
child_message-others message target client id g e other =
    rw (child_message, e)
      (deliver-other target client (with_id id message) (lookup target g.clients) g other)
