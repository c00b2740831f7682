-- ===== src/StdioToGrpc/Numbers.antt =====
-- rust/src/gateways/stdio_to_grpc.rs: the running numbers of the envelopes.
use mcpway.Base.{
  ℕ, ◌+◌, ◌≤◌, ◌<◌, String, ◌≡◌, refl, inl, inr, Bool, true, false, Option, none, some, List, [],
  ◌∷◌, ◌↔◌, ◌^◌, ◌%◌, arith, eq_iff, ◌==◌, if◌then◌else◌, Bool-cases, Option-cases,
}
use mcpway.Base.Text.{◌++◌}
use mcpway.Base.Dict.{Dict, lookup, insert, remove}
use mcpway.Json.{Value}
use mcpway.StdioToWs.{with_id}
use mcpway.Base.Dict.Sorted.{IsSorted, remove-IsSorted, lookup-Above}
use mcpway.Base.Result.{ok}
use mcpway.StdioToGrpc.{
  AppState, Envelope, authorize, strip_prefixed_id, stream, stream_end, child_message, send_each,
  deliver, remove_dead, broadcast, envelope_of, next_seq,
}

-- A call is let in exactly if there is no token to ask for or its authorization is `Bearer` and the
-- token; then the stream's client is connected, and otherwise the answer is unauthenticated and no
-- state is given back.
pub stream-authorize :
    (auth : Option String) (token client : String) (g : AppState)
    → g.bearer_token ≡ some token
    → (stream auth client g ≡ ok (record g { clients = insert client true g.clients }))
      ↔ (auth ≡ some ("Bearer " ++ token))
unfolding stream authorize
stream-authorize none token client g h = ground (arith, h)
stream-authorize (some text) token client g h = ground (arith, h, eq_iff text ("Bearer " ++ token))

-- The numbers of the envelopes that a client was sent, the latest first.
unfoldable pub numbers : String → List (String × Envelope) → List ℕ
numbers client [] = []
numbers client ((to, envelope) ∷ sent) =
    let rest = numbers client sent in if to == client then envelope.seq ∷ rest else rest

-- The numbers fall strictly, all below `n`.
unfoldable pub IsFalling : ℕ → List ℕ → Type 0
IsFalling n [] = Unit
IsFalling n (m ∷ ms) = (m < n) × IsFalling m ms

IsFalling-le : (n m : ℕ) (ms : List ℕ) → n ≤ m → IsFalling n ms → IsFalling m ms
unfolding IsFalling
IsFalling-le n m [] h f = tt
IsFalling-le n m (k ∷ ks) h f = (omega (arith, h, f.0), f.1)

unfoldable pub IsNumbered : String → AppState → Type 0
unfolding numbers IsFalling
IsNumbered client g = IsSorted g.clients × IsFalling (g.seq + 1) (numbers client g.delivered)

-- Whether the entry of a client makes it get an envelope.
unfoldable pub numbered : Option Bool → ℕ → List ℕ → List ℕ
numbered (some true) n ns = n ∷ ns
numbered _ n ns = ns

numbers-send_each :
    (client : String) (envelope : Envelope) (cs : Dict Bool) (sent : List (String × Envelope))
    → IsSorted cs
    → numbers client (send_each envelope cs sent)
      ≡ numbered (lookup client cs) envelope.seq (numbers client sent)
unfolding numbers send_each lookup numbered
numbers-send_each client envelope [] sent h = refl
numbers-send_each client envelope ((k, true) ∷ more) sent h =
    let rest = numbers-send_each client envelope more ((k, envelope) ∷ sent) h.1 in
    ground (arith, rest, eq_iff k client, lookup-Above k more h.0)
numbers-send_each client envelope ((k, false) ∷ more) sent h = ground (
  arith,
  numbers-send_each client envelope more sent h.1,
  eq_iff k client,
  lookup-Above k more h.0,
)

IsFalling-numbered :
    (entry : Option Bool) (n : ℕ) (ns : List ℕ)
    → IsFalling n ns
    → IsFalling (n + 1) (numbered entry n ns)
unfolding IsFalling numbered
IsFalling-numbered none n ns f = IsFalling-le n (n + 1) ns (omega arith) f
IsFalling-numbered (some true) n ns f = (omega arith, f)
IsFalling-numbered (some false) n ns f = IsFalling-le n (n + 1) ns (omega arith) f

remove_dead-IsSorted :
    (closing clients : Dict Bool) → IsSorted clients → IsSorted (remove_dead closing clients)
unfolding remove_dead
remove_dead-IsSorted [] clients h = h
remove_dead-IsSorted ((client, true) ∷ more) clients h = remove_dead-IsSorted more clients h
remove_dead-IsSorted ((client, false) ∷ more) clients h =
    remove_dead-IsSorted more (remove client clients) (remove-IsSorted client clients h)

deliver-IsNumbered :
    (client to : String) (envelope : Envelope) (entry : Option Bool) (g : AppState)
    → envelope.seq ≡ g.seq
    → IsSorted g.clients
    → IsFalling g.seq (numbers client g.delivered)
    → IsNumbered client (deliver to envelope entry g)
unfolding IsNumbered numbers IsFalling stream_end
deliver-IsNumbered client to envelope none g e s f =
    (s, IsFalling-le g.seq (g.seq + 1) (numbers client g.delivered) (omega arith) f)
deliver-IsNumbered client to envelope (some true) g e s f = elim (Bool-cases (to == client)) [
  | inl same ↦ rw (same, e) (s, (omega arith, f))
  | inr other ↦
      rw other (s, IsFalling-le g.seq (g.seq + 1) (numbers client g.delivered) (omega arith) f)
]
deliver-IsNumbered client to envelope (some false) g e s f = (
  remove-IsSorted to g.clients s,
  IsFalling-le g.seq (g.seq + 1) (numbers client g.delivered) (omega arith) f,
)

-- The numbers of what a client was sent rise strictly from the first envelope to the last, and stay
-- so with each message of the child, as long as the 64 bits of the counter do not wrap; the
-- clients' keys are in order and stay so.
pub child_message-IsNumbered :
    (write : Value → String) (client : String) (message : Value) (g : AppState)
    → g.seq + 1 < 2 ^ 64
    → IsNumbered client g
    → IsNumbered client (child_message write message g)
unfolding IsNumbered broadcast child_message
child_message-IsNumbered write client message g small h =
    let next : (g.seq + 1) % 2 ^ 64 ≡ g.seq + 1 = omega (arith, small) in
    elim (Option-cases (strip_prefixed_id message)) [
      | inl e ↦
          rw (child_message, e)
            (
              remove_dead-IsSorted g.clients g.clients h.0,
              rw
                  (
                    numbers-send_each client (envelope_of write message g) g.clients g.delivered
                        h.0,
                    next,
                  )
                  (IsFalling-numbered (lookup client g.clients) (g.seq + 1)
                    (numbers client g.delivered) h.1),
            )
      | inr ((to, id), e) ↦
          rw (child_message, e)
            (deliver-IsNumbered client to (envelope_of write (with_id id message) g)
              (lookup to g.clients) (next_seq g) refl h.0 (rw next h.1))
    ]
