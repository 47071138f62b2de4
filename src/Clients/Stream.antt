-- ===== src/Clients/Stream.antt =====
-- src/clients/data-plane-stream.ts: the byte channel of one stream of the control tunnel. A promise is
-- a number, and what is settled or sent is a list of events.
pub mod Order
pub mod Closing
use consensus_node.Base.{
  ℕ, Text, codes, Bool, true, false, List, [], ◌∷◌, ◌++◌, Option, none, some, if◌then◌else◌,
}

pub data Event : Type 0 where
  resolved : ℕ → List ℕ → Event
  rejected : ℕ → Text → Event
  data_sent : List ℕ → Event
  close_sent : Text → Event
  error_reported : Text → Event
  done : Event

pub record Stream : Type 0 where
  pub inbox : List (List ℕ)
  pub waiters : List ℕ
  pub failure : Option Text
  pub closed : Bool

abbrev pub new_stream : Stream
new_stream = record { inbox = []; waiters = []; failure = none; closed = false }

-- closeOnce
unfoldable pub close_once : Text → Stream → Stream × List Event
close_once reason s =
    if s.closed then (s, []) else (record s { closed = true }, close_sent reason ∷ [])

abbrev pub recv_empty : ℕ → Option Text → Stream → Stream × List Event
recv_empty promise (some reason) s = (s, rejected promise reason ∷ [])
recv_empty promise none s = (record s { waiters = s.waiters ++ (promise ∷ []) }, [])

abbrev pub recv_from : ℕ → List (List ℕ) → Stream → Stream × List Event
recv_from promise [] s = recv_empty promise s.failure s
recv_from promise (buffered ∷ rest) s = (record s { inbox = rest }, resolved promise buffered ∷ [])

-- transport.recv
unfoldable pub recv : ℕ → Stream → Stream × List Event
recv promise s = recv_from promise s.inbox s

-- transport.send
unfoldable pub send : List ℕ → Stream → Stream × List Event
send bytes s = (s, data_sent bytes ∷ [])

-- transport.close
unfoldable pub close : Stream → Stream × List Event
close s = close_once (codes "data-plane complete") s

abbrev pub push_to : List ℕ → List ℕ → Stream → Stream × List Event
push_to bytes [] s = (record s { inbox = s.inbox ++ (bytes ∷ []) }, [])
push_to bytes (waiter ∷ rest) s = (record s { waiters = rest }, resolved waiter bytes ∷ [])

unfoldable pub push : List ℕ → Stream → Stream × List Event
push bytes s = push_to bytes s.waiters s

unfoldable pub reject_all : Text → List ℕ → List Event
reject_all reason [] = []
reject_all reason (waiter ∷ waiters) = rejected waiter reason ∷ reject_all reason waiters

unfoldable pub fail : Text → Stream → Stream × List Event
fail reason s =
    (record s { closed = true; failure = some reason; waiters = [] }, reject_all reason s.waiters)

-- What happens when the session ends, by itself or with an error: the catch and the finally block.
unfoldable pub finish : Option Text → Stream → Stream × List Event
finish outcome s =
    let (after, closing) = close_once (codes "data-plane closed") s in
    (after, elim outcome [ none ↦ [] | some e ↦ error_reported e ∷ [] ] ++ (closing ++ (done ∷ [])))

pub data Call : Type 0 where
  call_recv : ℕ → Call
  call_send : List ℕ → Call
  call_close : Call
  call_push : List ℕ → Call
  call_fail : Text → Call
  call_finish : Option Text → Call

unfoldable pub run_call : Call → Stream → Stream × List Event
run_call (call_recv promise) s = recv promise s
run_call (call_send bytes) s = send bytes s
run_call call_close s = close s
run_call (call_push bytes) s = push bytes s
run_call (call_fail reason) s = fail reason s
run_call (call_finish outcome) s = finish outcome s

-- One call after another, with all events in order.
unfoldable pub run : List Call → Stream → Stream × List Event
run [] s = (s, [])
run (c ∷ cs) s =
    let (after, events) = run_call c s in
    let (last, later) = run cs after in (last, events ++ later)
