-- ===== src/Network.antt =====
-- network/src/reliable_sender.rs: a connection that sends its messages again until they are
-- acknowledged. The socket and the cancelled handlers are inputs; a handler is a number.
pub mod Kept
pub mod Examples
use dag_bft_sigmod.Base.{
  ℕ, suc, ◌+◌, ◌*◌, min, Bool, true, false, not, List, [], ◌∷◌, ◌++◌, if◌then◌else◌, keep,
}

-- `InnerMessage`.
pub record Message : Type 0 where
  pub bytes : List ℕ
  pub cancel_handler : ℕ

-- `pending_replies` belongs to a connected stream.
pub record Connection : Type 0 where
  pub buffer : List Message
  pub pending_replies : List Message
  pub is_connected : Bool
  pub delay : ℕ
  pub retry : ℕ

abbrev pub retry_delay : ℕ
retry_delay = 200

unfoldable pub new_connection : Connection
new_connection = record {
  buffer = [];
  pending_replies = [];
  is_connected = false;
  delay = retry_delay;
  retry = 0;
}

-- What is known at a turn: the handlers that are closed, and the messages that the socket takes.
pub record Outside : Type 0 where
  pub is_closed : ℕ → Bool
  pub is_sent : Message → Bool

pub data ConnectionEvent : Type 0 where
  established : ConnectionEvent
  timer : ConnectionEvent
  message : Message → ConnectionEvent
  response : ConnectionEvent
  failure : ConnectionEvent

-- What becomes of the messages of the buffer: the rest of it, the replies to wait for, and `false` if the
-- socket fails.
unfoldable pub transmit : Outside → List Message → List Message → List Message × List Message × Bool
transmit outside [] pending = ([], pending, true)
transmit outside (m ∷ buffer) pending =
    let skipped = transmit outside buffer pending in
    let sent = transmit outside buffer (pending ++ (m ∷ [])) in
    if outside.is_closed m.cancel_handler
    then skipped
    else if outside.is_sent m
    then sent
    else (m ∷ buffer, pending, false)

-- The end of `keep_alive`: what is not acknowledged goes back to the front of the buffer.
unfoldable pub give_back : Connection → Connection
give_back c = record c {
  buffer = c.pending_replies ++ c.buffer;
  pending_replies = [];
  is_connected = false;
}

-- The start of a turn of the loop of `keep_alive`.
unfoldable pub send_buffer : Outside → Connection → Connection
unfolding transmit give_back
send_buffer outside c =
    let (buffer, pending, alive) = transmit outside c.buffer c.pending_replies in
    let c' = record c { buffer = buffer; pending_replies = pending } in
    if alive then c' else give_back c'

-- While there is no stream.
unfoldable pub on_waiting : Outside → Connection → ConnectionEvent → Connection × List Message
unfolding send_buffer keep
on_waiting outside c established =
    (send_buffer outside (record c { is_connected = true; delay = retry_delay; retry = 0 }), [])
on_waiting outside c timer = (record c { delay = min (2 * c.delay) 60000; retry = c.retry + 1 }, [])
on_waiting outside c (message m) = (
  record c { buffer = keep (λ x. not (outside.is_closed x.cancel_handler)) (c.buffer ++ (m ∷ [])) },
  [],
)
on_waiting outside c response = (c, [])
on_waiting outside c failure = (c, [])

-- While there is a stream; the second component has the messages whose handlers are told.
unfoldable pub on_stream : Outside → Connection → ConnectionEvent → Connection × List Message
unfolding send_buffer give_back
on_stream outside c established = (c, [])
on_stream outside c timer = (c, [])
on_stream outside c (message m) =
    (send_buffer outside (record c { buffer = c.buffer ++ (m ∷ []) }), [])
on_stream outside c response = elim c.pending_replies [
  | [] ↦ (give_back c, [])
  | m ∷ pending ↦ (send_buffer outside (record c { pending_replies = pending }), m ∷ [])
]
on_stream outside c failure = (give_back c, [])

unfoldable pub on_connection_event :
    Outside → Connection → ConnectionEvent → Connection × List Message
unfolding on_waiting on_stream
on_connection_event outside c event =
    if c.is_connected then on_stream outside c event else on_waiting outside c event

unfoldable pub connection_turns :
    Connection → List (Outside × ConnectionEvent) → Connection × List Message
unfolding on_connection_event
connection_turns c [] = (c, [])
connection_turns c ((outside, event) ∷ events) =
    let (c', told) = on_connection_event outside c event in
    let (last, later) = connection_turns c' events in (last, told ++ later)
