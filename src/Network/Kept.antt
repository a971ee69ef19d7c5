-- ===== src/Network/Kept.antt =====
-- network/src/reliable_sender.rs: no message is lost.
use dag_bft_sigmod.Base.{
  ℕ, suc, ◌+◌, Bool, true, false, not, List, [], ◌∷◌, ◌++◌, ◌≡◌, inl, inr, refl, ap, ◌∙◌, arith,
  All, if◌then◌else◌, ◌==◌, ==_iff, keep, Bool-cases,
}
use dag_bft_sigmod.Network.{
  Message, Connection, Outside, ConnectionEvent, established, timer, message, response, failure,
  transmit, give_back, send_buffer, on_waiting, on_stream, on_connection_event, connection_turns,
  retry_delay,
}

-- How many of the messages have the handler.
unfoldable pub with_handler : ℕ → List Message → ℕ
with_handler h [] = 0
with_handler h (m ∷ ms) =
    let rest = with_handler h ms in if m.cancel_handler == h then suc rest else rest

-- How many messages with the handler come in.
unfoldable pub incoming : ℕ → List (Outside × ConnectionEvent) → ℕ
incoming h [] = 0
incoming h ((o, message m) ∷ events) =
    let rest = incoming h events in if m.cancel_handler == h then suc rest else rest
incoming h ((o, established) ∷ events) = incoming h events
incoming h ((o, timer) ∷ events) = incoming h events
incoming h ((o, response) ∷ events) = incoming h events
incoming h ((o, failure) ∷ events) = incoming h events

-- How many the connection has.
unfoldable pub outstanding : ℕ → Connection → ℕ
unfolding with_handler
outstanding h c = with_handler h c.pending_replies + with_handler h c.buffer

with_handler-append :
    (h : ℕ) (xs ys : List Message)
    → with_handler h (xs ++ ys) ≡ with_handler h xs + with_handler h ys
unfolding with_handler
with_handler-append h [] ys = omega arith
with_handler-append h (m ∷ xs) ys = ground (arith, with_handler-append h xs ys)

with_handler-keep :
    (h : ℕ) (o : Outside) (ms : List Message)
    → o.is_closed h ≡ false
    → with_handler h (keep (λ x. not (o.is_closed x.cancel_handler)) ms) ≡ with_handler h ms
unfolding with_handler keep
with_handler-keep h o [] stays = refl
with_handler-keep h o (m ∷ ms) stays =
    let rest = with_handler-keep h o ms stays in
    elim (Bool-cases (m.cancel_handler == h)) [
      | inl e ↦
          let here : o.is_closed m.cancel_handler ≡ false =
            ap o.is_closed ((==_iff m.cancel_handler h).0 e) ∙ stays in
          ground (arith, here, rest)
      | inr e ↦ elim (Bool-cases (o.is_closed m.cancel_handler)) [
        | inl closed ↦ ground (arith, rest)
        | inr here ↦ ground (arith, rest)
      ]
    ]

-- A message whose handler is closed does not have one that is not.
closed_single :
    (h : ℕ) (o : Outside) (m : Message)
    → o.is_closed h ≡ false
    → o.is_closed m.cancel_handler ≡ true
    → with_handler h (m ∷ []) ≡ 0
unfolding with_handler
closed_single h o m stays closed = elim (Bool-cases (m.cancel_handler == h)) [
  | inl e ↦
      let here : o.is_closed m.cancel_handler ≡ false =
        ap o.is_closed ((==_iff m.cancel_handler h).0 e) ∙ stays in
      absurd (ground arith)
  | inr e ↦ rw e refl
]

transmit-outstanding :
    (h : ℕ) (o : Outside) (buffer pending : List Message)
    → o.is_closed h ≡ false
    → with_handler h (transmit o buffer pending).1 + with_handler h (transmit o buffer pending).0
      ≡ with_handler h pending + with_handler h buffer
unfolding transmit
transmit-outstanding h o [] pending stays = refl
transmit-outstanding h o (m ∷ buffer) pending stays =
    let split = with_handler-append h (m ∷ []) buffer in
    elim (Bool-cases (o.is_closed m.cancel_handler)) [
      | inl closed ↦
          rw (transmit, closed)
            (omega (
              arith,
              split,
              transmit-outstanding h o buffer pending stays,
              closed_single h o m stays closed,
            ))
      | inr here ↦ elim (Bool-cases (o.is_sent m)) [
        | inl sent ↦
            rw (transmit, here, sent)
              (omega (
                arith,
                split,
                transmit-outstanding h o buffer (pending ++ (m ∷ [])) stays,
                with_handler-append h pending (m ∷ []),
              ))
        | inr failed ↦ rw (transmit, here, failed) refl
      ]
    ]

give_back-outstanding : (h : ℕ) (c : Connection) → outstanding h (give_back c) ≡ outstanding h c
unfolding outstanding give_back with_handler
give_back-outstanding h c = omega (arith, with_handler-append h c.pending_replies c.buffer)

send_buffer-outstanding :
    (h : ℕ) (o : Outside) (c : Connection)
    → o.is_closed h ≡ false
    → outstanding h (send_buffer o c) ≡ outstanding h c
unfolding send_buffer outstanding
send_buffer-outstanding h o c stays =
    let (buffer, pending, alive) = transmit o c.buffer c.pending_replies in
    let c' : Connection = record c { buffer = buffer; pending_replies = pending } in
    let kept = transmit-outstanding h o c.buffer c.pending_replies stays in
    elim (Bool-cases alive) [ inl e ↦ rw e kept | inr e ↦ rw e (give_back-outstanding h c' ∙ kept) ]

-- How often the handler is told in a turn.
abbrev Turn : ℕ → Outside → Connection → ConnectionEvent → Connection × List Message → Type 0
Turn h o c event r =
    outstanding h r.0 + with_handler h r.1 ≡ outstanding h c + incoming h ((o, event) ∷ [])

on_waiting-Turn :
    (h : ℕ) (o : Outside) (c : Connection) (event : ConnectionEvent)
    → o.is_closed h ≡ false
    → Turn h o c event (on_waiting o c event)
unfolding on_waiting incoming outstanding with_handler
on_waiting-Turn h o c established stays = omega (
  arith,
  send_buffer-outstanding h o (record c { is_connected = true; delay = retry_delay; retry = 0 })
      stays,
)
on_waiting-Turn h o c timer stays = omega arith
on_waiting-Turn h o c (message m) stays = omega (
  arith,
  with_handler-keep h o (c.buffer ++ (m ∷ [])) stays,
  with_handler-append h c.buffer (m ∷ []),
)
on_waiting-Turn h o c response stays = omega arith
on_waiting-Turn h o c failure stays = omega arith

on_stream-Turn :
    (h : ℕ) (o : Outside) (c : Connection) (event : ConnectionEvent)
    → o.is_closed h ≡ false
    → Turn h o c event (on_stream o c event)
unfolding on_stream incoming outstanding with_handler
on_stream-Turn h o c established stays = omega arith
on_stream-Turn h o c timer stays = omega arith
on_stream-Turn h o c (message m) stays = omega (
  arith,
  send_buffer-outstanding h o (record c { buffer = c.buffer ++ (m ∷ []) }) stays,
  with_handler-append h c.buffer (m ∷ []),
)
on_stream-Turn h o c response stays = answered c.pending_replies refl
  where
    answered :
        (pending : List Message)
        → pending ≡ c.pending_replies
        → Turn h o c response (elim pending [
          | [] ↦ (give_back c, [])
          | m ∷ later ↦ (send_buffer o (record c { pending_replies = later }), m ∷ [])
        ])
    answered [] e = omega (arith, give_back-outstanding h c)
    answered (m ∷ later) e = omega (
      arith,
      send_buffer-outstanding h o (record c { pending_replies = later }) stays,
      with_handler-append h (m ∷ []) later,
      ap (with_handler h) e,
    )
on_stream-Turn h o c failure stays = omega (arith, give_back-outstanding h c)

on_connection_event-Turn :
    (h : ℕ) (o : Outside) (c : Connection) (event : ConnectionEvent)
    → o.is_closed h ≡ false
    → Turn h o c event (on_connection_event o c event)
unfolding on_connection_event
on_connection_event-Turn h o c event stays = in_state c.is_connected
  where
    in_state :
        (connected : Bool)
        → Turn h o c event (if connected then on_stream o c event else on_waiting o c event)
    in_state true = on_stream-Turn h o c event stays
    in_state false = on_waiting-Turn h o c event stays

incoming-cons :
    (h : ℕ) (o : Outside) (event : ConnectionEvent) (events : List (Outside × ConnectionEvent))
    → incoming h ((o, event) ∷ events) ≡ incoming h ((o, event) ∷ []) + incoming h events
unfolding incoming
incoming-cons h o established events = omega arith
incoming-cons h o timer events = omega arith
incoming-cons h o (message m) events = ground arith
incoming-cons h o response events = omega arith
incoming-cons h o failure events = omega arith

-- A handler that is never closed: over any turns of a connection, with failures of the socket and new
-- streams, how often the handler is told of an acknowledgement and how many of its messages the
-- connection has sum to the number that it had and that came in. No message is lost, and none is
-- acknowledged twice.
pub connection_turns-keeps :
    (h : ℕ) (c : Connection) (events : List (Outside × ConnectionEvent))
    → All (λ e. e.0.is_closed h ≡ false) events
    → outstanding h (connection_turns c events).0 + with_handler h (connection_turns c events).1
      ≡ outstanding h c + incoming h events
unfolding connection_turns with_handler incoming
connection_turns-keeps h c [] stays = omega arith
connection_turns-keeps h c ((o, event) ∷ events) (here, later) =
    let (c', told) = on_connection_event o c event in
    omega (
      arith,
      on_connection_event-Turn h o c event here,
      connection_turns-keeps h c' events later,
      with_handler-append h told (connection_turns c' events).1,
      incoming-cons h o event events,
    )
