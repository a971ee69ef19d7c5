-- ===== src/Primary/HeaderWaiter/Pending.antt =====
-- primary/src/header_waiter.rs: a header waits once at a time, and the clean-up cancels it.
use dag_bft_sigmod.Base.{
  ℕ, suc, ◌+◌, ◌-◌, ◌≤◌, Bool, true, false, not, ◌&&◌, ◌||◌, some, List, [], ◌∷◌, ◌++◌, map, ◌≡◌,
  refl, arith, if◌then◌else◌, ◌==◌, ==_iff, ltb, leb, nat_eq, Option-cases, inl, inr, Bool-cases,
}
use dag_bft_sigmod.Base.Maps.{Map, lookup, lookup-insert, lookup-remove, retain, contains_key, keys}
use dag_bft_sigmod.Config.{PublicKey, WorkerId, Committee}
use dag_bft_sigmod.Primary.Errors.{Digest, Round}
use dag_bft_sigmod.Primary.HeaderWaiter.{
  HeaderWaiter, new_waiter, WaiterMessage, sync_batches, sync_parents, WaiterOutput, wait, cancel,
  synchronize, certificates_request, lucky_broadcast, to_core, WaiterEvent, message, found,
  canceled, timer, send_synchronize, on_message, collect_garbage, on_event, turn, turns,
  request_batches, id_of,
}

abbrev Pending : Type 0
Pending = Map Digest (Round × Bool)

-- How often the header is added to the waiting futures.
unfoldable pub waits : Digest → List WaiterOutput → ℕ
waits d [] = 0
waits d (wait keys h ∷ os) = let rest = waits d os in if h.id == d then suc rest else rest
waits d (cancel e ∷ os) = waits d os
waits d (synchronize a ds k ∷ os) = waits d os
waits d (certificates_request a ds k ∷ os) = waits d os
waits d (lucky_broadcast xs ds k n ∷ os) = waits d os
waits d (to_core h ∷ os) = waits d os

-- How often it leaves them: handed back to the core, or cancelled.
unfoldable pub leaves : Digest → List WaiterOutput → ℕ
leaves d [] = 0
leaves d (cancel e ∷ os) = let rest = leaves d os in if e == d then suc rest else rest
leaves d (to_core h ∷ os) = let rest = leaves d os in if h.id == d then suc rest else rest
leaves d (wait keys h ∷ os) = leaves d os
leaves d (synchronize a ds k ∷ os) = leaves d os
leaves d (certificates_request a ds k ∷ os) = leaves d os
leaves d (lucky_broadcast xs ds k n ∷ os) = leaves d os

unfoldable is_pending : Digest → HeaderWaiter → ℕ
unfolding lookup
is_pending d s = if contains_key d s.pending then 1 else 0

waits-append :
    (d : Digest) (xs ys : List WaiterOutput) → waits d (xs ++ ys) ≡ waits d xs + waits d ys
unfolding waits
waits-append d [] ys = omega arith
waits-append d (x ∷ xs) ys = ground (arith, waits-append d xs ys)

leaves-append :
    (d : Digest) (xs ys : List WaiterOutput) → leaves d (xs ++ ys) ≡ leaves d xs + leaves d ys
unfolding leaves
leaves-append d [] ys = omega arith
leaves-append d (x ∷ xs) ys = ground (arith, leaves-append d xs ys)

waits-map_cancel : (d : Digest) (ds : List Digest) → waits d (map (λ e. cancel e) ds) ≡ 0
unfolding waits
waits-map_cancel d [] = refl
waits-map_cancel d (x ∷ xs) = waits-map_cancel d xs

-- A pending header that the clean-up does not keep is cancelled.
retain-cancels :
    (g : Round) (d : Digest) (m : Pending)
    → (if contains_key d m then 1 else 0)
      ≤ (if contains_key d (retain (λ _ x. ltb g x.0 || x.1) m) then 1 else 0)
        + leaves d (map (λ e. cancel e) (keys (retain (λ _ x. leb x.0 g && not x.1) m)))
unfolding lookup retain leaves
retain-cancels g d [] = omega arith
retain-cancels g d ((k, v) ∷ m) = ground (arith, retain-cancels g d m)

collect_garbage-waits :
    (gc_depth : ℕ) (round : Round) (d : Digest) (s : HeaderWaiter)
    → is_pending d s + waits d (collect_garbage gc_depth round s).1
      ≤ is_pending d (collect_garbage gc_depth round s).0
        + leaves d (collect_garbage gc_depth round s).1
unfolding collect_garbage is_pending waits
collect_garbage-waits gc_depth round d s = ground (
  arith,
  retain-cancels (round - gc_depth) d s.pending,
  waits-map_cancel d (keys (retain (λ _ x. leb x.0 (round - gc_depth) && not x.1) s.pending)),
)

module _ (name : PublicKey) (c : Committee) where
  send_synchronize-waits :
      (d : Digest) (author : PublicKey) (requires : Map WorkerId (List Digest))
      (sent : List WaiterOutput)
      → send_synchronize name c author requires ≡ some sent
      → waits d sent ≡ 0
  unfolding send_synchronize waits
  send_synchronize-waits d author [] sent e = ground arith
  send_synchronize-waits d author ((w, ds) ∷ requires) sent e =
      elim (Option-cases (send_synchronize name c author requires)) [
        | inl n ↦ absurd (ground arith)
        | inr (rest, r) ↦ ground (arith, send_synchronize-waits d author requires rest r)
      ]

  on_message-waits :
      (d : Digest) (s s' : HeaderWaiter) (m : WaiterMessage) (now : ℕ) (sent : List WaiterOutput)
      → on_message name c s m now ≡ some (s', sent)
      → contains_key (id_of m) s.pending ≡ false
      → is_pending d s + waits d sent ≤ is_pending d s'
  unfolding on_message is_pending waits
  on_message-waits d s s' (sync_batches missing header) now sent e new =
      let requires = (request_batches header.round missing s.batch_requests []).1 in
      elim (Option-cases (send_synchronize name c header.author requires)) [
        | inl n ↦ absurd (ground arith)
        | inr (rest, r) ↦ ground (
          arith,
          send_synchronize-waits d header.author requires rest r,
          lookup-insert header.id d (header.round, false) s.pending,
          ==_iff header.id d,
        )
      ]
  on_message-waits d s s' (sync_parents missing header) now sent e new =
      ground (arith, lookup-insert header.id d (header.round, false) s.pending, ==_iff header.id d)

  module _ (gc_depth retry_delay retry_nodes : ℕ) where
    on_event-waits :
        (d : Digest) (s s' : HeaderWaiter) (event : WaiterEvent) (sent : List WaiterOutput)
        (go_on : Bool)
        → on_event name c retry_delay retry_nodes s event ≡ some (s', (sent, go_on))
        → is_pending d s + waits d sent ≤ is_pending d s' + leaves d sent
    unfolding on_event is_pending waits leaves
    on_event-waits d s s' (message m now) sent go_on e =
        elim (Bool-cases (contains_key (id_of m) s.pending)) [
          | inl old ↦ ground arith
          | inr new ↦ elim (Option-cases (on_message name c s m now)) [
            | inl n ↦ absurd (ground arith)
            | inr ((s'', sent'), r) ↦ ground (arith, on_message-waits d s s'' m now sent' r new)
          ]
        ]
    on_event-waits d s s' (found header) sent go_on e =
        ground (arith, lookup-remove header.id d s.pending, ==_iff header.id d)
    on_event-waits d s s' canceled sent go_on e = ground arith
    on_event-waits d s s' (timer now) sent go_on e = ground arith

    turn-waits :
        (d : Digest) (s s' : HeaderWaiter) (round : Round) (event : WaiterEvent)
        (sent : List WaiterOutput)
        → turn name c gc_depth retry_delay retry_nodes s round event ≡ some (s', sent)
        → is_pending d s + waits d sent ≤ is_pending d s' + leaves d sent
    unfolding turn
    turn-waits d s s' round event sent e =
        elim (Option-cases (on_event name c retry_delay retry_nodes s event)) [
          | inl n ↦ absurd (ground arith)
          | inr ((s1, (sent1, false)), r) ↦
              ground (arith, on_event-waits d s s1 event sent1 false r)
          | inr ((s1, (sent1, true)), r) ↦
              let (s2, canceled_now) = collect_garbage gc_depth round s1 in
              ground (
                arith,
                on_event-waits d s s1 event sent1 true r,
                collect_garbage-waits gc_depth round d s1,
                waits-append d sent1 canceled_now,
                leaves-append d sent1 canceled_now,
              )
        ]

    turns-waits :
        (d : Digest) (s s' : HeaderWaiter) (events : List (Round × WaiterEvent))
        (sent : List WaiterOutput)
        → turns name c gc_depth retry_delay retry_nodes s events ≡ some (s', sent)
        → is_pending d s + waits d sent ≤ is_pending d s' + leaves d sent
    unfolding turns waits leaves
    turns-waits d s s' [] sent e = ground arith
    turns-waits d s s' ((round, event) ∷ events) sent e =
        elim (Option-cases (turn name c gc_depth retry_delay retry_nodes s round event)) [
          | inl n ↦ absurd (ground arith)
          | inr ((s1, sent1), r) ↦
              elim (Option-cases (turns name c gc_depth retry_delay retry_nodes s1 events)) [
                | inl n ↦ absurd (ground arith)
                | inr ((last, later), q) ↦ ground (
                  arith,
                  turn-waits d s s1 round event sent1 r,
                  turns-waits d s1 last events later q,
                  waits-append d sent1 later,
                  leaves-append d sent1 later,
                )
              ]
        ]

    -- From the start, a header is added to the waiting futures at most once more than it leaves them
    -- for the core or by a cancellation: it is synchronized once at a time.
    pub turns-wait_once :
        (d : Digest) (s : HeaderWaiter) (events : List (Round × WaiterEvent))
        (sent : List WaiterOutput)
        → turns name c gc_depth retry_delay retry_nodes new_waiter events ≡ some (s, sent)
        → waits d sent ≤ 1 + leaves d sent
    unfolding is_pending
    turns-wait_once d s events sent e = ground (arith, turns-waits d new_waiter s events sent e)
