-- ===== src/Primary/HeaderWaiter/Cancelled.antt =====
-- primary/src/header_waiter.rs: what the clean-up does to the waits for batches.
use dag_bft_sigmod.Base.{
  ℕ, ◌-◌, ◌<◌, Bool, true, false, not, ◌&&◌, ◌||◌, some, List, [], ◌∷◌, ◌≡◌, refl, arith, ltb,
  nat_eq, Option-cases, inl, inr, Bool-cases,
}
use dag_bft_sigmod.Base.Maps.{Map, insert, remove, retain, contains_key}
use dag_bft_sigmod.Config.{PublicKey, Committee}
use dag_bft_sigmod.Primary.Errors.{Digest, Round}
use dag_bft_sigmod.Primary.HeaderWaiter.{
  HeaderWaiter, new_waiter, WaiterMessage, sync_batches, sync_parents, WaiterOutput, WaiterEvent,
  message, found, canceled, timer, on_message, collect_garbage, on_event, turn, turns, id_of,
}

-- No entry is flagged as a batch sync.
unfoldable pub unflagged : Map Digest (Round × Bool) → Bool
unflagged [] = true
unflagged ((d, (r, flag)) ∷ m) = not flag && unflagged m

-- All entries are above the round.
unfoldable pub all_above : Round → Map Digest (Round × Bool) → Bool
all_above g [] = true
all_above g ((d, (r, flag)) ∷ m) = ltb g r && all_above g m

unflagged-insert :
    (d : Digest) (r : Round) (m : Map Digest (Round × Bool))
    → unflagged m ≡ true
    → unflagged (insert d (r, false) m) ≡ true
unfolding unflagged insert
unflagged-insert d r [] h = refl
unflagged-insert d r ((k, (q, flag)) ∷ m) h = ground (arith, unflagged-insert d r m)

unflagged-remove :
    (d : Digest) (m : Map Digest (Round × Bool))
    → unflagged m ≡ true
    → unflagged (remove d m) ≡ true
unfolding unflagged remove
unflagged-remove d [] h = refl
unflagged-remove d ((k, (q, flag)) ∷ m) h = ground (arith, unflagged-remove d m)

unflagged-retain :
    (g : Round) (m : Map Digest (Round × Bool))
    → unflagged m ≡ true
    → unflagged (retain (λ _ x. ltb g x.0 || x.1) m) ≡ true
unfolding unflagged retain
unflagged-retain g [] h = refl
unflagged-retain g ((k, (q, flag)) ∷ m) h = ground (arith, unflagged-retain g m)

all_above-retain :
    (g : Round) (m : Map Digest (Round × Bool))
    → unflagged m ≡ true
    → all_above g (retain (λ _ x. ltb g x.0 || x.1) m) ≡ true
unfolding unflagged retain all_above
all_above-retain g [] h = refl
all_above-retain g ((k, (q, flag)) ∷ m) h = ground (arith, all_above-retain g m)

module _ (name : PublicKey) (c : Committee) where
  on_message-unflagged :
      (s s' : HeaderWaiter) (m : WaiterMessage) (now : ℕ) (sent : List WaiterOutput)
      → on_message name c s m now ≡ some (s', sent)
      → unflagged s.pending ≡ true
      → unflagged s'.pending ≡ true
  unfolding on_message
  on_message-unflagged s s' (sync_batches missing header) now sent e h =
      ground (arith, unflagged-insert header.id header.round s.pending)
  on_message-unflagged s s' (sync_parents missing header) now sent e h =
      ground (arith, unflagged-insert header.id header.round s.pending)

  module _ (gc_depth retry_delay retry_nodes : ℕ) where
    turn-unflagged :
        (s s' : HeaderWaiter) (round : Round) (event : WaiterEvent) (sent : List WaiterOutput)
        → turn name c gc_depth retry_delay retry_nodes s round event ≡ some (s', sent)
        → unflagged s.pending ≡ true
        → unflagged s'.pending ≡ true
    unfolding turn on_event collect_garbage
    turn-unflagged s s' round (message m now) sent e h =
        elim (Bool-cases (contains_key (id_of m) s.pending)) [
          | inl old ↦ ground arith
          | inr new ↦ elim (Option-cases (on_message name c s m now)) [
            | inl n ↦ absurd (ground arith)
            | inr ((s1, sent1), r) ↦ ground (
              arith,
              on_message-unflagged s s1 m now sent1 r h,
              unflagged-retain (round - gc_depth) s1.pending,
            )
          ]
        ]
    turn-unflagged s s' round (found header) sent e h = ground (
      arith,
      unflagged-remove header.id s.pending h,
      unflagged-retain (round - gc_depth) (remove header.id s.pending),
    )
    turn-unflagged s s' round canceled sent e h =
        ground (arith, unflagged-retain (round - gc_depth) s.pending)
    turn-unflagged s s' round (timer now) sent e h =
        ground (arith, unflagged-retain (round - gc_depth) s.pending)

    turns-unflagged :
        (s s' : HeaderWaiter) (events : List (Round × WaiterEvent)) (sent : List WaiterOutput)
        → turns name c gc_depth retry_delay retry_nodes s events ≡ some (s', sent)
        → unflagged s.pending ≡ true
        → unflagged s'.pending ≡ true
    unfolding turns
    turns-unflagged s s' [] sent e h = ground arith
    turns-unflagged s s' ((round, event) ∷ events) sent e h =
        elim (Option-cases (turn name c gc_depth retry_delay retry_nodes s round event)) [
          | inl n ↦ absurd (ground arith)
          | inr ((s1, sent1), r) ↦
              elim (Option-cases (turns name c gc_depth retry_delay retry_nodes s1 events)) [
                | inl n ↦ absurd (ground arith)
                | inr ((last, later), q) ↦ ground (
                  arith,
                  turn-unflagged s s1 round event sent1 r h,
                  turns-unflagged s1 last events later q,
                )
              ]
        ]

    -- Whatever has happened, a clean-up at a round above the depth leaves only headers above the
    -- round less the depth: the waits for batches are dropped like the waits for parents.
    pub collect_garbage-drops_all :
        (s : HeaderWaiter) (events : List (Round × WaiterEvent)) (sent : List WaiterOutput)
        (round : Round)
        → turns name c gc_depth retry_delay retry_nodes new_waiter events ≡ some (s, sent)
        → gc_depth < round
        → all_above (round - gc_depth) (collect_garbage gc_depth round s).0.pending ≡ true
    unfolding collect_garbage new_waiter unflagged
    collect_garbage-drops_all s events sent round e h = ground (
      arith,
      all_above-retain (round - gc_depth) s.pending,
      turns-unflagged new_waiter s events sent e refl,
    )
