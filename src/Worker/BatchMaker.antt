-- ===== src/Worker/BatchMaker.antt =====
-- worker/src/batch_maker.rs: client transactions become batches. The hand-over of a batch to the
-- network and to the quorum waiter is the list of sealed batches.
use dag_bft_sigmod.Base.{
  ℕ, ◌+◌, not, List, [], ◌∷◌, ◌++◌, ◌≡◌, refl, arith, if◌then◌else◌, leb, length, u64, is_empty,
}

abbrev pub Transaction : Type 0
Transaction = List ℕ

abbrev pub Batch : Type 0
Batch = List Transaction

pub record BatchMaker : Type 0 where
  pub current_batch : List Transaction
  pub current_batch_size : ℕ

unfoldable pub new_batch_maker : BatchMaker
new_batch_maker = record { current_batch = []; current_batch_size = 0 }

pub data BatchEvent : Type 0 where
  transaction : Transaction → BatchEvent
  timer : BatchEvent

unfoldable pub seal : BatchMaker → BatchMaker × Batch
seal s = (record { current_batch = []; current_batch_size = 0 }, s.current_batch)

module _ (batch_size : ℕ) where
  unfoldable pub on_batch_event : BatchMaker → BatchEvent → BatchMaker × List Batch
  unfolding seal
  on_batch_event s (transaction tx) =
      let s' : BatchMaker = record {
        current_batch = s.current_batch ++ tx ∷ [];
        current_batch_size = u64 (s.current_batch_size + length tx);
      } in
      if leb batch_size s'.current_batch_size
      then (let (s'', batch) = seal s' in (s'', batch ∷ []))
      else (s', [])
  on_batch_event s timer =
      if not (is_empty s.current_batch)
      then (let (s'', batch) = seal s in (s'', batch ∷ []))
      else (s, [])

  unfoldable pub make_batches : BatchMaker → List BatchEvent → BatchMaker × List Batch
  unfolding on_batch_event
  make_batches s [] = (s, [])
  make_batches s (event ∷ events) =
      let (s', batches) = on_batch_event s event in
      let (last, later) = make_batches s' events in (last, batches ++ later)

-- The transactions that arrive.
unfoldable pub arrivals : List BatchEvent → List Transaction
arrivals [] = []
arrivals (transaction tx ∷ events) = tx ∷ arrivals events
arrivals (timer ∷ events) = arrivals events

-- The transactions of the batches, in order.
unfoldable pub contents : List Batch → List Transaction
contents [] = []
contents (batch ∷ batches) = batch ++ contents batches

append_assoc : (xs ys zs : List Transaction) → (xs ++ ys) ++ zs ≡ xs ++ (ys ++ zs)
append_assoc [] ys zs = refl
append_assoc (x ∷ xs) ys zs = ground (arith, append_assoc xs ys zs)

append_nil : (xs : List Transaction) → xs ++ [] ≡ xs
append_nil [] = refl
append_nil (x ∷ xs) = ground (arith, append_nil xs)

contents-append : (xs ys : List Batch) → contents (xs ++ ys) ≡ contents xs ++ contents ys
unfolding contents
contents-append [] ys = refl
contents-append (x ∷ xs) ys =
    ground (arith, contents-append xs ys, append_assoc x (contents xs) (contents ys))

module _ (batch_size : ℕ) where
  -- The sealed batches, followed by the current one, hold exactly the transactions that arrived, in
  -- their order.
  pub make_batches-keeps_order :
      (s : BatchMaker) (events : List BatchEvent)
      → contents (make_batches batch_size s events).1
          ++ (make_batches batch_size s events).0.current_batch
        ≡ s.current_batch ++ arrivals events
  unfolding make_batches on_batch_event seal contents arrivals
  make_batches-keeps_order s [] = ground (arith, append_nil s.current_batch)
  make_batches-keeps_order s (transaction tx ∷ events) =
      let (s', batches) = on_batch_event batch_size s (transaction tx) in
      let (last, later) = make_batches batch_size s' events in
      ground (
        arith,
        make_batches-keeps_order s' events,
        contents-append batches later,
        append_assoc (contents batches) (contents later) last.current_batch,
        append_assoc s.current_batch (tx ∷ []) (arrivals events),
        append_nil s.current_batch,
        append_nil (s.current_batch ++ (tx ∷ [])),
      )
  make_batches-keeps_order s (timer ∷ events) =
      let (s', batches) = on_batch_event batch_size s timer in
      let (last, later) = make_batches batch_size s' events in
      ground (
        arith,
        make_batches-keeps_order s' events,
        contents-append batches later,
        append_assoc (contents batches) (contents later) last.current_batch,
        append_assoc s.current_batch ([]) (arrivals events),
        append_nil s.current_batch,
        append_nil (s.current_batch ++ ([])),
      )
