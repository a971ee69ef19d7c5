-- ===== src/Worker/Synchronizer/Cleanup.antt =====
-- worker/src/synchronizer.rs: what a clean-up cancels and deletes.
use mathlib.Core.List.{Memᴰ}
use dag_bft_sigmod.Base.{
  ℕ, ◌-◌, ◌*◌, ◌≤◌, true, List, [], ◌∷◌, ◌++◌, ◌≡◌, ◌↔◌, ◌⊎◌, inl, inr, refl, ap, subst, arith, ltb,
  leb, nat_eq, map, Bool-cases, Memᴰ-cons,
}
use dag_bft_sigmod.Base.Maps.{Map, retain}
use dag_bft_sigmod.Primary.Errors.{Digest}
use dag_bft_sigmod.Worker.Synchronizer.{
  SynchronizerSetup, Synchronizer, PendingRequest, SynchronizerOutput, delete_batch, cancel_old,
  delete_old, gc_batches, on_cleanup,
}

-- The batch was committed in a round up to the one collected.
abbrev pub OldBatch : ℕ → Map ℕ (List Digest) → Digest → Type 0
OldBatch last committed d =
    (r : ℕ) × ((digests : List Digest) × Memᴰ (r, digests) committed × Memᴰ d digests × (r ≤ last))

mem_append : {A : Type 0} {x : A} (xs ys : List A) → Memᴰ x (xs ++ ys) → Memᴰ x xs ⊎ Memᴰ x ys
mem_append [] ys m = inr m
mem_append (y ∷ xs) ys m = elim (Memᴰ-cons m) [
  | inl e ↦ inl (Memᴰ.head e)
  | inr later ↦ elim (mem_append xs ys later) [ inl l ↦ inl (Memᴰ.tail l) | inr r ↦ inr r ]
]

append_left : {A : Type 0} {x : A} (xs ys : List A) → Memᴰ x xs → Memᴰ x (xs ++ ys)
append_left [] ys m = elim m [ ]
append_left (y ∷ xs) ys m = elim (Memᴰ-cons m) [
  | inl e ↦ Memᴰ.head e
  | inr later ↦ Memᴰ.tail (append_left xs ys later)
]

append_right : {A : Type 0} {x : A} (xs ys : List A) → Memᴰ x ys → Memᴰ x (xs ++ ys)
append_right [] ys m = m
append_right (y ∷ xs) ys m = Memᴰ.tail (append_right xs ys m)

deleted : SynchronizerOutput → Digest
deleted (delete_batch d) = d
deleted _ = 0

mem_map :
    (d : Digest) (digests : List Digest)
    → Memᴰ (delete_batch d) (map delete_batch digests)
    → Memᴰ d digests
unfolding deleted
mem_map d [] m = elim m [ ]
mem_map d (x ∷ digests) m = elim (Memᴰ-cons m) [
  | inl e ↦ Memᴰ.head (ap deleted e)
  | inr later ↦ Memᴰ.tail (mem_map d digests later)
]

map_mem :
    (d : Digest) (digests : List Digest)
    → Memᴰ d digests
    → Memᴰ (delete_batch d) (map delete_batch digests)
map_mem d [] m = elim m [ ]
map_mem d (x ∷ digests) m = elim (Memᴰ-cons m) [
  | inl e ↦ Memᴰ.head (ap delete_batch e)
  | inr later ↦ Memᴰ.tail (map_mem d digests later)
]

delete_old-OldBatch :
    (last : ℕ) (committed : Map ℕ (List Digest)) (d : Digest)
    → Memᴰ (delete_batch d) (delete_old last committed)
    → OldBatch last committed d
unfolding delete_old
delete_old-OldBatch last [] d m = elim m [ ]
delete_old-OldBatch last ((r, digests) ∷ committed) d m = elim (Bool-cases (leb r last)) [
  | inl e ↦
      elim (mem_append (map delete_batch digests) (delete_old last committed)
        (rw (delete_old, e) at m)) [
          | inl here ↦ (r, (digests, Memᴰ.head refl, mem_map d digests here, ground arith))
          | inr later ↦ there (delete_old-OldBatch last committed d later)
        ]
  | inr e ↦ there (delete_old-OldBatch last committed d (rw (delete_old, e) at m))
]
  where
    there : OldBatch last committed d → OldBatch last ((r, digests) ∷ committed) d
    there (r', (digests', at, x, le)) = (r', (digests', Memᴰ.tail at, x, le))

OldBatch-delete_old :
    (last r : ℕ) (digests : List Digest) (committed : Map ℕ (List Digest)) (d : Digest)
    → Memᴰ (r, digests) committed
    → Memᴰ d digests
    → r ≤ last
    → Memᴰ (delete_batch d) (delete_old last committed)
unfolding delete_old
OldBatch-delete_old last r digests [] d m x le = elim m [ ]
OldBatch-delete_old last r digests ((q, ds) ∷ committed) d m x le = elim (Memᴰ-cons m) [
  | inl e ↦
      let old : leb q last ≡ true =
        subst (λ i. leb i last ≡ true) (ap (λ p. p.0) e) (ground arith) in
      rw old (
        append_left (map delete_batch ds) (delete_old last committed)
          (map_mem d ds (subst (λ l. Memᴰ d l) (ap (λ p. p.1) e) x)))
  | inr later ↦
      let rest = OldBatch-delete_old last r digests committed d later x le in
      elim (Bool-cases (leb q last)) [
        | inl e ↦ rw e (append_right (map delete_batch ds) (delete_old last committed) rest)
        | inr e ↦ rw e rest
      ]
]

cancel_old_only :
    (last : ℕ) (pending : Map Digest PendingRequest) (d : Digest)
    → Memᴰ (delete_batch d) (cancel_old last pending)
    → ⊥
unfolding cancel_old
cancel_old_only last [] d m = elim m [ ]
cancel_old_only last ((x, request) ∷ pending) d m = elim (Bool-cases (leb request.round last)) [
  | inl e ↦ elim (Memᴰ-cons (rw (cancel_old, e) at m)) [
    | inl same ↦ absurd (cc)
    | inr later ↦ cancel_old_only last pending d later
  ]
  | inr e ↦ cancel_old_only last pending d (rw (cancel_old, e) at m)
]

abbrev LiesOld : SynchronizerSetup → Synchronizer → Digest → Type 0
LiesOld setup s d =
    (2 * setup.gc_depth ≤ s.round) × OldBatch (s.round - 2 * setup.gc_depth) s.committed_batches d

gc_batches_deletes :
    (setup : SynchronizerSetup) (s : Synchronizer) (d : Digest)
    → Memᴰ (delete_batch d) (gc_batches setup s).1
    → LiesOld setup s d
unfolding gc_batches
gc_batches_deletes setup s d m = elim (Bool-cases (leb (2 * setup.gc_depth) s.round)) [
  | inl e ↦ (
    ground arith,
    delete_old-OldBatch (s.round - 2 * setup.gc_depth) s.committed_batches d
        (rw (gc_batches, e) at m),
  )
  | inr e ↦ let nothing : Memᴰ (delete_batch d) [] = rw (gc_batches, e) at m in elim nothing [ ]
]

gc_batches_complete :
    (setup : SynchronizerSetup) (s : Synchronizer) (d : Digest)
    → LiesOld setup s d
    → Memᴰ (delete_batch d) (gc_batches setup s).1
unfolding gc_batches
gc_batches_complete setup s d (low, (r, (digests, at, x, le))) =
    let e : leb (2 * setup.gc_depth) s.round ≡ true = ground arith in
    rw e
      (OldBatch-delete_old (s.round - 2 * setup.gc_depth) r digests s.committed_batches d at x le)

-- The state of a clean-up when it comes to the batches.
abbrev without_old : SynchronizerSetup → ℕ → Synchronizer → Synchronizer
without_old setup round s = record s {
  round = round;
  pending = retain (λ digest request. ltb (round - setup.gc_depth) request.round) s.pending;
}

-- A clean-up deletes exactly the batches that were committed in a round that lies at least twice the
-- depth of the garbage collection below the new round, and none while the new round is below that.
pub on_cleanup-deletes_old :
    (setup : SynchronizerSetup) (round : ℕ) (s : Synchronizer) (d : Digest)
    → Memᴰ (delete_batch d) (on_cleanup setup round s).1
      ↔ ((2 * setup.gc_depth ≤ round) × OldBatch (round - 2 * setup.gc_depth) s.committed_batches d)
unfolding on_cleanup
on_cleanup-deletes_old setup round s d = elim (Bool-cases (ltb round setup.gc_depth)) [
  | inl early ↦ (
    λ m. let nothing : Memᴰ (delete_batch d) [] = rw (on_cleanup, early) at m in elim nothing [ ],
    λ h. absurd (ground arith),
  )
  | inr late ↦
      let cancelled = cancel_old (round - setup.gc_depth) s.pending in
      let out = (gc_batches setup (without_old setup round s)).1 in
      (
        λ m. elim (mem_append cancelled out (rw (on_cleanup, late) at m)) [
          | inl c ↦ elim (cancel_old_only (round - setup.gc_depth) s.pending d c) [ ]
          | inr g ↦ gc_batches_deletes setup (without_old setup round s) d g
        ],
        λ h. rw late (
            append_right cancelled out (gc_batches_complete setup (without_old setup round s) d h)),
      )
]
