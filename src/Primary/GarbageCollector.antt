-- ===== src/Primary/GarbageCollector.antt =====
-- primary/src/garbage_collector.rs: the round of the consensus, and the clean-up of the workers.
use dag_bft_sigmod.Base.{
  suc, ◌≤◌, ◌≡◌, refl, arith, List, [], ◌∷◌, ◌++◌, if◌then◌else◌, ltb, max, Bool-cases, inl, inr,
}
use dag_bft_sigmod.Primary.Errors.{Round}
use dag_bft_sigmod.Primary.Messages.{Certificate, round_of}

-- The round that the tasks of the primary read, and the loop's own copy.
pub record GarbageCollector : Type 0 where
  pub consensus_round : Round
  pub last_committed_round : Round

unfoldable pub new_garbage_collector : GarbageCollector
new_garbage_collector = record { consensus_round = 0; last_committed_round = 0 }

-- A certificate of the consensus. The rounds returned are the clean-ups that the workers get.
unfoldable pub on_feedback : GarbageCollector → Certificate → GarbageCollector × List Round
on_feedback g x =
    if ltb g.last_committed_round (round_of x)
    then (
      record { consensus_round = round_of x; last_committed_round = round_of x },
      round_of x ∷ [],
    )
    else (g, [])

unfoldable pub collect : GarbageCollector → List Certificate → GarbageCollector × List Round
unfolding on_feedback
collect g [] = (g, [])
collect g (x ∷ xs) =
    let (g', sent) = on_feedback g x in let (last, later) = collect g' xs in (last, sent ++ later)

-- The largest of the number and the rounds of the certificates.
unfoldable pub largest_round : Round → List Certificate → Round
largest_round r [] = r
largest_round r (x ∷ xs) = largest_round (max r (round_of x)) xs

-- The rounds ascend strictly, from above the bound.
abbrev pub AscendFrom : Round → List Round → Type 0
AscendFrom bound [] = Unit
AscendFrom bound (r ∷ rs) = (suc bound ≤ r) × AscendFrom r rs

-- The last round of the list, or the given one.
unfoldable pub last_round : Round → List Round → Round
last_round r [] = r
last_round r (q ∷ rs) = last_round q rs

collect_from :
    (g : GarbageCollector) (xs : List Certificate)
    → g.consensus_round ≡ g.last_committed_round
    → ((collect g xs).0.consensus_round ≡ largest_round g.consensus_round xs)
      × AscendFrom g.consensus_round (collect g xs).1
      × ((collect g xs).0.consensus_round ≡ last_round g.consensus_round (collect g xs).1)
unfolding collect on_feedback largest_round last_round
collect_from g [] same = (refl, tt, refl)
collect_from g (x ∷ xs) same = elim (Bool-cases (ltb g.last_committed_round (round_of x))) [
  | inl later ↦
      let g' : GarbageCollector = record {
        consensus_round = round_of x;
        last_committed_round = round_of x;
      } in
      let (top, ascending, final) = collect_from g' xs refl in
      let raised : max g.consensus_round (round_of x) ≡ round_of x = ground arith in
      rw later (rw raised (top, (ground arith, ascending), final))
  | inr earlier ↦
      let (top, ascending, final) = collect_from g xs same in
      let kept : max g.consensus_round (round_of x) ≡ g.consensus_round = ground arith in
      rw earlier (rw kept (top, ascending, final))
]

-- The round that the tasks read is the largest of the committed rounds; the workers' clean-ups have
-- strictly ascending rounds, of which the last is that round.
pub collect-largest_round :
    (xs : List Certificate)
    → ((collect new_garbage_collector xs).0.consensus_round ≡ largest_round 0 xs)
      × AscendFrom 0 (collect new_garbage_collector xs).1
      × ((collect new_garbage_collector xs).0.consensus_round
          ≡ last_round 0 (collect new_garbage_collector xs).1)
unfolding new_garbage_collector
collect-largest_round xs = collect_from new_garbage_collector xs refl
