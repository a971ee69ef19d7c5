-- ===== src/Primary/Core/Examples.antt =====
-- A core of the committee of four that receives a header twice, and the theorems at it.
use dag_bft_sigmod.Base.{
  contains, ◌≤◌, ◌≡◌, refl, true, false, some, bytes_beq, List, [], ◌∷◌, map, none, arith, bytes_eq,
  bytes_beq_iff, nat_eq,
}
use dag_bft_sigmod.Base.Maps.{Map, lookup, insert, upsert, lookup-insert}
use dag_bft_sigmod.Config.{stake, quorum_threshold, primary}
use dag_bft_sigmod.Config.Examples.{four}
use dag_bft_sigmod.Primary.Synchronizer.{get_parents, missing_payload}
use dag_bft_sigmod.Primary.Core.Admission.{
  admit, admitted, check_counts, expected_counts, add_counts, same_map,
}
use dag_bft_sigmod.Primary.Core.Quorum.{IsSound, admit-IsSound}
use dag_bft_sigmod.Store.{Key, Value}
use dag_bft_sigmod.Primary.Errors.{Round, ok}
use dag_bft_sigmod.Primary.Messages.{
  be_bytes, le_bytes, Header, Certificate, header_digest, certificate_digest, genesis,
}
use dag_bft_sigmod.Primary.Examples.{toy_crypto}
use dag_bft_sigmod.Primary.Node.{payload_key, Node, PrimaryMessage, Backend, Codec}
use dag_bft_sigmod.Primary.Core.{new_core}
use dag_bft_sigmod.Primary.Core.Steps.{Event, receive, looped_header, handle, run}
use dag_bft_sigmod.Primary.Core.Fuel.{Ends, handle-Ends}
use dag_bft_sigmod.Primary.Core.Votes.{votes_for}
use dag_bft_sigmod.Primary.Core.Voting.{votes_once}
use dag_bft_sigmod.Primary.Core.Ancestors.{holds, Durable, Extends, have_ancestors}
use dag_bft_sigmod.Primary.Core.Delivery.{handle-Delivers}

abbrev memory : Backend (Map Key Value)
memory = record { read = λ m k. ok (lookup k m); write = λ m k v. insert k v m }

abbrev toy_codec : Codec
toy_codec = record {
  serialize_header = λ h. h.id ∷ [];
  serialize_certificate = λ x. x.header.id ∷ [];
  deserialize_certificate = λ v. none;
  deserialize_counts = λ v. none;
}

abbrev first_node : Node (Map Key Value)
first_node = record {
  name = 1;
  committee = four;
  gc_depth = 50;
  baseline_mode = true;
  crypto = toy_crypto;
  sign = λ digest. digest;
  codec = toy_codec;
  backend = memory;
}

unfoldable draft : Header
unfolding genesis certificate_digest
draft = record {
  author = 2;
  round = 1;
  payload = [];
  parents = map (certificate_digest toy_crypto) (genesis four);
  account_counts = [];
  avg_queue_delay_ms = 0;
  created_at = 0;
  id = 0;
  signature = 0;
}

unfoldable second_header : Header
unfolding draft header_digest
second_header = let id = header_digest toy_crypto draft in record draft { id = id; signature = id }

abbrev twice : List (Round × Event)
twice = (0, receive (PrimaryMessage.header second_header)) ∷ (0, looped_header second_header) ∷ []

sends_one_vote : votes_for 1 2 (run first_node (new_core []) twice).1 ≡ 1
unfolding votes_for run new_core second_header stake admit get_parents quorum_threshold
    missing_payload primary
sends_one_vote = refl

votes_once_example : votes_for 1 2 (run first_node (new_core []) twice).1 ≤ 1
votes_once_example = votes_once first_node 1 2 (new_core []) twice (omega arith)

handle-Ends_example : Ends (handle first_node (new_core []) (looped_header second_header))
handle-Ends_example = handle-Ends first_node (new_core []) (looped_header second_header)

memory-Durable : Durable first_node
unfolding holds
memory-Durable m k j v =
    rw (holds, lookup-insert k k v m)
      (rw (holds, lookup-insert k j v m) (ground (arith, bytes_beq_iff k k, bytes_beq_iff k j)))

handle-Delivers_example :
    Extends first_node [] (handle first_node (new_core []) (looped_header second_header)).0.store
    × (have_ancestors first_node
          (handle first_node (new_core []) (looped_header second_header)).0.store
          (handle first_node (new_core []) (looped_header second_header)).1.0
        ≡ true)
unfolding new_core
handle-Delivers_example =
    handle-Delivers first_node memory-Durable (new_core []) (looped_header second_header)

-- A node that checks the counts, and a header with two batches.
abbrev counting_node : Node (Map Key Value)
counting_node = record first_node {
  baseline_mode = false;
  codec = record toy_codec { deserialize_counts = λ v. some ((7, 2) ∷ (8, 1) ∷ []) };
}

abbrev batches_of_two : Map Key Value
batches_of_two = (payload_key 5 0, 9 ∷ []) ∷ (payload_key 6 1, 9 ∷ []) ∷ []

unfoldable counted_header : Header
unfolding draft
counted_header = record draft {
  payload = (5, 0) ∷ (6, 1) ∷ [];
  account_counts = (7, 4) ∷ (8, 2) ∷ [];
}

counted_header-admitted : admit counting_node batches_of_two counted_header ≡ admitted
unfolding admit counted_header stake get_parents quorum_threshold missing_payload check_counts
    expected_counts add_counts same_map be_bytes le_bytes bytes_beq lookup insert upsert
counted_header-admitted = refl

admit-IsSound_example :
    (parents : List Certificate) × IsSound counting_node batches_of_two counted_header parents
unfolding counted_header contains
admit-IsSound_example =
    admit-IsSound counting_node batches_of_two counted_header (refl, (refl, tt))
      counted_header-admitted
