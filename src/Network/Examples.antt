-- ===== src/Network/Examples.antt =====
-- A connection whose stream breaks before the acknowledgement, and the theorem of `Network` at it.
use dag_bft_sigmod.Base.{◌+◌, ◌≡◌, refl, true, false, List, [], ◌∷◌}
use dag_bft_sigmod.Network.{
  Message, new_connection, Outside, ConnectionEvent, established, message, response, failure,
  connection_turns,
}
use dag_bft_sigmod.Network.Kept.{outstanding, incoming, with_handler, connection_turns-keeps}

abbrev fine : Outside
fine = record { is_closed = λ h. false; is_sent = λ m. true }

abbrev hello : Message
hello = record { bytes = 1 ∷ []; cancel_handler = 7 }

abbrev broken_once : List (Outside × ConnectionEvent)
broken_once =
    (fine, message hello)
    ∷ (fine, established)
    ∷ (fine, failure)
    ∷ (fine, established)
    ∷ (fine, response)
    ∷ []

connection_turns-keeps_example :
    outstanding 7 (connection_turns new_connection broken_once).0
      + with_handler 7 (connection_turns new_connection broken_once).1
    ≡ outstanding 7 new_connection + incoming 7 broken_once
connection_turns-keeps_example =
    connection_turns-keeps 7 new_connection broken_once (refl, (refl, (refl, (refl, (refl, tt)))))
