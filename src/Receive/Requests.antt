-- ===== src/Receive/Requests.antt =====
-- A request for a missing message, from the process that sends it to the one that answers it.
use ece.Prelude.{ℕ, []}
use ece.Map.{IntSet}
use ece.Message.{Message, retransrequest, make}
use ece.Decimal.{print_int}
use ece.State.{GlobalState}
use ece.Mcast.{Run, set_externals, populate_acknowledgements, delivered_nodes}

-- The request for the message numbered i of a sender.
abbrev pub request_of : ℕ → ℕ → GlobalState → Message
request_of sender_id i g =
    make g.node.id i g.node.timestamp retransrequest (print_int sender_id)
      (populate_acknowledgements g []) g.node.failed_nodes

-- The nodes that are asked, and the state in which they are.
abbrev pub asked : ℕ → ℕ → Run → IntSet
asked sender_id n a = (delivered_nodes sender_id n a.state.external_nodes []).0

abbrev pub asking : ℕ → ℕ → Run → Run
asking sender_id n a = set_externals (delivered_nodes sender_id n a.state.external_nodes []).1 a
