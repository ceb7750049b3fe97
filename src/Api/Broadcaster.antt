-- ===== src/Api/Broadcaster.antt =====
-- api/include/api/ws_broadcaster.h and api/src/ws_broadcaster.cpp. The map of connections is the list
-- of their ids; a broadcast returns the calls of the send functions, an id and the message each.
pub mod Delivery
use forge_sight.Prelude.{ℕ, ◌+◌, ◌==◌, List, [], ◌∷◌, ◌++◌, map, length, Text, if◌then◌else◌}

pub record Broadcaster : Type 0 where
  pub connections : List ℕ
  pub next_id : ℕ

pub data Call : Type 0 where
  adds : Call
  removes : ℕ → Call
  sends : Text → Call

unfoldable pub add_connection : Broadcaster → ℕ × Broadcaster
add_connection b =
    (b.next_id, record { connections = b.connections ++ (b.next_id ∷ []); next_id = b.next_id + 1 })

erase : ℕ → List ℕ → List ℕ
erase id [] = []
erase id (c ∷ connections) = let rest = erase id connections in if c == id then rest else c ∷ rest

pub remove_connection : ℕ → Broadcaster → Broadcaster
unfolding erase
remove_connection id b = record b { connections = erase id b.connections }

deliver : Text → List ℕ → List (ℕ × Text)
deliver message [] = []
deliver message (id ∷ connections) = (id, message) ∷ deliver message connections

pub broadcast : Text → Broadcaster → List (ℕ × Text)
unfolding deliver
broadcast message b = deliver message b.connections

-- The calls that the server makes, one after the other: what is sent.
pub deliveries : List Call → Broadcaster → List (ℕ × Text)
unfolding add_connection remove_connection broadcast
deliveries [] b = []
deliveries (adds ∷ calls) b = deliveries calls (add_connection b).1
deliveries (removes id ∷ calls) b = deliveries calls (remove_connection id b)
deliveries (sends message ∷ calls) b = broadcast message b ++ deliveries calls b

abbrev pub initial : Broadcaster
initial = record { connections = []; next_id = 0 }
