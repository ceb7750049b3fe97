-- ===== src/Api/Broadcaster/Delivery.antt =====
-- Each client gets what is sent while it is connected.
use forge_sight.Prelude.{
  ◌≡◌, ◌≤◌, refl, ◌∙◌, ℕ, ◌+◌, ◌==◌, Bool, true, false, List, [], ◌∷◌, ◌++◌, Text, arith,
  if◌then◌else◌,
}
use forge_sight.Api.Broadcaster.{
  Broadcaster, Call, adds, removes, sends, add_connection, erase, remove_connection, deliver,
  broadcast, deliveries, initial,
}

-- The messages that client `i` gets.
pub received : ℕ → List (ℕ × Text) → List Text
received i [] = []
received i ((id, message) ∷ calls) =
    let rest = received i calls in if id == i then message ∷ rest else rest

-- What it should get: the messages sent while it is connected. The client that is added as number
-- `next` has that id.
unfoldable pub expected : ℕ → Bool → ℕ → List Call → List Text
expected i connected next [] = []
expected i connected next (adds ∷ calls) =
    expected i (if next == i then true else connected) (next + 1) calls
expected i connected next (removes id ∷ calls) =
    expected i (if id == i then false else connected) next calls
expected i connected next (sends message ∷ calls) =
    let rest = expected i connected next calls in if connected then message ∷ rest else rest

count : ℕ → List ℕ → ℕ
count i [] = 0
count i (c ∷ connections) = let n = count i connections in if c == i then n + 1 else n

-- Client `i` is there as often as the flag says, and not before its number comes.
record Tracks (i : ℕ) (connected : Bool) (b : Broadcaster) : Type 0 where
  there : count i b.connections ≡ (if connected then 1 else 0)
  fresh : b.next_id ≤ i → connected ≡ false

count-append :
    (i id : ℕ) (connections : List ℕ)
    → count i (connections ++ (id ∷ [])) ≡ count i connections + (if id == i then 1 else 0)
unfolding count
count-append i id [] = ground arith
count-append i id (c ∷ connections) = ground (arith, count-append i id connections)

count-erase :
    (i id : ℕ) (connections : List ℕ)
    → count i (erase id connections) ≡ (if id == i then 0 else count i connections)
unfolding count erase
count-erase i id [] = ground arith
count-erase i id (c ∷ connections) = ground (arith, count-erase i id connections)

received-append :
    (i : ℕ) (a b : List (ℕ × Text)) → received i (a ++ b) ≡ received i a ++ received i b
unfolding received
received-append i [] b = refl
received-append i ((id, message) ∷ a) b = ground (arith, received-append i a b)

received_none :
    (i : ℕ) (message : Text) (connections : List ℕ)
    → count i connections ≡ 0
    → received i (deliver message connections) ≡ []
unfolding received deliver count
received_none i message [] h = refl
received_none i message (c ∷ connections) h = ground (arith, received_none i message connections)

received_once :
    (i : ℕ) (message : Text) (connections : List ℕ)
    → count i connections ≡ 1
    → received i (deliver message connections) ≡ message ∷ []
unfolding received deliver count
received_once i message [] h = ground arith
received_once i message (c ∷ connections) h =
    ground (arith, received_once i message connections, received_none i message connections)

received-broadcast :
    (i : ℕ) (connected : Bool) (message : Text) (b : Broadcaster)
    → Tracks i connected b
    → received i (broadcast message b) ≡ (if connected then message ∷ [] else [])
unfolding broadcast
received-broadcast i true message b t = received_once i message b.connections t.there
received-broadcast i false message b t = received_none i message b.connections t.there

add_connection-Tracks :
    (i : ℕ) (connected : Bool) (b : Broadcaster)
    → Tracks i connected b
    → Tracks i (if b.next_id == i then true else connected) (add_connection b).1
unfolding add_connection
add_connection-Tracks i connected b t = record {
  there = ground (arith, count-append i b.next_id b.connections, t.there, t.fresh);
  fresh = λ h. ground (arith, t.fresh);
}

remove_connection-Tracks :
    (i id : ℕ) (connected : Bool) (b : Broadcaster)
    → Tracks i connected b
    → Tracks i (if id == i then false else connected) (remove_connection id b)
unfolding remove_connection
remove_connection-Tracks i id connected b t = record {
  there = ground (arith, count-erase i id b.connections, t.there);
  fresh = λ h. ground (arith, t.fresh h);
}

deliveries-expected :
    (calls : List Call) (i : ℕ) (connected : Bool) (b : Broadcaster)
    → Tracks i connected b
    → received i (deliveries calls b) ≡ expected i connected b.next_id calls
unfolding deliveries expected
deliveries-expected [] i connected b t = unfold received in refl
deliveries-expected (adds ∷ calls) i connected b t =
    deliveries-expected calls i _ (add_connection b).1 (add_connection-Tracks i connected b t)
deliveries-expected (removes id ∷ calls) i connected b t =
    deliveries-expected calls i _ (remove_connection id b)
      (remove_connection-Tracks i id connected b t)
deliveries-expected (sends message ∷ calls) i true b t =
    received-append i (broadcast message b) (deliveries calls b)
    ∙ rw (received-broadcast i true message b t, deliveries-expected calls i true b t)
deliveries-expected (sends message ∷ calls) i false b t =
    received-append i (broadcast message b) (deliveries calls b)
    ∙ rw (received-broadcast i false message b t, deliveries-expected calls i false b t)

-- Over any calls of a new broadcaster every client gets exactly the messages that are sent while it is
-- connected, each once and in order.
pub received-deliveries :
    (i : ℕ) (calls : List Call) → received i (deliveries calls initial) ≡ expected i false 0 calls
received-deliveries i calls =
    deliveries-expected calls i false initial
      (record { there = unfold count in refl; fresh = λ h. refl })
