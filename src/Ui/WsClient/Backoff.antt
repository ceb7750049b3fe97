-- ===== src/Ui/WsClient/Backoff.antt =====
-- The delays between attempts to reconnect.
use forge_sight.Prelude.{
  ◌≡◌, ◌≤◌, ap, ◌∙◌, ℕ, zero, suc, ◌+◌, ◌*◌, ◌^◌, Bool, true, false, Option, none, some, List, [],
  ◌∷◌, Text, ℤ, pos, arith,
}
use forge_sight.Ui.WsClient.{
  Client, Event, timeout, unconnected, fails, disconnects, min, capped, reconnect_delay_ms,
  schedule, try_reconnect, on_disconnected, step, run,
}

power_pos : (n : ℕ) → 1 ≤ 2 ^ n
power_pos zero = omega arith
power_pos (suc n) = omega (arith, power_pos n)

power_four : (n : ℕ) → 4 * n ≤ 2 ^ n + 5
power_four zero = omega arith
power_four (suc zero) = omega arith
power_four (suc (suc n)) = omega (arith, power_four (suc n), power_pos n)

-- Attempt n waits for 1000 * 2^n milliseconds, and for 30000 where that is more.
pub reconnect_delay_ms_lem : (n : ℕ) → reconnect_delay_ms (pos n) ≡ min (1000 * 2 ^ n) 30000
unfolding reconnect_delay_ms capped
reconnect_delay_ms_lem n = ground (arith, power_four n, power_four 15)

-- The delay is at least a second and at most 30 seconds, for a negative attempt too.
pub reconnect_delay_ms_bounds :
    (attempt : ℤ) → (1000 ≤ reconnect_delay_ms attempt) × (reconnect_delay_ms attempt ≤ 30000)
unfolding reconnect_delay_ms capped
reconnect_delay_ms_bounds attempt = ground (arith, power_pos (capped attempt))

-- A client with an URL that is set to reconnect, and its connection.
abbrev pub online : ℕ → Text → Text → Bool → Client
online ch rest key insecure = record {
  url = ch ∷ rest;
  api_key = key;
  timer = none;
  connected = true;
  auto_reconnect = true;
  manual_disconnect = false;
  allow_insecure_tls = insecure;
  reconnect_attempt = 0;
}

-- The same client after `k + 1` disconnects in a row.
abbrev waiting : ℕ → Text → Text → Bool → ℕ → Client
waiting ch rest key insecure k = record (online ch rest key insecure) {
  connected = false;
  timer = some (reconnect_delay_ms (pos k));
  reconnect_attempt = k + 1;
}

-- `n` times the timer runs out, the socket fails and disconnects.
abbrev pub retries : ℕ → Text → List Event
retries zero error = []
retries (suc n) error = timeout unconnected ∷ fails error ∷ disconnects ∷ retries n error

module _ (with_key : Text → Text → Text) (fields : Text → Option (Text → Bool)) where
  run-retries :
      (ch : ℕ) (rest key : Text) (insecure : Bool) (error : Text) (n k : ℕ)
      → (run with_key fields (retries n error) (waiting ch rest key insecure k)).0
        ≡ waiting ch rest key insecure (n + k)
  unfolding run step try_reconnect on_disconnected schedule
  run-retries ch rest key insecure error zero k = ap (waiting ch rest key insecure) (omega arith)
  run-retries ch rest key insecure error (suc n) k =
      run-retries ch rest key insecure error n (k + 1)
      ∙ ap (waiting ch rest key insecure) (omega arith)

  -- A connected client that loses its connection and then fails `n` times to get it back waits for
  -- 1000 * 2^n milliseconds, and for 30000 where that is more, before it tries again; each failure
  -- made it wait.
  pub run_backoff :
      (ch : ℕ) (rest key : Text) (insecure : Bool) (error : Text) (n : ℕ)
      → (run with_key fields (disconnects ∷ retries n error) (online ch rest key insecure)).0.timer
        ≡ some (min (1000 * 2 ^ n) 30000)
  unfolding run step on_disconnected schedule
  run_backoff ch rest key insecure error n =
      ap (λ c. c.timer) (run-retries ch rest key insecure error n 0)
      ∙ ap (λ k. some (reconnect_delay_ms (pos k))) (omega arith)
      ∙ ap some (reconnect_delay_ms_lem n)
