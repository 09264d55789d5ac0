-- ===== src/Movies/Producer.antt =====
-- `KafkaProducer.send` of hm5/producer/app/producer.py.
use service_oriented_archite.Base.{ℕ, zero, suc, ◌+◌, ◌*◌, Bool, true, false, if◌then◌else◌}

-- What one call of `produce` comes to: it takes the message, its buffer is full, or it fails.
pub data Attempt : Type 0 where
  accepted buffer_full failed : Attempt

-- How `send` ends: the message is taken, an exception leaves it, or it returns without either.
pub data Sending : Type 0 where
  sent raised dropped : Sending

-- How it ends, and the milliseconds that it has slept.
pub record Sent : Type 0 where
  pub how : Sending
  pub slept : ℕ

abbrev pub max_retries : ℕ
max_retries = 3

-- `0.5 * (2 ** attempt)` seconds
abbrev pub backoff : ℕ → ℕ
backoff zero = 500
backoff (suc attempt) = 2 * backoff attempt

abbrev pub after_sleep : ℕ → Sent → Sent
after_sleep attempt r = record r { slept = backoff attempt + r.slept }

-- `attempt == max_retries - 1`, by the attempts that are left after it.
abbrev pub is_last : ℕ → Bool
is_last zero = true
is_last (suc _) = false

-- The loop from `attempt` on, with `left` attempts to go.
unfoldable pub send_from : (ℕ → Attempt) → ℕ → ℕ → Sent
send_from produce attempt zero = record { how = dropped; slept = 0 }
send_from produce attempt (suc left) =
    let rest : Sent = send_from produce (suc attempt) left in
    elim (produce attempt) [
      | accepted ↦ record { how = sent; slept = 0 }
      | buffer_full ↦ after_sleep attempt rest
      | failed ↦
          if is_last left then record { how = raised; slept = 0 } else after_sleep attempt rest
    ]

unfoldable pub send : (ℕ → Attempt) → Sent
unfolding send_from
send produce = send_from produce 0 max_retries
