-- ===== src/Utils/Consumer.antt =====
-- utils/consumer.go: the connection attempts of a consumer and its loop. The broker is the outcome
-- of each call. `closed` counts the calls of Close on connections that are open.
pub mod Connections
mod Examples
use zhiya.Prelude.{ℕ, zero, suc, ◌+◌, ◌-◌, Bool, true, false, List, [], ◌∷◌, ◌++◌, if◌then◌else◌}

-- How far an attempt comes. Dial may fail with a connection to close or without one, and the last
-- case has the deliveries until the connection ends.
pub data Attempt (Msg : Type 0) : Type 0 where
  dial_fails : Bool → Attempt Msg
  channel_fails : Attempt Msg
  qos_fails : Attempt Msg
  consume_fails : Attempt Msg
  consumes : List Msg → Attempt Msg

-- The connections that are open, and the messages that `handle` was started for.
pub record Broker (Msg : Type 0) : Type 0 where
  pub open_connections : ℕ
  pub handled : List Msg

pub data Linked (Msg : Type 0) : Type 0 where
  error : Linked Msg
  deliveries : List Msg → Linked Msg

module _ {Msg : Type 0} where
  unfoldable pub dial : Broker Msg → Broker Msg
  dial s = record s { open_connections = s.open_connections + 1 }

  unfoldable pub close : Broker Msg → Broker Msg
  close s = record s { open_connections = s.open_connections - 1 }

  unfoldable pub link : Attempt Msg → Broker Msg → Broker Msg × Linked Msg
  link (dial_fails open') s = ((if open' then close (dial s) else s), error)
  link channel_fails s = (close (dial s), error)
  link qos_fails s = (close (dial s), error)
  link consume_fails s = (close (dial s), error)
  link (consumes msgs) s = (dial s, deliveries msgs)

  -- `for msg := range deliveries { go handle(msg) }`.
  unfoldable pub handle_all : List Msg → Broker Msg → Broker Msg
  handle_all [] s = s
  handle_all (msg ∷ msgs) s = handle_all msgs (record s { handled = s.handled ++ msg ∷ [] })

  -- The rest of a round after `link`.
  unfoldable pub consume_round : Broker Msg × Linked Msg → Broker Msg
  consume_round (s, error) = s
  consume_round (s, deliveries msgs) = close (handle_all msgs s)

  -- The rounds of Consumer's endless loop.
  unfoldable pub consumer : List (Attempt Msg) → Broker Msg → Broker Msg
  consumer [] s = s
  consumer (a ∷ rounds) s = consumer rounds (consume_round (link a s))
