-- ===== src/Utils/Consumer/Examples.antt =====
-- utils/consumer.go: the theorem at concrete rounds.
use zhiya.Prelude.{ℕ, ◌≡◌, true, List, [], ◌∷◌}
use zhiya.Utils.Consumer.{Attempt, dial_fails, qos_fails, consumes, consumer}
use zhiya.Utils.Consumer.Connections.{received, delivered, consumer_lem}

abbrev rounds : List (Attempt ℕ)
rounds = dial_fails true ∷ consumes (1 ∷ 2 ∷ []) ∷ qos_fails ∷ consumes (3 ∷ []) ∷ []

consumer_lem_example :
    consumer rounds (record { open_connections = 0; handled = [] })
    ≡ record { open_connections = 0; handled = 1 ∷ 2 ∷ 3 ∷ [] }
unfolding delivered received
consumer_lem_example = consumer_lem rounds 0 []
