-- ===== src/Utils/Consumer/Connections.antt =====
-- utils/consumer.go: what the rounds of the consumer leave open, and what they handle.
use mathlib.Core.List.{append_assoc, append-nil}
use zhiya.Prelude.{ℕ, ◌+◌, ◌≡◌, refl, ap, ap₂, sym, ◌∙◌, true, false, List, [], ◌∷◌, ◌++◌, arith}
use zhiya.Utils.Consumer.{
  Attempt, Broker, dial_fails, channel_fails, qos_fails, consume_fails, consumes, dial, close, link,
  handle_all, consume_round, consumer,
}

-- The messages of the attempts that come through.
unfoldable pub received : {Msg : Type 0} → Attempt Msg → List Msg
received (consumes msgs) = msgs
received other = []

unfoldable pub delivered : {Msg : Type 0} → List (Attempt Msg) → List Msg
delivered [] = []
delivered (a ∷ rounds) = received a ++ delivered rounds

module _ {Msg : Type 0} where
  handle_all_lem :
      (msgs : List Msg) (n : ℕ) (l : List Msg)
      → handle_all msgs (record { open_connections = n; handled = l })
        ≡ record { open_connections = n; handled = l ++ msgs }
  unfolding handle_all
  handle_all_lem [] n l =
      ap (λ m. record { open_connections = n; handled = m }) (sym (append-nil l))
  handle_all_lem (msg ∷ msgs) n l =
      handle_all_lem msgs n (l ++ msg ∷ [])
      ∙ ap (λ m. record { open_connections = n; handled = m }) (append_assoc l (msg ∷ []) msgs)

  same_broker :
      (n k : ℕ) (l m : List Msg)
      → n ≡ k
      → l ≡ m
      → ◌≡◌ {A = Broker Msg}
          (record { open_connections = n; handled = l })
          (record { open_connections = k; handled = m })
  same_broker n k l m e h = ap₂ (λ i j. record { open_connections = i; handled = j }) e h

  consume_round_lem :
      (a : Attempt Msg) (n : ℕ) (l : List Msg)
      → consume_round (link a (record { open_connections = n; handled = l }))
        ≡ record { open_connections = n; handled = l ++ received a }
  unfolding consume_round link dial close received
  consume_round_lem (dial_fails true) n l = same_broker _ n l _ (omega arith) (sym (append-nil l))
  consume_round_lem (dial_fails false) n l = same_broker n n l _ refl (sym (append-nil l))
  consume_round_lem channel_fails n l = same_broker _ n l _ (omega arith) (sym (append-nil l))
  consume_round_lem qos_fails n l = same_broker _ n l _ (omega arith) (sym (append-nil l))
  consume_round_lem consume_fails n l = same_broker _ n l _ (omega arith) (sym (append-nil l))
  consume_round_lem (consumes msgs) n l =
      ap close (handle_all_lem msgs (n + 1) l)
      ∙ same_broker _ n (l ++ msgs) (l ++ msgs) (omega arith) refl

  -- However the attempts of the consumer end, its loop leaves no connection open behind a round,
  -- and starts the handler once for each message of the attempts that came through, in the order
  -- of the deliveries, for no other message, and drops none.
  pub consumer_lem :
      (rounds : List (Attempt Msg)) (n : ℕ) (l : List Msg)
      → consumer rounds (record { open_connections = n; handled = l })
        ≡ record { open_connections = n; handled = l ++ delivered rounds }
  unfolding consumer delivered
  consumer_lem [] n l = same_broker n n l _ refl (sym (append-nil l))
  consumer_lem (a ∷ rounds) n l =
      ap (consumer rounds) (consume_round_lem a n l)
      ∙ consumer_lem rounds n (l ++ received a)
      ∙ same_broker n n _ _ refl (append_assoc l (received a) (delivered rounds))
