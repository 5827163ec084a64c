-- ===== src/Utils/Receive.antt =====
-- utils/receive.go: the goroutine that publishes what is written to its channel. The messages
-- are compared with "quit" only; the broker is the outcome of each call, a part of the event.
pub mod Conservation
pub mod Delivery
pub mod Order
pub mod Blocked
mod Examples
use mathlib.Core.Logic.{ite}
use zhiya.Prelude.{
  ℕ, Bool, true, false, Option, none, some, List, [], ◌∷◌, ◌++◌, ltb, length, if◌then◌else◌,
}

-- The capacity of the channel.
abbrev pub capacity : ℕ
capacity = 2000

-- Where the goroutine stands: in the connection attempts, in the select, at `c.Channel <- str`
-- after a failed publishing, or after its return.
pub data Phase (Text : Type 0) : Type 0 where
  connecting : Phase Text
  selecting : Phase Text
  returning : Text → Phase Text
  finished : Phase Text

-- `channel` holds the oldest message first, and `published` is what was published
-- without an error. The client library does not say whether the broker has it.
pub record ReceiveChannel (Text : Type 0) : Type 0 where
  pub phase : Phase Text
  pub channel : List Text
  pub published : List Text

-- What happens next. A connection attempt fails at its Dial, Channel or ExchangeDeclare. `publish`
-- is the function Publish of another goroutine.
pub data Event (Text : Type 0) : Type 0 where
  dial_fails : Event Text
  channel_fails : Event Text
  declare_fails : Event Text
  links : Event Text
  receive_ok : Event Text
  receive_fails : Event Text
  puts_back : Event Text
  publish : Text → Event Text

module _ {Text : Type 0} where
  -- `ch <- msg` on the buffered channel: none while it is full.
  unfoldable pub put : Text → List Text → Option (List Text)
  put msg l = if ltb (length l) capacity then some (l ++ msg ∷ []) else none

  unfoldable pub put_to : Phase Text → Text → ReceiveChannel Text → Option (ReceiveChannel Text)
  put_to p msg c = elim (put msg c.channel) [
    | none ↦ none
    | some l ↦ some (record c { phase = p; channel = l })
  ]

  -- One attempt to connect.
  unfoldable pub connect : Bool → ReceiveChannel Text → Option (ReceiveChannel Text)
  connect linked c = elim c.phase [
    | connecting ↦ some (if linked then record c { phase = selecting } else c)
    | other ↦ none
  ]

  unfoldable pub give_back : Phase Text → ReceiveChannel Text → Option (ReceiveChannel Text)
  give_back (returning str) c = put_to connecting str c
  give_back other c = none

module _ {Text : Type 0} (dec : Discrete Text) (quit : Text) where
  -- The case of the select, on the message that it took from the channel.
  unfoldable pub handle :
      Bool → Text → List Text → ReceiveChannel Text → Option (ReceiveChannel Text)
  handle sent str rest c =
      ite (dec str quit) (some (record c { phase = finished; channel = rest })) (
        some (
          if sent
          then record c { phase = selecting; channel = rest; published = c.published ++ str ∷ [] }
          else record c { phase = returning str; channel = rest }))

  unfoldable pub select :
      Bool → Phase Text → List Text → ReceiveChannel Text → Option (ReceiveChannel Text)
  select sent selecting [] c = none
  select sent selecting (str ∷ rest) c = handle sent str rest c
  select sent other l c = none

  -- The state after an event; none when it cannot happen.
  unfoldable pub step : Event Text → ReceiveChannel Text → Option (ReceiveChannel Text)
  step dial_fails c = connect false c
  step channel_fails c = connect false c
  step declare_fails c = connect false c
  step links c = connect true c
  step receive_ok c = select true c.phase c.channel c
  step receive_fails c = select false c.phase c.channel c
  step puts_back c = give_back c.phase c
  step (publish msg) c = put_to c.phase msg c

  unfoldable pub run : List (Event Text) → ReceiveChannel Text → Option (ReceiveChannel Text)
  run [] c = some c
  run (e ∷ events) c = elim (step e c) [ none ↦ none | some c' ↦ run events c' ]
