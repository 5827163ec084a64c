-- ===== src/Utils/Receive/Conservation.antt =====
-- utils/receive.go: every message is in exactly one place.
use zhiya.Prelude.{
  ℕ, ◌+◌, ◌≡◌, ◌≢◌, refl, ap, some, List, [], ◌∷◌, ◌++◌, arith, Option-cases, inl, inr, true, false,
  Bool, some-eq-some, sym, ◌∙◌,
}
use mathlib.Core.Logic.{ite, if_neg}
use zhiya.Utils.Receive.{
  Phase, Event, ReceiveChannel, connecting, selecting, returning, finished, dial_fails,
  channel_fails, declare_fails, links, receive_ok, receive_fails, puts_back, publish, put, put_to,
  connect, give_back, handle, select, step, run,
}

pub run_next :
    {Text : Type 0} (dec : Discrete Text) (quit : Text) (e : Event Text)
    (events : List (Event Text)) (c d : ReceiveChannel Text)
    → step dec quit e c ≡ some d
    → run dec quit (e ∷ events) c ≡ run dec quit events d
unfolding run
run_next dec quit e events c d q = rw (run, q) refl

module _ {Text : Type 0} (dec : Discrete Text) (t : Text) where
  unfoldable pub is : Text → ℕ
  is str = ite (dec str t) 1 0

  unfoldable pub count : List Text → ℕ
  count [] = 0
  count (x ∷ l) = is x + count l

  -- The message that the goroutine holds itself.
  unfoldable pub count_hand : Phase Text → ℕ
  count_hand (returning str) = is str
  count_hand other = 0

  -- The copies of a message that are published, held by the goroutine or in the channel.
  unfoldable pub amount : ReceiveChannel Text → ℕ
  amount c = count c.published + count_hand c.phase + count c.channel

  -- The copies that other goroutines write to the channel.
  unfoldable pub count_sent : List (Event Text) → ℕ
  count_sent [] = 0
  count_sent (publish msg ∷ events) = is msg + count_sent events
  count_sent (other ∷ events) = count_sent events

  count-append : (l m : List Text) → count (l ++ m) ≡ count l + count m
  unfolding count
  count-append [] m = omega arith
  count-append (x ∷ l) m = omega (arith, count-append l m)

  count-put : (msg : Text) (l l' : List Text) → put msg l ≡ some l' → count l' ≡ count l + is msg
  unfolding put count
  count-put msg l l' h = ground (arith, count-append l (msg ∷ []))

  amount-put_to :
      (p : Phase Text) (msg : Text) (c c' : ReceiveChannel Text)
      → put_to p msg c ≡ some c'
      → amount c' ≡ count c.published + count_hand p + count c.channel + is msg
  unfolding put_to amount
  amount-put_to p msg c c' h = elim (Option-cases (put msg c.channel)) [
    | inl e ↦ ground (arith, e)
    | inr (l, e) ↦ ground (arith, e, count-put msg c.channel l e)
  ]

  amount-connect :
      (b : Bool) (c c' : ReceiveChannel Text) → connect b c ≡ some c' → amount c' ≡ amount c
  unfolding connect amount count_hand
  amount-connect b c c' h = ground arith

  amount-give_back :
      (p : Phase Text) (c c' : ReceiveChannel Text)
      → give_back p c ≡ some c'
      → amount c' ≡ count c.published + count_hand p + count c.channel
  unfolding give_back count_hand
  amount-give_back (returning str) c c' h = omega (arith, amount-put_to connecting str c c' h)
  amount-give_back connecting c c' h = cc
  amount-give_back selecting c c' h = cc
  amount-give_back finished c c' h = cc

  is-eq-zero : (quit : Text) → t ≢ quit → (str : Text) → str ≡ quit → is str ≡ 0
  unfolding is
  is-eq-zero quit h str e = if_neg (dec str t) (λ q. h (sym q ∙ e)) 1 0

  module _ (quit : Text) (other : t ≢ quit) where
    amount-handle :
        (sent : Bool) (str : Text) (rest : List Text) (c c' : ReceiveChannel Text)
        → handle dec quit sent str rest c ≡ some c'
        → amount c' ≡ count c.published + is str + count rest
    unfolding handle amount count_hand count
    amount-handle sent str rest c c' h = elim (dec str quit) [
      | yes e ↦ ground (arith, is-eq-zero quit other str e)
      | no n ↦ ground (arith, count-append c.published (str ∷ []))
    ]

    amount-select :
        (sent : Bool) (p : Phase Text) (l : List Text) (c c' : ReceiveChannel Text)
        → select dec quit sent p l c ≡ some c'
        → amount c' ≡ count c.published + count_hand p + count l
    unfolding select count_hand count
    amount-select sent selecting [] c c' h = cc
    amount-select sent selecting (str ∷ rest) c c' h =
        omega (arith, amount-handle sent str rest c c' h)
    amount-select sent connecting l c c' h = cc
    amount-select sent (returning str) l c c' h = cc
    amount-select sent finished l c c' h = cc

    amount-step :
        (e : Event Text) (events : List (Event Text)) (c c' : ReceiveChannel Text)
        → step dec quit e c ≡ some c'
        → amount c' + count_sent events ≡ amount c + count_sent (e ∷ events)
    unfolding step count_sent
    amount-step dial_fails events c c' h = omega (arith, amount-connect false c c' h)
    amount-step channel_fails events c c' h = omega (arith, amount-connect false c c' h)
    amount-step declare_fails events c c' h = omega (arith, amount-connect false c c' h)
    amount-step links events c c' h = omega (arith, amount-connect true c c' h)
    amount-step receive_ok events c c' h =
        unfold amount in omega (arith, amount-select true c.phase c.channel c c' h)
    amount-step receive_fails events c c' h =
        unfold amount in omega (arith, amount-select false c.phase c.channel c c' h)
    amount-step puts_back events c c' h =
        unfold amount in omega (arith, amount-give_back c.phase c c' h)
    amount-step (publish msg) events c c' h =
        unfold amount in omega (arith, amount-put_to c.phase msg c c' h)

    -- Whatever the connections do, a message other than "quit" is neither dropped nor duplicated by
    -- the goroutine: the copies that are published without an error, held by the goroutine or in the
    -- channel after any events are those of before and those that were written to the channel
    -- meanwhile.
    pub amount-run :
        (events : List (Event Text)) (c c' : ReceiveChannel Text)
        → run dec quit events c ≡ some c'
        → amount c' ≡ amount c + count_sent events
    unfolding run
    amount-run [] c c' h = unfold count_sent in omega (arith, ap amount (some-eq-some h))
    amount-run (e ∷ events) c c' h = elim (Option-cases (step dec quit e c)) [
      | inl q ↦ absurd (ground (arith, q))
      | inr (d, q) ↦ omega (
        arith,
        amount-step e events c d q,
        amount-run events d c' (sym (run_next dec quit e events c d q) ∙ h),
      )
    ]
