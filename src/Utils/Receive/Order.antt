-- ===== src/Utils/Receive/Order.antt =====
-- utils/receive.go: the order of the messages.
use mathlib.Core.Logic.{ite, if_pos}
use mathlib.Core.List.{append_assoc, append-nil}
use zhiya.Prelude.{
  ◌≡◌, refl, ap, sym, ◌∙◌, Bool, true, false, some, List, [], ◌∷◌, ◌++◌, arith, Option-cases,
  some-eq-some, inl, inr,
}
use zhiya.Utils.Receive.Conservation.{run_next}
use zhiya.Utils.Receive.Delivery.{in_hand}
use zhiya.Utils.Receive.{
  Phase, Event, ReceiveChannel, connecting, selecting, returning, finished, dial_fails,
  channel_fails, declare_fails, links, receive_ok, receive_fails, puts_back, publish, put, put_to,
  connect, give_back, handle, select, step, run,
}

unfoldable pub sent : {Text : Type 0} → List (Event Text) → List Text
sent [] = []
sent (publish msg ∷ events) = msg ∷ sent events
sent (other ∷ events) = sent events

-- No publishing fails.
abbrev pub IsWorking : {Text : Type 0} → List (Event Text) → Type 0
IsWorking [] = Unit
IsWorking (receive_fails ∷ events) = ⊥
IsWorking (other ∷ events) = IsWorking events

module _ {Text : Type 0} (dec : Discrete Text) (quit : Text) where
  -- But for copies of "quit".
  unfoldable pub keep : Text → List Text
  keep x = ite (dec x quit) [] (x ∷ [])

  unfoldable pub messages : List Text → List Text
  messages [] = []
  messages (x ∷ l) = keep x ++ messages l

  unfoldable pub in_order : ReceiveChannel Text → List Text
  in_order c = messages (c.published ++ c.channel)

  messages-append : (l m : List Text) → messages (l ++ m) ≡ messages l ++ messages m
  unfolding messages
  messages-append [] m = refl
  messages-append (x ∷ l) m =
      ap (◌++◌ (keep x)) (messages-append l m)
      ∙ sym (append_assoc (keep x) (messages l) (messages m))

  keep-eq : (x : Text) → x ≡ quit → keep x ≡ []
  unfolding keep
  keep-eq x e = if_pos (dec x quit) e _ _

  -- A message that the goroutine takes from the channel and publishes, or drops.
  in_order-published :
      (x : Text) (p l : List Text) → messages ((p ++ x ∷ []) ++ l) ≡ messages (p ++ x ∷ l)
  in_order-published x p l = ap messages (append_assoc p (x ∷ []) l)

  in_order-dropped :
      (x : Text) (p l : List Text) → x ≡ quit → messages (p ++ l) ≡ messages (p ++ x ∷ l)
  in_order-dropped x p l e =
      messages-append p l
      ∙ ap (◌++◌ (messages p)) (ap (λ k. k ++ messages l) (sym (keep-eq x e)))
      ∙ unfold messages in sym (messages-append p (x ∷ l))

  in_order-sent :
      (x : Text) (p l : List Text)
      → messages (p ++ (l ++ x ∷ [])) ≡ messages (p ++ l) ++ messages (x ∷ [])
  in_order-sent x p l =
      ap messages (sym (append_assoc p l (x ∷ []))) ∙ messages-append (p ++ l) (x ∷ [])

  in_order-put :
      (ph : Phase Text) (msg : Text) (c d : ReceiveChannel Text)
      → put_to ph msg c ≡ some d
      → (in_order d ≡ in_order c ++ messages (msg ∷ [])) × (d.phase ≡ ph)
  unfolding put_to put in_order
  in_order-put ph msg c d h = ground (arith, in_order-sent msg c.published c.channel)

  in_order-handle :
      (x : Text) (rest : List Text) (c d : ReceiveChannel Text)
      → handle dec quit true x rest c ≡ some d
      → (in_order d ≡ messages (c.published ++ x ∷ rest)) × (in_hand d.phase ≡ [])
  unfolding handle in_order in_hand
  in_order-handle x rest c d h = elim (dec x quit) [
    | yes e ↦ ground (arith, in_order-dropped x c.published rest e)
    | no n ↦ ground (arith, in_order-published x c.published rest)
  ]

  in_order-select :
      (ph : Phase Text) (l : List Text) (c d : ReceiveChannel Text)
      → select dec quit true ph l c ≡ some d
      → (in_order d ≡ messages (c.published ++ l)) × (in_hand d.phase ≡ [])
  unfolding select
  in_order-select selecting [] c d h = cc
  in_order-select selecting (x ∷ rest) c d h = in_order-handle x rest c d h
  in_order-select connecting l c d h = cc
  in_order-select (returning str) l c d h = cc
  in_order-select finished l c d h = cc

  in_order-connect :
      (b : Bool) (c d : ReceiveChannel Text)
      → connect b c ≡ some d
      → (in_order d ≡ in_order c) × (in_hand d.phase ≡ [])
  unfolding connect in_order in_hand
  in_order-connect b c d h = ground arith

  in_order-give_back :
      (ph : Phase Text) (c d : ReceiveChannel Text) → in_hand ph ≡ [] → give_back ph c ≡ some d → ⊥
  unfolding give_back in_hand
  in_order-give_back (returning str) c d e h = absurd (cc)
  in_order-give_back connecting c d e h = absurd (cc)
  in_order-give_back selecting c d e h = absurd (cc)
  in_order-give_back finished c d e h = absurd (cc)

  messages-nil :
      (c d : ReceiveChannel Text) (events : List (Event Text))
      → in_order d ≡ in_order c
      → in_order d ++ messages (sent events) ≡ in_order c ++ messages (sent events)
  messages-nil c d events e = ap (λ l. l ++ messages (sent events)) e

  in_order-step :
      (e : Event Text) (events : List (Event Text)) (c d : ReceiveChannel Text)
      → IsWorking (e ∷ events)
      → in_hand c.phase ≡ []
      → step dec quit e c ≡ some d
      → (in_order d ++ messages (sent events) ≡ in_order c ++ messages (sent (e ∷ events)))
        × (in_hand d.phase ≡ [])
        × IsWorking events
  unfolding step sent
  in_order-step dial_fails events c d w n h =
      let (e, k) = in_order-connect false c d h in (messages-nil c d events e, k, w)
  in_order-step channel_fails events c d w n h =
      let (e, k) = in_order-connect false c d h in (messages-nil c d events e, k, w)
  in_order-step declare_fails events c d w n h =
      let (e, k) = in_order-connect false c d h in (messages-nil c d events e, k, w)
  in_order-step links events c d w n h =
      let (e, k) = in_order-connect true c d h in (messages-nil c d events e, k, w)
  in_order-step receive_ok events c d w n h =
      let (e, k) = in_order-select c.phase c.channel c d h in
      (messages-nil c d events (unfold in_order in e), k, w)
  in_order-step receive_fails events c d w n h = absurd w
  in_order-step puts_back events c d w n h = absurd (in_order-give_back c.phase c d n h)
  in_order-step (publish msg) events c d w n h =
      let (e, k) = in_order-put c.phase msg c d h in
      (
        ap (λ l. l ++ messages (sent events)) e
            ∙ append_assoc (in_order c) (messages (msg ∷ [])) (messages (sent events))
            ∙ ap (◌++◌ (in_order c)) (sym (messages-append (msg ∷ []) (sent events))),
        ap in_hand k ∙ n,
        w,
      )

  -- As long as no publishing fails, the messages reach the broker in the order in which they were
  -- written to the channel: but for copies of "quit", what is published followed by what waits in
  -- the channel is what it was before, followed by what was written meanwhile. This needs that the
  -- goroutine holds no message of an earlier failure.
  pub in_order-run :
      (events : List (Event Text)) (c d : ReceiveChannel Text)
      → IsWorking events
      → in_hand c.phase ≡ []
      → run dec quit events c ≡ some d
      → in_order d ≡ in_order c ++ messages (sent events)
  unfolding run sent messages
  in_order-run [] c d w n h = ap in_order (sym (some-eq-some h)) ∙ sym (append-nil (in_order c))
  in_order-run (e ∷ events) c d w n h = elim (Option-cases (step dec quit e c)) [
    | inl q ↦ absurd (ground (arith, q))
    | inr (m, q) ↦
        let (a, k, w') = in_order-step e events c m w n q in
        in_order-run events m d w' k (sym (run_next dec quit e events c m q) ∙ h) ∙ a
  ]
