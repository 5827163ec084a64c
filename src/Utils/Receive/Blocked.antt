-- ===== src/Utils/Receive/Blocked.antt =====
-- utils/receive.go: when the goroutines that use the channel stand still for good.
use zhiya.Prelude.{
  suc, ◌≤◌, ◌≡◌, ◌≢◌, ◌↔◌, refl, ◌∙◌, Bool, true, false, none, some, List, [], ◌∷◌, ◌++◌, arith,
  length, length-append,
}
use mathlib.Core.Logic.{if_neg}
use zhiya.Utils.Receive.{
  Phase, Event, ReceiveChannel, connecting, selecting, returning, finished, dial_fails,
  channel_fails, declare_fails, links, receive_ok, receive_fails, puts_back, publish, put, put_to,
  connect, give_back, handle, select, step, run, capacity,
}
use zhiya.Utils.Receive.Conservation.{run_next}

-- The goroutine neither connects nor selects.
abbrev pub IsAway : {Text : Type 0} → Phase Text → Type 0
IsAway connecting = ⊥
IsAway selecting = ⊥
IsAway (returning str) = Unit
IsAway finished = Unit

abbrev at : {Text : Type 0} → Phase Text → List Text → List Text → ReceiveChannel Text
at ph l p = record { phase = ph; channel = l; published = p }

module _ {Text : Type 0} (dec : Discrete Text) (quit : Text) where
  put-full : (msg : Text) (l : List Text) → capacity ≤ length l → put msg l ≡ none
  unfolding put
  put-full msg l h = ground arith

  put-eq-none : (msg : Text) (l : List Text) → put msg l ≡ none → capacity ≤ length l
  unfolding put
  put-eq-none msg l h = ground arith

  put_to-eq-none :
      (ph : Phase Text) (msg : Text) (l p : List Text)
      → put_to ph msg (at ph l p) ≡ none
      → capacity ≤ length l
  unfolding put_to put
  put_to-eq-none ph msg l p h = ground arith

  put_to-full :
      (ph q : Phase Text) (msg : Text) (l p : List Text)
      → capacity ≤ length l
      → put_to q msg (at ph l p) ≡ none
  unfolding put_to put
  put_to-full ph q msg l p h = ground arith

  step-eq-none :
      (ph : Phase Text) (l p : List Text) (e : Event Text)
      → capacity ≤ length l
      → IsAway ph
      → step dec quit e (at ph l p) ≡ none
  unfolding step connect select give_back
  step-eq-none connecting l p e h a = absurd a
  step-eq-none selecting l p e h a = absurd a
  step-eq-none (returning str) l p dial_fails h a = refl
  step-eq-none (returning str) l p channel_fails h a = refl
  step-eq-none (returning str) l p declare_fails h a = refl
  step-eq-none (returning str) l p links h a = refl
  step-eq-none (returning str) l p receive_ok h a = refl
  step-eq-none (returning str) l p receive_fails h a = refl
  step-eq-none (returning str) l p puts_back h a = put_to-full (returning str) connecting str l p h
  step-eq-none (returning str) l p (publish msg) h a =
      put_to-full (returning str) (returning str) msg l p h
  step-eq-none finished l p dial_fails h a = refl
  step-eq-none finished l p channel_fails h a = refl
  step-eq-none finished l p declare_fails h a = refl
  step-eq-none finished l p links h a = refl
  step-eq-none finished l p receive_ok h a = refl
  step-eq-none finished l p receive_fails h a = refl
  step-eq-none finished l p puts_back h a = refl
  step-eq-none finished l p (publish msg) h a = put_to-full finished finished msg l p h

  handle_some :
      (sent : Bool) (x : Text) (l : List Text) (c : ReceiveChannel Text)
      → handle dec quit sent x l c ≢ none
  unfolding handle
  handle_some sent x l c h = ground arith

  connect_some : (l p : List Text) → step dec quit dial_fails (at connecting l p) ≢ none
  unfolding step connect
  connect_some l p h = absurd (cc)

  not_stuck :
      (ph : Phase Text) (l p : List Text)
      → capacity ≤ length l
      → ((e : Event Text) → step dec quit e (at ph l p) ≡ none)
      → IsAway ph
  unfolding step select
  not_stuck connecting l p f h = absurd (connect_some l p (h dial_fails))
  not_stuck selecting [] p f h = absurd (omega arith)
  not_stuck selecting (x ∷ l) p f h =
      absurd (handle_some true x l (at selecting (x ∷ l) p) (h receive_ok))
  not_stuck (returning str) l p f h = tt
  not_stuck finished l p f h = tt

  put_to-publish :
      (ph : Phase Text) (l p : List Text)
      → ((e : Event Text) → step dec quit e (at ph l p) ≡ none)
      → capacity ≤ length l
  unfolding step
  put_to-publish ph l p h = put_to-eq-none ph quit l p (h (publish quit))

  -- Nothing can happen any more, to the goroutine or to those that write to its channel, exactly
  -- when the channel is full and the goroutine has returned after "quit", or wants to put a message
  -- back into the channel that it alone reads.
  pub step-eq-none_iff :
      (ph : Phase Text) (l p : List Text)
      → ((e : Event Text)
          → step dec quit e (record { phase = ph; channel = l; published = p }) ≡ none)
        ↔ ((capacity ≤ length l) × IsAway ph)
  step-eq-none_iff ph l p = (
    λ h. (put_to-publish ph l p h, not_stuck ph l p (put_to-publish ph l p h) h),
    λ r e. let (f, a) = r in step-eq-none ph l p e f a,
  )

  handle-failed :
      (str : Text) (rest : List Text) (c : ReceiveChannel Text)
      → str ≢ quit
      → handle dec quit false str rest c ≡ some (record c { phase = returning str; channel = rest })
  unfolding handle
  handle-failed str rest c n = if_neg (dec str quit) n _ _

  put_to-room :
      (ph : Phase Text) (msg : Text) (l p : List Text)
      → suc (length l) ≡ capacity
      → put_to ph msg (at ph l p) ≡ some (at ph (l ++ msg ∷ []) p)
  unfolding put_to put
  put_to-room ph msg l p h = ground arith

  -- From every state in which the goroutine reads a full channel, one failed publishing of a
  -- message other than "quit" and one more write to the channel lead to a state in which nothing
  -- can happen any more: the message of the failed publishing is never put back.
  pub run-stuck :
      (str msg : Text) (rest p : List Text)
      → str ≢ quit
      → length (str ∷ rest) ≡ capacity
      → (run dec quit
            (receive_fails ∷ publish msg ∷ [])
            (record { phase = selecting; channel = str ∷ rest; published = p })
          ≡ some (record { phase = returning str; channel = rest ++ msg ∷ []; published = p }))
        × ((e : Event Text)
            → step dec quit e
                (record { phase = returning str; channel = rest ++ msg ∷ []; published = p })
              ≡ none)
  unfolding run step select
  run-stuck str msg rest p n h = (
    run_next dec quit receive_fails (publish msg ∷ []) (at selecting (str ∷ rest) p)
          (at (returning str) rest p) (handle-failed str rest (at selecting (str ∷ rest) p) n)
        ∙ run_next dec quit (publish msg) [] (at (returning str) rest p)
            (at (returning str) (rest ++ msg ∷ []) p) (put_to-room (returning str) msg rest p h),
    λ e.
        step-eq-none (returning str) (rest ++ msg ∷ []) p e
          (omega (arith, length-append rest (msg ∷ []))) tt,
  )
