-- ===== src/Utils/Receive/Delivery.antt =====
-- utils/receive.go: a broker that works gets what is pending.
use mathlib.Core.Logic.{if_neg}
use mathlib.Core.Path.{subst}
use mathlib.Core.List.{append_assoc, append-nil}
use zhiya.Prelude.{
  ℕ, suc, ◌≤◌, ◌<◌, ◌≡◌, ◌≢◌, refl, ap, sym, ◌∙◌, true, some, List, [], ◌∷◌, ◌++◌, arith, length,
  replicate, length-append,
}
use zhiya.Utils.Receive.Conservation.{run_next}
use zhiya.Utils.Receive.{
  Phase, Event, ReceiveChannel, connecting, selecting, returning, finished, links, receive_ok,
  puts_back, put, put_to, connect, give_back, handle, select, step, run, capacity,
}

-- The message that the goroutine holds.
unfoldable pub in_hand : {Text : Type 0} → Phase Text → List Text
in_hand (returning str) = str ∷ []
in_hand other = []

-- All messages differ from `quit`.
abbrev pub AllOther : {Text : Type 0} → Text → List Text → Type 0
AllOther quit [] = Unit
AllOther quit (x ∷ l) = (x ≢ quit) × AllOther quit l

-- The events by which a working broker takes all that is pending.
unfoldable pub drain : {Text : Type 0} → Phase Text → ℕ → List (Event Text)
drain connecting n = links ∷ replicate n receive_ok
drain selecting n = replicate n receive_ok
drain (returning str) n = puts_back ∷ links ∷ replicate (suc n) receive_ok
drain finished n = []

abbrev selects : {Text : Type 0} → List Text → List Text → ReceiveChannel Text
selects l p = record { phase = selecting; channel = l; published = p }

module _ {Text : Type 0} (dec : Discrete Text) (quit : Text) where
  handle-sent :
      (x : Text) (rest : List Text) (c : ReceiveChannel Text)
      → x ≢ quit
      → handle dec quit true x rest c ≡ some (selects rest (c.published ++ x ∷ []))
  unfolding handle
  handle-sent x rest c n = if_neg (dec x quit) n _ _

  run-replicate :
      (l p : List Text)
      → AllOther quit l
      → run dec quit (replicate (length l) receive_ok) (selects l p) ≡ some (selects [] (p ++ l))
  unfolding run step select
  run-replicate [] p h = ap (λ q. some (selects [] q)) (sym (append-nil p))
  run-replicate (x ∷ l) p (n, h) =
      run_next dec quit receive_ok (replicate (length l) receive_ok) (selects (x ∷ l) p)
        (selects l (p ++ x ∷ [])) (handle-sent x l (selects (x ∷ l) p) n)
      ∙ run-replicate l (p ++ x ∷ []) h
      ∙ ap (λ q. some (selects [] q)) (append_assoc p (x ∷ []) l)

  run-selects :
      (l p : List Text)
      → AllOther quit (l ++ [])
      → run dec quit (replicate (length l) receive_ok) (selects l p)
        ≡ some (selects [] (p ++ (l ++ [])))
  run-selects l p o =
      run-replicate l p (subst (AllOther quit) (append-nil l) o)
      ∙ ap (λ q. some (selects [] (p ++ q))) (sym (append-nil l))

  run-links :
      (n : ℕ) (l p : List Text)
      → run dec quit
          (links ∷ replicate n receive_ok)
          (record { phase = connecting; channel = l; published = p })
        ≡ run dec quit (replicate n receive_ok) (selects l p)
  unfolding run step connect
  run-links n l p = refl

  put-room :
      (p : Phase Text) (msg : Text) (c : ReceiveChannel Text)
      → length c.channel < capacity
      → put_to p msg c ≡ some (record c { phase = p; channel = c.channel ++ msg ∷ [] })
  unfolding put_to put
  put-room p msg c h = ground arith

  -- The goroutine is stuck in no state but these two: whenever it has not finished, holds no
  -- message while its channel is full, and no pending message is "quit", a broker that accepts the
  -- next connection and the next publishings gets all that is pending: what is in the channel, in
  -- its order, and behind that the message of a failed publishing.
  pub run-drain :
      (ph : Phase Text) (l p : List Text)
      → ph ≢ finished
      → length (in_hand ph ++ l) ≤ capacity
      → AllOther quit (l ++ in_hand ph)
      → run dec quit (drain ph (length l)) (record { phase = ph; channel = l; published = p })
        ≡ some (selects [] (p ++ (l ++ in_hand ph)))
  unfolding drain in_hand
  run-drain connecting l p h k o = run-links (length l) l p ∙ run-selects l p o
  run-drain selecting l p h k o = run-selects l p o
  run-drain (returning str) l p h k o =
      run_next dec quit puts_back (links ∷ replicate (suc (length l)) receive_ok)
        (record { phase = returning str; channel = l; published = p })
        (record { phase = connecting; channel = l ++ str ∷ []; published = p })
        (unfold step give_back in
          put-room connecting str (record { phase = returning str; channel = l; published = p })
            (omega arith))
      ∙ run-links (suc (length l)) (l ++ str ∷ []) p
      ∙ ap (λ n. run dec quit (replicate n receive_ok) (selects (l ++ str ∷ []) p))
          (let e : suc (length l) ≡ length (l ++ str ∷ []) =
              omega (arith, length-append l (str ∷ [])) in
            e)
      ∙ run-replicate (l ++ str ∷ []) p o
  run-drain finished l p h k o = absurd (h refl)
