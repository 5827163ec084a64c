-- ===== src/Utils/Receive/Examples.antt =====
-- utils/receive.go: the theorems at concrete messages, which are numbers; 0 is "quit".
use zhiya.Prelude.{
  ℕ, ◌+◌, ◌≤◌, ◌≡◌, ◌↔◌, refl, none, some, List, [], ◌∷◌, ◌++◌, arith, length, replicate,
  ℕ_discrete, dec_lt,
}
use zhiya.Utils.Receive.{
  Event, ReceiveChannel, connecting, selecting, returning, dial_fails, links, receive_ok,
  receive_fails, puts_back, publish, step, run, capacity, put, put_to, connect, give_back, handle,
  select,
}
use zhiya.Utils.Receive.Conservation.{amount, count_sent, amount-run}
use zhiya.Utils.Receive.Delivery.{drain, in_hand, run-drain}
use zhiya.Utils.Receive.Order.{sent, in_order, messages, in_order-run}
use zhiya.Utils.Receive.Blocked.{IsAway, step-eq-none_iff, run-stuck}

abbrev before : ReceiveChannel ℕ
before = record { phase = connecting; channel = 5 ∷ 6 ∷ []; published = [] }

-- A failed publishing puts the first message behind the others.
abbrev failure : List (Event ℕ)
failure = dial_fails ∷ links ∷ receive_fails ∷ publish 5 ∷ puts_back ∷ links ∷ receive_ok ∷ []

abbrev after_failure : ReceiveChannel ℕ
after_failure = record { phase = selecting; channel = 5 ∷ 5 ∷ []; published = 6 ∷ [] }

run-failure : run ℕ_discrete 0 failure before ≡ some after_failure
unfolding run step connect select handle give_back put_to put ℕ_discrete dec_lt
run-failure = refl

amount-run_example :
    amount ℕ_discrete 5 after_failure ≡ amount ℕ_discrete 5 before + count_sent ℕ_discrete 5 failure
amount-run_example =
    amount-run ℕ_discrete 5 0 (λ e. absurd (omega (arith, e))) failure before after_failure
      run-failure

run-drain_example :
    run ℕ_discrete 0
      (drain (returning 7) 2)
      (record { phase = returning 7; channel = 5 ∷ 6 ∷ []; published = [] })
    ≡ some (record { phase = selecting; channel = []; published = 5 ∷ 6 ∷ 7 ∷ [] })
unfolding in_hand
run-drain_example =
    run-drain ℕ_discrete 0 (returning 7) (5 ∷ 6 ∷ []) [] (λ e. absurd (cc)) (omega arith)
      (
        λ e. absurd (omega (arith, e)),
        (λ e. absurd (omega (arith, e)), (λ e. absurd (omega (arith, e)), tt)),
      )

abbrev success : List (Event ℕ)
success = links ∷ receive_ok ∷ publish 8 ∷ []

abbrev after_success : ReceiveChannel ℕ
after_success = record { phase = selecting; channel = 6 ∷ 8 ∷ []; published = 5 ∷ [] }

run-success : run ℕ_discrete 0 success before ≡ some after_success
unfolding run step connect select handle give_back put_to put ℕ_discrete dec_lt
run-success = refl

in_order-run_example :
    in_order ℕ_discrete 0 after_success
    ≡ in_order ℕ_discrete 0 before ++ messages ℕ_discrete 0 (sent success)
unfolding in_hand
in_order-run_example = in_order-run ℕ_discrete 0 success before after_success tt refl run-success

step-eq-none_iff_example :
    ((e : Event ℕ)
      → step ℕ_discrete 0 e (record { phase = returning 7; channel = 5 ∷ []; published = [] })
        ≡ none)
    ↔ ((2000 ≤ 1) × IsAway {Text = ℕ} (returning 7))
step-eq-none_iff_example = step-eq-none_iff ℕ_discrete 0 (returning 7) (5 ∷ []) []

full_length : length {A = ℕ} (7 ∷ replicate 1999 5) ≡ capacity
full_length = refl

run-stuck_example :
    (run ℕ_discrete 0
        (receive_fails ∷ publish 9 ∷ [])
        (record { phase = selecting; channel = 7 ∷ replicate 1999 5; published = [] })
      ≡ some (record { phase = returning 7; channel = replicate 1999 5 ++ 9 ∷ []; published = [] }))
    × ((e : Event ℕ)
        → step ℕ_discrete 0 e
            (record { phase = returning 7; channel = replicate 1999 5 ++ 9 ∷ []; published = [] })
          ≡ none)
run-stuck_example =
    run-stuck ℕ_discrete 0 7 9 (replicate 1999 5) [] (λ e. absurd (omega (arith, e))) full_length
