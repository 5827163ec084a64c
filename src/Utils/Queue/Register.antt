-- ===== src/Utils/Queue/Register.antt =====
-- utils/queue.go: what a registration does after its first request.
use mathlib.Core.Logic.{if_neg}
use zhiya.Prelude.{ℕ, ◌≡◌, ◌≢◌, refl, ◌∙◌, Bool, Option}
use zhiya.Utils.Queue.{
  Request, Answer, ok, error, panics, create_queue, bind_routing_key, then_bind, register_queue,
}

module _ {Text Net : Type 0} (url_ok : Request Text → Bool)
    (send : Request Text → Net → Net × Option ℕ) (dec : Discrete Text) (blank : Text) where
  -- A queue that could not be made is not bound: the answer is that of the first request.
  pub register_queue-failed :
      (vhost name exchange key : Text) (net net' : Net) (a : Answer)
      → create_queue url_ok send vhost name net ≡ (net', a)
      → a ≢ ok
      → register_queue url_ok send dec blank vhost name exchange key net ≡ (net', a)
  unfolding register_queue then_bind
  register_queue-failed vhost name exchange key net net' ok e n = absurd (n refl)
  register_queue-failed vhost name exchange key net net' error e n = rw e refl
  register_queue-failed vhost name exchange key net net' panics e n = rw e refl

  -- A queue that was made is bound when an exchange and a key are given.
  pub register_queue-bound :
      (vhost name exchange key : Text) (net net' : Net)
      → create_queue url_ok send vhost name net ≡ (net', ok)
      → exchange ≢ blank
      → key ≢ blank
      → register_queue url_ok send dec blank vhost name exchange key net
        ≡ bind_routing_key url_ok send vhost name exchange key net'
  unfolding register_queue then_bind
  register_queue-bound vhost name exchange key net net' e n k =
      rw e (if_neg (dec exchange blank) n _ _ ∙ if_neg (dec key blank) k _ _)
