-- ===== src/Utils/Queue.antt =====
-- utils/queue.go: the requests to the broker's management interface. The texts and the HTTP client
-- are parameters: `url_ok` tells whether http.NewRequest accepts an address, and `send` is the
-- status of the answer, or none where the client has an error.
pub mod Register
use mathlib.Core.Logic.{ite}
use zhiya.Prelude.{ℕ, Bool, true, false, ◌||◌, Option, none, some, ◌==◌, if◌then◌else◌}

-- The requests, with the names in their address and body.
pub data Request (Text : Type 0) : Type 0 where
  put_queue : Text → Text → Request Text
  post_binding : Text → Text → Text → Text → Request Text

pub data Answer : Type 0 where
  ok : Answer
  error : Answer
  panics : Answer

module _ {Text Net : Type 0} (url_ok : Request Text → Bool)
    (send : Request Text → Net → Net × Option ℕ) where
  unfoldable pub created_status : Net × Option ℕ → Net × Answer
  created_status (net, none) = (net, error)
  created_status (net, some status) =
      (net, (if (status == 204) || (status == 201) then ok else error))

  unfoldable pub bound_status : Net × Option ℕ → Net × Answer
  bound_status (net, none) = (net, error)
  bound_status (net, some status) = (net, (if status == 201 then ok else error))

  unfoldable pub create_queue : Text → Text → Net → Net × Answer
  create_queue vhost name net =
      if url_ok (put_queue vhost name)
      then created_status (send (put_queue vhost name) net)
      else (net, error)

  -- The request is used before its error is looked at.
  unfoldable pub bind_routing_key : Text → Text → Text → Text → Net → Net × Answer
  bind_routing_key vhost name exchange key net =
      if url_ok (post_binding vhost exchange name key)
      then bound_status (send (post_binding vhost exchange name key) net)
      else (net, panics)

  module _ (dec : Discrete Text) (blank : Text) where
    unfoldable pub then_bind : Text → Text → Text → Text → Net × Answer → Net × Answer
    then_bind vhost name exchange key (net, ok) =
        ite (dec exchange blank) (net, ok)
          (ite (dec key blank) (net, ok) (bind_routing_key vhost name exchange key net))
    then_bind vhost name exchange key (net, a) = (net, a)

    unfoldable pub register_queue : Text → Text → Text → Text → Net → Net × Answer
    register_queue vhost name exchange key net =
        then_bind vhost name exchange key (create_queue vhost name net)
