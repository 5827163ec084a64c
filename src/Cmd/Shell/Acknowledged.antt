-- ===== src/Cmd/Shell/Acknowledged.antt =====
-- cmd/uchat.go: a delivery is acknowledged, and what its callback did stays.
use zhiya.Prelude.{
  ◌≡◌, refl, sym, ap, ◌∙◌, Bool, true, false, [], ◌∷◌, ◌++◌, ◌⊎◌, Option, none, some, some-eq-some,
  Option-cases, inl, inr,
}
use zhiya.Cmd.Shell.{
  Callbacks, Delivery, ack, ConsumerShell, Handler, member_list, chat_room_list, member_message_sum,
  chat_room_create, member_quit, member_join, send_chat_message, chat_message, chat_keyword,
  chat_over, chat_qr_code, robot_friend_add, robot_chat_join, failed, succeeded, report,
  send_message, handle, process_success, process_error,
}

-- One acknowledgement of the delivery, and one entry of the log, are added.
abbrev pub IsSettled :
    {Bytes World : Type 0} → Delivery Bytes → ConsumerShell World → ConsumerShell World → Type 0
IsSettled msg c c' =
    (c'.settled ≡ c.settled ++ ack msg.tag ∷ [])
    × ((c'.log ≡ c.log ++ process_success msg.tag ∷ [])
        ⊎ (c'.log ≡ c.log ++ process_error msg.tag ∷ []))

module _ {Bytes Message World : Type 0} (u : Callbacks Bytes Message World) where
  report-IsSettled :
      (msg : Delivery Bytes) (r : Option (World × Bool)) (c c' : ConsumerShell World)
      → report msg r c ≡ some c'
      → IsSettled msg c c'
  unfolding report failed succeeded
  report-IsSettled msg none c c' h = absurd (cc)
  report-IsSettled msg (some (w, true)) c c' h =
      let e : succeeded msg w c ≡ c' = some-eq-some h in
      (ap ConsumerShell.settled (sym e), inl (ap ConsumerShell.log (sym e)))
  report-IsSettled msg (some (w, false)) c c' h =
      let e : failed msg w c ≡ c' = some-eq-some h in
      (ap ConsumerShell.settled (sym e), inr (ap ConsumerShell.log (sym e)))

  send_message-IsSettled :
      (msg : Delivery Bytes) (c c' : ConsumerShell World)
      → send_message u msg c ≡ some c'
      → IsSettled msg c c'
  unfolding send_message failed
  send_message-IsSettled msg c c' h = elim (Option-cases (u.decode msg.body)) [
    | inl e ↦
        let q : failed msg c.world c ≡ c' = some-eq-some (sym (rw (send_message, e) refl) ∙ h) in
        (ap ConsumerShell.settled (sym q), inr (ap ConsumerShell.log (sym q)))
    | inr (rst, e) ↦
        report-IsSettled msg (u.send_message rst c.world) c c' (sym (rw (send_message, e) refl) ∙ h)
  ]

  -- Whatever the handler of a queue is and whatever its callback answers, errors included: a handler
  -- that comes to its end without a panic has acknowledged its delivery exactly once, has not given
  -- it back to the queue, and has written one entry of the log.
  pub handle-IsSettled :
      (h : Handler) (msg : Delivery Bytes) (c c' : ConsumerShell World)
      → handle u h msg c ≡ some c'
      → IsSettled msg c c'
  unfolding handle
  handle-IsSettled member_list msg c c' h = report-IsSettled msg _ c c' h
  handle-IsSettled chat_room_list msg c c' h = report-IsSettled msg _ c c' h
  handle-IsSettled member_message_sum msg c c' h = report-IsSettled msg _ c c' h
  handle-IsSettled chat_room_create msg c c' h = report-IsSettled msg _ c c' h
  handle-IsSettled member_quit msg c c' h = report-IsSettled msg _ c c' h
  handle-IsSettled member_join msg c c' h = report-IsSettled msg _ c c' h
  handle-IsSettled send_chat_message msg c c' h = send_message-IsSettled msg c c' h
  handle-IsSettled chat_message msg c c' h = report-IsSettled msg _ c c' h
  handle-IsSettled chat_keyword msg c c' h = report-IsSettled msg _ c c' h
  handle-IsSettled chat_over msg c c' h = report-IsSettled msg _ c c' h
  handle-IsSettled chat_qr_code msg c c' h = report-IsSettled msg _ c c' h
  handle-IsSettled robot_friend_add msg c c' h = report-IsSettled msg _ c c' h
  handle-IsSettled robot_chat_join msg c c' h = report-IsSettled msg _ c c' h
