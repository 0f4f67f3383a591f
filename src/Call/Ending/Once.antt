-- ===== src/Call/Ending/Once.antt =====
-- The end of each call of internal/call is told once, whatever happens and in whatever order.
use whatsmeow_gateway.Base.{List, [], ◌∷◌, lookup, nat_Eq, length, select, ◌≡◌, refl, string_Eq}
use whatsmeow_gateway.Call.Registry.{channels}
use whatsmeow_gateway.Call.Manager.{Manager, Surroundings, new_manager}
use whatsmeow_gateway.Call.Ending.{
  Which, tells_end, has_ended, tally, Operation, takes_incoming, dispatches, calls_back,
  aborts_channel, aborts_all, attaches, detaches, uploads, perform, perform_all,
}
use whatsmeow_gateway.Call.Ending.Steps.{
  Even, abort_channel-Even, abort_channels-Even, take_incoming-Even, callback-Even,
  attach_stream-Even, detach_stream-Even, upload-Even,
}
use whatsmeow_gateway.Call.Ending.Commands.{dispatch-Even}

module _ (q : Which) (env : Surroundings) where
  perform-Even : (op : Operation) (m : Manager) → Even q env m → Even q env (perform env op m)
  perform-Even (takes_incoming now channel_id live_call) m even =
      take_incoming-Even q env now channel_id live_call m even
  perform-Even (dispatches now caller fetch cmd) m even =
      dispatch-Even q env now caller fetch cmd m even
  perform-Even (calls_back now h c) m even = callback-Even q env now h c m even
  perform-Even (aborts_channel now channel_id reason) m even =
      abort_channel-Even q env now channel_id reason m even
  perform-Even (aborts_all now reason) m even =
      abort_channels-Even q env now reason (channels m.registry) m even
  perform-Even (attaches channel_id call_id) m even =
      attach_stream-Even q env channel_id call_id m even
  perform-Even (detaches h s) m even = detach_stream-Even q env h s m even
  perform-Even (uploads now h r failure) m even = upload-Even q env now h r failure m even

  perform_all-Even :
      (ops : List Operation) (m : Manager) → Even q env m → Even q env (perform_all env ops m)
  perform_all-Even [] m even = even
  perform_all-Even (op ∷ ops) m even =
      perform_all-Even ops (perform env op m) (perform-Even op m even)

-- After any sequence of incoming calls, commands, callbacks, aborts, streams and uploads, the calls
-- of any choice of channel and id that have ended are as many as the events that tell such an end:
-- no end is told twice, and none is left out.
pub ends_told_once :
    (env : Surroundings) (ops : List Operation) (channel_and_call : Which)
    → let m = perform_all env ops new_manager in
      length (select (tells_end channel_and_call) m.published)
      ≡ tally (has_ended channel_and_call) m.calls
unfolding select lookup
ends_told_once env ops q = (perform_all-Even q env ops new_manager (refl, λ k le. refl)).0
