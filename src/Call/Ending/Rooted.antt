-- ===== src/Call/Ending/Rooted.antt =====
-- Whatever happens to the calls of internal/call, the registry names only calls that are there.
use whatsmeow_gateway.Base.{
  ℕ, String, List, [], ◌∷◌, Option, none, some, lookup, insert, nat_Eq, refl, ◌∙◌, inl, inr,
  Bool-cases, Option-cases, Result, ok, err, string_Eq, lookup-insert, ==-refl,
}
use whatsmeow_gateway.Call.Registry.{LiveCall, Tracked, unregister, take_channel}
use whatsmeow_gateway.Call.Registry.Names.{
  insert-Names, unregister-Names, take_channel-Names, register-Names,
}
use whatsmeow_gateway.Call.Manager.{Manager, Surroundings, track}
use whatsmeow_gateway.Call.Lifecycle.{
  finish, end_call, finish_all, abort_channel, abort_channels, flush_early_end, take_incoming,
  Callback, called_back, callback, on_ready, on_peer_accept, on_keyframe_request, on_end,
  on_state_change, on_mute_state, on_video_state, on_reaction, on_group_state, on_waiting_room,
  on_hand_raise, on_screen_share, Recording, upload,
}
use whatsmeow_gateway.Call.Command.{CallCommand, placed, track_outbound}
use whatsmeow_gateway.Call.Dispatch.Answers.{Rooted}

pub track-Rooted : (h : ℕ) (t : Tracked) (m : Manager) → Rooted m → Rooted (track h t m)
track-Rooted h t m rooted =
    register-Names t.channel_id t.call_id h t (insert h t m.calls) m.registry
      (lookup-insert h h t m.calls ∙ (rw (==-refl h) refl))
      (insert-Names h t m.calls m.registry rooted)

module _ (env : Surroundings) where
  pub finish-Rooted :
      (now h : ℕ) (reason : String) (m : Manager) → Rooted m → Rooted (finish env now h reason m)
  unfolding finish
  finish-Rooted now h reason m rooted = elim (Option-cases (lookup h m.calls)) [
    | inl e ↦ rw (e, finish) rooted
    | inr (t, e) ↦
        rw (e, finish)
          (elim (Bool-cases t.ended) [
            | inl f ↦ simp f rooted
            | inr f ↦ simp f (insert-Names h _ m.calls m.registry rooted)
          ])
  ]

  pub end_call-Rooted :
      (now h : ℕ) (reason : String) (m : Manager) → Rooted m → Rooted (end_call env now h reason m)
  unfolding end_call
  end_call-Rooted now h reason m rooted = elim (Option-cases (lookup h m.calls)) [
    | inl e ↦ rw (e, end_call) rooted
    | inr (t, e) ↦
        rw (e, end_call)
          (elim (Bool-cases (unregister t.channel_id t.call_id m.registry).0) [
            | inl f ↦ rw f (
                finish-Rooted now h reason
                  (record m { registry = (unregister t.channel_id t.call_id m.registry).1 })
                  (unregister-Names t.channel_id t.call_id m.calls m.registry rooted))
            | inr f ↦ rw f rooted
          ])
  ]

  pub finish_all-Rooted :
      (now : ℕ) (reason : String) (hs : List ℕ) (m : Manager)
      → Rooted m
      → Rooted (finish_all env now reason hs m)
  finish_all-Rooted now reason [] m rooted = rooted
  finish_all-Rooted now reason (h ∷ hs) m rooted =
      finish_all-Rooted now reason hs (finish env now h reason m)
        (finish-Rooted now h reason m rooted)

  pub abort_channel-Rooted :
      (now : ℕ) (channel_id reason : String) (m : Manager)
      → Rooted m
      → Rooted (abort_channel env now channel_id reason m)
  unfolding abort_channel
  abort_channel-Rooted now channel_id reason m rooted =
      finish_all-Rooted now reason (take_channel channel_id m.registry).0
        (record m { registry = (take_channel channel_id m.registry).1 })
        (take_channel-Names channel_id m.calls m.registry rooted)

  pub abort_channels-Rooted :
      (now : ℕ) (reason : String) (cs : List String) (m : Manager)
      → Rooted m
      → Rooted (abort_channels env now reason cs m)
  abort_channels-Rooted now reason [] m rooted = rooted
  abort_channels-Rooted now reason (c ∷ cs) m rooted =
      abort_channels-Rooted now reason cs (abort_channel env now c reason m)
        (abort_channel-Rooted now c reason m rooted)

  pub flush_early_end-Rooted :
      (now h : ℕ) (early : Option String) (m : Manager)
      → Rooted m
      → Rooted (flush_early_end env now h early m)
  flush_early_end-Rooted now h none m rooted = rooted
  flush_early_end-Rooted now h (some reason) m rooted = end_call-Rooted now h reason m rooted

  pub take_incoming-Rooted :
      (now : ℕ) (channel_id : String) (live_call : LiveCall) (m : Manager)
      → Rooted m
      → Rooted (take_incoming env now channel_id live_call m)
  unfolding take_incoming
  take_incoming-Rooted now channel_id live_call m rooted =
      flush_early_end-Rooted now m.next _ _ (track-Rooted m.next _ m rooted)

  pub called_back-Rooted :
      (now h : ℕ) (t : Tracked) (c : Callback) (m : Manager)
      → Rooted m
      → Rooted (called_back env now h t c m)
  called_back-Rooted now h t on_ready m rooted = insert-Names h _ m.calls m.registry rooted
  called_back-Rooted now h t on_peer_accept m rooted = insert-Names h _ m.calls m.registry rooted
  called_back-Rooted now h t on_keyframe_request m rooted = rooted
  called_back-Rooted now h t (on_end reason) m rooted = end_call-Rooted now h reason m rooted
  called_back-Rooted now h t (on_state_change phase) m rooted = rooted
  called_back-Rooted now h t (on_mute_state muted) m rooted = rooted
  called_back-Rooted now h t (on_video_state v) m rooted = rooted
  called_back-Rooted now h t (on_reaction r) m rooted = rooted
  called_back-Rooted now h t (on_group_state s) m rooted = rooted
  called_back-Rooted now h t (on_waiting_room s) m rooted = rooted
  called_back-Rooted now h t (on_hand_raise s) m rooted = rooted
  called_back-Rooted now h t (on_screen_share s) m rooted = rooted

  pub callback-Rooted :
      (now h : ℕ) (c : Callback) (m : Manager) → Rooted m → Rooted (callback env now h c m)
  unfolding callback
  callback-Rooted now h c m rooted = elim (Option-cases (lookup h m.calls)) [
    | inl e ↦ rw (e, callback) rooted
    | inr (t, e) ↦ rw (e, callback) (called_back-Rooted now h t c m rooted)
  ]

  pub upload-Rooted :
      (now h : ℕ) (r : Recording) (failure : Option String) (m : Manager)
      → Rooted m
      → Rooted (upload env now h r failure m)
  unfolding upload
  upload-Rooted now h r failure m rooted = elim (Option-cases (lookup h m.calls)) [
    | inl e ↦ rw (e, upload) rooted
    | inr (t, e) ↦ rw (e, upload) rooted
  ]

  pub placed-Rooted :
      (now : ℕ) (cmd : CallCommand) (r : Result String LiveCall) (m : Manager)
      → Rooted m
      → Rooted (placed env now cmd r m)
  unfolding placed track_outbound
  placed-Rooted now cmd (err reason) m rooted = rooted
  placed-Rooted now cmd (ok live_call) m rooted =
      flush_early_end-Rooted now m.next _ _ (track-Rooted m.next _ m rooted)
