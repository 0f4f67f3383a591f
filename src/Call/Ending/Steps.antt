-- ===== src/Call/Ending/Steps.antt =====
-- The callbacks, streams, aborts and uploads of internal/call keep the count of ended calls.
use whatsmeow_gateway.Base.{
  ℕ, suc, String, List, [], ◌∷◌, ◌++◌, false, ◌&&◌, ◌||◌, Option, none, some, lookup, insert,
  nat_Eq, select, ◌≡◌, refl, ap, inl, inr, Bool-cases, Option-cases, string_Eq,
}
use whatsmeow_gateway.Call.Contracts.{Event}
use whatsmeow_gateway.Call.Registry.{
  LiveCall, Tracked, unregister, take_channel, registered, is_current,
}
use whatsmeow_gateway.Call.Manager.{Manager, Surroundings, new_tracked}
use whatsmeow_gateway.Call.Lifecycle.{
  finish, end_call, finish_all, abort_channel, abort_channels, flush_early_end, take_incoming,
  Callback, called_back, callback, on_ready, on_peer_accept, on_keyframe_request, on_end,
  on_state_change, on_mute_state, on_video_state, on_reaction, on_group_state, on_waiting_room,
  on_hand_raise, on_screen_share, attach_stream, detach_stream, Recording, upload, upload_events,
  is_stored, failed_upload,
}
use whatsmeow_gateway.Call.Ending.{Which, tells_end, Balanced}
use whatsmeow_gateway.Call.Ending.Balance.{
  publishing-Balanced, updating-Balanced, adding-Balanced, ending-Balanced, later-Balanced,
}

module _ (q : Which) (env : Surroundings) where
  abbrev pub Even : Manager → Type 0
  Even m = Balanced q m.calls m.published m.next

  pub finish-Even :
      (now h : ℕ) (reason : String) (m : Manager) → Even m → Even (finish env now h reason m)
  unfolding finish
  finish-Even now h reason m even = elim (Option-cases (lookup h m.calls)) [
    | inl e ↦ rw (e, finish) even
    | inr (t, e) ↦
        rw (e, finish)
          (elim (Bool-cases t.ended) [
            | inl f ↦ simp f even
            | inr f ↦ simp f (
                ending-Balanced q m.calls m.published m.next h t _ _ e
                  (ap (λ b. b && q t.channel_id t.call_id) f) refl even)
          ])
  ]

  pub end_call-Even :
      (now h : ℕ) (reason : String) (m : Manager) → Even m → Even (end_call env now h reason m)
  unfolding end_call
  end_call-Even now h reason m even = elim (Option-cases (lookup h m.calls)) [
    | inl e ↦ rw (e, end_call) even
    | inr (t, e) ↦
        rw (e, end_call)
          (elim (Bool-cases (unregister t.channel_id t.call_id m.registry).0) [
            | inl f ↦ rw f (
                finish-Even now h reason
                  (record m { registry = (unregister t.channel_id t.call_id m.registry).1 }) even)
            | inr f ↦ rw f even
          ])
  ]

  pub finish_all-Even :
      (now : ℕ) (reason : String) (hs : List ℕ) (m : Manager)
      → Even m
      → Even (finish_all env now reason hs m)
  finish_all-Even now reason [] m even = even
  finish_all-Even now reason (h ∷ hs) m even =
      finish_all-Even now reason hs (finish env now h reason m) (finish-Even now h reason m even)

  pub abort_channel-Even :
      (now : ℕ) (channel_id reason : String) (m : Manager)
      → Even m
      → Even (abort_channel env now channel_id reason m)
  unfolding abort_channel
  abort_channel-Even now channel_id reason m even =
      finish_all-Even now reason (take_channel channel_id m.registry).0
        (record m { registry = (take_channel channel_id m.registry).1 }) even

  pub abort_channels-Even :
      (now : ℕ) (reason : String) (cs : List String) (m : Manager)
      → Even m
      → Even (abort_channels env now reason cs m)
  abort_channels-Even now reason [] m even = even
  abort_channels-Even now reason (c ∷ cs) m even =
      abort_channels-Even now reason cs (abort_channel env now c reason m)
        (abort_channel-Even now c reason m even)

  pub flush_early_end-Even :
      (now h : ℕ) (early : Option String) (m : Manager)
      → Even m
      → Even (flush_early_end env now h early m)
  flush_early_end-Even now h none m even = even
  flush_early_end-Even now h (some reason) m even = end_call-Even now h reason m even

  pub take_incoming-Even :
      (now : ℕ) (channel_id : String) (live_call : LiveCall) (m : Manager)
      → Even m
      → Even (take_incoming env now channel_id live_call m)
  unfolding take_incoming new_tracked select
  take_incoming-Even now channel_id live_call m even = flush_early_end-Even now m.next _ _ (
      publishing-Balanced q _ m.published (_ ∷ []) (suc m.next) refl
        (adding-Balanced q m.calls m.published m.next _ refl even))

  -- A publication that tells no end.
  pub publish-Even :
      (m : Manager) (calls : List (ℕ × Tracked)) (e : Event)
      → tells_end q e ≡ false
      → Balanced q calls m.published m.next
      → Balanced q calls (m.published ++ e ∷ []) m.next
  unfolding select
  publish-Even m calls e quiet even =
      publishing-Balanced q calls m.published (e ∷ []) m.next (rw quiet refl) even

  pub called_back-Even :
      (now h : ℕ) (t : Tracked) (c : Callback) (m : Manager)
      → lookup h m.calls ≡ some t
      → Even m
      → Even (called_back env now h t c m)
  called_back-Even now h t on_ready m found even =
      publish-Even m _ _ refl (updating-Balanced q m.calls m.published m.next h t _ found refl even)
  called_back-Even now h t on_peer_accept m found even =
      publish-Even m _ _ refl (updating-Balanced q m.calls m.published m.next h t _ found refl even)
  called_back-Even now h t on_keyframe_request m found even = even
  called_back-Even now h t (on_end reason) m found even = end_call-Even now h reason m even
  called_back-Even now h t (on_state_change phase) m found even = publish-Even m _ _ refl even
  called_back-Even now h t (on_mute_state muted) m found even = publish-Even m _ _ refl even
  called_back-Even now h t (on_video_state v) m found even = publish-Even m _ _ refl even
  called_back-Even now h t (on_reaction r) m found even = publish-Even m _ _ refl even
  called_back-Even now h t (on_group_state s) m found even = publish-Even m _ _ refl even
  called_back-Even now h t (on_waiting_room s) m found even = publish-Even m _ _ refl even
  called_back-Even now h t (on_hand_raise s) m found even = publish-Even m _ _ refl even
  called_back-Even now h t (on_screen_share s) m found even = publish-Even m _ _ refl even

  pub callback-Even :
      (now h : ℕ) (c : Callback) (m : Manager) → Even m → Even (callback env now h c m)
  unfolding callback
  callback-Even now h c m even = elim (Option-cases (lookup h m.calls)) [
    | inl e ↦ rw (e, callback) even
    | inr (t, e) ↦ rw (e, callback) (called_back-Even now h t c m e even)
  ]

  pub attach_stream-Even :
      (channel_id call_id : String) (m : Manager)
      → Even m
      → Even (attach_stream channel_id call_id m).1
  unfolding attach_stream
  attach_stream-Even channel_id call_id m even =
      elim (Option-cases (registered channel_id call_id m.registry)) [
        | inl e ↦ rw (e, attach_stream) even
        | inr (h, e) ↦ elim (Option-cases (lookup h m.calls)) [
          | inl f ↦ rw (e, f, attach_stream) even
          | inr (t, f) ↦
              rw (e, f, attach_stream)
                (elim (Bool-cases t.finished) [
                  | inl g ↦ simp g (later-Balanced q m.calls m.published m.next even)
                  | inr g ↦ simp g (
                      later-Balanced q (insert h _ m.calls) m.published m.next
                        (updating-Balanced q m.calls m.published m.next h t _ f refl even))
                ])
        ]
      ]

  pub detach_stream-Even : (h s : ℕ) (m : Manager) → Even m → Even (detach_stream h s m)
  unfolding detach_stream
  detach_stream-Even h s m even = elim (Option-cases (lookup h m.calls)) [
    | inl e ↦ rw (e, detach_stream) even
    | inr (t, e) ↦
        rw (e, detach_stream)
          (elim (Bool-cases (is_current s t.stream)) [
            | inl g ↦ rw g (updating-Balanced q m.calls m.published m.next h t _ e refl even)
            | inr g ↦ rw g even
          ])
  ]

  pub upload_events-quiet :
      (now : ℕ) (t : Tracked) (r : Recording) (failure : Option String)
      → select (tells_end q) (upload_events env now t r failure) ≡ []
  unfolding select
  upload_events-quiet now t r failure = elim (Bool-cases (is_stored r.audio || is_stored r.video)) [
    | inl e ↦ rw e (quiet failure)
    | inr e ↦ rw e (quiet failure)
  ]
    where
      quiet :
          (failure : Option String) → select (tells_end q) (failed_upload env now t failure) ≡ []
      quiet none = refl
      quiet (some reason) = refl

  pub upload-Even :
      (now h : ℕ) (r : Recording) (failure : Option String) (m : Manager)
      → Even m
      → Even (upload env now h r failure m)
  unfolding upload
  upload-Even now h r failure m even = elim (Option-cases (lookup h m.calls)) [
    | inl e ↦ rw (e, upload) even
    | inr (t, e) ↦
        rw (e, upload)
          (publishing-Balanced q m.calls m.published (upload_events env now t r failure) m.next
            (upload_events-quiet now t r failure) even)
  ]
