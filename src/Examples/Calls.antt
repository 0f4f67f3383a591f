-- ===== src/Examples/Calls.antt =====
-- Runs of internal/call.
use whatsmeow_gateway.Base.{
  ℕ, ◌≤◌, List, [], ◌∷◌, false, Option, none, some, ◌≡◌, refl, arith, All, length, select,
  string_Eq, nat_Eq, ◌==◌, lookup, retain, ok, err, drop, ◌⊎◌, inl,
}
use whatsmeow_gateway.Call.Outbound.{Outbound, read}
use whatsmeow_gateway.Call.Outbound.Playing.{
  Plays, Tidy, writes, perform, read-Plays, perform-Tidy, joined,
}
use whatsmeow_gateway.Call.AnnexB.{NalStart, nal_starts, split_annex_b}
use whatsmeow_gateway.Call.AnnexB.Units.{split_annex_b-lossless}
use whatsmeow_gateway.Call.Registry.{LiveCall}
use whatsmeow_gateway.Call.Manager.{Surroundings, new_manager}
use whatsmeow_gateway.Call.Command.{CallCommand, placing, dial, Caller}
use whatsmeow_gateway.Call.Dispatch.{Fetch, dispatch}
use whatsmeow_gateway.Call.Dispatch.Answers.{Answers}
use whatsmeow_gateway.Call.Cooldown.{Reservation, new_cooldown, allow}
use whatsmeow_gateway.Call.Cooldown.Window.{asks, use_all, allow-once}
use whatsmeow_gateway.Call.Ending.{
  Which, tells_end, has_ended, tally, Operation, perform_all, takes_incoming, dispatches,
  aborts_all,
}
use whatsmeow_gateway.Call.Ending.Once.{ends_told_once}
use whatsmeow_gateway.Call.Ending.Answered.{perform_all-Answers}
use whatsmeow_gateway.Call.Ending.Aborts.{Over, perform_all-Over}
use whatsmeow_gateway.Call.Lifecycle.{abort_channel, take_incoming}
use whatsmeow_gateway.Call.Registry.{register, registered}
use whatsmeow_gateway.Call.Manager.{new_tracked}
use whatsmeow_gateway.Base.{insert}

abbrev surroundings : Surroundings
surroundings = record {
  identity = λ channel_id. record { phone_number_id = "number"; tenant_id = "tenant" };
  parse_jid = λ text. none;
  pn_for_lid = λ channel_id. none;
  picture_of = λ channel_id address. none;
  record_calls = false;
}

abbrev incoming_call : LiveCall
incoming_call = record {
  id = "call";
  peer = "55";
  is_video = false;
  early_end = none;
  perform = λ action. none;
}

abbrev caller : Caller
caller = record {
  call = λ to video. ok (record incoming_call { id = "dialled"; early_end = some "busy" });
  group_call = λ targets group video. err "no";
  group_call_by_id = λ group video. err "no";
  create_call_link = λ video. err "no";
  preview_call_link = λ token video. err "no";
  join_call_link = λ token video. err "no";
}

abbrev command : CallCommand
command = record {
  tenant_id = "tenant";
  channel_id = "channel";
  command_id = "command";
  call_id = "call";
  action = placing dial;
  to = "55";
  targets = [];
  group_id = "";
  video = false;
  media_url = "";
  link_token = "";
  recorded = none;
}

abbrev fetch : Fetch
fetch url = err "no"

abbrev happenings : List Operation
happenings =
    takes_incoming 7 "channel" incoming_call
    ∷ dispatches 8 (some caller) fetch command
    ∷ aborts_all 9 "shutdown"
    ∷ []

perform_all-Answers_example :
    let m = perform_all surroundings happenings new_manager in
    Answers command m (dispatch surroundings 10 (some caller) fetch command m)
perform_all-Answers_example =
    perform_all-Answers surroundings happenings 10 (some caller) fetch command

abbrev one_call : List Operation
one_call = takes_incoming 7 "channel" incoming_call ∷ []

perform_all-Over_example :
    let after =
      abort_channel surroundings 9 "channel" "logged out"
        (perform_all surroundings one_call new_manager) in
    Over 0 after × (registered "channel" "call" after.registry ≡ none)
unfolding take_incoming new_tracked register registered lookup insert
perform_all-Over_example =
    perform_all-Over surroundings one_call 9 "channel" "call" "logged out" 0 refl

abbrev on_channel : Which
on_channel channel_id call_id = channel_id == "channel"

ends_told_once_example :
    let m = perform_all surroundings happenings new_manager in
    length (select (tells_end on_channel) m.published) ≡ tally (has_ended on_channel) m.calls
ends_told_once_example = ends_told_once surroundings happenings on_channel

abbrev allowed : Option Reservation
allowed = some (record { keys = "channel|lid" ∷ "channel|pn" ∷ []; token = 1 })

allow-once_example :
    (allow 150 "channel" ("pn" ∷ []) (
      use_all
        (asks 120 "channel" ("lid" ∷ []) ∷ [])
        (allow 100 "channel" ("lid" ∷ "pn" ∷ []) (new_cooldown 600)).1)).0
    ≡ none
unfolding allow retain lookup
allow-once_example =
    allow-once 100 150 "channel" "channel" ("lid" ∷ "pn" ∷ []) ("pn" ∷ []) "channel|pn"
      (asks 120 "channel" ("lid" ∷ []) ∷ []) (new_cooldown 600)
      (record { keys = "channel|lid" ∷ "channel|pn" ∷ []; token = 1 }) refl refl refl
      (omega arith, tt) (omega arith)

abbrev streaming : Outbound
streaming = record {
  closed = false;
  announcement = [];
  queue = (3 ∷ 4 ∷ []) ∷ (5 ∷ []) ∷ [];
  pending = 1 ∷ [];
}

streaming-Tidy : Tidy streaming
streaming-Tidy = (omega arith, inl refl)

read-Plays_example : Plays 3 streaming (read 3 streaming).0 (read 3 streaming).1
read-Plays_example = read-Plays 3 streaming refl streaming-Tidy

perform-Tidy_example : Tidy (perform (writes (9 ∷ [])) streaming)
perform-Tidy_example = perform-Tidy (writes (9 ∷ [])) streaming streaming-Tidy

abbrev video : List ℕ
video = 0 ∷ 0 ∷ 1 ∷ 101 ∷ 9 ∷ 0 ∷ 0 ∷ 1 ∷ 65 ∷ 8 ∷ []

split_annex_b-lossless_example :
    ((nal_starts 0 video ≡ []) × (split_annex_b video ≡ []))
    ⊎ ((first : NalStart) × (later : List NalStart) × (nal_starts 0 video ≡ first ∷ later)
        × (joined (split_annex_b video) ≡ drop first.offset video)
        × All (λ unit. 1 ≤ length unit) (split_annex_b video))
split_annex_b-lossless_example = split_annex_b-lossless video
