-- ===== src/Examples/Members.antt =====
-- Runs of internal/groups and of the pacer of internal/gateway/groups.go.
use whatsmeow_gateway.Groups.Orientation.{
  exif_orientation, scan, tiff_orientation, find_entry, uint16, uint32, Picture, orient,
}
use whatsmeow_gateway.Groups.Orientation.Reading.{Safe, IsOrientation, exif_orientation-Safe}
use whatsmeow_gateway.Groups.Orientation.Turning.{
  undoing, orient-orient, orient-upright, distance, top, right,
}
use whatsmeow_gateway.Base.{ℕ, List, ◌*◌}
use whatsmeow_gateway.Base.{
  ◌+◌, ◌≤◌, [], ◌∷◌, true, false, none, some, ◌≡◌, refl, arith, All, length, contains, list_Eq,
  nat_Eq, if◌then◌else◌, ok, err, ◌↔◌, lookup, insert, retain, string_Eq,
}
use whatsmeow_gateway.Amqp.RpcErrors.{GoError, plain_error}
use whatsmeow_gateway.Groups.Errors.{
  classify, is_unavailable, IsOutOfReach, is_unavailable-classify,
}
use whatsmeow_gateway.Groups.Phones.{
  Digits, brazilian_sibling, wanted_phones, contains-wanted_phones,
}
use whatsmeow_gateway.Groups.Service.{
  Jid, default_user, hidden_user, group, GroupClient, Participant, remove_participants, Params,
  apply, self_of,
}
use whatsmeow_gateway.Groups.Service.Removal.{Concerns, apply-Harmless}
use whatsmeow_gateway.Gateway.Pacer.{Pace, wait, touch, touch_all, group_gap_min, wait-touch}

abbrev lost_connection : GoError
lost_connection = record (plain_error "websocket disconnected") { disconnected = true }

is_unavailable-classify_example :
    (is_unavailable (classify lost_connection) ≡ true)
    ↔ ((lost_connection.invalid_image_format ≡ false) × IsOutOfReach lost_connection)
is_unavailable-classify_example = is_unavailable-classify lost_connection refl

-- 55 11 3123-4567 and the same with the ninth digit.
abbrev short_number : Digits
short_number = 53 ∷ 53 ∷ 49 ∷ 49 ∷ 51 ∷ 49 ∷ 50 ∷ 51 ∷ 52 ∷ 53 ∷ 54 ∷ 55 ∷ []

abbrev long_number : Digits
long_number = 53 ∷ 53 ∷ 49 ∷ 49 ∷ 57 ∷ 51 ∷ 49 ∷ 50 ∷ 51 ∷ 52 ∷ 53 ∷ 54 ∷ 55 ∷ []

contains-wanted_phones_example :
    contains long_number (wanted_phones (short_number ∷ []))
    ≡ contains long_number (wanted_phones (long_number ∷ []))
unfolding brazilian_sibling
contains-wanted_phones_example = contains-wanted_phones short_number long_number [] long_number refl

abbrev person : Digits → Jid
person digits = record { user = digits; server = default_user }

abbrev member : Digits → Participant
member digits = record {
  jid = person digits;
  phone_number = person digits;
  lid = person [];
  error = 0;
}

abbrev the_group : Jid
the_group = record { user = 49 ∷ []; server = group }

abbrev client : GroupClient
client = record {
  get_group_info = λ jid. ok (record {
    jid = jid;
    name = "team";
    topic = "";
    topic_id = "";
    is_announce = false;
    participant_count = 2;
    participants = member short_number ∷ member (49 ∷ 50 ∷ []) ∷ [];
  });
  create_group = λ name announced. err (plain_error "not created");
  set_group_announce = λ jid announced. none;
  set_group_name = λ jid name. none;
  set_group_topic = λ jid old new. none;
  set_group_photo = λ jid photo. none;
  update_group_participants = λ jid targets. ok [];
  pn_for_lid = λ jid. ok none;
  device_jid = some (person (49 ∷ 50 ∷ []));
  device_lid = record { user = []; server = hidden_user };
}

abbrev params : Params
params = record {
  phones = long_number ∷ (49 ∷ 50 ∷ []) ∷ [];
  name = "";
  description = "";
  photo_url = "";
}

apply-Harmless_example :
    (length (apply client remove_participants the_group params []).0 ≤ 1)
    × All
        (Concerns (self_of client) the_group)
        (apply client remove_participants the_group params []).0
apply-Harmless_example = apply-Harmless client remove_participants the_group params []

abbrev soon : Pace
soon = record { now = 1000; jitter = 5; interrupted = false }

wait-touch_example : 900 + group_gap_min ≤ 300000905
unfolding wait touch touch_all lookup insert retain
wait-touch_example =
    wait-touch [] "channel" 900 (("other", 950) ∷ []) soon {t = 300000905}
      (((λ e. absurd (ground (arith, (string_Eq.same_iff "other" "channel").1 e))), omega arith), tt) refl

-- A small JPEG that asks for a quarter turn.
abbrev turned_jpeg : List ℕ
turned_jpeg =
    0xFF ∷ 0xD8 ∷ 0xFF ∷ 0xE1 ∷ 0 ∷ 34 ∷ 69 ∷ 120 ∷ 105 ∷ 102 ∷ 0 ∷ 0 ∷ 77 ∷ 77 ∷ 0 ∷ 42 ∷ 0 ∷ 0 ∷ 0
    ∷ 8 ∷ 0 ∷ 1 ∷ 1 ∷ 0x12 ∷ 0 ∷ 3 ∷ 0 ∷ 0 ∷ 0 ∷ 1 ∷ 0 ∷ 6 ∷ 0 ∷ 0 ∷ 0 ∷ 0 ∷ 0 ∷ 0 ∷ []

exif_of_turned : exif_orientation turned_jpeg ≡ ok 6
unfolding exif_orientation scan tiff_orientation find_entry uint16 uint32
exif_of_turned = refl

exif_orientation-Safe_example : Safe IsOrientation (exif_orientation turned_jpeg)
exif_orientation-Safe_example = exif_orientation-Safe turned_jpeg

abbrev picture : Picture ℕ
picture = record { size = 4; pixel = λ x y. x * 10 + y }

orient-orient_example :
    (orient 0 (orient 0 picture 6) (undoing 6)).pixel 1 3 ≡ picture.pixel 1 3
orient-orient_example =
    orient-orient 0 picture 6 1 3 (omega arith) (omega arith) (omega arith) (omega arith)

orient-upright_example :
    let turned = orient 0 picture 6 in
    (turned.size ≡ 4) × (turned.pixel 0 1 ≡ picture.pixel (distance 4 top 0 1) (distance 4 right 0 1))
orient-upright_example =
    orient-upright 0 picture 6 0 1 (omega arith) (omega arith) (omega arith) (omega arith)
