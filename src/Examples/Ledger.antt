-- ===== src/Examples/Ledger.antt =====
-- Runs of internal/dedupe/store.go.
use whatsmeow_gateway.Base.{
  [], ◌∷◌, Bool, true, false, ◌≡◌, refl, ok, lookup, insert, string_Eq, ◌≢◌,
}
use whatsmeow_gateway.Dedupe.{Store, pending, clean, refused, lost, begin, mark_sent}
use whatsmeow_gateway.Dedupe.Sent.{marks, run, begin_stable, mark_sent-begin}

abbrev empty_store : Store
empty_store = record { sent_messages = []; group_actions = [] }

abbrev sending : Store
sending = record {
  sent_messages = ("message", record { provider_message_id = "3EB0"; status = pending }) ∷ [];
  group_actions = [];
}

begin_stable_example :
    (dup_later : Bool) × ((begin
        (run (begin empty_store clean clean "message" "first").0 (marks clean "message" ∷ []))
        clean
        clean
        "message"
        "second").1
      ≡ ok (dup_later, "first"))
unfolding begin run lookup insert
begin_stable_example =
    begin_stable empty_store (marks clean "message" ∷ []) "message" "first" "second" false "first"
      refl

lost≢refused : lost ≢ refused
lost≢refused h = cc h

mark_sent-begin_example :
    (begin (run (mark_sent sending lost "message").0 []) clean clean "message" "other").1
    ≡ ok (true, "3EB0")
unfolding lookup
mark_sent-begin_example =
    mark_sent-begin sending lost [] "message" "other"
      (record { provider_message_id = "3EB0"; status = pending }) refl lost≢refused
