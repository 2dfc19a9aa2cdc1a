-- ===== src/Payload/Reply.antt =====
-- The switch of `DecodeMessage` on the intent, for the replies to a batch, and message/batch_status.go.
use pod_os_go_client.Prelude.{
  ℕ, Bool, false, Option, none, some, [], Bytes, codes, ltb, str_eq, ◌||◌, if◌then◌else◌,
}
use pod_os_go_client.Prelude.Int.{ℤ, pos, negsuc}
use pod_os_go_client.Prelude.Result.{Result, ok, ◌>>=◌}
use pod_os_go_client.Intents.{
  IntentType, store_batch_events, store_batch_events_response, store_batch_links,
  store_batch_links_response,
}
use pod_os_go_client.Text.{equal_fold, trim_space}
use pod_os_go_client.Wire.Decoder.{
  DecodeError, Message, PayloadData, binary, decode_message, no_data, text,
}
use pod_os_go_client.Payload.Batch.{
  StoreBatchEventRecord, StoreLinkBatchEventRecord, no_events, no_links,
  parse_link_event_batch_payload, parse_store_batch_events_payload,
}

-- The two batch records of `ResponseFields`.
pub record BatchRecords : Type 0 where
  pub events : StoreBatchEventRecord
  pub links : StoreLinkBatchEventRecord

abbrev pub no_records : BatchRecords
no_records = record { events = no_events; links = no_links }

abbrev links_records : Option StoreLinkBatchEventRecord → BatchRecords
links_records none = no_records
links_records (some r) = record no_records { links = r }

abbrev events_records : PayloadData → Result DecodeError BatchRecords
events_records p = do r ← parse_store_batch_events_payload p; ok (record no_records { events = r })

-- The two cases of the switch that fill a batch record.
abbrev parse_batch : (Bytes → Option ℕ) → IntentType → PayloadData → Result DecodeError BatchRecords
parse_batch parse_float store_batch_events p = events_records p
parse_batch parse_float store_batch_events_response p = events_records p
parse_batch parse_float store_batch_links p =
    ok (links_records (parse_link_event_batch_payload parse_float p))
parse_batch parse_float store_batch_links_response p =
    ok (links_records (parse_link_event_batch_payload parse_float p))
parse_batch parse_float t p = ok no_records

-- Without a payload the switch is not reached.
unfoldable pub parse_batch_payload :
    (Bytes → Option ℕ) → IntentType → PayloadData → Result DecodeError BatchRecords
unfolding parse_store_batch_events_payload parse_link_event_batch_payload
parse_batch_payload parse_float t no_data = ok no_records
parse_batch_payload parse_float t (text s) = parse_batch parse_float t (text s)
parse_batch_payload parse_float t (binary s) = parse_batch parse_float t (binary s)

-- `DecodeMessage`, with the records of a batch.
unfoldable pub decode_batch_reply :
    (Bytes → Option ℕ) → Bytes → Result DecodeError (Message × BatchRecords)
unfolding decode_message parse_batch_payload
decode_batch_reply parse_float b = do
  m ← decode_message b
  r ← parse_batch_payload parse_float m.intent m.payload
  ok (m, r)

abbrev is_error_status : Bytes → Bool
is_error_status status = equal_fold (trim_space status) (codes "ERROR")

abbrev is_positive : ℤ → Bool
is_positive (pos n) = ltb 0 n
is_positive (negsuc n) = false

abbrev pub failure_text : Bytes → Bytes → Bytes
failure_text message default =
    let text = trim_space message in if str_eq text [] then default else text

-- The text of the error, if there is one. A message or a response that is nil has no record.
unfoldable pub batch_links_failed : Option StoreLinkBatchEventRecord → Option Bytes
unfolding equal_fold trim_space
batch_links_failed none = none
batch_links_failed (some r) =
    if is_error_status r.status || is_positive r.links_with_errors
    then some (failure_text r.message (codes "link store failed"))
    else none

unfoldable pub batch_events_failed : Option StoreBatchEventRecord → Option Bytes
unfolding equal_fold trim_space
batch_events_failed none = none
batch_events_failed (some r) =
    if is_error_status r.status
    then some (failure_text r.message (codes "batch event store failed"))
    else none
