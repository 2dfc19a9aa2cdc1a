-- ===== src/Message/Header/Gateway.antt =====
-- The headers of the messages to a gateway or an actor, of message/header.go.
use pod_os_go_client.Prelude.{Option, none, some, List, [], ◌∷◌, Bytes, codes}
use pod_os_go_client.Message.{Message}
use pod_os_go_client.Message.Header.{HeaderText, nonempty, or_default}

-- `id:passcode` and `id:user` are written when neither is empty.
abbrev both : Bytes → Bytes → Bytes → Option Bytes
both [] b v = none
both (c ∷ a) [] v = none
both (c ∷ a) (d ∷ b) v = some v

unfoldable pub gateway_identify_connection_header : Message → HeaderText
gateway_identify_connection_header m = record {
  slots =
      (codes "id:passcode", both m.passcode m.user_name m.passcode)
      ∷ (codes "id:user", both m.passcode m.user_name m.user_name)
      ∷ (codes "id:name", some m.client_name)
      ∷ [];
  last_id = nonempty m.message_id;
}

-- The body of `GatewayStreamOnHeader`, `GatewayDisconnectHeader`, `GatewayStreamOffHeader` and
-- `StatusRequestHeader`.
unfoldable pub id_only_header : Message → HeaderText
id_only_header m = record { slots = []; last_id = nonempty m.message_id }

unfoldable pub actor_request_header : Message → HeaderText
actor_request_header m = record {
  slots = (codes "_type", some (codes "status")) ∷ [];
  last_id = nonempty m.message_id;
}

abbrev status_slots : Option (Bytes × Bytes) → List (Bytes × Option Bytes)
status_slots none = (codes "_status", some (codes "OK")) ∷ []
status_slots (some (status, text)) =
    (codes "_status", some (or_default status (codes "OK"))) ∷ (codes "_msg", nonempty text) ∷ []

unfoldable pub status_header : Message → HeaderText
status_header m = record { slots = status_slots m.response; last_id = nonempty m.message_id }

-- The id is written even when it is empty.
unfoldable pub actor_echo_header : Message → HeaderText
actor_echo_header m = record { slots = []; last_id = some m.message_id }
