-- ===== src/Message/Encode/Safe.antt =====
-- Steps that do not panic, and the guards of `EncodeMessage` among them.
use pod_os_go_client.Prelude.{
  ◌≡◌, refl, ◌≢◌, Bool, true, false, ◌||◌, Option, none, some, if◌then◌else◌, Bytes, none_ne_some,
}
use pod_os_go_client.Prelude.Result.{Result, ok, err, panic, ◌>>=◌, guard}
use pod_os_go_client.Message.Encode.{check_payload_size}
use pod_os_go_client.Wire.Encoder.{check_from, check_to, encode_frame, EncodeError}
use pod_os_go_client.Message.{
  Data, LinkFields, batch_event_specs, batch_link_event_specs, byte_slice, nil, other_type, string,
  string_slice, tag_list, tag_slice,
}
use pod_os_go_client.Message.Format.{require_link_wire_fields}
use pod_os_go_client.Wire.{Frame}

abbrev pub Safe {ℓ} : {A : Type ℓ} → Result EncodeError A → Type ℓ
Safe r = r ≢ panic

pub ok-Safe {ℓ} : {A : Type ℓ} (a : A) → Safe (ok a)
ok-Safe a e = cc

pub err-Safe {ℓ} : {A : Type ℓ} (r : EncodeError) → Safe {A = A} (err r)
err-Safe r e = cc

pub if-Safe {ℓ} :
    {A : Type ℓ} (c : Bool) {s t : Result EncodeError A}
    → Safe s
    → Safe t
    → Safe (if c then s else t)
if-Safe true hs ht = hs
if-Safe false hs ht = ht

pub guard-Safe : (c : Bool) (r : EncodeError) → Safe (guard c r)
guard-Safe false r e = cc
guard-Safe true r e = cc

pub >>=-Safe {ℓ κ} :
    {A : Type ℓ} {B : Type κ} (first : Result EncodeError A) (rest : A → Result EncodeError B)
    → Safe first
    → ((a : A) → Safe (rest a))
    → Safe (first >>= rest)
>>=-Safe panic rest hf hr = absurd (hf refl)
>>=-Safe (err r) rest hf hr = err-Safe r
>>=-Safe (ok a) rest hf hr = hr a

pub check_to-Safe : (s : Bytes) → Safe (check_to s)
unfolding check_to
check_to-Safe s = search (>>=-Safe, guard-Safe)

pub check_from-Safe : (s : Bytes) → Safe (check_from s)
unfolding check_from
check_from-Safe s = search (>>=-Safe, guard-Safe)

pub encode_frame-Safe : (f : Frame) → Safe (encode_frame f)
unfolding encode_frame
encode_frame-Safe f = search (>>=-Safe, guard-Safe, ok-Safe, check_to-Safe, check_from-Safe)

pub check_payload_size-Safe : (d : Data) → Safe (check_payload_size d)
unfolding check_payload_size
check_payload_size-Safe nil = ok-Safe _
check_payload_size-Safe other_type = ok-Safe _
check_payload_size-Safe (string s) = guard-Safe _ _
check_payload_size-Safe (byte_slice s) = guard-Safe _ _
check_payload_size-Safe (string_slice ss) = ok-Safe _
check_payload_size-Safe (batch_event_specs es) = guard-Safe _ _
check_payload_size-Safe (batch_link_event_specs ls) = ok-Safe _
check_payload_size-Safe (tag_list ts) = ok-Safe _
check_payload_size-Safe (tag_slice ts) = ok-Safe _

pub require_link_wire_fields-Safe : (l : LinkFields) → Safe (require_link_wire_fields l)
unfolding require_link_wire_fields
require_link_wire_fields-Safe l = search (if-Safe, err-Safe, ok-Safe)

pub follow-Safe :
    {A B : Type 0} (o : Option A) (f : A → Result EncodeError B) {a : A}
    → o ≡ some a
    → ((b : A) → Safe (f b))
    → Safe (elim o [ none ↦ panic | some b ↦ f b ])
follow-Safe none f e h = absurd (none_ne_some e)
follow-Safe (some b) f e h = h b

pub five-Safe :
    {A : Type 0} (a b c d e : Bool) {r s t u v w : Result EncodeError A}
    → Safe r
    → Safe s
    → Safe t
    → Safe u
    → Safe v
    → ((a || (b || (c || (d || e)))) ≡ false → Safe w)
    → Safe (if a then r else if b then s else if c then t else if d then u else if e then v else w)
five-Safe true b c d e hr hs ht hu hv hw = hr
five-Safe false true c d e hr hs ht hu hv hw = hs
five-Safe false false true d e hr hs ht hu hv hw = ht
five-Safe false false false true e hr hs ht hu hv hw = hu
five-Safe false false false false true hr hs ht hu hv hw = hv
five-Safe false false false false false hr hs ht hu hv hw = hw refl
