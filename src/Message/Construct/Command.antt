-- ===== src/Message/Construct/Command.antt =====
-- The intent of a Neural Memory request is found again from its header.
use pod_os_go_client.Prelude.{
  ℕ, suc, ◌≡◌, refl, sym, subst, ap, ◌∙◌, true, Option, none, some, List, [], ◌∷◌, ◌++◌, Bytes,
  codes, take, drop,
}
use pod_os_go_client.Prelude.Result.{Result, ok, panic, ok-eq}
use pod_os_go_client.Message.Header.Link.{
  batch_link_events_message_header, link_events_message_header, link_slots,
  unlink_events_message_header, unlink_slots,
}
use pod_os_go_client.Message.Header.Get.{
  get_event_message_header, get_events_for_tag_message_header, search_slots, tag_search_slots,
  event_slots, option_slots,
}
use pod_os_go_client.Message.{
  get_event_opts, get_events_for_tags_opts, link_of, GetEventsForTagsOptions, Message, EventFields,
  GetEventOptions, tags_of, Externals, Tag,
}
use pod_os_go_client.Message.Header.Store.{
  store_batch_events_message_header, store_batch_tags_message_header, store_batch_tags_slots,
  store_data_message_header, store_data_slots, store_event_slots, store_event_message_header,
  tag_slots,
}
use pod_os_go_client.Message.Construct.{construct_by_name, construct_header}
use pod_os_go_client.Message.Header.Lookup.{absent_slots, no_command}
use pod_os_go_client.Intents.{intent, IntentType}
use pod_os_go_client.Message.Header.{nonempty, HeaderText, Slot}
use pod_os_go_client.Message.Header.Decode.{
  AllKeys-append, all_keys-AllKeys, tag_slots-AllKeys, all_keys, is_key, AllKeys,
}
use pod_os_go_client.Wire.Encoder.{EncodeError}
use pod_os_go_client.Message.Format.{tag_name}

-- A header that starts with the command and has no other key for one.
abbrev pub IsRequest : Bytes → HeaderText → Type 0
IsRequest c h =
    (ss : List Slot) × (h.slots ≡ (codes "_db_cmd", some c) ∷ ss)
    × (no_command ss ≡ true)
    × AllKeys ss

-- The key of a tag starts with a `t`.
tag_slots-absent :
    (k : Bytes) (x : Externals) (i : ℕ) (ts : List Tag)
    → absent_slots (b'_' ∷ k) (tag_slots x i ts) ≡ true
unfolding tag_slots tag_name
tag_slots-absent k x i [] = refl
tag_slots-absent k x i (t ∷ ts) = tag_slots-absent k x (suc i) ts

no_command-tag_slots : (x : Externals) (ts : List Tag) → no_command (tag_slots x 1 ts) ≡ true
no_command-tag_slots x ts = rw (tag_slots-absent (codes "type") x 1 ts) (
    rw (tag_slots-absent (codes "command") x 1 ts)
      (rw (tag_slots-absent (codes "db_cmd") x 1 ts) refl))

slots-IsRequest :
    (c : Bytes) (ss : List Slot) (o : Option Bytes)
    → no_command ss ≡ true
    → all_keys ss ≡ true
    → IsRequest c (record { slots = (codes "_db_cmd", some c) ∷ ss; last_id = o })
slots-IsRequest c ss o e k = (ss, refl, e, all_keys-AllKeys ss k)

-- The requests to the Neural Memory.
pub data IsMemoryRequest : IntentType → Type 0 where
  is_store_event : IsMemoryRequest IntentType.store_event
  is_store_data : IsMemoryRequest IntentType.store_data
  is_store_batch_events : IsMemoryRequest IntentType.store_batch_events
  is_store_batch_tags : IsMemoryRequest IntentType.store_batch_tags
  is_get_event : IsMemoryRequest IntentType.get_event
  is_get_events_for_tags : IsMemoryRequest IntentType.get_events_for_tags
  is_link_event : IsMemoryRequest IntentType.link_event
  is_unlink_event : IsMemoryRequest IntentType.unlink_event
  is_store_batch_links : IsMemoryRequest IntentType.store_batch_links

get_slots-keys :
    (e : Option EventFields) (o : Option GetEventOptions)
    → all_keys (event_slots e ++ option_slots o) ≡ true
unfolding event_slots option_slots is_key
get_slots-keys none none = refl
get_slots-keys none (some o) = refl
get_slots-keys (some e) none = refl
get_slots-keys (some e) (some o) = refl

get_slots-no_command :
    (e : Option EventFields) (o : Option GetEventOptions)
    → no_command (event_slots e ++ option_slots o) ≡ true
unfolding event_slots option_slots
get_slots-no_command none none = refl
get_slots-no_command none (some o) = refl
get_slots-no_command (some e) none = refl
get_slots-no_command (some e) (some o) = refl

search_slots-keys : (o : Option GetEventsForTagsOptions) → all_keys (tag_search_slots o) ≡ true
unfolding tag_search_slots search_slots is_key
search_slots-keys none = refl
search_slots-keys (some o) = refl

search_slots-no_command :
    (o : Option GetEventsForTagsOptions) → no_command (tag_search_slots o) ≡ true
unfolding tag_search_slots search_slots
search_slots-no_command none = refl
search_slots-no_command (some o) = refl

-- A header function that follows a pointer has a header only for a pointer that is not nil.
follow-ok :
    {A : Type 0} (P : HeaderText → Type 0) (o : Option A) (f : A → HeaderText) (h : HeaderText)
    → ((a : A) → P (f a))
    → ◌≡◌ {A = Result EncodeError HeaderText} (elim o [ none ↦ panic | some a ↦ ok (f a) ]) (ok h)
    → P h
follow-ok P none f h all e = cc
follow-ok P (some a) f h all e = subst P (ok-eq e) (all a)

follow :
    {A : Type 0} (P : HeaderText → Type 0) (o : Option A) (f : A → Result EncodeError HeaderText)
    (h : HeaderText)
    → ((a : A) → f a ≡ ok h → P h)
    → ◌≡◌ {A = Result EncodeError HeaderText} (elim o [ none ↦ panic | some a ↦ f a ]) (ok h)
    → P h
follow P none f h all e = cc
follow P (some a) f h all e = all a e

store_event_header-IsRequest :
    (x : Externals) (m : Message) (h : HeaderText)
    → store_event_message_header x m ≡ ok h
    → IsRequest (codes "store") h
unfolding store_event_message_header is_key
store_event_header-IsRequest x m h e =
    follow-ok (IsRequest (codes "store")) m.event _ h
      (λ v. (
        drop 1 (store_event_slots x m v),
        refl,
        no_command-tag_slots x (tags_of m),
        AllKeys-append (take 8 (drop 1 (store_event_slots x m v))) (tag_slots x 1 (tags_of m)) refl
            (tag_slots-AllKeys x 1 (tags_of m)),
      ))
      e

store_data_header-IsRequest :
    (x : Externals) (m : Message) (h : HeaderText)
    → store_data_message_header x m ≡ ok h
    → IsRequest (codes "store_data") h
unfolding store_data_message_header is_key
store_data_header-IsRequest x m h e =
    follow-ok (IsRequest (codes "store_data")) m.event _ h
      (λ v. slots-IsRequest _ (drop 1 (store_data_slots x m v)) (nonempty m.message_id) refl refl) e

store_batch_tags_header-IsRequest :
    (m : Message) (h : HeaderText)
    → store_batch_tags_message_header m ≡ ok h
    → IsRequest (codes "tag_store_batch") h
unfolding store_batch_tags_message_header is_key
store_batch_tags_header-IsRequest m h e =
    follow-ok (IsRequest (codes "tag_store_batch")) m.event _ h
      (λ v. slots-IsRequest _ (drop 1 (store_batch_tags_slots v)) (nonempty m.message_id) refl refl)
      e

unlink_header-IsRequest :
    (m : Message) (h : HeaderText)
    → unlink_events_message_header m ≡ ok h
    → IsRequest (codes "unlink") h
unfolding unlink_events_message_header is_key
unlink_header-IsRequest m h e =
    follow-ok (IsRequest (codes "unlink")) (link_of m) _ h
      (λ l. slots-IsRequest _ (drop 1 (unlink_slots m l)) none refl refl) e

link_header-IsRequest :
    (x : Externals) (m : Message) (h : HeaderText)
    → link_events_message_header x m ≡ ok h
    → IsRequest (codes "link") h
unfolding link_events_message_header is_key
link_header-IsRequest x m h e =
    follow (IsRequest (codes "link")) m.event _ h
      (λ v ev.
        follow-ok (IsRequest (codes "link")) (link_of m) _ h
          (λ l. slots-IsRequest _ (drop 1 (link_slots x m v l)) none refl refl) ev)
      e

by_name-IsRequest :
    (x : Externals) (m : Message) (t : IntentType) (h : HeaderText)
    → IsMemoryRequest t
    → construct_by_name x m (intent t).name ≡ ok h
    → IsRequest (intent t).neural_memory_command h
unfolding construct_by_name intent store_batch_events_message_header
    batch_link_events_message_header get_event_message_header get_events_for_tag_message_header
    is_key
by_name-IsRequest x m _ h is_store_event e = store_event_header-IsRequest x m h e
by_name-IsRequest x m _ h is_store_data e = store_data_header-IsRequest x m h e
by_name-IsRequest x m _ h is_store_batch_events e =
    subst (IsRequest (codes "store_batch")) (ok-eq e)
      (slots-IsRequest _ ((codes "_msg_id", nonempty m.message_id) ∷ []) none refl refl)
by_name-IsRequest x m _ h is_store_batch_tags e = store_batch_tags_header-IsRequest m h e
by_name-IsRequest x m _ h is_get_event e = subst (IsRequest (codes "get")) (ok-eq e) (
    slots-IsRequest _ (event_slots m.event ++ option_slots (get_event_opts m))
      (nonempty m.message_id) (get_slots-no_command m.event (get_event_opts m))
      (get_slots-keys m.event (get_event_opts m)))
by_name-IsRequest x m _ h is_get_events_for_tags e =
    subst (IsRequest (codes "events_for_tag")) (ok-eq e) (
      slots-IsRequest _ (tag_search_slots (get_events_for_tags_opts m)) (nonempty m.message_id)
        (search_slots-no_command (get_events_for_tags_opts m))
        (search_slots-keys (get_events_for_tags_opts m)))
by_name-IsRequest x m _ h is_link_event e = link_header-IsRequest x m h e
by_name-IsRequest x m _ h is_unlink_event e = unlink_header-IsRequest m h e
by_name-IsRequest x m _ h is_store_batch_links e =
    subst (IsRequest (codes "link_batch")) (ok-eq e)
      (slots-IsRequest _ [] (nonempty m.message_id) refl refl)

-- The header of StoreBatchEvents has no MIME type.
pub store_batch-absent :
    (x : Externals) (m : Message) (h : HeaderText)
    → m.intent ≡ intent IntentType.store_batch_events
    → construct_header x m ≡ ok h
    → (absent_slots (codes "mime") h.slots ≡ true)
      × (absent_slots (codes "_mimetype") h.slots ≡ true)
unfolding construct_header construct_by_name intent store_batch_events_message_header
store_batch-absent x m h i e =
    subst
      (λ (k : HeaderText).
        (absent_slots (codes "mime") k.slots ≡ true)
        × (absent_slots (codes "_mimetype") k.slots ≡ true))
      (ok-eq (sym (ap (λ j. construct_by_name x m j.name) i) ∙ e)) (refl, refl)

-- `ConstructHeader` gives a Neural Memory request a header that starts with its command.
pub construct_header-IsRequest :
    (x : Externals) (m : Message) (t : IntentType) (h : HeaderText)
    → IsMemoryRequest t
    → m.intent ≡ intent t
    → construct_header x m ≡ ok h
    → IsRequest (intent t).neural_memory_command h
unfolding construct_header
construct_header-IsRequest x m t h r i e =
    by_name-IsRequest x m t h r (sym (ap (λ j. construct_by_name x m j.name) i) ∙ e)
