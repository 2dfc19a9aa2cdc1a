-- ===== src/Intents/Lookup.antt =====
-- The lookups give back the intent that a message was sent with.
use pod_os_go_client.Prelude.{
  ℕ, ◌≡◌, refl, sym, ap, ◌∙◌, ◌≢◌, inl, inr, Bool, true, ◌||◌, none, some, List, [], ◌∷◌, arith,
  ◌==◌, ==_iff, Bool-cases, some-eq, Bytes, str_eq,
}
use pod_os_go_client.Intents.{
  IntentType, intent, all_intents, first_of_type, intent_from_message_type_and_command,
  intent_from_command, intent_from_response_command, lookup, command_to_intent,
  command_to_response_intent, store_event, store_data, store_batch_events, store_batch_tags,
  get_event, get_events_for_tags, link_event, unlink_event, store_batch_links, store_event_response,
  store_data_response, store_batch_events_response, store_batch_tags_response, get_event_response,
  get_events_for_tags_response, link_event_response, unlink_event_response,
  store_batch_links_response, actor_response,
}

first_of_type-message_type :
    (n : ℕ) (ts : List IntentType) {t : IntentType}
    → first_of_type n ts ≡ some t
    → (intent t).message_type ≡ n
unfolding first_of_type
first_of_type-message_type n [] e = cc
first_of_type-message_type n (x ∷ ts) e = elim (Bool-cases ((intent x).message_type == n)) [
  | inl hit ↦ ap (λ t. (intent t).message_type) (some-eq (rw hit at (sym e))) ∙ (==_iff _ n).0 hit
  | inr miss ↦ first_of_type-message_type n ts (rw miss at e)
]

-- All targets of a table have one message type.
abbrev AllOfType : ℕ → List (Bytes × IntentType) → Type 0
AllOfType n [] = Unit {0}
AllOfType n ((c, t) ∷ m) = ((intent t).message_type ≡ n) × AllOfType n m

lookup-message_type :
    (n : ℕ) (c : Bytes) (m : List (Bytes × IntentType)) {t : IntentType}
    → AllOfType n m
    → lookup c m ≡ some t
    → (intent t).message_type ≡ n
unfolding lookup
lookup-message_type n c [] a e = cc
lookup-message_type n c ((j, x) ∷ m) a e = elim (Bool-cases (str_eq j c)) [
  | inl hit ↦ ap (λ t. (intent t).message_type) (some-eq (rw hit at (sym e))) ∙ a.0
  | inr miss ↦ lookup-message_type n c m a.1 (rw miss at e)
]

request_types : AllOfType 1000 command_to_intent
unfolding command_to_intent intent
request_types = omega arith

response_types : AllOfType 1001 command_to_response_intent
unfolding command_to_response_intent intent
response_types = omega arith

-- Whatever the lookup finds has the message type that was asked for, unless that is RECORD (11),
-- which may also stand for a reply.
pub message_type-found :
    (n : ℕ) (c : Bytes) (t : IntentType)
    → n ≢ 11
    → intent_from_message_type_and_command n c ≡ some t
    → (intent t).message_type ≡ n
unfolding intent_from_message_type_and_command intent_from_command intent_from_response_command
message_type-found n c t h e = elim (Bool-cases (n == 1000)) [
  | inl a ↦
      lookup-message_type 1000 c command_to_intent request_types (rw a at e)
      ∙ sym ((==_iff n 1000).0 a)
  | inr a ↦ elim (Bool-cases (n == 1001)) [
    | inl b ↦
        lookup-message_type 1001 c command_to_response_intent response_types (rw (a, b) at e)
        ∙ sym ((==_iff n 1001).0 b)
    | inr b ↦ elim (Bool-cases (n == 11)) [
      | inl d ↦ absurd (h ((==_iff n 11).0 d))
      | inr d ↦ first_of_type-message_type n all_intents (rw (a, b, d) at e)
    ]
  ]
]

abbrev pub is_neural_memory : IntentType → Bool
is_neural_memory t = (intent t).message_type == 1000 || (intent t).message_type == 1001

-- Every intent of the Neural Memory, request or reply, is found again from its message type and its
-- command.
pub intent_from_message_type_and_command-intent :
    (t : IntentType)
    → is_neural_memory t ≡ true
    → intent_from_message_type_and_command (intent t).message_type (intent t).neural_memory_command
      ≡ some t
unfolding intent_from_message_type_and_command intent
intent_from_message_type_and_command-intent store_event h = refl
intent_from_message_type_and_command-intent store_data h = refl
intent_from_message_type_and_command-intent store_batch_events h = refl
intent_from_message_type_and_command-intent store_batch_tags h = refl
intent_from_message_type_and_command-intent get_event h = refl
intent_from_message_type_and_command-intent get_events_for_tags h = refl
intent_from_message_type_and_command-intent link_event h = refl
intent_from_message_type_and_command-intent unlink_event h = refl
intent_from_message_type_and_command-intent store_batch_links h = refl
intent_from_message_type_and_command-intent store_event_response h = refl
intent_from_message_type_and_command-intent store_data_response h = refl
intent_from_message_type_and_command-intent store_batch_events_response h = refl
intent_from_message_type_and_command-intent store_batch_tags_response h = refl
intent_from_message_type_and_command-intent get_event_response h = refl
intent_from_message_type_and_command-intent get_events_for_tags_response h = refl
intent_from_message_type_and_command-intent link_event_response h = refl
intent_from_message_type_and_command-intent unlink_event_response h = refl
intent_from_message_type_and_command-intent store_batch_links_response h = refl
intent_from_message_type_and_command-intent _ h = cc

-- No command makes the lookup recognise message type 30, the type of `ActorResponse`: the slice
-- that is searched does not hold that intent.
pub actor_response-unknown :
    (c : Bytes) → intent_from_message_type_and_command (intent actor_response).message_type c ≡ none
unfolding intent_from_message_type_and_command intent
actor_response-unknown c = refl
