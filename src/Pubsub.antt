-- ===== src/Pubsub.antt =====
-- The Pub/Sub provider's messages and their local checks: internal/outboxer/pubsub/validation.go,
-- with parsePubsubCandidate and preparePubsubEvent of internal/outboxer/pubsub/sender.go.
pub mod Send
use outboxer.Prelude.{
  ℕ, String, Bool, true, false, ◌&&◌, ◌||◌, not, Option, none, some, List, [], ◌∷◌, ◌++◌, map,
  length, ltb, nat_beq, if◌then◌else◌, is_empty, codes, between, is_alphanumeric, every, same_codes,
  has_prefix, has_part, split_at, to_lower,
}
use outboxer.Errors.{Error}
use outboxer.Value.{Value, Fields, str, no_fields, field, Result, ok, err, to_bytes}
use outboxer.Provider.{
  EventId, Event, Checked, rejected, accepted, add_poison_id, option_string, option_object,
  reject_malformed_options,
}

pub record Message : Type 0 where
  pub topic : String
  pub payload : List ℕ
  pub ordering_key : String
  pub attributes : List (String × String)

abbrev pub pubsub_max_message_data_bytes : ℕ
pubsub_max_message_data_bytes = 10000000

abbrev pub pubsub_max_attributes : ℕ
pubsub_max_attributes = 100

abbrev pub pubsub_max_attribute_key_bytes : ℕ
pubsub_max_attribute_key_bytes = 256

abbrev pub pubsub_max_attribute_value_bytes : ℕ
pubsub_max_attribute_value_bytes = 1024

-- sanitizeStringAttributes: what is kept. The attributes that are dropped are only logged, and the
-- keys of the map are distinct.
unfoldable pub sanitize_string_attributes : Fields → List (String × String)
sanitize_string_attributes no_fields = []
sanitize_string_attributes (field key (str s) m) = (key, s) ∷ sanitize_string_attributes m
sanitize_string_attributes (field key v m) = sanitize_string_attributes m

abbrev pub sanitized : Option Fields → List (String × String)
sanitized none = []
sanitized (some m) = sanitize_string_attributes m

-- No character outside ASCII is lowered to a letter of "goog".
abbrev pub is_reserved : String → Bool
is_reserved s = has_prefix (codes "goog") (map to_lower (codes s))

-- One round of the loop of validPubSubAttributes.
unfoldable pub valid_pubsub_attribute : String × String → Bool
unfolding to_bytes
valid_pubsub_attribute (key, value) =
    not (is_empty key)
    && not (
        ltb pubsub_max_attribute_key_bytes (length (to_bytes key))
        || ltb pubsub_max_attribute_value_bytes (length (to_bytes value)))
    && not (is_reserved key)

abbrev pub every_pubsub_attribute : List (String × String) → Bool
every_pubsub_attribute [] = true
every_pubsub_attribute (a ∷ rest) = valid_pubsub_attribute a && every_pubsub_attribute rest

-- validPubSubAttributes
unfoldable pub valid_pubsub_attributes : List (String × String) → Bool
unfolding valid_pubsub_attribute
valid_pubsub_attributes attributes =
    not (ltb pubsub_max_attributes (length attributes)) && every_pubsub_attribute attributes

abbrev pub is_letter : ℕ → Bool
is_letter c = between b'A' b'Z' c || between b'a' b'z' c

abbrev pub is_topic_char : ℕ → Bool
is_topic_char c =
    is_alphanumeric c
    || nat_beq c b'.'
    || nat_beq c b'_'
    || nat_beq c b'~'
    || nat_beq c b'+'
    || nat_beq c b'%'
    || nat_beq c b'-'

-- pubsubTopicIDPattern
abbrev pub matches_topic_id : List ℕ → Bool
matches_topic_id [] = false
matches_topic_id (c ∷ cs) = is_letter c && between 2 254 (length cs) && every is_topic_char cs

-- validPubSubTopicID
unfoldable pub valid_pubsub_topic_id : List ℕ → Bool
valid_pubsub_topic_id id = not (has_prefix (codes "goog") (map to_lower id)) && matches_topic_id id

abbrev pub valid_parts : List ℕ → List (List ℕ) → Bool
valid_parts topic (a ∷ b ∷ c ∷ d ∷ []) =
    same_codes a (codes "projects")
    && not (nat_beq (length b) 0)
    && same_codes c (codes "topics")
    && valid_pubsub_topic_id d
valid_parts topic _ = not (has_part (codes "/") topic) && valid_pubsub_topic_id topic

-- validPubSubTopic
unfoldable pub valid_pubsub_topic : String → Bool
unfolding valid_pubsub_topic_id
valid_pubsub_topic topic = valid_parts (codes topic) (split_at b'/' (codes topic))

-- pubsubPoisonReason
unfoldable pub pubsub_poison_reason : Message → Option String
unfolding valid_pubsub_attributes valid_pubsub_topic
pubsub_poison_reason m =
    if ltb pubsub_max_message_data_bytes (length m.payload)
    then some "Pub/Sub message data exceeds 10 MB"
    else if nat_beq (length m.payload) 0
        && nat_beq (length m.attributes) 0
        && is_empty m.ordering_key
    then some "Pub/Sub message has no data, attributes, or ordering key"
    else if not (valid_pubsub_attributes m.attributes)
    then some "Pub/Sub attributes exceed provider limits"
    else if not (valid_pubsub_topic m.topic)
    then some "Pub/Sub topic name is syntactically invalid"
    else none

-- pubsubCandidateEvent
pub record PubsubCandidateEvent : Type 0 where
  pub evt : Event
  pub ordering_key : String

-- pubsubPreparedEvent; of its publish log only the id is read back.
pub record PubsubPreparedEvent : Type 0 where
  pub log_id : EventId
  pub message : Message

abbrev pub pubsub_candidate_of : Event → Result String → Checked PubsubCandidateEvent
pubsub_candidate_of evt (err problem) =
    rejected (reject_malformed_options "pubsub" evt "orderingKey" problem)
pubsub_candidate_of evt (ok key) = accepted (record { evt = evt; ordering_key = key })

-- parsePubsubCandidate
unfoldable pub parse_pubsub_candidate : Event → Checked PubsubCandidateEvent
unfolding option_string reject_malformed_options
parse_pubsub_candidate evt = pubsub_candidate_of evt (option_string evt.options "orderingKey")

abbrev pub message_of : PubsubCandidateEvent → Option Fields → Message
message_of c attributes = record {
  topic = c.evt.destination;
  payload = c.evt.payload;
  ordering_key = c.ordering_key;
  attributes = sanitized attributes;
}

-- The last part of preparePubsubEvent, with the reason for which the message is poison.
abbrev pub packed : PubsubCandidateEvent → Message → Option String → Checked PubsubPreparedEvent
packed c m (some reason) = rejected (add_poison_id c.evt.id reason ∷ [])
packed c m none = accepted (record { log_id = c.evt.id; message = m })

abbrev pub with_attributes :
    PubsubCandidateEvent → Result (Option Fields) → Checked PubsubPreparedEvent
with_attributes c (err problem) =
    rejected (reject_malformed_options "pubsub" c.evt "attributes" problem)
with_attributes c (ok attributes) =
    packed c (message_of c attributes) (pubsub_poison_reason (message_of c attributes))

-- preparePubsubEvent
unfoldable pub prepare_pubsub_event : PubsubCandidateEvent → Checked PubsubPreparedEvent
unfolding option_object reject_malformed_options pubsub_poison_reason sanitize_string_attributes
prepare_pubsub_event c = with_attributes c (option_object c.evt.options "attributes")
