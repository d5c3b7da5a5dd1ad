-- ===== src/Realtime/Protocol.antt =====
-- Messages and the configuration of a join (internal/realtime/protocol.go). A message keeps its
-- payload as the values that Go holds; encoding to JSON and decoding are not modelled.
unfoldable pub use sblite.Values.{get_field, as_text, as_map, as_bool, as_items}
pub use sblite.Values.{
  Any, Items, Fields, nil, bool, int, int64, float, text, arr, obj, end, item, done, field,
}
unfoldable pub use sblite.Values.{set_field}
use sblite.Prelude.{ℕ, Text, codes, Option, none, some, List, [], ◌∷◌, Bool, false}

-- `payload` is `none` for the nil map.
pub record Message : Type 0 where
  pub event : Text
  pub topic : Text
  pub payload : Option Fields
  pub ref : Text
  pub join_ref : Text

-- Client events
abbrev pub event_join : Text
event_join = codes "phx_join"

abbrev pub event_leave : Text
event_leave = codes "phx_leave"

abbrev pub event_heartbeat : Text
event_heartbeat = codes "heartbeat"

abbrev pub event_access_token : Text
event_access_token = codes "access_token"

abbrev pub event_broadcast : Text
event_broadcast = codes "broadcast"

abbrev pub event_presence : Text
event_presence = codes "presence"

-- Server events
abbrev pub event_reply : Text
event_reply = codes "phx_reply"

abbrev pub event_system : Text
event_system = codes "system"

abbrev pub event_presence_state : Text
event_presence_state = codes "presence_state"

abbrev pub event_presence_diff : Text
event_presence_diff = codes "presence_diff"

abbrev pub topic_phoenix : Text
topic_phoenix = codes "phoenix"

pub record BroadcastConfig : Type 0 where
  pub ack : Bool
  pub self : Bool

pub record PresenceConfig : Type 0 where
  pub key : Text

pub record PostgresChangeSub : Type 0 where
  pub event : Text
  pub schema : Text
  pub table : Text
  pub filter : Text
  pub id : ℕ

pub record JoinConfig : Type 0 where
  pub broadcast : BroadcastConfig
  pub presence : PresenceConfig
  pub postgres_changes : List PostgresChangeSub
  pub private : Bool

-- The value of a field, or Go's zero value where the type assertion fails.
text_or_empty : Option Any → Text
text_or_empty v = elim (as_text v) [ some s ↦ s | none ↦ [] ]

bool_or_false : Option Any → Bool
bool_or_false v = elim (as_bool v) [ some b ↦ b | none ↦ false ]

-- payload[k], on a map that may be nil
unfoldable pub payload_get : Text → Option Fields → Option Any
unfolding get_field
payload_get k none = none
payload_get k (some m) = get_field k m

-- payload[k].(string), without its second result
unfoldable pub payload_text : Text → Option Fields → Text
unfolding text_or_empty payload_get as_text
payload_text k m = text_or_empty (payload_get k m)

-- The part of `ParseJoinPayload` for one entry of `postgres_changes`.
parse_change : Fields → PostgresChangeSub
unfolding text_or_empty get_field as_text
parse_change sub = record {
  event = text_or_empty (get_field (codes "event") sub);
  schema = text_or_empty (get_field (codes "schema") sub);
  table = text_or_empty (get_field (codes "table") sub);
  filter = text_or_empty (get_field (codes "filter") sub);
  id = 0;
}

-- The loop over `postgres_changes`: items that are no maps are passed over.
parse_changes : Items → List PostgresChangeSub
unfolding parse_change as_map
parse_changes done = []
parse_changes (item v vs) = elim (as_map (some v)) [
  | some sub ↦ parse_change sub ∷ parse_changes vs
  | none ↦ parse_changes vs
]

-- `&JoinConfig{}`
abbrev pub default_config : JoinConfig
default_config = record {
  broadcast = record { ack = false; self = false };
  presence = record { key = [] };
  postgres_changes = [];
  private = false;
}

parse_broadcast : Option Fields → BroadcastConfig
unfolding bool_or_false payload_get as_bool
parse_broadcast bc = record {
  ack = bool_or_false (payload_get (codes "ack") bc);
  self = bool_or_false (payload_get (codes "self") bc);
}

parse_config : Fields → JoinConfig
unfolding parse_broadcast parse_changes payload_text bool_or_false get_field as_map as_items as_bool
parse_config config = record {
  broadcast = parse_broadcast (as_map (get_field (codes "broadcast") config));
  presence = record {
    key = payload_text (codes "key") (as_map (get_field (codes "presence") config));
  };
  postgres_changes = elim (as_items (get_field (codes "postgres_changes") config)) [
    | some items ↦ parse_changes items
    | none ↦ []
  ];
  private = bool_or_false (get_field (codes "private") config);
}

-- `ParseJoinPayload`. Its error is always nil.
unfoldable pub parse_join_payload : Option Fields → JoinConfig × Text
unfolding parse_config payload_text payload_get as_map
parse_join_payload payload =
    let token = payload_text (codes "access_token") payload in
    elim (as_map (payload_get (codes "config") payload)) [
      | some config ↦ (parse_config config, token)
      | none ↦ (default_config, token)
    ]

unfoldable pub new_reply : Text → Text → Text → Text → Fields → Message
new_reply topic join_ref ref status response = record {
  event = event_reply;
  topic = topic;
  payload =
      some (field (codes "status") (text status) (field (codes "response") (obj response) end));
  ref = ref;
  join_ref = join_ref;
}

-- `NewSystemMessage`, with the `subscription_id` that `handleJoin` adds to its payload.
unfoldable pub new_system_message : Text → Text → Text → Text → Text → ℕ → Message
new_system_message topic join_ref status message extension id = record {
  event = event_system;
  topic = topic;
  payload = some (
      field (codes "status") (text status) (
        field (codes "message") (text message) (
          field (codes "extension") (text extension)
            (field (codes "subscription_id") (int id) end))));
  ref = [];
  join_ref = join_ref;
}

-- A nil map in a payload is encoded as null.
map_value : Option Fields → Any
map_value none = nil
map_value (some m) = obj m

unfoldable pub new_broadcast_message : Text → Text → Option Fields → Message
unfolding map_value
new_broadcast_message topic event payload = record {
  event = event_broadcast;
  topic = topic;
  payload = some (
      field (codes "type") (text event_broadcast)
        (field (codes "event") (text event) (field (codes "payload") (map_value payload) end)));
  ref = [];
  join_ref = [];
}

unfoldable pub new_presence_state_message : Text → Text → Fields → Message
new_presence_state_message topic join_ref state = record {
  event = event_presence_state;
  topic = topic;
  payload = some state;
  ref = [];
  join_ref = join_ref;
}

unfoldable pub new_presence_diff_message : Text → Text → Fields → Fields → Message
new_presence_diff_message topic join_ref joins leaves = record {
  event = event_presence_diff;
  topic = topic;
  payload = some (field (codes "joins") (obj joins) (field (codes "leaves") (obj leaves) end));
  ref = [];
  join_ref = join_ref;
}
