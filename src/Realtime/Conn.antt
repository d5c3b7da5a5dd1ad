-- ===== src/Realtime/Conn.antt =====
-- The handlers of a connection (internal/realtime/conn.go). Log lines are left out. A handler runs
-- alone here: its writes to the hub and to the channels are not interleaved with those of another.
pub mod Sends
use sblite.Prelude.{
  ℕ, ◌+◌, Text, codes, str_eq, lookup, insert, delete, Option, none, some, List, [], ◌∷◌, Bool,
  true, false, ◌&&◌, if◌then◌else◌, tail,
}
use sblite.Realtime.Protocol.{
  Items, Fields, Message, JoinConfig, PostgresChangeSub, int, text, arr, obj, end, field, item,
  done, as_map, payload_get, payload_text, parse_join_payload, new_reply, new_system_message,
  new_broadcast_message, new_presence_state_message, new_presence_diff_message, event_join,
  event_leave, event_heartbeat, event_access_token, event_broadcast, event_presence, topic_phoenix,
}
use sblite.Realtime.Presence.{PresenceState, track, untrack, get_state, maps_to_items}
use sblite.Realtime.Hub.{
  ChannelSub, Channel, Hub, set_conn, send, broadcast_to_channel, get_or_create_channel,
  with_channel, add_subscriber, remove_subscriber, enable_presence, set_presence,
  remove_channel_if_empty,
}

-- What `validateToken`, which calls the JWT library, answers: the claims, or an error's text.
pub data Validation : Type 0 where
  valid : Fields → Validation
  invalid : Text → Validation

unfoldable pub send_error : Text → Text → Text → Text → Text → Text → Hub → Hub
send_error id topic join_ref ref code message = send id (
    new_reply topic join_ref ref (codes "error")
      (field (codes "code") (text code) (field (codes "message") (text message) end)))

unfoldable pub handle_heartbeat : Text → Message → Hub → Hub
handle_heartbeat id msg = send id (new_reply topic_phoenix [] msg.ref (codes "ok") end)

-- `config.PostgresChanges[i].ID = i + 1`
unfoldable pub assign_ids : ℕ → List PostgresChangeSub → List PostgresChangeSub
assign_ids i [] = []
assign_ids i (sub ∷ subs) = record sub { id = i + 1 } ∷ assign_ids (i + 1) subs

-- One entry of `pgChangesResponse`; the filter is there only if it was provided.
unfoldable pub change_response : PostgresChangeSub → Fields
change_response sub =
    let filter : Fields = field (codes "filter") (text sub.filter) end in
    field (codes "id") (int sub.id) (
      field (codes "event") (text sub.event) (
        field (codes "schema") (text sub.schema)
          (field (codes "table") (text sub.table) (if str_eq sub.filter [] then end else filter))))

unfoldable pub changes_response : List PostgresChangeSub → Items
unfolding change_response
changes_response [] = done
changes_response (sub ∷ subs) = item (obj (change_response sub)) (changes_response subs)

-- The system messages of a join.
unfoldable pub send_system_messages : Text → Message → List PostgresChangeSub → Hub → Hub
send_system_messages id msg [] h = h
send_system_messages id msg (sub ∷ subs) h =
    let sys =
      new_system_message msg.topic msg.join_ref (codes "ok") (codes "Subscribed to PostgreSQL")
        (codes "postgres_changes") sub.id in
    send_system_messages id msg subs (send id sys h)

-- The presence state of the channel `topic`, if it has one: `getChannel` and `getPresence`.
unfoldable pub presence_of : Text → Hub → Option PresenceState
presence_of topic h = elim (lookup topic h.channels) [ some ch ↦ ch.presence | none ↦ none ]

unfoldable pub send_presence_state : Text → Message → Hub → Hub
unfolding presence_of get_state
send_presence_state id msg h = elim (presence_of msg.topic h) [
  | some ps ↦ send id (new_presence_state_message msg.topic msg.join_ref (get_state ps)) h
  | none ↦ h
]

unfoldable pub subscription_for : Text → Message → JoinConfig → ChannelSub
unfolding assign_ids
subscription_for id msg config = record {
  conn = id;
  join_ref = msg.join_ref;
  broadcast_config = config.broadcast;
  presence_config = config.presence;
  pg_changes = assign_ids 0 config.postgres_changes;
}

-- The messages that end a join.
unfoldable pub send_joined : Text → Message → List PostgresChangeSub → Hub → Hub
unfolding changes_response send_system_messages send_presence_state
send_joined id msg changes h =
    let reply =
      new_reply msg.topic msg.join_ref msg.ref (codes "ok")
        (field (codes "postgres_changes") (arr (changes_response changes)) end) in
    send_presence_state id msg (send_system_messages id msg changes (send id reply h))

-- `c.channels[topic] = sub`
unfoldable pub track_subscription : Text → Text → ChannelSub → Hub → Hub
unfolding set_conn
track_subscription id topic sub h =
    let c = h.conns id in set_conn id (record c { channels = insert topic sub c.channels }) h

-- The writes of a join to the channel and to the connection.
unfoldable pub add_subscription : Text → Text → ChannelSub → Hub → Hub
unfolding with_channel add_subscriber enable_presence track_subscription
add_subscription id topic sub h =
    let keyed = with_channel topic enable_presence h in
    let h' = if str_eq sub.presence_config.key [] then h else keyed in
    track_subscription id topic sub (with_channel topic (add_subscriber id sub) h')

-- The part of `handleJoin` behind the checks.
unfoldable pub join_channel : Text → Message → JoinConfig → Hub → Hub
unfolding subscription_for add_subscription send_joined get_or_create_channel
join_channel id msg config h =
    let sub = subscription_for id msg config in
    send_joined id msg sub.pg_changes
      (add_subscription id msg.topic sub (get_or_create_channel msg.topic config.private h))

unfoldable pub is_none {ℓ} : {A : Type ℓ} → Option A → Bool
is_none none = true
is_none (some _) = false

-- The check for private channels, and the rest.
unfoldable pub join_checked : Text → Message → JoinConfig → Hub → Hub
unfolding is_none join_channel send_error
join_checked id msg config h =
    if config.private && is_none (h.conns id).claims
    then send_error id msg.topic msg.join_ref msg.ref (codes "unauthorized")
        (codes "private channel requires authentication") h
    else join_channel id msg config h

unfoldable pub set_claims : Text → Fields → Hub → Hub
unfolding set_conn
set_claims id claims h = let c = h.conns id in set_conn id (record c { claims = some claims }) h

-- `WritePump` takes the oldest message off the buffer.
unfoldable pub take_message : Text → Hub → Hub
unfolding set_conn
take_message id h = let c = h.conns id in set_conn id (record c { send = tail c.send }) h

module _ (validate_token : Text → Validation) where
  -- `handleJoin`. `ParseJoinPayload` never fails, so that its error branch cannot be reached.
  unfoldable pub handle_join : Text → Message → Hub → Hub
  unfolding join_checked set_claims send_error parse_join_payload
  handle_join id msg h =
      let (config, token) = parse_join_payload msg.payload in
      if str_eq token [] then join_checked id msg config h else elim (validate_token token) [
        | invalid err ↦ send_error id msg.topic msg.join_ref msg.ref (codes "invalid_token") err h
        | valid claims ↦ join_checked id msg config (set_claims id claims h)
      ]

  unfoldable pub handle_access_token : Text → Message → Hub → Hub
  unfolding set_claims payload_text
  handle_access_token id msg h =
      let token = payload_text (codes "access_token") msg.payload in
      if str_eq token []
      then h
      else elim (validate_token token) [ invalid err ↦ h | valid claims ↦ set_claims id claims h ]

-- The diff that tells a channel of the entries that have left under a key, if there are any.
unfoldable pub broadcast_leaves : Text → ChannelSub → Channel → List Fields → Hub → Hub
unfolding broadcast_to_channel maps_to_items
broadcast_leaves topic sub ch [] h = h
broadcast_leaves topic sub ch (m ∷ ms) h =
    broadcast_to_channel ch
      (new_presence_diff_message topic sub.join_ref end
        (field sub.presence_config.key (arr (maps_to_items (m ∷ ms))) end))
      [] h

-- `presence.Untrack` for the key of a subscription, and the diff.
unfoldable pub untrack_key : Text → Text → ChannelSub → Channel → PresenceState → Hub → Hub
unfolding broadcast_leaves with_channel set_presence untrack
untrack_key id topic sub ch ps h =
    let (leaves, ps') = untrack sub.presence_config.key id ps in
    broadcast_leaves topic sub ch leaves (with_channel topic (set_presence ps') h)

-- The presence part of `handleLeave`.
unfoldable pub leave_key : Text → Text → ChannelSub → Channel → Hub → Hub
unfolding untrack_key
leave_key id topic sub ch h = elim ch.presence [
  | none ↦ h
  | some ps ↦ if str_eq sub.presence_config.key [] then h else untrack_key id topic sub ch ps h
]

-- `delete(c.channels, topic)`
unfoldable pub forget_subscription : Text → Text → Hub → Hub
unfolding set_conn
forget_subscription id topic h =
    let c = h.conns id in set_conn id (record c { channels = delete topic c.channels }) h

-- The part of `handleLeave` for a channel that is there.
unfoldable pub leave_channel : Text → Text → ChannelSub → Hub → Hub
unfolding leave_key with_channel remove_subscriber remove_channel_if_empty
leave_channel id topic sub h = elim (lookup topic h.channels) [
  | none ↦ h
  | some ch ↦
      remove_channel_if_empty topic
        (with_channel topic (remove_subscriber id) (leave_key id topic sub ch h))
]

unfoldable pub handle_leave : Text → Message → Hub → Hub
unfolding forget_subscription leave_channel send_error
handle_leave id msg h = elim (lookup msg.topic (h.conns id).channels) [
  | none ↦
      send_error id msg.topic [] msg.ref (codes "not_joined") (codes "not subscribed to channel") h
  | some sub ↦
      send id (new_reply msg.topic [] msg.ref (codes "ok") end)
        (leave_channel id msg.topic sub (forget_subscription id msg.topic h))
]

-- The part of `handleBroadcast` for a subscription and a channel that are there. No connection has
-- the empty id, so excluding that id excludes none.
unfoldable pub broadcast_from : Text → Message → ChannelSub → Channel → Hub → Hub
unfolding broadcast_to_channel payload_text payload_get as_map
broadcast_from id msg sub ch h =
    let payload = as_map (payload_get (codes "payload") msg.payload) in
    let event = payload_text (codes "event") msg.payload in
    let broadcast_msg = new_broadcast_message msg.topic event payload in
    let exclude_id = if sub.broadcast_config.self then [] else id in
    let h' = broadcast_to_channel ch broadcast_msg exclude_id h in
    if sub.broadcast_config.ack
    then send id (new_reply msg.topic sub.join_ref msg.ref (codes "ok") end) h'
    else h'

unfoldable pub handle_broadcast : Text → Message → Hub → Hub
unfolding broadcast_from
handle_broadcast id msg h = elim (lookup msg.topic (h.conns id).channels) [
  | none ↦ h
  | some sub ↦ elim (lookup msg.topic h.channels) [
    | none ↦ h
    | some ch ↦ broadcast_from id msg sub ch h
  ]
]

-- "event", and "type" where that is empty.
unfoldable pub presence_event : Message → Text
unfolding payload_text
presence_event msg =
    let event = payload_text (codes "event") msg.payload in
    if str_eq event [] then payload_text (codes "type") msg.payload else event

-- The case "track"; `phx_ref` is the fresh reference.
unfoldable pub track_key : Text → Text → Message → ChannelSub → Channel → PresenceState → Hub → Hub
unfolding broadcast_to_channel with_channel set_presence track payload_get as_map
track_key phx_ref id msg sub ch ps h =
    let payload = as_map (payload_get (codes "payload") msg.payload) in
    let key = sub.presence_config.key in
    let (entry, ps') = track phx_ref key id payload ps in
    let diff =
      new_presence_diff_message msg.topic sub.join_ref (field key (arr (item (obj entry) done)) end)
        end in
    broadcast_to_channel ch diff [] (with_channel msg.topic (set_presence ps') h)

unfoldable pub presence_in : Text → Text → Message → ChannelSub → Channel → Hub → Hub
unfolding track_key untrack_key presence_event
presence_in phx_ref id msg sub ch h = elim ch.presence [
  | none ↦ h
  | some ps ↦
      if str_eq (presence_event msg) (codes "track")
      then track_key phx_ref id msg sub ch ps h
      else if str_eq (presence_event msg) (codes "untrack")
      then untrack_key id msg.topic sub ch ps h
      else h
]

unfoldable pub handle_presence : Text → Text → Message → Hub → Hub
unfolding presence_in
handle_presence phx_ref id msg h = elim (lookup msg.topic (h.conns id).channels) [
  | none ↦ h
  | some sub ↦ if str_eq sub.presence_config.key [] then h else elim (lookup msg.topic h.channels) [
    | none ↦ h
    | some ch ↦ presence_in phx_ref id msg sub ch h
  ]
]

-- `handleMessage`; an unknown event is only logged.
unfoldable pub handle_message : (Text → Validation) → Text → Text → Message → Hub → Hub
handle_message validate_token phx_ref id msg h =
    if str_eq msg.event event_heartbeat
    then handle_heartbeat id msg h
    else if str_eq msg.event event_join
    then handle_join validate_token id msg h
    else if str_eq msg.event event_leave
    then handle_leave id msg h
    else if str_eq msg.event event_broadcast
    then handle_broadcast id msg h
    else if str_eq msg.event event_presence
    then handle_presence phx_ref id msg h
    else if str_eq msg.event event_access_token
    then handle_access_token validate_token id msg h
    else h
