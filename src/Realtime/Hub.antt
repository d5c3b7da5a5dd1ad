-- ===== src/Realtime/Hub.antt =====
-- The hub, its channels and its connections (internal/realtime/hub.go, channel.go, and the record and
-- `Send` of conn.go). A pointer to a connection is its id; `conns` holds the objects. A map with a
-- mutex is a field: each definition is one critical section or a handler that runs alone.
pub mod Quiet
use sblite.Prelude.{
  ℕ, Text, str_eq, Dict, lookup, insert, delete, is_empty, Option, none, some, List, [], ◌∷◌, ◌++◌,
  Bool, true, false, not, ◌&&◌, ltb, length, if◌then◌else◌,
}
use sblite.Realtime.Protocol.{
  Fields, Message, BroadcastConfig, PresenceConfig, PostgresChangeSub, end, field, arr,
  new_presence_diff_message,
}
use sblite.Realtime.Presence.{PresenceState, new_presence_state, untrack_conn, maps_to_items}

-- `ChannelSub`; `conn` is the id of the connection.
pub record ChannelSub : Type 0 where
  pub conn : Text
  pub join_ref : Text
  pub broadcast_config : BroadcastConfig
  pub presence_config : PresenceConfig
  pub pg_changes : List PostgresChangeSub

-- `presence` is `none` for nil.
pub record Channel : Type 0 where
  pub topic : Text
  pub private : Bool
  pub subscribers : Dict ChannelSub
  pub presence : Option PresenceState

-- `claims` is `none` for the nil map; `send` is the channel's buffer, oldest first; `closed` says
-- that `done` is closed. The socket is left out.
pub record Conn : Type 0 where
  pub channels : Dict ChannelSub
  pub claims : Option Fields
  pub send : List Message
  pub closed : Bool

-- The hub with the connections that it serves. `connections` is the set of keys of that map.
-- `picks_send` is the choice of Go's `select` where both its cases are ready.
pub record Hub : Type 0 where
  pub connections : Text → Bool
  pub channels : Dict Channel
  pub conns : Text → Conn
  pub picks_send : Text → Message → Bool

abbrev pub send_buffer_size : ℕ
send_buffer_size = 256

-- The connection `id` has become `c`.
unfoldable pub set_conn : Text → Conn → Hub → Hub
set_conn id c h = record h { conns = λ j. if str_eq id j then c else h.conns j }

-- `Send`: a full buffer drops the message, and so may a closed connection.
unfoldable pub send : Text → Message → Hub → Hub
unfolding set_conn
send id msg h =
    let c = h.conns id in
    let queued = set_conn id (record c { send = c.send ++ msg ∷ [] }) h in
    if ltb (length c.send) send_buffer_size
    then if c.closed && not (h.picks_send id msg) then h else queued
    else h

-- The loop over subscribers that passes over one connection.
unfoldable pub send_each : Message → Text → Dict ChannelSub → Hub → Hub
send_each msg exclude [] h = h
send_each msg exclude ((_, sub) ∷ subs) h =
    send_each msg exclude subs (if str_eq sub.conn exclude then h else send sub.conn msg h)

-- broadcastToChannel
unfoldable pub broadcast_to_channel : Channel → Message → Text → Hub → Hub
unfolding send_each
broadcast_to_channel ch msg exclude h = send_each msg exclude ch.subscribers h

-- registerConn, with the fresh connection of `NewConn`
unfoldable pub register_conn : Text → Hub → Hub
unfolding set_conn
register_conn id h =
    let fresh : Conn = record { channels = []; claims = none; send = []; closed = false } in
    let h' = set_conn id fresh h in
    record h' { connections = λ j. if str_eq id j then true else h.connections j }

-- getOrCreateChannel
unfoldable pub get_or_create_channel : Text → Bool → Hub → Hub
get_or_create_channel topic private h =
    let ch : Channel = record {
      topic = topic;
      private = private;
      subscribers = [];
      presence = none;
    } in
    elim (lookup topic h.channels) [
      | some _ ↦ h
      | none ↦ record h { channels = insert topic ch h.channels }
    ]

-- A method of the channel that `getChannel(topic)` returns.
unfoldable pub with_channel : Text → (Channel → Channel) → Hub → Hub
with_channel topic f h = elim (lookup topic h.channels) [
  | some ch ↦ record h { channels = insert topic (f ch) h.channels }
  | none ↦ h
]

unfoldable pub add_subscriber : Text → ChannelSub → Channel → Channel
add_subscriber id sub ch = record ch { subscribers = insert id sub ch.subscribers }

unfoldable pub remove_subscriber : Text → Channel → Channel
remove_subscriber id ch = record ch { subscribers = delete id ch.subscribers }

unfoldable pub enable_presence : Channel → Channel
enable_presence ch = elim ch.presence [
  | some _ ↦ ch
  | none ↦ record ch { presence = some new_presence_state }
]

unfoldable pub set_presence : PresenceState → Channel → Channel
set_presence ps ch = record ch { presence = some ps }

unfoldable pub remove_channel_if_empty : Text → Hub → Hub
remove_channel_if_empty topic h = elim (lookup topic h.channels) [
  | some ch ↦ if is_empty ch.subscribers then record h { channels = delete topic h.channels } else h
  | none ↦ h
]

-- The diff that tells of the entries that have left under one key.
unfoldable pub leave_diff : Text → Text → Text → List Fields → Message
leave_diff topic join_ref key metas =
    new_presence_diff_message topic join_ref end (field key (arr (maps_to_items metas)) end)

-- The diffs that `unregisterConn` sends, one for each key that the connection leaves.
unfoldable pub send_leaves : Text → Text → Text → Dict ChannelSub → Dict (List Fields) → Hub → Hub
send_leaves topic join_ref id subs [] h = h
send_leaves topic join_ref id subs ((key, metas) ∷ leaves) h =
    send_leaves topic join_ref id subs leaves
      (send_each (leave_diff topic join_ref key metas) id subs h)

-- The presence part of `unregisterConn` for one channel.
unfoldable pub leave_presence : Text → Text → ChannelSub → Channel → Hub → Channel × Hub
leave_presence id topic sub ch h = elim ch.presence [
  | none ↦ (ch, h)
  | some ps ↦
      let (leaves, ps') = untrack_conn id ps in
      if str_eq sub.presence_config.key []
      then (ch, h)
      else (set_presence ps' ch, send_leaves topic sub.join_ref id ch.subscribers leaves h)
]

-- The channel without its subscriber, and nothing where it is then empty.
unfoldable pub without_subscriber : Text → Channel → Option Channel
without_subscriber id ch =
    let ch' = remove_subscriber id ch in if is_empty ch'.subscribers then none else some ch'

-- The body of the loop of `unregisterConn`.
unfoldable pub unregister_channel : Text → Text → Channel → Hub → Option Channel × Hub
unfolding leave_presence without_subscriber
unregister_channel id topic ch h = elim (lookup id ch.subscribers) [
  | none ↦ (some ch, h)
  | some sub ↦ let (ch', h') = leave_presence id topic sub ch h in (without_subscriber id ch', h')
]

unfoldable pub keep_channel : Text → Option Channel → Dict Channel → Dict Channel
keep_channel topic none chs = chs
keep_channel topic (some ch) chs = (topic, ch) ∷ chs

unfoldable pub unregister_channels : Text → Dict Channel → Hub → Dict Channel × Hub
unfolding unregister_channel keep_channel
unregister_channels id [] h = ([], h)
unregister_channels id ((topic, ch) ∷ chs) h =
    let (kept, h') = unregister_channel id topic ch h in
    let (rest, h'') = unregister_channels id chs h' in (keep_channel topic kept rest, h'')

-- unregisterConn
unfoldable pub unregister_conn : Text → Hub → Hub
unfolding unregister_channels
unregister_conn id h =
    let gone = record h { connections = λ j. if str_eq id j then false else h.connections j } in
    let (chs, h') = unregister_channels id h.channels gone in record h' { channels = chs }

-- `Close`, which acts once.
unfoldable pub close : Text → Hub → Hub
unfolding unregister_conn set_conn
close id h =
    let c = h.conns id in
    let done = set_conn id (record c { closed = true }) h in
    if c.closed then h else unregister_conn id done
