-- ===== src/Realtime/Delivery/Broadcast.antt =====
-- Who gets a broadcast: `handleBroadcast` of internal/realtime/conn.go.
use mathlib.Core.Path.{subst}
use sblite.Prelude.{
  refl, Text, lookup, ◌≡◌, if◌then◌else◌, List, [], str_eq, codes, IsDistinct, true, false, ◌∷◌,
  ◌++◌, Bool-cases, inl, inr, append-nil, some, length, ◌+◌, ◌≤◌, Option-cases, Option, arith, none,
  length-append,
}
use sblite.Realtime.Protocol.{
  Message, new_broadcast_message, payload_text, new_reply, as_map, end, payload_get,
}
use sblite.Realtime.Hub.{ChannelSub, Channel, Hub, broadcast_to_channel, send, send_buffer_size}
use sblite.Realtime.Conn.{broadcast_from, handle_broadcast}
use sblite.Realtime.Delivery.{
  Owned, send, Gets, delivered, Gets-trans, send-Gets, copies-delivered, send_each-Gets,
  send_buffer_size,
}
use sblite.Realtime.Members.{subscribers_of}
use sblite.Realtime.Consistent.Invariant.{IsConsistent, member}

-- The message that `handleBroadcast` sends, the connection that it passes over, and its answer.
abbrev pub broadcast_message : Message → Message
broadcast_message msg =
    new_broadcast_message msg.topic (payload_text (codes "event") msg.payload)
      (as_map (payload_get (codes "payload") msg.payload))

abbrev pub excluded : Text → ChannelSub → Text
excluded id sub = if sub.broadcast_config.self then [] else id

abbrev pub acks : Text → Text → Message → ChannelSub → List Message
acks id j msg sub =
    if sub.broadcast_config.ack
    then if str_eq id j then new_reply msg.topic sub.join_ref msg.ref (codes "ok") end ∷ [] else []
    else []

module _ (id : Text) (msg : Message) (sub : ChannelSub) (ch : Channel) (h : Hub) where
  sent : Hub
  sent = broadcast_to_channel ch (broadcast_message msg) (excluded id sub) h

  broadcast_from_ack :
      sub.broadcast_config.ack ≡ true
      → broadcast_from id msg sub ch h
        ≡ send id (new_reply msg.topic sub.join_ref msg.ref (codes "ok") end) sent
  unfolding broadcast_from sent
  broadcast_from_ack a = rw a refl

  broadcast_from_silent : sub.broadcast_config.ack ≡ false → broadcast_from id msg sub ch h ≡ sent
  unfolding broadcast_from sent
  broadcast_from_silent a = rw a refl

  sent-Gets :
      (j : Text)
      → IsDistinct ch.subscribers
      → Owned ch.subscribers
      → Gets j
          (delivered (broadcast_message msg) (excluded id sub) j (lookup j ch.subscribers))
          h
          sent
  unfolding sent broadcast_to_channel
  sent-Gets j d owned =
      subst (λ ms. Gets j ms h sent)
        (copies-delivered (broadcast_message msg) (excluded id sub) j ch.subscribers d owned)
        (send_each-Gets (broadcast_message msg) (excluded id sub) j ch.subscribers h)

  broadcast_from-Gets :
      (j : Text)
      → IsDistinct ch.subscribers
      → Owned ch.subscribers
      → Gets j
          (delivered (broadcast_message msg) (excluded id sub) j (lookup j ch.subscribers)
            ++ acks id j msg sub)
          h
          (broadcast_from id msg sub ch h)
  unfolding sent
  broadcast_from-Gets j d owned =
      let first = sent-Gets j d owned in
      elim (Bool-cases sub.broadcast_config.ack) [
        | inl yes_ack ↦
            let reply = new_reply msg.topic sub.join_ref msg.ref (codes "ok") end in
            rw (broadcast_from_ack yes_ack, yes_ack)
              (Gets-trans j _ _ h sent (send id reply sent) first (send-Gets id j reply sent))
        | inr no_ack ↦ rw (broadcast_from_silent no_ack, no_ack) (rw append-nil first)
      ]

length-delivered :
    (m : Message) (exclude j : Text) (o : Option ChannelSub) → length (delivered m exclude j o) ≤ 1
length-delivered m exclude j none = omega arith
length-delivered m exclude j (some sub) = ground arith

length-acks : (id j : Text) (msg : Message) (sub : ChannelSub) → length (acks id j msg sub) ≤ 1
length-acks id j msg sub = ground arith

handle_broadcast_joined :
    (id : Text) (msg : Message) (sub : ChannelSub) (ch : Channel) (h : Hub)
    → lookup msg.topic (h.conns id).channels ≡ some sub
    → lookup msg.topic h.channels ≡ some ch
    → handle_broadcast id msg h ≡ broadcast_from id msg sub ch h
unfolding handle_broadcast
handle_broadcast_joined id msg sub ch h joined present = ground (arith, joined, present)

-- In a consistent hub the open connection `id` sends a broadcast to a topic that it has joined, and
-- `j` is any open connection with room for two more messages. If `j` is subscribed to the topic, it
-- gets the broadcast once, unless it is `id` itself and `id` has not asked for its own broadcasts; if
-- not, it gets none. Behind that, `id` gets the answer that it asked for. The empty id, which stands
-- for no connection, gets none where `id` has asked for its own broadcasts.
pub handle_broadcast_delivers :
    (id j : Text) (msg : Message) (sub : ChannelSub) (h : Hub)
    → IsConsistent h
    → (h.conns id).closed ≡ false
    → lookup msg.topic (h.conns id).channels ≡ some sub
    → (h.conns j).closed ≡ false
    → length (h.conns j).send + 2 ≤ send_buffer_size
    → ((handle_broadcast id msg h).conns j).send
      ≡ (h.conns j).send
        ++ (delivered (broadcast_message msg) (excluded id sub) j (member h msg.topic j)
            ++ acks id j msg sub)
unfolding subscribers_of
handle_broadcast_delivers id j msg sub h c open_id joined open_j room =
    let mine = c.joined msg.topic id sub joined open_id in
    elim (Option-cases (lookup msg.topic h.channels)) [
      | inl absent ↦
          let nobody : member h msg.topic id ≡ none = rw absent (unfold lookup in refl) in cc
      | inr (ch, present) ↦
          let distinct = (c.filled msg.topic ch.subscribers (rw present refl)).1 in
          let owned : Owned ch.subscribers =
            λ k s e. (c.subscribed msg.topic k s (rw present e)).2 in
          let gets = broadcast_from-Gets id msg sub ch h j distinct owned in
          let one =
            length-delivered (broadcast_message msg) (excluded id sub) j
              (lookup j ch.subscribers) in
          let two =
            length-append
              (delivered (broadcast_message msg) (excluded id sub) j (lookup j ch.subscribers))
              (acks id j msg sub) in
          rw (handle_broadcast_joined id msg sub ch h joined present, present)
            (gets.queue open_j (omega (arith, room, one, two, length-acks id j msg sub)))
    ]
