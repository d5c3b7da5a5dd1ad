-- ===== src/Realtime/Conn/Sends.antt =====
-- The parts of the handlers of internal/realtime/conn.go that only send.
use sblite.Prelude.{Text, List, [], ◌∷◌, ◌≡◌, refl, Bool-cases, Option-cases, inl, inr, codes}
use sblite.Realtime.Protocol.{Message, Fields, PostgresChangeSub, new_system_message}
use sblite.Realtime.Hub.{ChannelSub, Channel, Hub, send}
use sblite.Realtime.Hub.Quiet.{send_each-keeps}
use sblite.Realtime.Conn.{
  send_system_messages, send_presence_state, send_joined, broadcast_leaves, broadcast_from,
  presence_of,
}

send_system_messages_cons :
    (id : Text) (msg : Message) (sub : PostgresChangeSub) (subs : List PostgresChangeSub) (h : Hub)
    → send_system_messages id msg (sub ∷ subs) h
      ≡ send_system_messages id msg subs (
          send id
            (new_system_message msg.topic msg.join_ref
              (codes "ok")
              (codes "Subscribed to PostgreSQL")
              (codes "postgres_changes")
              sub.id)
            h)
unfolding send_system_messages
send_system_messages_cons id msg sub subs h = refl

module _ (P : Hub → Type 0)
    (keeps : (id : Text) (msg : Message) (h : Hub) → P h → P (send id msg h)) where
  send_system_messages-keeps :
      (id : Text) (msg : Message) (subs : List PostgresChangeSub) (h : Hub)
      → P h
      → P (send_system_messages id msg subs h)
  send_system_messages-keeps id msg [] h p = unfold send_system_messages in p
  send_system_messages-keeps id msg (sub ∷ subs) h p =
      rw send_system_messages_cons (send_system_messages-keeps id msg subs _ (keeps id _ h p))

  send_presence_state-keeps :
      (id : Text) (msg : Message) (h : Hub) → P h → P (send_presence_state id msg h)
  unfolding send_presence_state
  send_presence_state-keeps id msg h p = elim (Option-cases (presence_of msg.topic h)) [
    | inl absent ↦ rw (absent, send_presence_state) p
    | inr (ps, present) ↦ rw (present, send_presence_state) (keeps id _ h p)
  ]

  pub send_joined-keeps :
      (id : Text) (msg : Message) (subs : List PostgresChangeSub) (h : Hub)
      → P h
      → P (send_joined id msg subs h)
  unfolding send_joined
  send_joined-keeps id msg subs h p =
      send_presence_state-keeps id msg _ (send_system_messages-keeps id msg subs _ (keeps id _ h p))

  pub broadcast_leaves-keeps :
      (topic : Text) (sub : ChannelSub) (ch : Channel) (leaves : List Fields) (h : Hub)
      → P h
      → P (broadcast_leaves topic sub ch leaves h)
  unfolding broadcast_leaves
  broadcast_leaves-keeps topic sub ch [] h p = p
  broadcast_leaves-keeps topic sub ch (m ∷ ms) h p = send_each-keeps P keeps _ [] ch.subscribers h p

  pub broadcast_from-keeps :
      (id : Text) (msg : Message) (sub : ChannelSub) (ch : Channel) (h : Hub)
      → P h
      → P (broadcast_from id msg sub ch h)
  unfolding broadcast_from
  broadcast_from-keeps id msg sub ch h p = elim (Bool-cases sub.broadcast_config.ack) [
    | inl ack ↦ rw ack (keeps id _ _ (send_each-keeps P keeps _ _ ch.subscribers h p))
    | inr quiet ↦ rw quiet (send_each-keeps P keeps _ _ ch.subscribers h p)
  ]
