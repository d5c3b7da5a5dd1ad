-- ===== src/Realtime/Consistent/Handlers.antt =====
-- The handlers of internal/realtime/conn.go and the invariant.
use sblite.Prelude.{
  Text, ◌≡◌, arith, false, Option-cases, str_eq_iff, Bool-cases, lookup, ◌&&◌, inl, refl, inr, Bool,
  ◌⊎◌, str_eq, codes, if◌then◌else◌, [], true, ◌∙◌,
}
use sblite.Realtime.Protocol.{
  Message, Fields, JoinConfig, parse_join_payload, payload_text, as_map, payload_get,
}
use sblite.Realtime.Conn.{
  set_claims, join_channel, join_checked, Validation, handle_leave, handle_broadcast,
  subscription_for, handle_join, handle_access_token, add_subscription, is_none, send_error,
  invalid, track_key, presence_in, handle_presence, handle_message, handle_heartbeat, valid,
  presence_event, take_message,
}
use sblite.Realtime.Hub.{
  Hub, send, get_or_create_channel, ChannelSub, Channel, with_channel, set_presence,
}
use sblite.Realtime.Members.{subscribers_of}
use sblite.Realtime.Consistent.Invariant.{
  IsConsistent, SameMembers, SameMembers-IsConsistent, Quiet-SameMembers, with_channel-SameMembers,
}
use sblite.Realtime.Hub.Quiet.{send-Quiet, send_each-keeps}
use sblite.Realtime.Consistent.Join.{add_subscription-Joined, Joined-IsConsistent}
use sblite.Realtime.Consistent.Leave.{Left-IsConsistent, untrack_key-SameMembers}
use sblite.Realtime.Conn.Sends.{broadcast_from-keeps, send_joined-keeps}
use sblite.Realtime.Consistent.Left.{leave_channel-Left}
use sblite.Realtime.Presence.{PresenceState, track}

pub send-IsConsistent :
    (id : Text) (msg : Message) (h : Hub) → IsConsistent h → IsConsistent (send id msg h)
send-IsConsistent id msg h c =
    SameMembers-IsConsistent h (send id msg h)
      (Quiet-SameMembers h (send id msg h) (send-Quiet id msg h)) c

set_claims-SameMembers :
    (id : Text) (claims : Fields) (h : Hub) → SameMembers h (set_claims id claims h)
unfolding set_claims subscribers_of
set_claims-SameMembers id claims h = record {
  subscribers = λ t. refl;
  channels = λ j. ground (arith, str_eq_iff id j);
  closed = λ j. ground (arith, str_eq_iff id j);
  keeps_distinct = λ d. d;
}

set_claims-IsConsistent :
    (id : Text) (claims : Fields) (h : Hub) → IsConsistent h → IsConsistent (set_claims id claims h)
set_claims-IsConsistent id claims h c =
    SameMembers-IsConsistent h (set_claims id claims h) (set_claims-SameMembers id claims h) c

take_message-SameMembers : (id : Text) (h : Hub) → SameMembers h (take_message id h)
unfolding take_message subscribers_of
take_message-SameMembers id h = record {
  subscribers = λ t. refl;
  channels = λ j. ground (arith, str_eq_iff id j);
  closed = λ j. ground (arith, str_eq_iff id j);
  keeps_distinct = λ d. d;
}

pub take_message-IsConsistent :
    (id : Text) (h : Hub) → IsConsistent h → IsConsistent (take_message id h)
take_message-IsConsistent id h c =
    SameMembers-IsConsistent h (take_message id h) (take_message-SameMembers id h) c

join_channel-IsConsistent :
    (id : Text) (msg : Message) (config : JoinConfig) (h : Hub)
    → (h.conns id).closed ≡ false
    → IsConsistent h
    → IsConsistent (join_channel id msg config h)
unfolding join_channel
join_channel-IsConsistent id msg config h active c =
    let sub = subscription_for id msg config in
    let to_id : sub.conn ≡ id = unfold subscription_for in refl in
    let created = get_or_create_channel msg.topic config.private h in
    let h' = add_subscription id msg.topic sub created in
    let entered = add_subscription-Joined id msg.topic config.private sub h in
    send_joined-keeps IsConsistent send-IsConsistent id msg sub.pg_changes h'
      (Joined-IsConsistent msg.topic id sub h h' to_id active c entered)

join_checked-IsConsistent :
    (id : Text) (msg : Message) (config : JoinConfig) (h : Hub)
    → (h.conns id).closed ≡ false
    → IsConsistent h
    → IsConsistent (join_checked id msg config h)
unfolding join_checked
join_checked-IsConsistent id msg config h active c =
    elim (Bool-cases (config.private && is_none (h.conns id).claims)) [
      | inl refused ↦ rw refused (unfold send_error in send-IsConsistent id _ h c)
      | inr admitted ↦ rw admitted (join_channel-IsConsistent id msg config h active c)
    ]

Validation-cases :
    (v : Validation) → ((e : Text) × (v ≡ invalid e)) ⊎ ((m : Fields) × (v ≡ valid m))
Validation-cases (invalid e) = inl (e, refl)
Validation-cases (valid m) = inr (m, refl)

module _ (validate_token : Text → Validation) (id : Text) (msg : Message) (h : Hub)
    (c : IsConsistent h) where
  handle_join-IsConsistent :
      (h.conns id).closed ≡ false → IsConsistent (handle_join validate_token id msg h)
  unfolding handle_join
  handle_join-IsConsistent active =
      let (config, token) = parse_join_payload msg.payload in
      elim (Bool-cases (str_eq token [])) [
        | inl anonymous ↦ rw anonymous (join_checked-IsConsistent id msg config h active c)
        | inr given ↦ elim (Validation-cases (validate_token token)) [
          | inl (e, refused) ↦
              rw (given, refused, handle_join) (unfold send_error in send-IsConsistent id _ h c)
          | inr (claims, admitted) ↦
              let still : ((set_claims id claims h).conns id).closed ≡ false =
                (set_claims-SameMembers id claims h).closed id ∙ active in
              rw (given, admitted, handle_join)
                (join_checked-IsConsistent id msg config (set_claims id claims h) still
                  (set_claims-IsConsistent id claims h c))
        ]
      ]

  handle_access_token-IsConsistent : IsConsistent (handle_access_token validate_token id msg h)
  unfolding handle_access_token
  handle_access_token-IsConsistent =
      let token = payload_text (codes "access_token") msg.payload in
      elim (Bool-cases (str_eq token [])) [
        | inl absent ↦ rw absent c
        | inr given ↦ elim (Validation-cases (validate_token token)) [
          | inl (e, refused) ↦ rw (given, refused, handle_access_token) c
          | inr (claims, admitted) ↦
              rw (given, admitted, handle_access_token) (set_claims-IsConsistent id claims h c)
        ]
      ]

handle_leave-IsConsistent :
    (id : Text) (msg : Message) (h : Hub) → IsConsistent h → IsConsistent (handle_leave id msg h)
unfolding handle_leave
handle_leave-IsConsistent id msg h c =
    elim (Option-cases (lookup msg.topic (h.conns id).channels)) [
      | inl absent ↦ rw (absent, handle_leave) (unfold send_error in send-IsConsistent id _ h c)
      | inr (sub, present) ↦
          rw (present, handle_leave)
            (send-IsConsistent id _ _
              (Left-IsConsistent msg.topic id h _ c (leave_channel-Left id msg.topic sub h)))
    ]

handle_broadcast-IsConsistent :
    (id : Text) (msg : Message) (h : Hub)
    → IsConsistent h
    → IsConsistent (handle_broadcast id msg h)
unfolding handle_broadcast
handle_broadcast-IsConsistent id msg h c =
    elim (Option-cases (lookup msg.topic (h.conns id).channels)) [
      | inl absent ↦ rw (absent, handle_broadcast) c
      | inr (sub, joined) ↦ elim (Option-cases (lookup msg.topic h.channels)) [
        | inl no_channel ↦ rw (joined, no_channel, handle_broadcast) c
        | inr (ch, present) ↦
            rw (joined, present, handle_broadcast)
              (broadcast_from-keeps IsConsistent send-IsConsistent id msg sub ch h c)
      ]
    ]

-- Tracking a presence changes no subscription.
track_key-IsConsistent :
    (phx_ref id : Text) (msg : Message) (sub : ChannelSub) (ch : Channel) (ps : PresenceState)
    (h : Hub)
    → IsConsistent h
    → IsConsistent (track_key phx_ref id msg sub ch ps h)
unfolding track_key
track_key-IsConsistent phx_ref id msg sub ch ps h c =
    let payload = as_map (payload_get (codes "payload") msg.payload) in
    let ps' = (track phx_ref sub.presence_config.key id payload ps).1 in
    let h' = with_channel msg.topic (set_presence ps') h in
    let written : SameMembers h h' =
      with_channel-SameMembers msg.topic (set_presence ps') h (unfold set_presence in λ c. refl) in
    send_each-keeps IsConsistent send-IsConsistent _ [] ch.subscribers h'
      (SameMembers-IsConsistent h h' written c)

presence_in-IsConsistent :
    (phx_ref id : Text) (msg : Message) (sub : ChannelSub) (ch : Channel) (h : Hub)
    → IsConsistent h
    → IsConsistent (presence_in phx_ref id msg sub ch h)
unfolding presence_in
presence_in-IsConsistent phx_ref id msg sub ch h c = elim (Option-cases ch.presence) [
  | inl absent ↦ rw (absent, presence_in) c
  | inr (ps, present) ↦ elim (Bool-cases (str_eq (presence_event msg) (codes "track"))) [
    | inl tracks ↦
        rw (present, presence_in, tracks) (track_key-IsConsistent phx_ref id msg sub ch ps h c)
    | inr other ↦ elim (Bool-cases (str_eq (presence_event msg) (codes "untrack"))) [
      | inl untracks ↦
          rw (present, presence_in, other, untracks)
            (SameMembers-IsConsistent h _ (untrack_key-SameMembers id msg.topic sub ch ps h) c)
      | inr unknown ↦ rw (present, presence_in, other, unknown) c
    ]
  ]
]

handle_presence-IsConsistent :
    (phx_ref id : Text) (msg : Message) (h : Hub)
    → IsConsistent h
    → IsConsistent (handle_presence phx_ref id msg h)
unfolding handle_presence
handle_presence-IsConsistent phx_ref id msg h c =
    elim (Option-cases (lookup msg.topic (h.conns id).channels)) [
      | inl absent ↦ rw (absent, handle_presence) c
      | inr (sub, joined) ↦ elim (Bool-cases (str_eq sub.presence_config.key [])) [
        | inl no_key ↦ rw (joined, handle_presence, no_key) c
        | inr key ↦ elim (Option-cases (lookup msg.topic h.channels)) [
          | inl no_channel ↦ rw (joined, no_channel, handle_presence, key) c
          | inr (ch, present) ↦
              rw (joined, present, handle_presence, key)
                (presence_in-IsConsistent phx_ref id msg sub ch h c)
        ]
      ]
    ]

pub if-IsConsistent :
    (b : Bool) (h h' : Hub) → IsConsistent h → IsConsistent h' → IsConsistent (if b then h else h')
if-IsConsistent true h h' c c' = c
if-IsConsistent false h h' c c' = c'

-- Whatever message an open connection sends, valid or not, the invariant is kept.
pub handle_message-IsConsistent :
    (validate_token : Text → Validation) (phx_ref id : Text) (msg : Message) (h : Hub)
    → (h.conns id).closed ≡ false
    → IsConsistent h
    → IsConsistent (handle_message validate_token phx_ref id msg h)
unfolding handle_message handle_heartbeat
handle_message-IsConsistent validate_token phx_ref id msg h active c =
    if-IsConsistent _ _ _ (send-IsConsistent id _ h c) (
      if-IsConsistent _ _ _ (handle_join-IsConsistent validate_token id msg h c active) (
        if-IsConsistent _ _ _ (handle_leave-IsConsistent id msg h c) (
          if-IsConsistent _ _ _ (handle_broadcast-IsConsistent id msg h c) (
            if-IsConsistent _ _ _ (handle_presence-IsConsistent phx_ref id msg h c) (
              if-IsConsistent _ _ _ (handle_access_token-IsConsistent validate_token id msg h c)
                c)))))
