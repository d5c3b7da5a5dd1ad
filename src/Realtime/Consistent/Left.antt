-- ===== src/Realtime/Consistent/Left.antt =====
-- What `handleLeave` of internal/realtime/conn.go writes.
use sblite.Prelude.{
  Text, ◌≡◌, IsDistinct, lookup, arith, Option-cases, if◌then◌else◌, none, refl, inl, str_eq,
  str_eq_iff, inr, delete, Bool-cases, is_empty, delete-IsDistinct,
}
use sblite.Realtime.Hub.{
  remove_channel_if_empty, Hub, ChannelSub, Channel, with_channel, remove_subscriber,
}
use sblite.Realtime.Conn.{forget_subscription, leave_channel, leave_key}
use sblite.Realtime.Members.{subscribers_of, subscribers_of-leave}
use sblite.Realtime.Consistent.Leave.{Left, leave_key-SameMembers}
use sblite.Realtime.Consistent.Invariant.{conns-with_channel, with_channel-IsDistinct}

conns-remove_channel_if_empty :
    (topic : Text) (h : Hub) → (remove_channel_if_empty topic h).conns ≡ h.conns
unfolding remove_channel_if_empty
conns-remove_channel_if_empty topic h = ground arith

remove_channel_if_empty-IsDistinct :
    (topic : Text) (h : Hub)
    → IsDistinct h.channels
    → IsDistinct (remove_channel_if_empty topic h).channels
unfolding remove_channel_if_empty
remove_channel_if_empty-IsDistinct topic h d = elim (Option-cases (lookup topic h.channels)) [
  | inl absent ↦ rw (absent, remove_channel_if_empty) d
  | inr (ch, present) ↦ elim (Bool-cases (is_empty ch.subscribers)) [
    | inl empty ↦
        rw (present, remove_channel_if_empty, empty) (delete-IsDistinct topic h.channels d)
    | inr filled ↦ rw (present, remove_channel_if_empty, filled) d
  ]
]

forget_subscription_conns :
    (id topic : Text) (h : Hub) (j : Text)
    → ((forget_subscription id topic h).conns j).channels
      ≡ (if str_eq id j then delete topic (h.conns id).channels else (h.conns j).channels)
unfolding forget_subscription
forget_subscription_conns id topic h j = ground arith

forget_subscription_closed :
    (id topic : Text) (h : Hub) (j : Text)
    → ((forget_subscription id topic h).conns j).closed ≡ (h.conns j).closed
unfolding forget_subscription
forget_subscription_closed id topic h j = ground (arith, str_eq_iff id j)

channels-forget_subscription :
    (id topic : Text) (h : Hub) → (forget_subscription id topic h).channels ≡ h.channels
unfolding forget_subscription
channels-forget_subscription id topic h = refl

subscribers_of-forget_subscription :
    (id topic t : Text) (h : Hub)
    → subscribers_of t (forget_subscription id topic h) ≡ subscribers_of t h
unfolding subscribers_of
subscribers_of-forget_subscription id topic t h = rw channels-forget_subscription

-- Where the hub has no channel of the topic.
no_channel-Left :
    (id topic : Text) (h : Hub)
    → lookup topic h.channels ≡ none
    → Left topic id h (forget_subscription id topic h)
no_channel-Left id topic h absent =
    let empty : subscribers_of topic h ≡ none = unfold subscribers_of in rw absent in
    record {
      subscribers = λ t.
          ground
            (arith, subscribers_of-forget_subscription id topic t h, str_eq_iff topic t, empty);
      channels = forget_subscription_conns id topic h;
      closed = forget_subscription_closed id topic h;
      keeps_distinct = λ d. rw channels-forget_subscription d;
    }

-- Where it has one.
channel-Left :
    (id topic : Text) (sub : ChannelSub) (ch : Channel) (h : Hub)
    → Left topic id h (
        remove_channel_if_empty topic (
          with_channel topic
            (remove_subscriber id)
            (leave_key id topic sub ch (forget_subscription id topic h))))
channel-Left id topic sub ch h =
    let h1 = forget_subscription id topic h in
    let h2 = leave_key id topic sub ch h1 in
    let same = leave_key-SameMembers id topic sub ch h1 in
    let h3 = with_channel topic (remove_subscriber id) h2 in
    let kept : h3.conns ≡ h2.conns = conns-with_channel topic (remove_subscriber id) h2 in
    record {
      subscribers = λ t. ground (
        arith,
        subscribers_of-leave topic t id h2,
        same.subscribers topic,
        same.subscribers t,
        subscribers_of-forget_subscription id topic topic h,
        subscribers_of-forget_subscription id topic t h,
      );
      channels = λ j.
          rw (conns-remove_channel_if_empty topic h3, kept, same.channels j)
            (forget_subscription_conns id topic h j);
      closed = λ j.
          rw (conns-remove_channel_if_empty topic h3, kept, same.closed j)
            (forget_subscription_closed id topic h j);
      keeps_distinct = λ d. remove_channel_if_empty-IsDistinct topic h3 (
          with_channel-IsDistinct topic (remove_subscriber id) h2
            (same.keeps_distinct (rw channels-forget_subscription d)));
    }

-- What a leave writes, whatever it finds.
pub leave_channel-Left :
    (id topic : Text) (sub : ChannelSub) (h : Hub)
    → Left topic id h (leave_channel id topic sub (forget_subscription id topic h))
unfolding leave_channel
leave_channel-Left id topic sub h = elim (Option-cases (lookup topic h.channels)) [
  | inl absent ↦
      rw (channels-forget_subscription, absent, leave_channel) (no_channel-Left id topic h absent)
  | inr (ch, present) ↦
      rw (channels-forget_subscription, present, leave_channel) (channel-Left id topic sub ch h)
]
