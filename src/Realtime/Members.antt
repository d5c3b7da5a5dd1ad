-- ===== src/Realtime/Members.antt =====
-- The hub as a client of its channels sees it: who is subscribed to which topic. One lemma for each
-- operation.
use sblite.Prelude.{
  Text, Dict, lookup, insert, delete, lookup-insert, lookup-delete, is_empty, str_eq, str_eq_iff,
  str_eq_refl, ◌≡◌, Option, none, some, [], Bool, arith, if◌then◌else◌, Option-cases, inl, inr,
}
use sblite.Realtime.Hub.{
  ChannelSub, Channel, Hub, get_or_create_channel, with_channel, add_subscriber, remove_subscriber,
  remove_channel_if_empty,
}

abbrev pub subscribers_in : Option Channel → Option (Dict ChannelSub)
subscribers_in none = none
subscribers_in (some ch) = some ch.subscribers

-- The subscribers of the channel of a topic, if there is one.
unfoldable pub subscribers_of : Text → Hub → Option (Dict ChannelSub)
subscribers_of topic h = subscribers_in (lookup topic h.channels)

abbrev pub or_empty : Option (Dict ChannelSub) → Dict ChannelSub
or_empty none = []
or_empty (some subs) = subs

-- `f` does not touch the subscribers.
abbrev pub KeepsSubscribers : (Channel → Channel) → Type 0
KeepsSubscribers f = (ch : Channel) → (f ch).subscribers ≡ ch.subscribers

pub subscribers_of-get_or_create_channel :
    (topic t : Text) (private : Bool) (h : Hub)
    → subscribers_of t (get_or_create_channel topic private h)
      ≡ (if str_eq topic t then some (or_empty (subscribers_of topic h)) else subscribers_of t h)
unfolding subscribers_of get_or_create_channel
subscribers_of-get_or_create_channel topic t private h = ground (
  arith,
  str_eq_iff topic t,
  lookup-insert topic t
      (record { topic = topic; private = private; subscribers = []; presence = none }) h.channels,
)

channel_after : (Channel → Channel) → Option Channel → Option Channel
channel_after f none = none
channel_after f (some ch) = some (f ch)

lookup-with_channel :
    (topic t : Text) (f : Channel → Channel) (h : Hub)
    → lookup t (with_channel topic f h).channels
      ≡ (if str_eq topic t then channel_after f (lookup topic h.channels) else lookup t h.channels)
unfolding with_channel channel_after
lookup-with_channel topic t f h = elim (Option-cases (lookup topic h.channels)) [
  | inl absent ↦ rw (absent, with_channel) (ground (arith, str_eq_iff topic t))
  | inr (ch, present) ↦ rw (present, with_channel) (lookup-insert topic t (f ch) h.channels)
]

pub subscribers_of-with_channel :
    (topic t : Text) (f : Channel → Channel) (h : Hub)
    → KeepsSubscribers f
    → subscribers_of t (with_channel topic f h) ≡ subscribers_of t h
unfolding subscribers_of channel_after
subscribers_of-with_channel topic t f h keeps =
    rw lookup-with_channel (elim (Option-cases (lookup topic h.channels)) [
      | inl absent ↦ ground (arith, str_eq_iff topic t)
      | inr (ch, present) ↦ ground (arith, str_eq_iff topic t, keeps ch)
    ])

abbrev inserted : Text → ChannelSub → Option (Dict ChannelSub) → Option (Dict ChannelSub)
inserted id sub none = none
inserted id sub (some subs) = some (insert id sub subs)

pub subscribers_of-add_subscriber :
    (topic t id : Text) (sub : ChannelSub) (h : Hub)
    → subscribers_of t (with_channel topic (add_subscriber id sub) h)
      ≡ (if str_eq topic t then inserted id sub (subscribers_of topic h) else subscribers_of t h)
unfolding subscribers_of channel_after add_subscriber
subscribers_of-add_subscriber topic t id sub h =
    rw lookup-with_channel (ground (arith, str_eq_iff topic t))

-- The subscribers without one, and no channel where none are left.
abbrev pub removed : Text → Option (Dict ChannelSub) → Option (Dict ChannelSub)
removed id none = none
removed id (some subs) = if is_empty (delete id subs) then none else some (delete id subs)

pub subscribers_of-leave :
    (topic t id : Text) (h : Hub)
    → subscribers_of t (remove_channel_if_empty topic (with_channel topic (remove_subscriber id) h))
      ≡ (if str_eq topic t then removed id (subscribers_of topic h) else subscribers_of t h)
unfolding subscribers_of channel_after remove_subscriber remove_channel_if_empty
subscribers_of-leave topic t id h =
    let h' = with_channel topic (remove_subscriber id) h in
    ground (
      arith,
      str_eq_iff topic t,
      str_eq_refl topic,
      lookup-with_channel topic t (remove_subscriber id) h,
      lookup-with_channel topic topic (remove_subscriber id) h,
      lookup-delete topic t h'.channels,
    )
