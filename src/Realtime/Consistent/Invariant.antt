-- ===== src/Realtime/Consistent/Invariant.antt =====
-- The invariant, and the operations of internal/realtime/hub.go that leave it alone.
use sblite.Prelude.{
  Text, Dict, IsDistinct, insert-IsDistinct, lookup, is_empty, ◌≡◌, refl, ◌∙◌, Option, some, false,
  arith, Option-cases, inl, inr, none,
}
use sblite.Realtime.Hub.{ChannelSub, Channel, Hub, with_channel}
use sblite.Realtime.Hub.Quiet.{Quiet}
use sblite.Realtime.Members.{
  subscribers_of, or_empty, KeepsSubscribers, subscribers_of-with_channel,
}

-- The subscription of connection `id` in the channel of a topic.
abbrev pub member : Hub → Text → Text → Option ChannelSub
member h topic id = lookup id (or_empty (subscribers_of topic h))

-- An open connection and the channel know of the same subscription, a closed connection stands in no
-- channel, every subscription points to its connection, no channel is empty, no channel has two
-- subscriptions of a connection, and no topic has two channels.
pub record IsConsistent (h : Hub) : Type 0 where
  pub joined :
      (topic id : Text) (sub : ChannelSub)
      → lookup topic (h.conns id).channels ≡ some sub
      → (h.conns id).closed ≡ false
      → member h topic id ≡ some sub
  pub subscribed :
      (topic id : Text) (sub : ChannelSub)
      → member h topic id ≡ some sub
      → (lookup topic (h.conns id).channels ≡ some sub)
        × ((h.conns id).closed ≡ false)
        × (sub.conn ≡ id)
  pub filled :
      (topic : Text) (subs : Dict ChannelSub)
      → subscribers_of topic h ≡ some subs
      → (is_empty subs ≡ false) × IsDistinct subs
  pub distinct : IsDistinct h.channels

-- `h'` has the subscriptions of `h`.
pub record SameMembers (h h' : Hub) : Type 0 where
  pub subscribers : (topic : Text) → subscribers_of topic h' ≡ subscribers_of topic h
  pub channels : (j : Text) → (h'.conns j).channels ≡ (h.conns j).channels
  pub closed : (j : Text) → (h'.conns j).closed ≡ (h.conns j).closed
  pub keeps_distinct : IsDistinct h.channels → IsDistinct h'.channels

pub SameMembers-IsConsistent : (h h' : Hub) → SameMembers h h' → IsConsistent h → IsConsistent h'
SameMembers-IsConsistent h h' same c = record {
  joined = λ topic id sub.
      rw (same.subscribers topic, same.channels id, same.closed id) (c.joined topic id sub);
  subscribed = λ topic id sub.
      rw (same.subscribers topic, same.channels id, same.closed id) (c.subscribed topic id sub);
  filled = λ topic subs. rw (same.subscribers topic) (c.filled topic subs);
  distinct = same.keeps_distinct c.distinct;
}

pub Quiet-SameMembers : (h h' : Hub) → Quiet h h' → SameMembers h h'
unfolding subscribers_of
Quiet-SameMembers h h' q = record {
  subscribers = λ topic. rw q.channels;
  channels = q.joined;
  closed = q.closed;
  keeps_distinct = λ d. rw q.channels d;
}

pub with_channel-IsDistinct :
    (topic : Text) (f : Channel → Channel) (h : Hub)
    → IsDistinct h.channels
    → IsDistinct (with_channel topic f h).channels
unfolding with_channel
with_channel-IsDistinct topic f h d = elim (Option-cases (lookup topic h.channels)) [
  | inl absent ↦ rw (absent, with_channel) d
  | inr (ch, present) ↦ rw (present, with_channel) (insert-IsDistinct topic (f ch) h.channels d)
]

pub conns-with_channel :
    (topic : Text) (f : Channel → Channel) (h : Hub) → (with_channel topic f h).conns ≡ h.conns
unfolding with_channel
conns-with_channel topic f h = ground arith

pub with_channel-SameMembers :
    (topic : Text) (f : Channel → Channel) (h : Hub)
    → KeepsSubscribers f
    → SameMembers h (with_channel topic f h)
with_channel-SameMembers topic f h keeps = record {
  subscribers = λ t. subscribers_of-with_channel topic t f h keeps;
  channels = λ j. rw conns-with_channel;
  closed = λ j. rw conns-with_channel;
  keeps_distinct = with_channel-IsDistinct topic f h;
}

pub SameMembers-trans : (h h' h'' : Hub) → SameMembers h h' → SameMembers h' h'' → SameMembers h h''
SameMembers-trans h h' h'' p q = record {
  subscribers = λ t. q.subscribers t ∙ p.subscribers t;
  channels = λ j. q.channels j ∙ p.channels j;
  closed = λ j. q.closed j ∙ p.closed j;
  keeps_distinct = λ d. q.keeps_distinct (p.keeps_distinct d);
}

pub SameMembers-refl : (h : Hub) → SameMembers h h
SameMembers-refl h = record {
  subscribers = λ t. refl;
  channels = λ j. refl;
  closed = λ j. refl;
  keeps_distinct = λ d. d;
}

pub or_empty-IsDistinct :
    (o : Option (Dict ChannelSub))
    → ((subs : Dict ChannelSub) → o ≡ some subs → (is_empty subs ≡ false) × IsDistinct subs)
    → IsDistinct (or_empty o)
or_empty-IsDistinct none f = tt
or_empty-IsDistinct (some subs) f = (f subs refl).1
