-- ===== src/Realtime/Consistent/Close.antt =====
-- Who is subscribed behind `unregisterConn` of internal/realtime/hub.go.
use sblite.Prelude.{
  Text, Option, Dict, lookup, some, ◌≡◌, Option-cases, none, IsDistinct, ◌∷◌, inl, arith,
  if◌then◌else◌, refl, inr, str_eq, ◌∙◌, Bool-cases, str_eq_iff, ap, [], is_empty, false,
  lookup-delete,
}
use sblite.Realtime.Hub.{
  leave_presence, without_subscriber, unregister_channel, keep_channel, unregister_channels,
  ChannelSub, set_presence, remove_subscriber, Channel, Hub, send,
}
use sblite.Realtime.Members.{subscribers_in, removed, or_empty}
use sblite.Realtime.Hub.Quiet.{Quiet, Quiet-refl, Quiet-trans, send_leaves-keeps, send-Quiet}
use sblite.Realtime.Presence.{untrack_conn}
use sblite.Realtime.Consistent.Leave.{lookup-removed, removed_filled}

-- The subscribers that a channel keeps, and no channel where the last one leaves.
abbrev pub left_of : Text → Option (Dict ChannelSub) → Option (Dict ChannelSub)
left_of id none = none
left_of id (some subs) = elim (lookup id subs) [
  | none ↦ some subs
  | some _ ↦ removed id (some subs)
]

subscribers-leave_presence :
    (id topic : Text) (sub : ChannelSub) (ch : Channel) (h : Hub)
    → (leave_presence id topic sub ch h).0.subscribers ≡ ch.subscribers
unfolding leave_presence set_presence
subscribers-leave_presence id topic sub ch h = elim (Option-cases ch.presence) [
  | inl absent ↦ rw (absent, leave_presence)
  | inr (ps, present) ↦ elim (Bool-cases (str_eq sub.presence_config.key [])) [
    | inl no_key ↦ rw (present, leave_presence, no_key)
    | inr key ↦ rw (present, leave_presence, key)
  ]
]

leave_presence-Quiet :
    (id topic : Text) (sub : ChannelSub) (ch : Channel) (h : Hub)
    → Quiet h (leave_presence id topic sub ch h).1
unfolding leave_presence
leave_presence-Quiet id topic sub ch h = elim (Option-cases ch.presence) [
  | inl absent ↦ rw (absent, leave_presence) (Quiet-refl h)
  | inr (ps, present) ↦ elim (Bool-cases (str_eq sub.presence_config.key [])) [
    | inl no_key ↦ rw (present, leave_presence, no_key) (Quiet-refl h)
    | inr key ↦
        rw (present, leave_presence, key)
          (send_leaves-keeps (Quiet h)
            (λ i m x q. Quiet-trans h x (send i m x) q (send-Quiet i m x)) topic sub.join_ref id
            ch.subscribers (untrack_conn id ps).0 h (Quiet-refl h))
  ]
]

subscribers_in-without_subscriber :
    (id : Text) (ch : Channel)
    → subscribers_in (without_subscriber id ch) ≡ removed id (some ch.subscribers)
unfolding without_subscriber remove_subscriber
subscribers_in-without_subscriber id ch = ground arith

subscribers_in-unregister_channel :
    (id topic : Text) (ch : Channel) (h : Hub)
    → subscribers_in (unregister_channel id topic ch h).0 ≡ left_of id (some ch.subscribers)
unfolding unregister_channel
subscribers_in-unregister_channel id topic ch h = elim (Option-cases (lookup id ch.subscribers)) [
  | inl absent ↦ rw (absent, unregister_channel) (rw (absent, left_of))
  | inr (sub, present) ↦
      rw (present, unregister_channel, left_of)
        (rw (subscribers_in-without_subscriber, subscribers-leave_presence))
]

unregister_channel-Quiet :
    (id topic : Text) (ch : Channel) (h : Hub) → Quiet h (unregister_channel id topic ch h).1
unfolding unregister_channel
unregister_channel-Quiet id topic ch h = elim (Option-cases (lookup id ch.subscribers)) [
  | inl absent ↦ rw (absent, unregister_channel) (Quiet-refl h)
  | inr (sub, present) ↦ rw (present, unregister_channel) (leave_presence-Quiet id topic sub ch h)
]

lookup-keep_channel :
    (topic t : Text) (kept : Option Channel) (chs : Dict Channel)
    → lookup topic chs ≡ none
    → lookup t (keep_channel topic kept chs) ≡ (if str_eq topic t then kept else lookup t chs)
unfolding keep_channel lookup
lookup-keep_channel topic t none chs absent = ground (arith, str_eq_iff topic t)
lookup-keep_channel topic t (some ch) chs absent = refl

keep_channel-IsDistinct :
    (topic : Text) (kept : Option Channel) (chs : Dict Channel)
    → lookup topic chs ≡ none
    → IsDistinct chs
    → IsDistinct (keep_channel topic kept chs)
unfolding keep_channel
keep_channel-IsDistinct topic none chs absent d = d
keep_channel-IsDistinct topic (some ch) chs absent d = (absent, d)

-- A map of channels after the loop of `unregisterConn`.
pub record Unregistered (id : Text) (chs : Dict Channel) (h : Hub) (x : Dict Channel × Hub)
    : Type 0 where
  pub subscribers :
      (t : Text) → subscribers_in (lookup t x.0) ≡ left_of id (subscribers_in (lookup t chs))
  pub distinct : IsDistinct x.0
  pub quiet : Quiet h x.1

subscribers_in-none : (o : Option Channel) → subscribers_in o ≡ none → o ≡ none
subscribers_in-none none h = refl
subscribers_in-none (some ch) h = cc

unregister_channels_cons :
    (id topic : Text) (ch : Channel) (chs : Dict Channel) (h : Hub)
    → unregister_channels id ((topic, ch) ∷ chs) h ≡ (
        let u = unregister_channel id topic ch h in
        let rest = unregister_channels id chs u.1 in (keep_channel topic u.0 rest.0, rest.1))
unfolding unregister_channels
unregister_channels_cons id topic ch chs h = refl

lookup_cons :
    (t topic : Text) (ch : Channel) (chs : Dict Channel)
    → lookup t ((topic, ch) ∷ chs) ≡ (if str_eq topic t then some ch else lookup t chs)
unfolding lookup
lookup_cons t topic ch chs = refl

pub unregister_channels-Unregistered :
    (id : Text) (chs : Dict Channel) (h : Hub)
    → IsDistinct chs
    → Unregistered id chs h (unregister_channels id chs h)
unregister_channels-Unregistered id [] h d =
    unfold unregister_channels lookup in
    record { subscribers = λ t. refl; distinct = tt; quiet = Quiet-refl h }
unregister_channels-Unregistered id ((topic, ch) ∷ chs) h (absent, d) =
    let u = unregister_channel id topic ch h in
    let rest = unregister_channels id chs u.1 in
    let before = unregister_channels-Unregistered id chs u.1 d in
    let gone : lookup topic rest.0 ≡ none =
      subscribers_in-none (lookup topic rest.0)
        (before.subscribers topic ∙ ap (λ o. left_of id (subscribers_in o)) absent) in
    let here : subscribers_in u.0 ≡ left_of id (some ch.subscribers) =
      subscribers_in-unregister_channel id topic ch h in
    rw unregister_channels_cons (record {
      subscribers = λ t. elim (Bool-cases (str_eq topic t)) [
        | inl same ↦ rw (lookup-keep_channel topic t u.0 rest.0 gone, lookup_cons, same) here
        | inr other ↦
            rw (lookup-keep_channel topic t u.0 rest.0 gone, lookup_cons, other)
              (before.subscribers t)
      ];
      distinct = keep_channel-IsDistinct topic u.0 rest.0 gone before.distinct;
      quiet = Quiet-trans h u.1 rest.1 (unregister_channel-Quiet id topic ch h) before.quiet;
    })

-- What is left of the subscriptions: those of the other connections.
pub lookup-left_of :
    (id j : Text) (o : Option (Dict ChannelSub))
    → lookup j (or_empty (left_of id o)) ≡ (if str_eq id j then none else lookup j (or_empty o))
lookup-left_of id j none = unfold lookup in ground arith
lookup-left_of id j (some subs) = elim (Option-cases (lookup id subs)) [
  | inl absent ↦ rw (absent, left_of) (ground (arith, absent, str_eq_iff id j))
  | inr (sub, present) ↦
      rw (present, left_of) (lookup-removed id j (some subs) ∙ lookup-delete id j subs)
]

pub left_of_filled :
    (id : Text) (o : Option (Dict ChannelSub)) (subs : Dict ChannelSub)
    → ((old : Dict ChannelSub) → o ≡ some old → (is_empty old ≡ false) × IsDistinct old)
    → left_of id o ≡ some subs
    → (is_empty subs ≡ false) × IsDistinct subs
left_of_filled id none subs f h = cc
left_of_filled id (some old) subs f h = elim (Option-cases (lookup id old)) [
  | inl absent ↦ f subs (ground (arith, h, absent))
  | inr (sub, present) ↦ removed_filled id (some old) subs f (ground (arith, h, present))
]
