-- ===== src/Realtime/Consistent/Join.antt =====
-- The tables of subscriptions behind `handleJoin` of internal/realtime/conn.go.
use sblite.Prelude.{
  refl, Text, IsDistinct, insert-IsDistinct, lookup, insert, lookup-insert, is_empty-insert, str_eq,
  str_eq_iff, ◌≡◌, some, Bool, false, arith, if◌then◌else◌, Option-cases, inl, inr, [], Bool-cases,
  str_eq_refl,
}
use sblite.Realtime.Hub.{
  ChannelSub, Hub, get_or_create_channel, with_channel, enable_presence, add_subscriber,
}
use sblite.Realtime.Members.{
  subscribers_of, or_empty, subscribers_of-add_subscriber, subscribers_of-get_or_create_channel,
}
use sblite.Realtime.Consistent.Invariant.{
  member, IsConsistent, SameMembers, SameMembers-refl, with_channel-SameMembers, conns-with_channel,
  with_channel-IsDistinct, or_empty-IsDistinct,
}
use sblite.Realtime.Conn.{track_subscription, add_subscription}

module _ (topic id : Text) (sub : ChannelSub) where
  -- `h'` has the subscription more than `h`, or in place of an older one.
  pub record Joined (h h' : Hub) : Type 0 where
    pub subscribers :
        (t : Text)
        → subscribers_of t h' ≡ (
            if str_eq topic t
            then some (insert id sub (or_empty (subscribers_of topic h)))
            else subscribers_of t h)
    pub channels :
        (j : Text)
        → (h'.conns j).channels
          ≡ (if str_eq id j then insert topic sub (h.conns id).channels else (h.conns j).channels)
    pub closed : (j : Text) → (h'.conns j).closed ≡ (h.conns j).closed
    pub keeps_distinct : IsDistinct h.channels → IsDistinct h'.channels

  module _ (h h' : Hub) (to_id : sub.conn ≡ id) (active : (h.conns id).closed ≡ false)
      (c : IsConsistent h) (e : Joined h h') where
    member-Joined :
        (t j : Text)
        → member h' t j ≡ (
            if str_eq topic t
            then (if str_eq id j then some sub else member h topic j)
            else member h t j)
    member-Joined t j = rw (e.subscribers t) (
        ground
          (arith, str_eq_iff topic t, lookup-insert id j sub (or_empty (subscribers_of topic h))))

    own-Joined :
        (t j : Text)
        → lookup t (h'.conns j).channels ≡ (
            if str_eq id j
            then (if str_eq topic t then some sub else lookup t (h.conns id).channels)
            else lookup t (h.conns j).channels)
    own-Joined t j =
        rw (e.channels j)
          (ground (arith, str_eq_iff id j, lookup-insert topic t sub (h.conns id).channels))

    pub Joined-IsConsistent : IsConsistent h'
    Joined-IsConsistent = record {
      joined = λ t j s own open_conn. ground (
        arith,
        member-Joined t j,
        own-Joined t j,
        str_eq_iff topic t,
        str_eq_iff id j,
        e.closed j,
        c.joined t j s,
        own,
        open_conn,
      );
      subscribed = λ t j s m. ground (
        arith,
        member-Joined t j,
        own-Joined t j,
        str_eq_iff topic t,
        str_eq_iff id j,
        e.closed j,
        c.subscribed t j s,
        m,
        to_id,
        active,
      );
      filled = λ t subs m. elim (Bool-cases (str_eq topic t)) [
        | inl same ↦
            let now : insert id sub (or_empty (subscribers_of topic h)) ≡ subs =
              ground (arith, e.subscribers t, m, same) in
            rw (← now) (
              is_empty-insert id sub (or_empty (subscribers_of topic h)),
              insert-IsDistinct id sub (or_empty (subscribers_of topic h))
                  (or_empty-IsDistinct (subscribers_of topic h) (c.filled topic)),
            )
        | inr other ↦ c.filled t subs (ground (arith, e.subscribers t, m, other))
      ];
      distinct = e.keeps_distinct c.distinct;
    }

conns-get_or_create_channel :
    (topic : Text) (private : Bool) (h : Hub)
    → (get_or_create_channel topic private h).conns ≡ h.conns
unfolding get_or_create_channel
conns-get_or_create_channel topic private h = ground arith

get_or_create_channel-IsDistinct :
    (topic : Text) (private : Bool) (h : Hub)
    → IsDistinct h.channels
    → IsDistinct (get_or_create_channel topic private h).channels
unfolding get_or_create_channel
get_or_create_channel-IsDistinct topic private h d = elim (Option-cases (lookup topic h.channels)) [
  | inl absent ↦ rw (absent, get_or_create_channel) (insert-IsDistinct topic _ h.channels d)
  | inr (ch, present) ↦ rw (present, get_or_create_channel) d
]

-- The channel before the subscriber is added: created, with presence where the join asks for it.
abbrev opened : Text → Bool → ChannelSub → Hub → Hub
opened topic private sub h =
    let h1 = get_or_create_channel topic private h in
    if str_eq sub.presence_config.key [] then h1 else with_channel topic enable_presence h1

opened-SameMembers :
    (topic : Text) (private : Bool) (sub : ChannelSub) (h : Hub)
    → SameMembers (get_or_create_channel topic private h) (opened topic private sub h)
opened-SameMembers topic private sub h =
    let h1 = get_or_create_channel topic private h in
    elim (Bool-cases (str_eq sub.presence_config.key [])) [
      | inl no_key ↦ rw no_key (SameMembers-refl h1)
      | inr key ↦ rw key (
          with_channel-SameMembers topic enable_presence h1
            (unfold enable_presence in λ ch. ground arith))
    ]

track_subscription_conns :
    (id topic : Text) (sub : ChannelSub) (h : Hub) (j : Text)
    → ((track_subscription id topic sub h).conns j).channels
      ≡ (if str_eq id j then insert topic sub (h.conns id).channels else (h.conns j).channels)
unfolding track_subscription
track_subscription_conns id topic sub h j = ground arith

track_subscription_closed :
    (id topic : Text) (sub : ChannelSub) (h : Hub) (j : Text)
    → ((track_subscription id topic sub h).conns j).closed ≡ (h.conns j).closed
unfolding track_subscription
track_subscription_closed id topic sub h j = ground (arith, str_eq_iff id j)

channels-track_subscription :
    (id topic : Text) (sub : ChannelSub) (h : Hub)
    → (track_subscription id topic sub h).channels ≡ h.channels
unfolding track_subscription
channels-track_subscription id topic sub h = refl

subscribers_of-track_subscription :
    (id topic t : Text) (sub : ChannelSub) (h : Hub)
    → subscribers_of t (track_subscription id topic sub h) ≡ subscribers_of t h
unfolding subscribers_of
subscribers_of-track_subscription id topic t sub h = rw channels-track_subscription

-- What a join writes, whatever it finds.
pub add_subscription-Joined :
    (id topic : Text) (private : Bool) (sub : ChannelSub) (h : Hub)
    → Joined topic id sub h (add_subscription id topic sub (get_or_create_channel topic private h))
unfolding add_subscription
add_subscription-Joined id topic private sub h =
    let h1 = get_or_create_channel topic private h in
    let h2 = opened topic private sub h in
    let same = opened-SameMembers topic private sub h in
    let h3 = with_channel topic (add_subscriber id sub) h2 in
    let created : h1.conns ≡ h.conns = conns-get_or_create_channel topic private h in
    let added : h3.conns ≡ h2.conns = conns-with_channel topic (add_subscriber id sub) h2 in
    record {
      subscribers = λ t. ground (
        arith,
        subscribers_of-track_subscription id topic t sub h3,
        subscribers_of-add_subscriber topic t id sub h2,
        same.subscribers topic,
        same.subscribers t,
        subscribers_of-get_or_create_channel topic topic private h,
        subscribers_of-get_or_create_channel topic t private h,
        str_eq_refl topic,
      );
      channels = λ j. rw (
        track_subscription_conns id topic sub h3 j,
        added,
        same.channels id,
        same.channels j,
        created,
      );
      closed = λ j. rw (track_subscription_closed id topic sub h3 j, added, same.closed j, created);
      keeps_distinct = λ d. rw channels-track_subscription (
          with_channel-IsDistinct topic (add_subscriber id sub) h2
            (same.keeps_distinct (get_or_create_channel-IsDistinct topic private h d)));
    }
