-- ===== src/Realtime/Consistent/Leave.antt =====
-- The tables of subscriptions behind `handleLeave` of internal/realtime/conn.go.
use sblite.Realtime.Consistent.Invariant.{
  member, IsConsistent, SameMembers, SameMembers-refl, SameMembers-trans, Quiet-SameMembers,
  with_channel-SameMembers,
}
use sblite.Prelude.{
  is_empty, Text, lookup, Option, Dict, ◌≡◌, arith, true, if◌then◌else◌, str_eq_iff, Option-cases,
  none, delete, some, str_eq, inl, ◌∷◌, Bool-cases, false, IsDistinct, lookup-delete, inr, [], refl,
  delete-IsDistinct,
}
use sblite.Realtime.Conn.{untrack_key, leave_key, broadcast_leaves}
use sblite.Realtime.Hub.{Hub, ChannelSub, Channel, with_channel, set_presence, send}
use sblite.Realtime.Members.{subscribers_of, or_empty, removed}
use sblite.Realtime.Presence.{PresenceState, untrack}
use sblite.Realtime.Hub.Quiet.{Quiet, Quiet-trans, send-Quiet, Quiet-refl}
use sblite.Realtime.Conn.Sends.{broadcast_leaves-keeps}

lookup-is_empty : (k : Text) (m : Dict ChannelSub) → is_empty m ≡ true → lookup k m ≡ none
unfolding is_empty lookup
lookup-is_empty k [] h = refl
lookup-is_empty k (e ∷ m) h = cc

pub lookup-removed :
    (id j : Text) (o : Option (Dict ChannelSub))
    → lookup j (or_empty (removed id o)) ≡ lookup j (delete id (or_empty o))
lookup-removed id j none = unfold delete in refl
lookup-removed id j (some subs) = elim (Bool-cases (is_empty (delete id subs))) [
  | inl gone ↦ rw (gone, lookup-is_empty j (delete id subs) gone) (unfold lookup in refl)
  | inr left ↦ rw left
]

pub removed_filled :
    (id : Text) (o : Option (Dict ChannelSub)) (subs : Dict ChannelSub)
    → ((old : Dict ChannelSub) → o ≡ some old → (is_empty old ≡ false) × IsDistinct old)
    → removed id o ≡ some subs
    → (is_empty subs ≡ false) × IsDistinct subs
removed_filled id none subs f h = cc
removed_filled id (some old) subs f h =
    let parts : (is_empty (delete id old) ≡ false) × (delete id old ≡ subs) = ground (arith, h) in
    rw (← parts.1) (parts.0, delete-IsDistinct id old (f old refl).1)

module _ (topic id : Text) where
  -- `h'` lacks the subscription.
  pub record Left (h h' : Hub) : Type 0 where
    pub subscribers :
        (t : Text)
        → subscribers_of t h'
          ≡ (if str_eq topic t then removed id (subscribers_of topic h) else subscribers_of t h)
    pub channels :
        (j : Text)
        → (h'.conns j).channels
          ≡ (if str_eq id j then delete topic (h.conns id).channels else (h.conns j).channels)
    pub closed : (j : Text) → (h'.conns j).closed ≡ (h.conns j).closed
    pub keeps_distinct : IsDistinct h.channels → IsDistinct h'.channels

  module _ (h h' : Hub) (c : IsConsistent h) (e : Left h h') where
    member-Left :
        (t j : Text)
        → member h' t j ≡ (
            if str_eq topic t
            then (if str_eq id j then none else member h topic j)
            else member h t j)
    member-Left t j = rw (e.subscribers t) (
        ground (
          arith,
          str_eq_iff topic t,
          lookup-removed id j (subscribers_of topic h),
          lookup-delete id j (or_empty (subscribers_of topic h)),
        ))

    own-Left :
        (t j : Text)
        → lookup t (h'.conns j).channels ≡ (
            if str_eq id j
            then (if str_eq topic t then none else lookup t (h.conns id).channels)
            else lookup t (h.conns j).channels)
    own-Left t j =
        rw (e.channels j)
          (ground (arith, str_eq_iff id j, lookup-delete topic t (h.conns id).channels))

    pub Left-IsConsistent : IsConsistent h'
    Left-IsConsistent = record {
      joined = λ t j s own open_conn. ground (
        arith,
        member-Left t j,
        own-Left t j,
        str_eq_iff topic t,
        str_eq_iff id j,
        e.closed j,
        c.joined t j s,
        own,
        open_conn,
      );
      subscribed = λ t j s m. ground (
        arith,
        member-Left t j,
        own-Left t j,
        str_eq_iff topic t,
        str_eq_iff id j,
        e.closed j,
        c.subscribed t j s,
        m,
      );
      filled = λ t subs m. elim (Bool-cases (str_eq topic t)) [
        | inl same ↦
            removed_filled id (subscribers_of topic h) subs (c.filled topic)
              (ground (arith, e.subscribers t, m, same))
        | inr other ↦ c.filled t subs (ground (arith, e.subscribers t, m, other))
      ];
      distinct = e.keeps_distinct c.distinct;
    }

-- The presence part changes no subscription.
pub untrack_key-SameMembers :
    (id topic : Text) (sub : ChannelSub) (ch : Channel) (ps : PresenceState) (h : Hub)
    → SameMembers h (untrack_key id topic sub ch ps h)
unfolding untrack_key
untrack_key-SameMembers id topic sub ch ps h =
    let (leaves, ps') = untrack sub.presence_config.key id ps in
    let h' = with_channel topic (set_presence ps') h in
    let written : SameMembers h h' =
      with_channel-SameMembers topic (set_presence ps') h (unfold set_presence in λ c. refl) in
    let sent : Quiet h' (broadcast_leaves topic sub ch leaves h') =
      broadcast_leaves-keeps (Quiet h')
        (λ i m x q. Quiet-trans h' x (send i m x) q (send-Quiet i m x)) topic sub ch leaves h'
        (Quiet-refl h') in
    SameMembers-trans h h' _ written (Quiet-SameMembers h' _ sent)

pub leave_key-SameMembers :
    (id topic : Text) (sub : ChannelSub) (ch : Channel) (h : Hub)
    → SameMembers h (leave_key id topic sub ch h)
unfolding leave_key
leave_key-SameMembers id topic sub ch h = elim (Option-cases ch.presence) [
  | inl absent ↦ rw (absent, leave_key) (SameMembers-refl h)
  | inr (ps, present) ↦ elim (Bool-cases (str_eq sub.presence_config.key [])) [
    | inl no_key ↦ rw (present, leave_key, no_key) (SameMembers-refl h)
    | inr key ↦ rw (present, leave_key, key) (untrack_key-SameMembers id topic sub ch ps h)
  ]
]
