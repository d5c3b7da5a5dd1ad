-- ===== src/Realtime/Changes/Told.antt =====
-- Who is told of a row change: `broadcastChange` of internal/realtime/hub.go.
use mathlib.Core.Path.{subst, ap}
use sblite.Prelude.{
  none, some, true, false, Bool, Option, List, ◌++◌, All, inl, inr, [], ◌∷◌, if◌then◌else◌, not,
  ◌&&◌, Text, lookup, ◌≡◌, refl, Dict, IsDistinct, some, All, Option, List, Bool, true, false, not,
  Bool-cases, inl, ◌&&◌, inr, str_eq_refl, str_eq, arith, str_eq_iff, ap, ◌∙◌, append-nil, length,
  ◌+◌, ◌≤◌,
}
use sblite.Realtime.Changes.{
  Policies, Conversions, ChangeEvent, ChannelSub, Hub, Fields, notify, Message, Channel,
  get_matching_subscription_ids, send, is_empty_list, new_postgres_change_message, check_rls_access,
  row_to_check, notify_subscribers, notify_channels, broadcast_change,
}
use sblite.Realtime.Hub.{ChannelSub, Hub, Channel, send, send_buffer_size}
use sblite.Realtime.Protocol.{Fields, Message}
use sblite.Realtime.Hub.Quiet.{Quiet, Quiet-trans, send-Quiet, Quiet-refl}
use sblite.Realtime.Delivery.{Gets, send-Gets, Gets-refl, Owned, Gets-trans, Owned-tail, Owned-head}
use sblite.Rls.{is_empty_list}
use sblite.Realtime.Members.{subscribers_of}
use sblite.Realtime.Consistent.Invariant.{IsConsistent}

-- Each value that a map gives for a key has a property that the values of its entries then have.
All-lookup :
    {V : Type 0} (P : V → Type 0) (m : Dict V)
    → IsDistinct m
    → ((k : Text) (v : V) → lookup k m ≡ some v → P v)
    → All (λ e. P e.1) m
unfolding lookup
All-lookup P [] d h = tt
All-lookup P ((k, v) ∷ m) (fresh, d) h = (
  h k v (rw str_eq_refl refl),
  All-lookup P m d (λ i w e. h i w (ground (arith, str_eq_iff k i))),
)

module _ (rls : Policies) (conv : Conversions) (event : ChangeEvent) where
  -- Whether a subscription is told, by a connection's claims.
  unfoldable pub is_told : ChannelSub → Option Fields → Bool
  is_told sub claims =
      not (is_empty_list (get_matching_subscription_ids conv sub.pg_changes event))
      && check_rls_access rls event.table (row_to_check event) claims

  -- The message for a subscription: one with the ids of all its parts that the change matches, if
  -- there are any and the connection's claims give it access to the row.
  unfoldable pub told : Text → ChannelSub → Option Fields → List Message
  unfolding is_told
  told topic sub claims =
      let ids = get_matching_subscription_ids conv sub.pg_changes event in
      let msg = new_postgres_change_message topic sub.join_ref ids event in
      if is_told sub claims then msg ∷ [] else []

  abbrev pub told_of : Text → Option Fields → Option ChannelSub → List Message
  told_of topic claims none = []
  told_of topic claims (some sub) = told topic sub claims

  -- The messages for the connection `j`, channel by channel.
  unfoldable pub told_in : Text → Option Fields → Dict Channel → List Message
  told_in j claims [] = []
  told_in j claims ((_, ch) ∷ chs) =
      told_of ch.topic claims (lookup j ch.subscribers) ++ told_in j claims chs

  module _ (j : Text) (h0 : Hub) where
    unfoldable one_told : Text → ChannelSub → List Message
    one_told topic sub = if str_eq sub.conn j then told topic sub (h0.conns sub.conn).claims else []

    notify_told :
        (topic : Text) (sub : ChannelSub) (h : Hub)
        → is_told sub (h.conns sub.conn).claims ≡ true
        → notify rls conv topic event sub h
          ≡ send sub.conn
              (new_postgres_change_message topic sub.join_ref
                (get_matching_subscription_ids conv sub.pg_changes event)
                event)
              h
    unfolding notify is_told
    notify_told topic sub h e = rw e refl

    notify_silent :
        (topic : Text) (sub : ChannelSub) (h : Hub)
        → is_told sub (h.conns sub.conn).claims ≡ false
        → notify rls conv topic event sub h ≡ h
    unfolding notify is_told
    notify_silent topic sub h e = rw e refl

    notify-Gets :
        (topic : Text) (sub : ChannelSub) (h : Hub)
        → Quiet h0 h
        → Gets j (one_told topic sub) h (notify rls conv topic event sub h)
          × Quiet h0 (notify rls conv topic event sub h)
    unfolding one_told told
    notify-Gets topic sub h q =
        let same_claims = q.claims sub.conn in
        elim (Bool-cases (is_told sub (h.conns sub.conn).claims)) [
          | inl told_now ↦
              let msg =
                new_postgres_change_message topic sub.join_ref
                  (get_matching_subscription_ids conv sub.pg_changes event) event in
              rw (notify_told topic sub h told_now, rw same_claims at told_now)
                (
                  send-Gets sub.conn j msg h,
                  Quiet-trans h0 h (send sub.conn msg h) q (send-Quiet sub.conn msg h),
                )
          | inr silent ↦
              rw (notify_silent topic sub h silent, rw same_claims at silent)
                (subst (λ ms. Gets j ms h h) (ground arith) (Gets-refl j h), q)
        ]

    one_told_mine :
        (topic : Text) (sub : ChannelSub)
        → sub.conn ≡ j
        → one_told topic sub ≡ told topic sub (h0.conns j).claims
    unfolding one_told
    one_told_mine topic sub e =
        let mine = (str_eq_iff sub.conn j).1 e in
        ap (λ b. if b then told topic sub (h0.conns sub.conn).claims else []) mine
        ∙ ap (λ k. told topic sub (h0.conns k).claims) e

    one_told_other :
        (topic : Text) (sub : ChannelSub) → str_eq sub.conn j ≡ false → one_told topic sub ≡ []
    unfolding one_told
    one_told_other topic sub e =
        ap (λ b. if b then told topic sub (h0.conns sub.conn).claims else []) e

    unfoldable notices : Text → Dict ChannelSub → List Message
    notices topic [] = []
    notices topic ((_, sub) ∷ subs) = one_told topic sub ++ notices topic subs

    notify_subscribers-Gets :
        (topic : Text) (subs : Dict ChannelSub) (h : Hub)
        → Quiet h0 h
        → Gets j (notices topic subs) h (notify_subscribers rls conv topic event subs h)
          × Quiet h0 (notify_subscribers rls conv topic event subs h)
    unfolding notices notify_subscribers
    notify_subscribers-Gets topic [] h q = (Gets-refl j h, q)
    notify_subscribers-Gets topic ((k, sub) ∷ subs) h q =
        let h' = notify rls conv topic event sub h in
        let (first, q') = notify-Gets topic sub h q in
        let (rest, q'') = notify_subscribers-Gets topic subs h' q' in
        (
          Gets-trans j (one_told topic sub) (notices topic subs) h h'
              (notify_subscribers rls conv topic event subs h') first rest,
          q'',
        )

    notices-told_of :
        (topic : Text) (subs : Dict ChannelSub)
        → IsDistinct subs
        → Owned subs
        → notices topic subs ≡ told_of topic (h0.conns j).claims (lookup j subs)
    unfolding notices one_told lookup
    notices-told_of topic [] d owned = refl
    notices-told_of topic ((k, sub) ∷ subs) (fresh, d) owned =
        let rest = notices-told_of topic subs d (Owned-tail k sub subs fresh owned) in
        let mine = Owned-head k sub subs owned in
        elim (Bool-cases (str_eq k j)) [
          | inl same ↦
              let e = (str_eq_iff k j).0 same in
              let none_left = rw e at fresh in
              let nothing = rw none_left at rest in
              rw (one_told_mine topic sub (mine ∙ e), nothing, same) (append-nil _)
          | inr other ↦ rw (one_told_other topic sub (rw mine other), other) rest
        ]

  -- What the theorem below needs of a channel.
  abbrev IsSound : Channel → Type 0
  IsSound ch = IsDistinct ch.subscribers × Owned ch.subscribers

  notify_channels-Gets :
      (j : Text) (h0 : Hub) (chs : Dict Channel) (h : Hub)
      → All (λ e. IsSound e.1) chs
      → Quiet h0 h
      → Gets j (told_in j (h0.conns j).claims chs) h (notify_channels rls conv event chs h)
  unfolding told_in notify_channels
  notify_channels-Gets j h0 [] h _ q = Gets-refl j h
  notify_channels-Gets j h0 ((t, ch) ∷ chs) h ((d, owned), sound) q =
      let h' = notify_subscribers rls conv ch.topic event ch.subscribers h in
      let (first, q') = notify_subscribers-Gets j h0 ch.topic ch.subscribers h q in
      let told_here = notices-told_of j h0 ch.topic ch.subscribers d owned in
      Gets-trans j (told_of ch.topic (h0.conns j).claims (lookup j ch.subscribers))
        (told_in j (h0.conns j).claims chs) h h' (notify_channels rls conv event chs h')
        (rw told_here at first) (notify_channels-Gets j h0 chs h' sound q')

  channels-IsSound : (h : Hub) → IsConsistent h → All (λ e. IsSound e.1) h.channels
  unfolding subscribers_of
  channels-IsSound h c = All-lookup IsSound h.channels c.distinct (λ t ch e.
      ((c.filled t ch.subscribers (rw e refl)).1, λ k s is. (c.subscribed t k s (rw e is)).2))

  -- In a consistent hub `broadcastChange` appends to the buffer of each open connection that has room
  -- for them exactly these messages: for each channel in which it is subscribed, one message with the
  -- ids of all its subscriptions there that the change matches, if there is one and its claims pass
  -- the row level check for the table and the row; and nothing else.
  pub broadcast_change_delivers :
      (j : Text) (h : Hub)
      → IsConsistent h
      → (h.conns j).closed ≡ false
      → length (h.conns j).send + length (told_in j (h.conns j).claims h.channels)
        ≤ send_buffer_size
      → ((broadcast_change rls conv event h).conns j).send
        ≡ (h.conns j).send ++ told_in j (h.conns j).claims h.channels
  unfolding broadcast_change
  broadcast_change_delivers j h c open_j room =
      (notify_channels-Gets j h h.channels h (channels-IsSound h c) (Quiet-refl h)).queue open_j
        room
