-- ===== src/Realtime/Consistent/Closed.antt =====
-- `Close` of internal/realtime/conn.go as a whole: what it writes, and the invariant.
use sblite.Prelude.{
  Text, ◌≡◌, true, false, arith, Bool-cases, if◌then◌else◌, IsDistinct, inl, str_eq, inr, none, ◌∙◌,
  str_eq_iff, ap, Bool, refl,
}
use sblite.Realtime.Hub.{Hub, close, set_conn, unregister_conn, unregister_channels}
use sblite.Realtime.Members.{subscribers_of}
use sblite.Realtime.Consistent.Invariant.{IsConsistent, member}
use sblite.Realtime.Consistent.Close.{
  left_of, left_of_filled, Unregistered, lookup-left_of, unregister_channels-Unregistered,
}

-- The hub after `Close` on an open connection.
pub record Closed (id : Text) (h h' : Hub) : Type 0 where
  pub subscribers : (t : Text) → subscribers_of t h' ≡ left_of id (subscribers_of t h)
  pub channels : (j : Text) → (h'.conns j).channels ≡ (h.conns j).channels
  pub closed : (j : Text) → (h'.conns j).closed ≡ (if str_eq id j then true else (h.conns j).closed)
  pub connections : (j : Text) → h'.connections j ≡ (if str_eq id j then false else h.connections j)
  pub keeps_distinct : IsDistinct h'.channels

-- The hub that `close` hands to `unregisterConn`.
abbrev marked : Text → Hub → Hub
marked id h = let c = h.conns id in set_conn id (record c { closed = true }) h

close-Closed :
    (id : Text) (h : Hub)
    → (h.conns id).closed ≡ false
    → IsDistinct h.channels
    → Closed id h (close id h)
unfolding close unregister_conn
close-Closed id h active d =
    let m = marked id h in
    let gone = record m { connections = λ j. if str_eq id j then false else m.connections j } in
    let x = unregister_channels id m.channels gone in
    let u : Unregistered id h.channels gone x =
      unregister_channels-Unregistered id h.channels gone d in
    rw active (record {
      subscribers = λ t. unfold subscribers_of in u.subscribers t;
      channels = λ j. u.quiet.joined j ∙ unfold set_conn in ground (arith, str_eq_iff id j);
      closed = λ j. u.quiet.closed j ∙ unfold set_conn in ground (arith, str_eq_iff id j);
      connections =
          λ j. ap (λ (f : Text → Bool). f j) u.quiet.connections ∙ unfold set_conn in refl;
      keeps_distinct = u.distinct;
    })

module _ (id : Text) (h h' : Hub) (c : IsConsistent h) (e : Closed id h h') where
  pub member-Closed : (t j : Text) → member h' t j ≡ (if str_eq id j then none else member h t j)
  member-Closed t j = rw (e.subscribers t) (lookup-left_of id j (subscribers_of t h))

  Closed-IsConsistent : IsConsistent h'
  Closed-IsConsistent = record {
    joined = λ t j s own open_conn.
        ground (arith, member-Closed t j, e.channels j, e.closed j, c.joined t j s, own, open_conn);
    subscribed = λ t j s m.
        ground (arith, member-Closed t j, e.channels j, e.closed j, c.subscribed t j s, m);
    filled = λ t subs m.
        left_of_filled id (subscribers_of t h) subs (c.filled t) (rw (e.subscribers t) at m);
    distinct = e.keeps_distinct;
  }

close_again : (id : Text) (h : Hub) → (h.conns id).closed ≡ true → close id h ≡ h
unfolding close
close_again id h done = rw done

-- Closing a connection, for the first time or again, keeps the invariant.
pub close-IsConsistent : (id : Text) (h : Hub) → IsConsistent h → IsConsistent (close id h)
close-IsConsistent id h c = elim (Bool-cases (h.conns id).closed) [
  | inl done ↦ rw (close_again id h done) c
  | inr active ↦ Closed-IsConsistent id h (close id h) c (close-Closed id h active c.distinct)
]

-- After `Close` the connection is a subscriber of no channel and no longer registered, every other
-- connection has the subscriptions and the registration that it had.
pub close_effect :
    (id : Text) (h : Hub)
    → (h.conns id).closed ≡ false
    → IsConsistent h
    → ((t j : Text) → member (close id h) t j ≡ (if str_eq id j then none else member h t j))
      × ((j : Text) → (close id h).connections j ≡ (if str_eq id j then false else h.connections j))
close_effect id h active c =
    let e = close-Closed id h active c.distinct in
    (member-Closed id h (close id h) c e, e.connections)
