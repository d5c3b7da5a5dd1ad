-- ===== src/Realtime/Delivery.antt =====
-- What a connection finds in its buffer behind a handler that sends: `Conn.Send` of
-- internal/realtime/conn.go and the loops over it, for a connection whose buffer has room.
pub mod Broadcast
use sblite.Prelude.{
  ℕ, Text, Dict, IsDistinct, lookup, str_eq, str_eq_iff, str_eq_refl, ◌≡◌, ◌∙◌, refl, List, [], ◌∷◌,
  ◌++◌, length, length-append, append_assoc, append-nil, arith, ◌+◌, ◌≤◌, if◌then◌else◌, Option,
  none, some, false, true, Bool-cases, inl, inr, sym,
}
use sblite.Realtime.Protocol.{Message}
use sblite.Realtime.Hub.{ChannelSub, Hub, send, send_each, send_buffer_size}
use sblite.Realtime.Hub.Quiet.{send-Quiet}

-- From `h` to `h'` the open connection `j` gets the messages `ms`, if its buffer has room for them.
pub record Gets (j : Text) (ms : List Message) (h h' : Hub) : Type 0 where
  pub closed : (h'.conns j).closed ≡ (h.conns j).closed
  pub queue :
      (h.conns j).closed ≡ false
      → length (h.conns j).send + length ms ≤ send_buffer_size
      → (h'.conns j).send ≡ (h.conns j).send ++ ms

pub Gets-refl : (j : Text) (h : Hub) → Gets j [] h h
Gets-refl j h = record { closed = refl; queue = λ _ _. rw append-nil }

pub Gets-trans :
    (j : Text) (ms ns : List Message) (h h' h'' : Hub)
    → Gets j ms h h'
    → Gets j ns h' h''
    → Gets j (ms ++ ns) h h''
Gets-trans j ms ns h h' h'' p q = record {
  closed = q.closed ∙ p.closed;
  queue = λ o room.
      let both = length-append ms ns in
      let first = p.queue o (omega (arith, room, both)) in
      let filled = length-append (h.conns j).send ms in
      let second = q.queue (p.closed ∙ o) (rw first (omega (arith, room, both, filled))) in
      second ∙ (rw (first, append_assoc) refl);
}

send_other :
    (id j : Text) (msg : Message) (h : Hub)
    → str_eq id j ≡ false
    → ((send id msg h).conns j).send ≡ (h.conns j).send
unfolding send
send_other id j msg h other = ground (arith, str_eq_iff id j)

send_self :
    (id : Text) (msg : Message) (h : Hub)
    → (h.conns id).closed ≡ false
    → length (h.conns id).send + 1 ≤ send_buffer_size
    → ((send id msg h).conns id).send ≡ (h.conns id).send ++ msg ∷ []
unfolding send
send_self id msg h o room = ground (arith, str_eq_refl id)

send_closed :
    (id j : Text) (msg : Message) (h : Hub) → ((send id msg h).conns j).closed ≡ (h.conns j).closed
send_closed id j msg h = (send-Quiet id msg h).closed j

pub send-Gets :
    (id j : Text) (msg : Message) (h : Hub)
    → Gets j (if str_eq id j then msg ∷ [] else []) h (send id msg h)
send-Gets id j msg h = elim (Bool-cases (str_eq id j)) [
  | inl same ↦
      let e = (str_eq_iff id j).0 same in
      rw same (record {
        closed = send_closed id j msg h;
        queue = λ o room. rw (sym e) (send_self id msg h (rw e o) (rw e room));
      })
  | inr other ↦ rw other (record {
    closed = send_closed id j msg h;
    queue = λ o room. rw append-nil (send_other id j msg h other);
  })
]

-- The copies of one message for `j` that the loop over the subscribers sends.
unfoldable one_copy : Message → Text → Text → ChannelSub → List Message
one_copy msg exclude j sub =
    if str_eq sub.conn exclude then [] else if str_eq sub.conn j then msg ∷ [] else []

unfoldable copies : Message → Text → Text → Dict ChannelSub → List Message
copies msg exclude j [] = []
copies msg exclude j ((_, sub) ∷ subs) = one_copy msg exclude j sub ++ copies msg exclude j subs

one_copy-Gets :
    (msg : Message) (exclude j : Text) (sub : ChannelSub) (h : Hub)
    → Gets j
        (one_copy msg exclude j sub)
        h
        (if str_eq sub.conn exclude then h else send sub.conn msg h)
unfolding one_copy
one_copy-Gets msg exclude j sub h = elim (Bool-cases (str_eq sub.conn exclude)) [
  | inl same ↦ rw same (Gets-refl j h)
  | inr other ↦ rw other (send-Gets sub.conn j msg h)
]

send_each-Gets :
    (msg : Message) (exclude j : Text) (subs : Dict ChannelSub) (h : Hub)
    → Gets j (copies msg exclude j subs) h (send_each msg exclude subs h)
unfolding copies send_each
send_each-Gets msg exclude j [] h = Gets-refl j h
send_each-Gets msg exclude j ((k, sub) ∷ subs) h =
    let h' = if str_eq sub.conn exclude then h else send sub.conn msg h in
    Gets-trans j (one_copy msg exclude j sub) (copies msg exclude j subs) h h'
      (send_each msg exclude subs h') (one_copy-Gets msg exclude j sub h)
      (send_each-Gets msg exclude j subs h')

-- The messages for the connection `j`, whose subscription in the channel is given: one copy, if it
-- has one and is not the connection passed over.
abbrev pub delivered : Message → Text → Text → Option ChannelSub → List Message
delivered msg exclude j none = []
delivered msg exclude j (some _) = if str_eq j exclude then [] else msg ∷ []

-- Each subscription stands under the id of its connection.
abbrev pub Owned : Dict ChannelSub → Type 0
Owned subs = (id : Text) (sub : ChannelSub) → lookup id subs ≡ some sub → sub.conn ≡ id

pub Owned-tail :
    (k : Text) (sub : ChannelSub) (subs : Dict ChannelSub)
    → lookup k subs ≡ none
    → Owned ((k, sub) ∷ subs)
    → Owned subs
unfolding lookup
Owned-tail k sub subs fresh owned id s e = owned id s (ground (arith, str_eq_iff k id))

pub Owned-head :
    (k : Text) (sub : ChannelSub) (subs : Dict ChannelSub) → Owned ((k, sub) ∷ subs) → sub.conn ≡ k
unfolding lookup
Owned-head k sub subs owned = owned k sub (rw str_eq_refl refl)

copies-delivered :
    (msg : Message) (exclude j : Text) (subs : Dict ChannelSub)
    → IsDistinct subs
    → Owned subs
    → copies msg exclude j subs ≡ delivered msg exclude j (lookup j subs)
unfolding copies one_copy lookup
copies-delivered msg exclude j [] d owned = refl
copies-delivered msg exclude j ((k, sub) ∷ subs) (fresh, d) owned =
    let rest = copies-delivered msg exclude j subs d (Owned-tail k sub subs fresh owned) in
    let mine = Owned-head k sub subs owned in
    elim (Bool-cases (str_eq k j)) [
      | inl same ↦
          let e = (str_eq_iff k j).0 same in
          let none_left = rw e at fresh in
          let nothing = rw none_left at rest in rw (mine, same, e, nothing) (append-nil _)
      | inr other ↦ rw (mine, other, rest) (ground arith)
    ]
