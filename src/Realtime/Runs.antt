-- ===== src/Realtime/Runs.antt =====
-- The hub over time: connections are opened, send messages and are closed, in any order. A step is a
-- whole handler; handlers of two connections do not overlap here.
use sblite.Prelude.{
  Text, Bool, false, ◌≡◌, [], true, lookup, none, if◌then◌else◌, refl, str_eq, arith, str_eq_iff,
}
use sblite.Realtime.Protocol.{Message}
use sblite.Realtime.Conn.{Validation, handle_message, take_message}
use sblite.Realtime.Hub.{Hub, register_conn, close, ChannelSub}
use sblite.Realtime.Consistent.Invariant.{IsConsistent}
use sblite.Realtime.Consistent.Handlers.{handle_message-IsConsistent, take_message-IsConsistent}
use sblite.Realtime.Consistent.Closed.{close-IsConsistent}
use sblite.Realtime.Members.{subscribers_of}

-- `NewHub`. An id that has not been given out stands for a connection that is closed and empty.
unfoldable pub new_hub : (Text → Message → Bool) → Hub
new_hub picks = record {
  connections = λ j. false;
  channels = [];
  conns = λ j. record { channels = []; claims = none; send = []; closed = true };
  picks_send = picks;
}

module _ (id : Text) (h : Hub) where
  subscribers_of-register_conn :
      (t : Text) → subscribers_of t (register_conn id h) ≡ subscribers_of t h
  unfolding subscribers_of register_conn
  subscribers_of-register_conn t = refl

  register_conn_channels :
      (j : Text)
      → ((register_conn id h).conns j).channels ≡ (if str_eq id j then [] else (h.conns j).channels)
  unfolding register_conn
  register_conn_channels j = ground arith

  register_conn_closed :
      (j : Text)
      → ((register_conn id h).conns j).closed ≡ (if str_eq id j then false else (h.conns j).closed)
  unfolding register_conn
  register_conn_closed j = ground arith

  channels-register_conn : (register_conn id h).channels ≡ h.channels
  unfolding register_conn
  channels-register_conn = refl

  register_conn-IsConsistent :
      (h.conns id).closed ≡ true → IsConsistent h → IsConsistent (register_conn id h)
  register_conn-IsConsistent free c = record {
    joined = λ t j s own open_conn.
        let nothing : lookup {V = ChannelSub} t [] ≡ none = unfold lookup in refl in
        ground (
          arith,
          subscribers_of-register_conn t,
          register_conn_channels j,
          register_conn_closed j,
          nothing,
          c.joined t j s,
          own,
          open_conn,
        );
    subscribed = λ t j s m. ground (
      arith,
      subscribers_of-register_conn t,
      register_conn_channels j,
      register_conn_closed j,
      c.subscribed t j s,
      m,
      free,
      str_eq_iff id j,
    );
    filled = λ t subs m. c.filled t subs (rw subscribers_of-register_conn at m);
    distinct = rw channels-register_conn c.distinct;
  }

new_hub-IsConsistent : (picks : Text → Message → Bool) → IsConsistent (new_hub picks)
unfolding new_hub subscribers_of lookup
new_hub-IsConsistent picks = record {
  joined = λ t j s own open_conn. cc;
  subscribed = λ t j s m. cc;
  filled = λ t subs m. cc;
  distinct = tt;
}

-- A message is handled only for a connection that is open: that `WritePump` closes a connection while
-- `ReadPump` is inside a handler is left out.
module _ (validate_token : Text → Validation) where
  pub data Step (h : Hub) : Hub → Type 0 where
    connects : (id : Text) → (h.conns id).closed ≡ true → Step h (register_conn id h)
    receives :
        (phx_ref id : Text) (msg : Message)
        → (h.conns id).closed ≡ false
        → Step h (handle_message validate_token phx_ref id msg h)
    writes : (id : Text) → Step h (take_message id h)
    closes : (id : Text) → Step h (close id h)

  pub data Reachable (start : Hub) : Hub → Type 0 where
    here : Reachable start start
    next : {h h' : Hub} → Reachable start h → Step h h' → Reachable start h'

  Step-IsConsistent : {h h' : Hub} → Step h h' → IsConsistent h → IsConsistent h'
  Step-IsConsistent {h} (connects id free) c = register_conn-IsConsistent id h free c
  Step-IsConsistent {h} (receives phx_ref id msg active) c =
      handle_message-IsConsistent validate_token phx_ref id msg h active c
  Step-IsConsistent {h} (writes id) c = take_message-IsConsistent id h c
  Step-IsConsistent {h} (closes id) c = close-IsConsistent id h c

  -- From the empty hub on, after any sequence of connects, messages handled for open connections,
  -- writes to the sockets and closes, the hub is consistent.
  pub Reachable-IsConsistent :
      (picks : Text → Message → Bool) (h : Hub) → Reachable (new_hub picks) h → IsConsistent h
  Reachable-IsConsistent picks h here = new_hub-IsConsistent picks
  Reachable-IsConsistent picks h (next r s) = Step-IsConsistent s (Reachable-IsConsistent picks _ r)
