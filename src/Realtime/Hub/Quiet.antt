-- ===== src/Realtime/Hub/Quiet.antt =====
-- What `Send` of internal/realtime/conn.go and the loops over it leave alone.
use sblite.Prelude.{
  Bool-cases, inl, inr, Text, Dict, str_eq, str_eq_iff, ◌≡◌, refl, ◌∙◌, List, [], ◌∷◌, arith,
  if◌then◌else◌,
}
use sblite.Realtime.Protocol.{Message, Fields}
use sblite.Realtime.Hub.{
  leave_diff, send_each, send_leaves, ChannelSub, Hub, send, send_each, send_leaves,
}

-- `h'` differs from `h` in the buffers alone.
pub record Quiet (h h' : Hub) : Type 0 where
  pub channels : h'.channels ≡ h.channels
  pub connections : h'.connections ≡ h.connections
  pub joined : (j : Text) → (h'.conns j).channels ≡ (h.conns j).channels
  pub closed : (j : Text) → (h'.conns j).closed ≡ (h.conns j).closed
  pub claims : (j : Text) → (h'.conns j).claims ≡ (h.conns j).claims

pub Quiet-refl : (h : Hub) → Quiet h h
Quiet-refl h = record {
  channels = refl;
  connections = refl;
  joined = λ j. refl;
  closed = λ j. refl;
  claims = λ j. refl;
}

pub Quiet-trans : (h h' h'' : Hub) → Quiet h h' → Quiet h' h'' → Quiet h h''
Quiet-trans h h' h'' p q = record {
  channels = q.channels ∙ p.channels;
  connections = q.connections ∙ p.connections;
  joined = λ j. q.joined j ∙ p.joined j;
  closed = λ j. q.closed j ∙ p.closed j;
  claims = λ j. q.claims j ∙ p.claims j;
}

pub send-Quiet : (id : Text) (msg : Message) (h : Hub) → Quiet h (send id msg h)
unfolding send
send-Quiet id msg h = record {
  channels = ground arith;
  connections = ground arith;
  joined = λ j. ground (arith, str_eq_iff id j);
  closed = λ j. ground (arith, str_eq_iff id j);
  claims = λ j. ground (arith, str_eq_iff id j);
}

send_each_cons :
    (msg : Message) (exclude k : Text) (sub : ChannelSub) (subs : Dict ChannelSub) (h : Hub)
    → send_each msg exclude ((k, sub) ∷ subs) h
      ≡ send_each msg exclude subs (if str_eq sub.conn exclude then h else send sub.conn msg h)
unfolding send_each
send_each_cons msg exclude k sub subs h = refl

send_leaves_cons :
    (topic join_ref id key : Text) (metas : List Fields) (subs : Dict ChannelSub)
    (leaves : Dict (List Fields)) (h : Hub)
    → send_leaves topic join_ref id subs ((key, metas) ∷ leaves) h
      ≡ send_leaves topic join_ref id subs leaves
          (send_each (leave_diff topic join_ref key metas) id subs h)
unfolding send_leaves
send_leaves_cons topic join_ref id key metas subs leaves h = refl

-- What every `Send` keeps is kept by the loops that send.
module _ (P : Hub → Type 0)
    (keeps : (id : Text) (msg : Message) (h : Hub) → P h → P (send id msg h)) where
  pub send_each-keeps :
      (msg : Message) (exclude : Text) (subs : Dict ChannelSub) (h : Hub)
      → P h
      → P (send_each msg exclude subs h)
  send_each-keeps msg exclude [] h p = unfold send_each in p
  send_each-keeps msg exclude ((k, sub) ∷ subs) h p =
      let next : P (if str_eq sub.conn exclude then h else send sub.conn msg h) =
        elim (Bool-cases (str_eq sub.conn exclude)) [
          | inl same ↦ rw same p
          | inr other ↦ rw other (keeps sub.conn msg h p)
        ] in
      rw send_each_cons (send_each-keeps msg exclude subs _ next)

  pub send_leaves-keeps :
      (topic join_ref id : Text) (subs : Dict ChannelSub) (leaves : Dict (List Fields)) (h : Hub)
      → P h
      → P (send_leaves topic join_ref id subs leaves h)
  send_leaves-keeps topic join_ref id subs [] h p = unfold send_leaves in p
  send_leaves-keeps topic join_ref id subs ((key, metas) ∷ leaves) h p =
      let diff = leave_diff topic join_ref key metas in
      rw send_leaves_cons (
        send_leaves-keeps topic join_ref id subs leaves (send_each diff id subs h)
          (send_each-keeps diff id subs h p))
