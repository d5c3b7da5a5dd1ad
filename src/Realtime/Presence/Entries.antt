-- ===== src/Realtime/Presence/Entries.antt =====
-- `Track` and `Untrack`, by the entries that a connection has under a key.
use sblite.Prelude.{
  Text, str_eq, str_eq_iff, ◌≡◌, arith, [], ◌∷◌, List, tail, map, if◌then◌else◌, ◌&&◌,
  lookup-insert, lookup-delete, Option, insert, str_eq_refl, ap,
}
use sblite.Realtime.Protocol.{Fields}
use sblite.Realtime.Presence.{
  PresenceMeta, PresenceState, put_meta, metas_of, entries_of, entries_not_of, set_remaining, track,
  untrack, meta_to_map,
}

entries_of-put_meta :
    (meta : PresenceMeta) (metas : List PresenceMeta) (c : Text)
    → entries_of c (put_meta meta metas)
      ≡ (if str_eq meta.conn_id c then meta ∷ tail (entries_of c metas) else entries_of c metas)
unfolding entries_of put_meta
entries_of-put_meta meta [] c = ground arith
entries_of-put_meta meta (m ∷ metas) c = ground (
  arith,
  entries_of-put_meta meta metas c,
  str_eq_iff m.conn_id meta.conn_id,
  str_eq_iff m.conn_id c,
  str_eq_iff meta.conn_id c,
)

pub entries_of-entries_not_of :
    (id c : Text) (metas : List PresenceMeta)
    → entries_of c (entries_not_of id metas) ≡ (if str_eq id c then [] else entries_of c metas)
unfolding entries_of entries_not_of
entries_of-entries_not_of id c [] = ground arith
entries_of-entries_not_of id c (m ∷ metas) = ground (
  arith,
  entries_of-entries_not_of id c metas,
  str_eq_iff m.conn_id id,
  str_eq_iff m.conn_id c,
  str_eq_iff id c,
)

metas_of-insert :
    (key k : Text) (metas : List PresenceMeta) (ps : PresenceState)
    → metas_of k (insert key metas ps) ≡ (if str_eq key k then metas else metas_of k ps)
unfolding metas_of
metas_of-insert key k metas ps = ground (arith, lookup-insert key k metas ps)

metas_of-set_remaining :
    (key k : Text) (metas : List PresenceMeta) (ps : PresenceState)
    → metas_of k (set_remaining key metas ps) ≡ (if str_eq key k then metas else metas_of k ps)
unfolding set_remaining
metas_of-set_remaining key k [] ps = unfold metas_of in ground (arith, lookup-delete key k ps)
metas_of-set_remaining key k (m ∷ metas) ps = metas_of-insert key k (m ∷ metas) ps

untrack_entries :
    (key id k c : Text) (ps : PresenceState)
    → entries_of c (metas_of k (untrack key id ps).1)
      ≡ (if str_eq key k && str_eq id c then [] else entries_of c (metas_of k ps))
unfolding untrack
untrack_entries key id k c ps =
    rw metas_of-set_remaining
      (ground (arith, str_eq_iff key k, entries_of-entries_not_of id c (metas_of key ps)))

module _ (phx_ref key id : Text) (payload : Option Fields) (ps : PresenceState) where
  abbrev pub tracked : PresenceMeta
  tracked = record { conn_id = id; phx_ref = phx_ref; payload = payload }

  track_entries :
      (k c : Text)
      → entries_of c (metas_of k (track phx_ref key id payload ps).1) ≡ (
          if str_eq key k && str_eq id c
          then tracked ∷ tail (entries_of c (metas_of k ps))
          else entries_of c (metas_of k ps))
  unfolding track
  track_entries k c =
      rw metas_of-insert
        (ground (arith, str_eq_iff key k, entries_of-put_meta tracked (metas_of key ps) c))

  -- If a connection has at most one entry under a key, tracking it there and untracking it again
  -- returns the entry just tracked alone, and leaves the connection without an entry under the key;
  -- each other connection has the entries that it had, under every key, and so has this one under the
  -- other keys.
  pub untrack-track :
      tail (entries_of id (metas_of key ps)) ≡ []
      → ((untrack key id (track phx_ref key id payload ps).1).0
          ≡ (track phx_ref key id payload ps).0 ∷ [])
        × ((k c : Text)
            → entries_of c (metas_of k (untrack key id (track phx_ref key id payload ps).1).1)
              ≡ (if str_eq key k && str_eq id c then [] else entries_of c (metas_of k ps)))
  untrack-track single =
      let after = (track phx_ref key id payload ps).1 in
      let mine : entries_of id (metas_of key after) ≡ tracked ∷ [] =
        ground (arith, track_entries key id, str_eq_refl key, str_eq_refl id, single) in
      (
        unfold untrack track in ap (map meta_to_map) mine,
        λ k c. ground (arith, untrack_entries key id k c after, track_entries k c),
      )
