-- ===== src/Realtime/Presence/Leaving.antt =====
-- `UntrackConn` by the entries that a connection has under a key.
use sblite.Prelude.{
  Text, Dict, IsDistinct, lookup, str_eq, str_eq_iff, ◌≡◌, refl, arith, [], ◌∷◌, List, map, none,
  some, Option, if◌then◌else◌, false, ◌∙◌,
}
use sblite.Realtime.Protocol.{Fields}
use sblite.Realtime.Presence.{
  PresenceMeta, PresenceState, metas_of, entries_of, entries_not_of, untrack_conn, meta_to_map,
  keep_remaining, add_leaves,
}
use sblite.Realtime.Presence.Entries.{entries_of-entries_not_of}

abbrev pub or_nil : Option (List Fields) → List Fields
or_nil none = []
or_nil (some ms) = ms

metas_of_cons :
    (key k : Text) (metas : List PresenceMeta) (ps : PresenceState)
    → metas_of k ((key, metas) ∷ ps) ≡ (if str_eq key k then metas else metas_of k ps)
unfolding metas_of lookup
metas_of_cons key k metas ps = ground arith

metas_of_absent : (k : Text) (ps : PresenceState) → lookup k ps ≡ none → metas_of k ps ≡ []
unfolding metas_of
metas_of_absent k ps h = ground (arith, h)

metas_of-keep_remaining :
    (key k : Text) (metas : List PresenceMeta) (ps : PresenceState)
    → lookup key ps ≡ none
    → metas_of k (keep_remaining key metas ps) ≡ (if str_eq key k then metas else metas_of k ps)
unfolding keep_remaining
metas_of-keep_remaining key k [] ps h = ground (arith, str_eq_iff key k, metas_of_absent key ps h)
metas_of-keep_remaining key k (m ∷ metas) ps h = metas_of_cons key k (m ∷ metas) ps

lookup-add_leaves :
    (key k : Text) (ms : List Fields) (leaves : Dict (List Fields))
    → lookup key leaves ≡ none
    → or_nil (lookup k (add_leaves key ms leaves))
      ≡ (if str_eq key k then ms else or_nil (lookup k leaves))
unfolding add_leaves lookup
lookup-add_leaves key k [] leaves h = ground (arith, str_eq_iff key k, h)
lookup-add_leaves key k (m ∷ ms) leaves h = ground arith

lookup-add_leaves_other :
    (key k : Text) (ms : List Fields) (leaves : Dict (List Fields))
    → str_eq key k ≡ false
    → lookup k (add_leaves key ms leaves) ≡ lookup k leaves
unfolding add_leaves lookup
lookup-add_leaves_other key k [] leaves h = refl
lookup-add_leaves_other key k (m ∷ ms) leaves h = rw h refl

lookup-keep_remaining_other :
    (key k : Text) (metas : List PresenceMeta) (ps : PresenceState)
    → str_eq key k ≡ false
    → lookup k (keep_remaining key metas ps) ≡ lookup k ps
unfolding keep_remaining lookup
lookup-keep_remaining_other key k [] ps h = refl
lookup-keep_remaining_other key k (m ∷ metas) ps h = rw h refl

-- Both results have keys of the state alone.
untrack_conn_absent :
    (id k : Text) (ps : PresenceState)
    → lookup k ps ≡ none
    → (lookup k (untrack_conn id ps).0 ≡ none) × (lookup k (untrack_conn id ps).1 ≡ none)
unfolding untrack_conn lookup
untrack_conn_absent id k [] h = (refl, refl)
untrack_conn_absent id k ((key, metas) ∷ ps) h =
    let other : str_eq key k ≡ false = ground arith in
    let rest = untrack_conn_absent id k ps (ground arith) in
    (
      lookup-add_leaves_other key k (map meta_to_map (entries_of id metas)) (untrack_conn id ps).0
            other
          ∙ rest.0,
      lookup-keep_remaining_other key k (entries_not_of id metas) (untrack_conn id ps).1 other
          ∙ rest.1,
    )

untrack_conn_cons :
    (id key : Text) (metas : List PresenceMeta) (ps : PresenceState)
    → untrack_conn id ((key, metas) ∷ ps) ≡ (
      add_leaves key (map meta_to_map (entries_of id metas)) (untrack_conn id ps).0,
      keep_remaining key (entries_not_of id metas) (untrack_conn id ps).1,
    )
unfolding untrack_conn
untrack_conn_cons id key metas ps = refl

-- `UntrackConn` returns under each key the entries that the connection had there, and leaves it with
-- none; every other connection has the entries that it had.
pub untrack_conn_effect :
    (id : Text) (ps : PresenceState)
    → IsDistinct ps
    → ((k : Text)
        → or_nil (lookup k (untrack_conn id ps).0)
          ≡ map meta_to_map (entries_of id (metas_of k ps)))
      × ((k c : Text)
          → entries_of c (metas_of k (untrack_conn id ps).1)
            ≡ (if str_eq id c then [] else entries_of c (metas_of k ps)))
untrack_conn_effect id [] d = (
  λ k. unfold untrack_conn lookup metas_of entries_of in refl,
  λ k c. unfold untrack_conn lookup metas_of entries_of in ground arith,
)
untrack_conn_effect id ((key, metas) ∷ ps) (fresh, d) =
    let (returned, left) = untrack_conn_effect id ps d in
    let (no_leaves, no_metas) = untrack_conn_absent id key ps fresh in
    (
      λ k.
          rw
            (
              untrack_conn_cons,
              lookup-add_leaves key k (map meta_to_map (entries_of id metas)) (untrack_conn id ps).0
                  no_leaves,
              metas_of_cons,
            )
            (ground (arith, returned k)),
      λ k c.
          rw
            (
              untrack_conn_cons,
              metas_of-keep_remaining key k (entries_not_of id metas) (untrack_conn id ps).1
                  no_metas,
              metas_of_cons,
            )
            (ground (arith, left k c, entries_of-entries_not_of id c metas)),
    )
