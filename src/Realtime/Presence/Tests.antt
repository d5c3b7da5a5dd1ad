-- ===== src/Realtime/Presence/Tests.antt =====
-- Instances of the theorems on presence.
use sblite.Prelude.{Text, codes, ◌≡◌, refl, [], ◌∷◌, none, if◌then◌else◌, ◌&&◌, str_eq, map, lookup}
use sblite.Realtime.Presence.{
  PresenceMeta, PresenceState, entries_of, metas_of, track, untrack, untrack_conn, meta_to_map,
}
use sblite.Realtime.Presence.Entries.{untrack-track}
use sblite.Realtime.Presence.Leaving.{or_nil, untrack_conn_effect}

abbrev entry : Text → PresenceMeta
entry conn = record { conn_id = conn; phx_ref = codes "f"; payload = none }

-- Two connections under one key, one of them under another key too.
abbrev present : PresenceState
present =
    (codes "k", entry (codes "a") ∷ entry (codes "b") ∷ [])
    ∷ (codes "l", entry (codes "a") ∷ [])
    ∷ []

untrack-track_example :
    ((untrack (codes "k") (codes "a") (track (codes "r") (codes "k") (codes "a") none present).1).0
      ≡ (track (codes "r") (codes "k") (codes "a") none present).0 ∷ [])
    × ((k c : Text)
        → entries_of c (
            metas_of k
              (untrack
                (codes "k")
                (codes "a")
                (track (codes "r") (codes "k") (codes "a") none present).1).1)
          ≡ (if str_eq (codes "k") k && str_eq (codes "a") c
              then []
              else entries_of c (metas_of k present)))
untrack-track_example =
    untrack-track (codes "r") (codes "k") (codes "a") none present
      (unfold metas_of entries_of lookup str_eq in refl)

untrack_conn_effect_example :
    ((k : Text)
      → or_nil (lookup k (untrack_conn (codes "a") present).0)
        ≡ map meta_to_map (entries_of (codes "a") (metas_of k present)))
    × ((k c : Text)
        → entries_of c (metas_of k (untrack_conn (codes "a") present).1)
          ≡ (if str_eq (codes "a") c then [] else entries_of c (metas_of k present)))
untrack_conn_effect_example =
    untrack_conn_effect (codes "a") present (unfold lookup str_eq in (refl, (refl, tt)))
