-- ===== src/Realtime/Presence.antt =====
-- `PresenceState` (internal/realtime/presence.go).
pub mod Entries
pub mod Leaving
mod Tests
use sblite.Prelude.{
  Text, codes, str_eq, Dict, lookup, insert, delete, Option, none, some, List, [], ◌∷◌, map,
  if◌then◌else◌,
}
use sblite.Realtime.Protocol.{Fields, Items, text, obj, arr, end, field, done, item, set_field}

pub record PresenceMeta : Type 0 where
  pub conn_id : Text
  pub phx_ref : Text
  pub payload : Option Fields

-- The field `state`: for each presence key the list of its entries.
abbrev pub PresenceState : Type 0
PresenceState = Dict (List PresenceMeta)

abbrev pub new_presence_state : PresenceState
new_presence_state = []

-- metaToMap
unfoldable pub meta_to_map : PresenceMeta → Fields
unfolding set_field
meta_to_map m =
    set_field (codes "phx_ref") (text m.phx_ref)
      (elim m.payload [ some payload ↦ payload | none ↦ end ])

-- A key that is absent has the nil list.
unfoldable pub metas_of : Text → PresenceState → List PresenceMeta
unfolding lookup
metas_of key ps = elim (lookup key ps) [ some metas ↦ metas | none ↦ [] ]

-- The loop of `Track`: the first entry of the connection is replaced, else the entry is appended.
unfoldable pub put_meta : PresenceMeta → List PresenceMeta → List PresenceMeta
put_meta meta [] = meta ∷ []
put_meta meta (m ∷ metas) =
    if str_eq m.conn_id meta.conn_id then meta ∷ metas else m ∷ put_meta meta metas

-- `Track`; `phx_ref` is the first part of the new UUID.
unfoldable pub track : Text → Text → Text → Option Fields → PresenceState → Fields × PresenceState
unfolding put_meta metas_of insert meta_to_map
track phx_ref key conn_id payload ps =
    let meta : PresenceMeta = record { conn_id = conn_id; phx_ref = phx_ref; payload = payload } in
    (meta_to_map meta, insert key (put_meta meta (metas_of key ps)) ps)

-- The entries of a connection, and the others.
unfoldable pub entries_of : Text → List PresenceMeta → List PresenceMeta
entries_of conn_id [] = []
entries_of conn_id (m ∷ metas) =
    let rest = entries_of conn_id metas in if str_eq m.conn_id conn_id then m ∷ rest else rest

unfoldable pub entries_not_of : Text → List PresenceMeta → List PresenceMeta
entries_not_of conn_id [] = []
entries_not_of conn_id (m ∷ metas) =
    let rest = entries_not_of conn_id metas in if str_eq m.conn_id conn_id then rest else m ∷ rest

-- `len(remaining) == 0` decides whether the key stays.
unfoldable pub set_remaining : Text → List PresenceMeta → PresenceState → PresenceState
unfolding insert delete
set_remaining key [] ps = delete key ps
set_remaining key (m ∷ metas) ps = insert key (m ∷ metas) ps

-- `Untrack`
unfoldable pub untrack : Text → Text → PresenceState → List Fields × PresenceState
unfolding entries_of entries_not_of set_remaining metas_of meta_to_map
untrack key conn_id ps =
    let metas = metas_of key ps in
    (
      map meta_to_map (entries_of conn_id metas),
      set_remaining key (entries_not_of conn_id metas) ps,
    )

-- What `UntrackConn` adds to `leaves` and leaves in `state` for one key.
add_leaves : Text → List Fields → Dict (List Fields) → Dict (List Fields)
add_leaves key [] leaves = leaves
add_leaves key (m ∷ ms) leaves = (key, m ∷ ms) ∷ leaves

keep_remaining : Text → List PresenceMeta → PresenceState → PresenceState
keep_remaining key [] ps = ps
keep_remaining key (m ∷ metas) ps = (key, m ∷ metas) ∷ ps

-- `UntrackConn`: the loop over `state`, which sets or deletes the key that it is at.
unfoldable pub untrack_conn : Text → PresenceState → Dict (List Fields) × PresenceState
unfolding entries_of entries_not_of add_leaves keep_remaining meta_to_map
untrack_conn conn_id [] = ([], [])
untrack_conn conn_id ((key, metas) ∷ ps) =
    let (leaves, rest) = untrack_conn conn_id ps in
    (
      add_leaves key (map meta_to_map (entries_of conn_id metas)) leaves,
      keep_remaining key (entries_not_of conn_id metas) rest,
    )

unfoldable pub maps_to_items : List Fields → Items
maps_to_items [] = done
maps_to_items (m ∷ ms) = item (obj m) (maps_to_items ms)

-- `GetState`, as the payload of a message.
unfoldable pub get_state : PresenceState → Fields
unfolding maps_to_items meta_to_map
get_state [] = end
get_state ((key, metas) ∷ ps) =
    field key (arr (maps_to_items (map meta_to_map metas))) (get_state ps)
