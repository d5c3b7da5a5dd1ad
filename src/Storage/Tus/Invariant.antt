-- ===== src/Storage/Tus/Invariant.antt =====
-- The invariant of the rows and the temporary files of internal/storage/tus.go.
use sblite.Prelude.{
  ℕ, zero, suc, Text, codes, Dict, insert, delete, lookup, lookup-insert, lookup-delete, Bool-cases,
  Option-cases, inl, inr, ◌+◌, ◌-◌, ◌≤◌, ◌≡◌, arith, Option, none, some, List, [], ◌∷◌, ◌++◌,
  str_eq, str_eq_iff, length, length-append, drop, false, ◌⊎◌,
}
use sblite.Storage.Tus.{
  UploadSession, System, Faults, Store, Answer, Failure, failed, session_expired, is_expired, done,
  internal, session_not_found,
}
use sblite.Storage.Tus.Sessions.{
  delete_record, remove_file, delete_session, run_deletion, cleanup_rows, get_upload,
}
use sblite.Storage.Tus.Chunks.{take, padded, write_at}

pub length-take : (n : ℕ) (s : Text) → (length (take n s) ≤ n) × (length (take n s) ≤ length s)
unfolding take
length-take zero s = omega arith
length-take (suc n) [] = omega arith
length-take (suc n) (b ∷ s) = omega (arith, length-take n s)

length-padded : (n : ℕ) (s : Text) → length (padded n s) ≡ n
unfolding padded
length-padded zero s = omega arith
length-padded (suc n) [] = omega (arith, length-padded n [])
length-padded (suc n) (b ∷ s) = omega (arith, length-padded n s)

length-drop : (n : ℕ) (s : Text) → length (drop n s) ≡ length s - n
unfolding drop
length-drop zero s = omega arith
length-drop (suc n) [] = omega arith
length-drop (suc n) (b ∷ s) = omega (arith, length-drop n s)

pub length-write_at :
    (offset : ℕ) (data_of content : Text)
    → length (write_at offset data_of content)
      ≡ offset + length data_of + (length content - (offset + length data_of))
unfolding write_at
length-write_at offset data_of content = omega (
  arith,
  length-append (padded offset content) (data_of ++ drop (offset + length data_of) content),
  length-append data_of (drop (offset + length data_of) content),
  length-padded offset content,
  length-drop (offset + length data_of) content,
)

-- A session keeps to its length, and its file has all that was taken and no more than that length.
pub record IsSound (sys : System) (files : Dict Text) (id : Text) (s : UploadSession) : Type 0 where
  pub named : s.id ≡ id
  pub placed : s.temp_path ≡ sys.temp_path_of id
  pub within : s.upload_offset ≤ s.upload_length
  pub held :
      (content : Text)
      → lookup s.temp_path files ≡ some content
      → (s.upload_offset ≤ length content) × (length content ≤ s.upload_length)

unfoldable pub IsValid : System → Store → Type 0
IsValid sys st =
    (id : Text) (s : UploadSession) → lookup id st.sessions ≡ some s → IsSound sys st.files id s

module _ {ℓ} {V : Type ℓ} where
  lookup-still :
      (k j : Text) (v : V) (m : Dict V) → lookup j (delete k m) ≡ some v → lookup j m ≡ some v
  lookup-still k j v m h = ground (arith, lookup-delete k j m)

  pub lookup-new :
      (k j : Text) (v w : V) (m : Dict V)
      → lookup j (insert k v m) ≡ some w
      → ((k ≡ j) × (v ≡ w)) ⊎ ((str_eq k j ≡ false) × (lookup j m ≡ some w))
  lookup-new k j v w m h = ground (arith, lookup-insert k j v m, str_eq_iff k j)

module _ (sys : System) where
  -- A file that is read as before keeps a session sound.
  pub IsSound-files :
      (files files' : Dict Text) (id : Text) (s : UploadSession)
      → IsSound sys files id s
      → ((content : Text)
          → lookup s.temp_path files' ≡ some content
          → lookup s.temp_path files ≡ some content)
      → IsSound sys files' id s
  IsSound-files files files' id s h same = record {
    named = h.named;
    placed = h.placed;
    within = h.within;
    held = λ content e. h.held content (same content e);
  }

  pub delete_record-IsValid :
      (faults : Faults) (id : Text) (st : Store)
      → IsValid sys st
      → IsValid sys (delete_record faults id st).1
  unfolding delete_record IsValid
  delete_record-IsValid faults id st h =
      elim faults.delete_fault
        as (λ r.
          IsValid sys
            (elim r as (λ _. Option Text × Store) [
              | some e ↦ (some e, st)
              | none ↦ (none, record st { sessions = delete id st.sessions })
            ]).1) [ some e ↦ h | none ↦ λ j s e. h j s (lookup-still id j s st.sessions e) ]

  remove_file-IsValid :
      (faults : Faults) (path : Text) (st : Store)
      → IsValid sys st
      → IsValid sys (remove_file faults path st)
  unfolding remove_file IsValid
  remove_file-IsValid faults [] st h = h
  remove_file-IsValid faults (c ∷ path) st h =
      elim faults.remove_fault
        as (λ r.
          IsValid sys
            (elim r [ some _ ↦ st | none ↦ record st { files = delete (c ∷ path) st.files } ])) [
              | some e ↦ h
              | none ↦ λ j s e.
                  IsSound-files st.files (delete (c ∷ path) st.files) j s (h j s e)
                    (λ content. lookup-still (c ∷ path) s.temp_path content st.files)
            ]

  pub delete_session-IsValid :
      (faults : Faults) (s : UploadSession) (st : Store)
      → IsValid sys st
      → IsValid sys (delete_session faults s st).1
  unfolding delete_session
  delete_session-IsValid faults s st h =
      delete_record-IsValid faults s.id (remove_file faults s.temp_path st)
        (remove_file-IsValid faults s.temp_path st h)

  pub run_deletion-IsValid :
      (faults : Faults) (st : Store) → IsValid sys st → IsValid sys (run_deletion faults st)
  unfolding run_deletion IsValid
  run_deletion-IsValid faults st h =
      elim st.deleting
        as (λ r. IsValid sys (elim r [
          | [] ↦ st
          | s ∷ rest ↦ (delete_session faults s (record st { deleting = rest })).1
        ])) [
          | [] ↦ h
          | s ∷ rest ↦ delete_session-IsValid faults s (record st { deleting = rest }) h
        ]

  pub cleanup_rows-IsValid :
      (faults : Text → Faults) (rows : List UploadSession) (st : Store)
      → IsValid sys st
      → IsValid sys (cleanup_rows sys faults rows st)
  unfolding cleanup_rows
  cleanup_rows-IsValid faults [] st h = h
  cleanup_rows-IsValid faults (s ∷ rows) st h =
      cleanup_rows-IsValid faults rows (delete_session (faults s.id) s st).1
        (delete_session-IsValid (faults s.id) s st h)

  -- The outcomes of reading a session: a failure, an expired one, and one that lives.
  pub get_upload-outcomes {ℓ} :
      (faults : Faults) (now : ℕ) (id : Text) (st : Store)
      (P : Answer UploadSession × Store → Type ℓ)
      → ((e : Failure) → P (failed e, st))
      → ((s : UploadSession)
          → P (failed session_expired, record st { deleting = st.deleting ++ s ∷ [] }))
      → ((s : UploadSession)
          → lookup id st.sessions ≡ some s
          → is_expired sys now s ≡ false
          → P (done s, st))
      → P (get_upload sys faults now id st)
  unfolding get_upload
  get_upload-outcomes faults now id st P fails expires lives =
      elim (Option-cases faults.query_fault) [
        | inr (e, fault) ↦
            rw (get_upload, fault) (fails (internal (codes "Failed to get upload session: " ++ e)))
        | inl none_fault ↦ elim (Option-cases (lookup id st.sessions)) [
          | inl absent ↦ rw (get_upload, none_fault, absent) (fails session_not_found)
          | inr (s, found) ↦ elim (Bool-cases (is_expired sys now s)) [
            | inl over ↦ rw (get_upload, none_fault, found, over) (expires s)
            | inr live ↦ rw (get_upload, none_fault, found, live) (lives s found live)
          ]
        ]
      ]
