-- ===== src/Storage/Tus/Sessions.antt =====
-- CreateUpload, GetUpload, CancelUpload, deleteSession and CleanupExpired of internal/storage/tus.go.
use sblite.Prelude.{
  comes_before, ℕ, zero, suc, Text, codes, Dict, insert, delete, lookup, Bool, ◌||◌, ◌&&◌, ◌+◌,
  Option, none, some, List, [], ◌∷◌, ◌++◌, ltb, str_eq, if◌then◌else◌, false, length,
}
use sblite.Numbers.{ℤ, pos, negsuc, print_int}
use sblite.Storage.Tus.{
  Answer, done, failed, Failure, tus, other, internal, session_not_found, session_expired,
  invalid_length, UploadSession, CreateUploadRequest, System, Faults, Store, is_expired,
}

-- A limit of 0 or less is none.
unfoldable pub exceeds : ℤ → ℕ → Bool
exceeds (pos zero) length = false
exceeds (pos (suc max)) length = ltb (suc max) length
exceeds (negsuc max) length = false

-- PRIMARY KEY and UNIQUE(bucket_id, object_name) of the table.
unfoldable pub breaks_constraint : UploadSession → Dict UploadSession → Bool
unfolding str_eq
breaks_constraint s [] = false
breaks_constraint s ((id, t) ∷ m) =
    str_eq id s.id
    || (str_eq t.bucket_id s.bucket_id && str_eq t.object_name s.object_name)
    || breaks_constraint s m

unfoldable pub delete_record : Faults → Text → Store → Option Text × Store
unfolding delete
delete_record faults id st = elim faults.delete_fault [
  | some e ↦ (some e, st)
  | none ↦ (none, record st { sessions = delete id st.sessions })
]

unfoldable pub remove_file : Faults → Text → Store → Store
unfolding delete
remove_file faults [] st = st
remove_file faults (c ∷ path) st = elim faults.remove_fault [
  | some _ ↦ st
  | none ↦ record st { files = delete (c ∷ path) st.files }
]

unfoldable pub delete_session : Faults → UploadSession → Store → Option Text × Store
unfolding delete_record remove_file
delete_session faults s st = delete_record faults s.id (remove_file faults s.temp_path st)

unfoldable pub deletion_error : Option Text → Option Failure
deletion_error none = none
deletion_error (some e) = some (other e)

-- The goroutine of `GetUpload`, at the time that it runs.
unfoldable pub run_deletion : Faults → Store → Store
unfolding delete_session
run_deletion faults st = elim st.deleting [
  | [] ↦ st
  | s ∷ rest ↦ (delete_session faults s (record st { deleting = rest })).1
]

module _ (sys : System) where
  unfoldable pub session_of : Text → ℕ → CreateUploadRequest → ℕ → UploadSession
  session_of id now req length = record {
    id = id;
    bucket_id = req.bucket_id;
    object_name = req.object_name;
    owner_id = req.owner_id;
    upload_length = length;
    upload_offset = 0;
    content_type = req.content_type;
    cache_control = req.cache_control;
    metadata = sys.marshal req.metadata;
    upsert = req.upsert;
    temp_path = sys.temp_path_of id;
    created_at = sys.format_time now;
    expires_at = sys.format_time (now + sys.expiration);
  }

  unfoldable pub insert_error : Faults → UploadSession → Store → Option Text
  unfolding breaks_constraint
  insert_error faults s st = elim faults.insert_fault [
    | some e ↦ some e
    | none ↦ if breaks_constraint s st.sessions then some sys.constraint_error else none
  ]

  -- Behind the insertion: the file, or the deletion of the row, whose error is not looked at.
  unfoldable pub create_temp_file : Faults → UploadSession → Store → Answer UploadSession × Store
  unfolding delete_record insert
  create_temp_file faults s st = elim faults.create_fault [
    | some e ↦ (
      failed (internal (codes "Failed to create temp file: " ++ e)),
      (delete_record faults s.id st).1,
    )
    | none ↦ (done s, record st { files = insert s.temp_path [] st.files })
  ]

  unfoldable pub insert_session : Faults → UploadSession → Store → Answer UploadSession × Store
  unfolding insert_error create_temp_file insert
  insert_session faults s st = elim (insert_error faults s st) [
    | some e ↦ (failed (internal (codes "Failed to create upload session: " ++ e)), st)
    | none ↦ create_temp_file faults s (record st { sessions = insert s.id s st.sessions })
  ]

  unfoldable pub too_large : ℕ → Failure
  unfolding print_int
  too_large length = tus (record {
    status_code = 413;
    message =
        codes "Upload size "
        ++ (print_int (pos length)
            ++ (codes " exceeds maximum allowed " ++ print_int sys.max_size));
  })

  -- Behind reading the upload's length.
  unfoldable pub create_of_length :
      Faults → Text → ℕ → CreateUploadRequest → Store → ℤ → Answer UploadSession × Store
  unfolding exceeds insert_session session_of too_large
  create_of_length faults id now req st (negsuc _) = (failed invalid_length, st)
  create_of_length faults id now req st (pos length) =
      if exceeds sys.max_size length
      then (failed (too_large length), st)
      else insert_session faults (session_of id now req length) st

  unfoldable pub create_upload :
      Faults → Text → ℕ → CreateUploadRequest → Store → Answer UploadSession × Store
  unfolding create_of_length
  create_upload faults id now req st = create_of_length faults id now req st req.upload_length

  unfoldable pub get_upload : Faults → ℕ → Text → Store → Answer UploadSession × Store
  unfolding lookup is_expired
  get_upload faults now id st = elim faults.query_fault [
    | some e ↦ (failed (internal (codes "Failed to get upload session: " ++ e)), st)
    | none ↦ elim (lookup id st.sessions) [
      | none ↦ (failed session_not_found, st)
      | some s ↦
          if is_expired sys now s
          then (failed session_expired, record st { deleting = st.deleting ++ s ∷ [] })
          else (done s, st)
    ]
  ]

  -- Behind `GetUpload`; the error is `none` for nil.
  unfoldable pub cancel_got : Faults → Answer UploadSession × Store → Option Failure × Store
  unfolding delete_session deletion_error
  cancel_got faults (failed e, st) = (some e, st)
  cancel_got faults (done s, st) =
      let (error, st') = delete_session faults s st in (deletion_error error, st')

  unfoldable pub cancel_upload : Faults → ℕ → Text → Store → Option Failure × Store
  unfolding get_upload cancel_got
  cancel_upload faults now id st = cancel_got faults (get_upload faults now id st)

  -- `expires_at < ?`, which compares texts
  unfoldable pub expired_rows : Text → Dict UploadSession → List UploadSession
  unfolding comes_before
  expired_rows now [] = []
  expired_rows now ((id, s) ∷ m) =
      let rest = expired_rows now m in if comes_before s.expires_at now then s ∷ rest else rest

  -- The loop of `CleanupExpired`, with what fails for each row.
  unfoldable pub cleanup_rows : (Text → Faults) → List UploadSession → Store → Store
  unfolding delete_session
  cleanup_rows faults [] st = st
  cleanup_rows faults (s ∷ rows) st = cleanup_rows faults rows (delete_session (faults s.id) s st).1

  unfoldable pub cleanup_expired :
      Option Text → (Text → Faults) → ℕ → Store → (ℕ × Option Text) × Store
  unfolding expired_rows cleanup_rows
  cleanup_expired query_error faults now st = elim query_error [
    | some e ↦ ((0, some (codes "failed to query expired sessions: " ++ e)), st)
    | none ↦
        let rows = expired_rows (sys.format_time now) st.sessions in
        ((length rows, none), cleanup_rows faults rows st)
  ]
