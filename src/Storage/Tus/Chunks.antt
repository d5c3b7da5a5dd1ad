-- ===== src/Storage/Tus/Chunks.antt =====
-- WriteChunk and FinalizeUpload of internal/storage/tus.go.
use sblite.Prelude.{
  ℕ, zero, suc, Text, codes, Dict, insert, lookup, Bool, ◌+◌, ◌-◌, Option, none, some, [], ◌∷◌,
  ◌++◌, if◌then◌else◌, length, drop, ◌==◌, Result, ok, err, false,
}
use sblite.Numbers.{ℤ, pos, negsuc, print_int}
use sblite.Storage.Tus.{
  Answer, done, failed, Failure, tus, other, internal, offset_mismatch, UploadSession, System,
  Faults, Store, is_complete,
}
use sblite.Storage.Tus.Sessions.{get_upload, delete_session}

-- The first bytes: what io.LimitReader passes on.
unfoldable pub take : ℕ → Text → Text
take zero s = []
take (suc n) [] = []
take (suc n) (b ∷ s) = b ∷ take n s

-- The first bytes of a file, filled up with zeros.
unfoldable pub padded : ℕ → Text → Text
padded zero s = []
padded (suc n) [] = 0 ∷ padded n []
padded (suc n) (b ∷ s) = b ∷ padded n s

-- A file behind writing at an offset.
unfoldable pub write_at : ℕ → Text → Text → Text
unfolding padded drop
write_at offset data_of content =
    padded offset content ++ (data_of ++ drop (offset + length data_of) content)

-- The open file of `os.OpenFile` and `os.Open`.
unfoldable pub open_file : System → Faults → Text → Store → Result Text
unfolding lookup
open_file sys faults path st = elim faults.open_fault [
  | some e ↦ err e
  | none ↦ elim (lookup path st.files) [ none ↦ err sys.no_file | some content ↦ ok content ]
]

unfoldable pub set_offset : Text → ℕ → Dict UploadSession → Dict UploadSession
unfolding lookup insert
set_offset id offset sessions = elim (lookup id sessions) [
  | none ↦ sessions
  | some s ↦ insert id (record s { upload_offset = offset }) sessions
]

-- The UPDATE behind a chunk.
unfoldable pub update_offset : Faults → UploadSession → ℕ → Store → (ℕ × Option Failure) × Store
unfolding set_offset
update_offset faults s new_offset st = elim faults.update_fault [
  | some e ↦ ((s.upload_offset, some (internal (codes "Failed to update offset: " ++ e))), st)
  | none ↦ ((new_offset, none), record st { sessions = set_offset s.id new_offset st.sessions })
]

unfoldable pub copy_chunk :
    Faults → UploadSession → Text → Text → Store → (ℕ × Option Failure) × Store
unfolding take write_at insert update_offset
copy_chunk faults s content data_of st =
    let limited = take (s.upload_length - s.upload_offset) data_of in
    elim faults.copy_fault [
      | some (written, e) ↦
          let files =
            insert s.temp_path (write_at s.upload_offset (take written limited) content) st.files in
          (
            (s.upload_offset, some (internal (codes "Failed to write chunk: " ++ e))),
            record st { files = files },
          )
      | none ↦
          let files = insert s.temp_path (write_at s.upload_offset limited content) st.files in
          update_offset faults s (s.upload_offset + length limited) (record st { files = files })
    ]

unfoldable pub write_session :
    System → Faults → UploadSession → Text → Store → (ℕ × Option Failure) × Store
unfolding open_file copy_chunk
write_session sys faults s data_of st = elim (open_file sys faults s.temp_path st) [
  | err e ↦ ((s.upload_offset, some (internal (codes "Failed to open temp file: " ++ e))), st)
  | ok content ↦ elim faults.seek_fault [
    | some e ↦ ((s.upload_offset, some (internal (codes "Failed to seek in temp file: " ++ e))), st)
    | none ↦ copy_chunk faults s content data_of st
  ]
]

-- `offset == session.UploadOffset` on int64
unfoldable pub at_offset : ℤ → UploadSession → Bool
at_offset (pos offset) s = offset == s.upload_offset
at_offset (negsuc offset) s = false

-- Behind `GetUpload`.
unfoldable pub write_got :
    System → Faults → ℤ → Text → Answer UploadSession × Store → (ℕ × Option Failure) × Store
unfolding at_offset write_session
write_got sys faults offset data_of (failed e, st) = ((0, some e), st)
write_got sys faults offset data_of (done s, st) =
    if at_offset offset s
    then write_session sys faults s data_of st
    else ((s.upload_offset, some offset_mismatch), st)

unfoldable pub write_chunk :
    System → Faults → ℕ → Text → ℤ → Text → Store → (ℕ × Option Failure) × Store
unfolding get_upload write_got
write_chunk sys faults now id offset data_of st =
    write_got sys faults offset data_of (get_upload sys faults now id st)

-- The part of the storage service that takes complete uploads: the name of a bucket, and UploadObject.
pub record Objects (O R : Type 0) : Type 0 where
  pub bucket_name : O → Text → Result Text
  pub upload_object : O → Text → Text → Text → ℕ → Text → Text → Bool → Result R × O

unfoldable pub content_type_of : UploadSession → Text
content_type_of s = elim s.content_type [ [] ↦ codes "application/octet-stream" | c ∷ r ↦ c ∷ r ]

unfoldable pub not_complete : UploadSession → Failure
unfolding print_int
not_complete s = tus (record {
  status_code = 400;
  message =
      codes "Upload not complete: "
      ++ (print_int (pos s.upload_offset)
          ++ (codes "/" ++ (print_int (pos s.upload_length) ++ codes " bytes")));
})

module _ {O R : Type 0} (objects : Objects O R) (sys : System) where
  -- Behind UploadObject, whose result is with the objects as it leaves them; the error of the deletion
  -- is not looked at.
  unfoldable pub uploaded : Faults → UploadSession → Store → Result R × O → Answer R × Store × O
  unfolding delete_session
  uploaded faults s st (err e, o) = (failed (other e), st, o)
  uploaded faults s st (ok resp, o) = (done resp, (delete_session faults s st).1, o)

  unfoldable pub into_bucket :
      Faults → UploadSession → Store → O → Text → Result Text → Answer R × Store × O
  unfolding uploaded content_type_of
  into_bucket faults s st o content (err e) =
      (failed (internal (codes "Failed to get bucket: " ++ e)), st, o)
  into_bucket faults s st o content (ok bucket) = uploaded faults s st (
      objects.upload_object o bucket s.object_name content s.upload_length (content_type_of s)
        s.owner_id s.upsert)

  unfoldable pub from_file : Faults → UploadSession → Store → O → Result Text → Answer R × Store × O
  unfolding into_bucket
  from_file faults s st o (err e) =
      (failed (internal (codes "Failed to open temp file: " ++ e)), st, o)
  from_file faults s st o (ok content) =
      into_bucket faults s st o content (objects.bucket_name o s.bucket_id)

  -- Behind `GetUpload`.
  unfoldable pub finalize_got : Faults → O → Answer UploadSession × Store → Answer R × Store × O
  unfolding is_complete from_file open_file not_complete
  finalize_got faults o (failed e, st) = (failed e, st, o)
  finalize_got faults o (done s, st) =
      if is_complete s
      then from_file faults s st o (open_file sys faults s.temp_path st)
      else (failed (not_complete s), st, o)

  unfoldable pub finalize_upload : Faults → ℕ → Text → Store → O → Answer R × Store × O
  unfolding get_upload finalize_got
  finalize_upload faults now id st o = finalize_got faults o (get_upload sys faults now id st)
