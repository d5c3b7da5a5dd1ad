-- ===== src/Storage/Tus.antt =====
-- Resumable uploads: internal/storage/tus_types.go, and the state that internal/storage/tus.go keeps in
-- the table _resumable_uploads and in the temporary files. A call gets the time and what fails in it;
-- an error of the database or of a file is a text. A NULL column reads as "", which is what is stored
-- as NULL.
pub mod Sessions
pub mod Chunks
pub mod Invariant
pub mod Writes
pub mod Reachable
pub mod Uploading
pub mod Received
pub mod Answers
pub mod Offsets
pub mod Tests
use sblite.Prelude.{ℕ, Text, codes, Dict, Bool, Option, none, some, List, ltb, leb, true}
use sblite.Numbers.{ℤ}

pub record TusError : Type 0 where
  pub status_code : ℕ
  pub message : Text

-- The errors of the calls: a TUSError, or one that another package reports.
pub data Failure : Type 0 where
  tus : TusError → Failure
  other : Text → Failure

pub data Answer {ℓ} (A : Type ℓ) : Type ℓ where
  done : A → Answer A
  failed : Failure → Answer A

abbrev pub internal : Text → Failure
internal message = tus (record { status_code = 500; message = message })

abbrev pub session_not_found : Failure
session_not_found = tus (record { status_code = 404; message = codes "Upload session not found" })

abbrev pub session_expired : Failure
session_expired = tus (record { status_code = 410; message = codes "Upload session has expired" })

abbrev pub offset_mismatch : Failure
offset_mismatch =
    tus
      (record { status_code = 409; message = codes "Upload-Offset does not match current offset" })

abbrev pub invalid_length : Failure
invalid_length = tus (record { status_code = 400; message = codes "Invalid Upload-Length" })

-- CreateUpload refuses a length below 0, so that the length and the offset of a session are natural
-- numbers; no S3 upload id is ever stored.
pub record UploadSession : Type 0 where
  pub id : Text
  pub bucket_id : Text
  pub object_name : Text
  pub owner_id : Text
  pub upload_length : ℕ
  pub upload_offset : ℕ
  pub content_type : Text
  pub cache_control : Text
  pub metadata : Text
  pub upsert : Bool
  pub temp_path : Text
  pub created_at : Text
  pub expires_at : Text

pub record CreateUploadRequest : Type 0 where
  pub bucket_id : Text
  pub object_name : Text
  pub upload_length : ℤ
  pub content_type : Text
  pub cache_control : Text
  pub metadata : Dict Text
  pub owner_id : Text
  pub upsert : Bool

-- What the service is configured with and what it calls: `filepath.Join(uploadsDir, id+".tmp")`,
-- encoding/json, and the RFC 3339 format of times, which count seconds here. The texts are the errors
-- for a row that breaks a constraint, and for a file that is not there.
pub record System : Type 0 where
  pub max_size : ℤ
  pub expiration : ℕ
  pub temp_path_of : Text → Text
  pub marshal : Dict Text → Text
  pub format_time : ℕ → Text
  pub parse_time : Text → Option ℕ
  pub constraint_error : Text
  pub no_file : Text

-- What fails in a call; a copy fails behind a number of bytes.
pub record Faults : Type 0 where
  pub query_fault : Option Text
  pub insert_fault : Option Text
  pub update_fault : Option Text
  pub delete_fault : Option Text
  pub create_fault : Option Text
  pub open_fault : Option Text
  pub seek_fault : Option Text
  pub copy_fault : Option (ℕ × Text)
  pub remove_fault : Option Text

-- The rows, the temporary files by their path, and the sessions that a goroutine is to delete.
pub record Store : Type 0 where
  pub sessions : Dict UploadSession
  pub files : Dict Text
  pub deleting : List UploadSession

-- `IsComplete`
unfoldable pub is_complete : UploadSession → Bool
is_complete s = leb s.upload_length s.upload_offset

-- `IsExpired`
unfoldable pub is_expired : System → ℕ → UploadSession → Bool
is_expired sys now s = elim (sys.parse_time s.expires_at) [
  | none ↦ true
  | some expires ↦ ltb expires now
]
