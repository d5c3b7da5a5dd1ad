-- ===== src/Storage/Tus/Tests/Rows.antt =====
-- Two sessions, one of which has ended: the cleanup and the offsets.
use sblite.Prelude.{
  str_eq, codes, ◌≡◌, refl, none, some, lookup, false, comes_before, insert, delete, ◌≤◌,
}
use sblite.Numbers.{pos}
use sblite.Storage.Tus.{CreateUploadRequest, Store, UploadSession, is_expired}
use sblite.Storage.Tus.Sessions.{
  create_upload, session_of, cleanup_expired, breaks_constraint, exceeds, get_upload,
  create_of_length, insert_session, insert_error, create_temp_file, expired_rows, cleanup_rows,
  delete_session, remove_file, delete_record,
}
use sblite.Storage.Tus.Chunks.{
  write_chunk, take, write_got, at_offset, write_session, open_file, copy_chunk, update_offset,
}
use sblite.Storage.Tus.Invariant.{IsValid}
use sblite.Storage.Tus.Reachable.{start, and_then, created, Reachable-IsValid}
use sblite.Storage.Tus.Uploading.{no_faults}
use sblite.Storage.Tus.Answers.{cleanup_expired-lookup}
use sblite.Storage.Tus.Tests.{bucket, system, paths_differ, wanted, nothing, no_temp_file, ticks}
use sblite.Storage.Tus.Offsets.{write_chunk-within}

abbrev wanted_later : CreateUploadRequest
wanted_later = record wanted { object_name = codes "p" }

abbrev one : Store
one = (create_upload system no_faults (codes "u") 2 wanted nothing).1

abbrev two : Store
two = (create_upload system no_faults (codes "v") 8 wanted_later one).1

no_second_file : lookup (codes "/v") one.files ≡ none
unfolding create_upload create_of_length exceeds insert_session insert_error breaks_constraint
    create_temp_file insert lookup session_of str_eq
no_second_file = refl

two-IsValid : IsValid system two
two-IsValid = Reachable-IsValid bucket system paths_differ (
    and_then (and_then start (created no_faults (codes "u") 2 wanted no_temp_file))
      (created no_faults (codes "v") 8 wanted_later no_second_file))

second_is_left :
    lookup (codes "v") (cleanup_expired system none (λ _. no_faults) 9 two).1.sessions
    ≡ some (session_of system (codes "v") 8 wanted_later 5)
unfolding create_upload create_of_length exceeds insert_session insert_error breaks_constraint
    create_temp_file insert lookup session_of str_eq cleanup_expired expired_rows cleanup_rows
    comes_before delete_session remove_file delete_record delete
second_is_left = refl

first_is_gone :
    lookup (codes "u") (cleanup_expired system none (λ _. no_faults) 9 two).1.sessions ≡ none
unfolding create_upload create_of_length exceeds insert_session insert_error breaks_constraint
    create_temp_file insert lookup session_of str_eq cleanup_expired expired_rows cleanup_rows
    comes_before delete_session remove_file delete_record delete
first_is_gone = refl

cleanup_expired-lookup_example :
    (lookup (codes "v") two.sessions ≡ some (session_of system (codes "v") 8 wanted_later 5))
    × (comes_before (session_of system (codes "v") 8 wanted_later 5).expires_at (ticks 9) ≡ false)
cleanup_expired-lookup_example =
    cleanup_expired-lookup system 9 (codes "v") two (session_of system (codes "v") 8 wanted_later 5)
      two-IsValid second_is_left

one-IsValid : IsValid system one
one-IsValid =
    Reachable-IsValid bucket system paths_differ
      (and_then start (created no_faults (codes "u") 2 wanted no_temp_file))

three_bytes : (write_chunk system no_faults 3 (codes "u") (pos 0) (codes "abc") one).0 ≡ (3, none)
unfolding create_upload create_of_length exceeds insert_session insert_error breaks_constraint
    create_temp_file insert lookup session_of str_eq write_chunk write_got get_upload is_expired
    at_offset write_session open_file copy_chunk take update_offset
three_bytes = refl

write_chunk-within_example :
    (s : UploadSession) × (lookup (codes "u") one.sessions ≡ some s)
    × (s.upload_offset ≤ 3)
    × (3 ≤ s.upload_length)
write_chunk-within_example =
    write_chunk-within system no_faults 3 3 (codes "u") (pos 0) (codes "abc") one one-IsValid
      three_bytes
