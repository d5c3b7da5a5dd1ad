-- ===== src/Storage/Tus/Tests.antt =====
-- Small inputs for resumable uploads, and instances of the theorems.
mod Rows
use sblite.Prelude.{
  str_eq, ℕ, zero, suc, Text, codes, ◌≡◌, refl, arith, [], ◌∷◌, none, some, lookup, false, true,
  List, ap, ok, length, All, comes_before, insert, delete,
}
use sblite.Numbers.{pos}
use sblite.Storage.Tus.{
  CreateUploadRequest, System, Store, Faults, UploadSession, internal, is_complete, is_expired,
  done,
}
use sblite.Storage.Tus.Sessions.{
  create_upload, session_of, cleanup_expired, breaks_constraint, exceeds, get_upload,
  create_of_length, insert_session, insert_error, create_temp_file, expired_rows, cleanup_rows,
  delete_session, remove_file, delete_record,
}
use sblite.Storage.Tus.Chunks.{
  write_chunk, Objects, finalize_upload, into_bucket, take, write_got, at_offset, write_session,
  open_file, copy_chunk,
}
use sblite.Storage.Tus.Invariant.{IsValid}
use sblite.Storage.Tus.Reachable.{start, and_then, created, wrote, Reachable-IsValid}
use sblite.Storage.Tus.Uploading.{no_faults, Holds, Live}
use sblite.Storage.Tus.Received.{
  send_chunks, send_chunks-create_upload, send_chunks-is_complete, finalize_upload-Holds,
}
use sblite.Storage.Tus.Answers.{write_chunk-KeepsRows, cleanup_expired-lookup}

-- Times are texts of as many bytes.
abbrev ticks : ℕ → Text
ticks zero = []
ticks (suc n) = b'1' ∷ ticks n

abbrev system : System
system = record {
  max_size = pos 100;
  expiration = 5;
  temp_path_of = λ id. b'/' ∷ id;
  marshal = λ m. codes "{}";
  format_time = ticks;
  parse_time = λ s. some (length s);
  constraint_error = codes "UNIQUE constraint failed";
  no_file = codes "no such file or directory";
}

abbrev wanted : CreateUploadRequest
wanted = record {
  bucket_id = codes "b";
  object_name = codes "o";
  upload_length = pos 5;
  content_type = [];
  cache_control = [];
  metadata = [];
  owner_id = [];
  upsert = false;
}

abbrev nothing : Store
nothing = record { sessions = []; files = []; deleting = [] }

abbrev chunks : List (ℕ × Text)
chunks = (3, codes "abc") ∷ (4, codes "defg") ∷ []

-- Objects that are kept as the bytes of the last one.
abbrev bucket : Objects Text Text
bucket = record {
  bucket_name = λ o id. ok id;
  upload_object = λ o b name content n ct owner upsert. (ok name, content);
}

tail_of : Text → Text
tail_of [] = []
tail_of (c ∷ s) = s

paths_differ : (i j : Text) → system.temp_path_of i ≡ system.temp_path_of j → i ≡ j
unfolding tail_of
paths_differ i j e = ap tail_of e

no_row : breaks_constraint (session_of system (codes "u") 2 wanted 5) [] ≡ false
unfolding breaks_constraint
no_row = refl

no_temp_file : lookup (codes "/u") nothing.files ≡ none
unfolding lookup
no_temp_file = refl

five_fit : exceeds system.max_size 5 ≡ false
unfolding exceeds
five_fit = refl

Reachable-IsValid_example :
    IsValid system
      (write_chunk system no_faults 3
        (codes "u")
        (pos 0)
        (codes "abc")
        (create_upload system no_faults (codes "u") 2 wanted nothing).1).1
Reachable-IsValid_example = Reachable-IsValid bucket system paths_differ (
    and_then (and_then start (created no_faults (codes "u") 2 wanted no_temp_file))
      (wrote no_faults 3 (codes "u") (pos 0) (codes "abc")))

in_time : All (λ c. Live system (ticks 7) c.0) chunks
in_time = ((7, refl, omega arith), ((7, refl, omega arith), tt))

send_chunks-create_upload_example : Holds (codes "u") (ticks 7) 5 (codes "abcde") (
    send_chunks system
      (codes "u")
      chunks
      0
      (create_upload system no_faults (codes "u") 2 wanted nothing).1)
unfolding take
send_chunks-create_upload_example =
    send_chunks-create_upload system (codes "u") 2 5 wanted chunks nothing refl five_fit no_row
      in_time

send_chunks-is_complete_example :
    (s : UploadSession) × (lookup
        (codes "u")
        (send_chunks system
          (codes "u")
          chunks
          0
          (create_upload system no_faults (codes "u") 2 wanted nothing).1).sessions
      ≡ some s)
    × (is_complete s ≡ true)
send_chunks-is_complete_example =
    send_chunks-is_complete system (codes "u") 2 5 wanted chunks nothing refl five_fit no_row
      in_time (omega arith)

abbrev ready : UploadSession
ready = record (session_of system (codes "u") 2 wanted 5) { upload_offset = 5 }

abbrev complete : Store
complete = record {
  sessions = (codes "u", ready) ∷ [];
  files = (codes "/u", codes "abcde") ∷ [];
  deleting = [];
}

holds_all : Holds (codes "u") (ticks 7) 5 (codes "abcde") complete
unfolding take lookup session_of str_eq
holds_all = record {
  session = ready;
  content = codes "abcde";
  row = refl;
  file = refl;
  named = refl;
  expires = refl;
  sized = refl;
  counted = refl;
  begins = refl;
  enough = omega arith;
  bounded = omega arith;
}

finalize_upload-Holds_example :
    let (answer, after, objects_after) =
      finalize_upload bucket system no_faults 6 (codes "u") complete [] in
    (answer ≡ done (codes "o"))
    × (objects_after ≡ codes "abcde")
    × (lookup (codes "u") after.sessions ≡ none)
unfolding holds_all
finalize_upload-Holds_example =
    finalize_upload-Holds bucket system (codes "u") (ticks 7) 5 6 (codes "abcde") complete []
      (codes "abcde") (codes "b") (codes "o") holds_all (7, refl, omega arith) refl refl refl

abbrev full_disk : Faults
full_disk = record no_faults { copy_fault = some (2, codes "no space") }

abbrev begun : Store
begun = record {
  sessions = (codes "u", session_of system (codes "u") 2 wanted 5) ∷ [];
  files = (codes "/u", []) ∷ [];
  deleting = [];
}

disk_is_full :
    (write_chunk system full_disk 3 (codes "u") (pos 0) (codes "abc") begun).0.1
    ≡ some (internal (codes "Failed to write chunk: no space"))
unfolding write_chunk write_got get_upload lookup is_expired at_offset write_session open_file
    copy_chunk session_of str_eq
disk_is_full = refl

write_chunk-KeepsRows_example :
    (write_chunk system full_disk 3 (codes "u") (pos 0) (codes "abc") begun).1.sessions
    ≡ begun.sessions
write_chunk-KeepsRows_example =
    write_chunk-KeepsRows system full_disk 3 (codes "u") (pos 0) (codes "abc") begun
      (internal (codes "Failed to write chunk: no space")) disk_is_full
