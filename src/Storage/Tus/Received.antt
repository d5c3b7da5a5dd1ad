-- ===== src/Storage/Tus/Received.antt =====
-- Whole uploads: CreateUpload, the chunks, and FinalizeUpload of internal/storage/tus.go.
use sblite.Prelude.{
  Option, ℕ, zero, suc, Text, lookup, lookup-insert, ◌+◌, ◌≤◌, ◌≡◌, refl, ap, sym, ◌∙◌, arith, some,
  List, [], ◌∷◌, ◌++◌, All, length, append_assoc, str_eq_refl, false, true, leb, str_eq, codes,
  if◌then◌else◌, ok, none, lookup-delete,
}
use mathlib.Core.Path.{subst}
use sblite.Numbers.{pos}
use sblite.Storage.Tus.{
  Failure, UploadSession, CreateUploadRequest, System, Store, is_complete, done,
}
use sblite.Storage.Tus.Sessions.{
  create_upload, session_of, exceeds, breaks_constraint, create_of_length, insert_session,
  insert_error, create_temp_file, delete_session, delete_record, remove_file,
}
use sblite.Storage.Tus.Chunks.{
  take, write_chunk, Objects, finalize_upload, finalize_got, open_file, from_file, into_bucket,
  content_type_of, uploaded,
}
use sblite.Storage.Tus.Uploading.{
  receive, take_twice, take-all, no_faults, Holds, Live, write_chunk-Holds, get_upload-Live,
}
use sblite.Storage.Tus.Invariant.{length-take}

-- The chunks one behind the other, each with its time, and each at the offset that the last answer gave.
unfoldable pub send_chunks : System → Text → List (ℕ × Text) → ℕ → Store → Store
unfolding write_chunk
send_chunks sys id [] offset st = st
send_chunks sys id ((now, chunk) ∷ chunks) offset st =
    let (answer, st') = write_chunk sys no_faults now id (pos offset) chunk st in
    send_chunks sys id chunks answer.0 st'

abbrev pub bytes_of : List (ℕ × Text) → Text
bytes_of [] = []
bytes_of ((now, chunk) ∷ chunks) = chunk ++ bytes_of chunks

take-take : (n : ℕ) (s t : Text) → take n (take n s ++ t) ≡ take n (s ++ t)
unfolding take
take-take zero s t = refl
take-take (suc n) [] t = refl
take-take (suc n) (b ∷ s) t = ap (λ r. b ∷ r) (take-take n s t)

append_nothing : (s : Text) → s ++ [] ≡ s
append_nothing [] = refl
append_nothing (b ∷ s) = ap (λ r. b ∷ r) (append_nothing s)

receive-take :
    (n : ℕ) (received chunk : Text)
    → length received ≤ n
    → receive n received chunk ≡ take n (received ++ chunk)
receive-take n received chunk h = sym (take_twice n received chunk h)

-- The upload behind some chunks.
send_chunks-Holds :
    (sys : System) (id e : Text) (n : ℕ) (chunks : List (ℕ × Text)) (received : Text) (st : Store)
    → Holds id e n received st
    → length received ≤ n
    → All (λ c. Live sys e c.0) chunks
    → Holds id e n
        (take n (received ++ bytes_of chunks))
        (send_chunks sys id chunks (length received) st)
unfolding send_chunks
send_chunks-Holds sys id e n [] received st h within _ =
    subst (λ r. Holds id e n r st)
      (sym (
        take-all n (received ++ []) (omega (arith, ap length (append_nothing received)))
        ∙ append_nothing received))
      h
send_chunks-Holds sys id e n ((now, chunk) ∷ chunks) received st h within (live, lives) =
    let (answer, after) = write_chunk-Holds sys id e n now chunk received st h live in
    let more = receive-take n received chunk within in
    let short : length (receive n received chunk) ≤ n =
      rw more (length-take n (received ++ chunk)).0 in
    let next = send_chunks-Holds sys id e n chunks (receive n received chunk) _ after short lives in
    let joined : take n (receive n received chunk ++ bytes_of chunks)
        ≡ take n (received ++ (chunk ++ bytes_of chunks)) =
      ap (λ r. take n (r ++ bytes_of chunks)) more
      ∙ (take-take n (received ++ chunk) (bytes_of chunks)
          ∙ ap (take n) (append_assoc received chunk (bytes_of chunks))) in
    subst (λ r. Holds id e n r (send_chunks sys id ((now, chunk) ∷ chunks) (length received) st))
      joined
      (subst
        (λ m. Holds id e n (take n (receive n received chunk ++ bytes_of chunks)) (
          send_chunks sys id chunks m
            (write_chunk sys no_faults now id (pos (length received)) chunk st).1))
        (sym (ap (λ (a : ℕ × Option Failure). a.0) answer)) next)

-- A new session holds nothing.
create_upload-Holds :
    (sys : System) (id : Text) (now n : ℕ) (req : CreateUploadRequest) (st : Store)
    → req.upload_length ≡ pos n
    → exceeds sys.max_size n ≡ false
    → breaks_constraint (session_of sys id now req n) st.sessions ≡ false
    → Holds id
        (sys.format_time (now + sys.expiration))
        n
        []
        (create_upload sys no_faults id now req st).1
unfolding create_upload create_of_length insert_session insert_error create_temp_file take
    session_of
create_upload-Holds sys id now n req st sized fits free =
    rw (create_upload, sized, create_of_length, fits, insert_session, insert_error, free)
      (record {
        session = session_of sys id now req n;
        content = [];
        row = rw (lookup-insert, str_eq_refl id) refl;
        file = rw (lookup-insert, str_eq_refl (sys.temp_path_of id)) refl;
        named = refl;
        expires = refl;
        sized = refl;
        counted = refl;
        begins = refl;
        enough = omega arith;
        bounded = omega arith;
      })

-- CreateUpload and then WriteChunk for each chunk, at the offset that the last answer gave: the session
-- has received the first bytes of the chunks one behind the other, as many as its length says, and they
-- are what its temporary file begins with. Nothing fails, no chunk comes after the session's end, the
-- length is within the limit, and no row is in the way of the new one.
pub send_chunks-create_upload :
    (sys : System) (id : Text) (now n : ℕ) (req : CreateUploadRequest) (chunks : List (ℕ × Text))
    (st : Store)
    → req.upload_length ≡ pos n
    → exceeds sys.max_size n ≡ false
    → breaks_constraint (session_of sys id now req n) st.sessions ≡ false
    → All (λ c. Live sys (sys.format_time (now + sys.expiration)) c.0) chunks
    → Holds id
        (sys.format_time (now + sys.expiration))
        n
        (take n (bytes_of chunks))
        (send_chunks sys id chunks 0 (create_upload sys no_faults id now req st).1)
send_chunks-create_upload sys id now n req chunks st sized fits free live =
    send_chunks-Holds sys id (sys.format_time (now + sys.expiration)) n chunks []
      (create_upload sys no_faults id now req st).1
      (create_upload-Holds sys id now n req st sized fits free) (omega arith) live

content_type_lem :
    (c : Text)
    → (elim c as (λ _. Text) [ [] ↦ codes "application/octet-stream" | b ∷ r ↦ b ∷ r ])
      ≡ (if str_eq c [] then codes "application/octet-stream" else c)
unfolding str_eq
content_type_lem [] = refl
content_type_lem (b ∷ r) = refl

content_type_of_lem :
    (s : UploadSession)
    → content_type_of s
      ≡ (if str_eq s.content_type [] then codes "application/octet-stream" else s.content_type)
unfolding content_type_of str_eq
content_type_of_lem s = content_type_lem s.content_type

-- The row of a session is gone behind DeleteSession.
delete_session-lookup :
    (id : Text) (s : UploadSession) (st : Store)
    → s.id ≡ id
    → lookup id (delete_session no_faults s st).1.sessions ≡ none
unfolding delete_session delete_record
delete_session-lookup id s st named =
    rw
      (
        delete_session,
        delete_record,
        named,
        lookup-delete id id (remove_file no_faults s.temp_path st).sessions,
        str_eq_refl id,
      )
      refl

-- What is left to do for a session that has received all its bytes.
finalize_upload-into_bucket :
    {O R : Type 0} (objects : Objects O R) (sys : System) (id e : Text) (n now : ℕ)
    (received : Text) (st : Store) (o : O) (h : Holds id e n received st)
    → Live sys e now
    → length received ≡ n
    → finalize_upload objects sys no_faults now id st o
      ≡ into_bucket objects sys no_faults h.session st o received
          (objects.bucket_name o h.session.bucket_id)
unfolding finalize_upload finalize_got is_complete open_file from_file
finalize_upload-into_bucket objects sys id e n now received st o h live full =
    let whole : h.content ≡ received =
      sym (take-all (length received) h.content (omega (arith, full, h.bounded))) ∙ h.begins in
    let complete : leb h.session.upload_length h.session.upload_offset ≡ true =
      ground (arith, h.sized, h.counted, full) in
    rw
      (
        finalize_upload,
        get_upload-Live sys id e n now received st h live,
        finalize_got,
        complete,
        open_file,
        h.file,
        from_file,
        whole,
      )
      refl

-- FinalizeUpload for a session that has received all its bytes, where the bucket has a name: if
-- UploadObject takes that name, the session's object name, those bytes, no more and no less, the
-- session's length, its content type (application/octet-stream for the empty one), its owner and its
-- upsert flag, then FinalizeUpload returns UploadObject's response, the objects are as UploadObject
-- leaves them, and the session's row is gone. No system call fails, and it is not after the session's
-- end.
pub finalize_upload-Holds :
    {O R : Type 0} (objects : Objects O R) (sys : System) (id e : Text) (n now : ℕ)
    (received : Text) (st : Store) (o o' : O) (bucket : Text) (resp : R)
    (h : Holds id e n received st)
    → Live sys e now
    → length received ≡ n
    → objects.bucket_name o h.session.bucket_id ≡ ok bucket
    → objects.upload_object o bucket h.session.object_name received n
        (if str_eq h.session.content_type []
          then codes "application/octet-stream"
          else h.session.content_type)
        h.session.owner_id
        h.session.upsert
      ≡ (ok resp, o')
    → let (answer, after, objects_after) = finalize_upload objects sys no_faults now id st o in
      (answer ≡ done resp) × (objects_after ≡ o') × (lookup id after.sessions ≡ none)
unfolding into_bucket uploaded
finalize_upload-Holds objects sys id e n now received st o o' bucket resp h live full named took =
    rw
      (
        finalize_upload-into_bucket objects sys id e n now received st o h live full,
        named,
        into_bucket,
        h.sized,
        content_type_of_lem h.session,
        took,
        uploaded,
      )
      (refl, refl, delete_session-lookup id h.session st h.named)

length-take-full : (n : ℕ) (s : Text) → n ≤ length s → length (take n s) ≡ n
unfolding take
length-take-full zero s h = refl
length-take-full (suc n) [] h = ground arith
length-take-full (suc n) (b ∷ s) h = omega (arith, length-take-full n s (omega arith))

-- Once the chunks have as many bytes as the length says, the session is complete. It is one that
-- CreateUpload has made, nothing fails, no chunk comes after the session's end, the length is within
-- the limit, and no row is in the way of the new one.
pub send_chunks-is_complete :
    (sys : System) (id : Text) (now n : ℕ) (req : CreateUploadRequest) (chunks : List (ℕ × Text))
    (st : Store)
    → req.upload_length ≡ pos n
    → exceeds sys.max_size n ≡ false
    → breaks_constraint (session_of sys id now req n) st.sessions ≡ false
    → All (λ c. Live sys (sys.format_time (now + sys.expiration)) c.0) chunks
    → n ≤ length (bytes_of chunks)
    → (s : UploadSession) × (lookup id
          (send_chunks sys id chunks 0 (create_upload sys no_faults id now req st).1).sessions
        ≡ some s)
      × (is_complete s ≡ true)
unfolding is_complete
send_chunks-is_complete sys id now n req chunks st sized fits free live enough =
    let h = send_chunks-create_upload sys id now n req chunks st sized fits free live in
    (
      h.session,
      h.row,
      ground (arith, h.sized, h.counted, length-take-full n (bytes_of chunks) enough),
    )
