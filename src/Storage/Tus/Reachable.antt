-- ===== src/Storage/Tus/Reachable.antt =====
-- The calls of internal/storage/tus.go one behind the other, with whatever fails in them.
use sblite.Prelude.{
  ℕ, Text, Dict, lookup, Option-cases, inl, inr, ◌≤◌, ◌≡◌, refl, arith, Option, none, some, [],
  if_holds, insert, Result, err, ok,
}
use sblite.Numbers.{ℤ, pos, negsuc}
use mathlib.Core.Path.{subst}
use sblite.Storage.Tus.{
  UploadSession, CreateUploadRequest, System, Faults, Store, Answer, is_complete,
}
use sblite.Storage.Tus.Sessions.{
  get_upload, cancel_upload, create_upload, cleanup_expired, expired_rows, insert_session,
  create_of_length, create_temp_file, session_of, insert_error, exceeds, run_deletion, cancel_got,
}
use sblite.Storage.Tus.Chunks.{
  Objects, finalize_upload, open_file, uploaded, into_bucket, from_file, write_chunk,
  content_type_of, finalize_got,
}
use sblite.Storage.Tus.Invariant.{
  IsSound, IsValid, get_upload-outcomes, delete_session-IsValid, cleanup_rows-IsValid, lookup-new,
  delete_record-IsValid, run_deletion-IsValid,
}
use sblite.Storage.Tus.Writes.{insert_both-IsValid, write_chunk-IsValid}

module _ (sys : System) where
  cancel_upload-IsValid :
      (faults : Faults) (now : ℕ) (id : Text) (st : Store)
      → IsValid sys st
      → IsValid sys (cancel_upload sys faults now id st).1
  unfolding cancel_upload cancel_got IsValid
  cancel_upload-IsValid faults now id st h =
      get_upload-outcomes sys faults now id st (λ r. IsValid sys (cancel_got sys faults r).1)
        (λ e. h) (λ s. h) (λ s found live. delete_session-IsValid sys faults s st h)

  -- A row whose file is not there yet.
  insert_row-IsValid :
      (s : UploadSession) (st : Store)
      → IsValid sys st
      → s.temp_path ≡ sys.temp_path_of s.id
      → s.upload_offset ≤ s.upload_length
      → lookup s.temp_path st.files ≡ none
      → IsValid sys (record st { sessions = insert s.id s st.sessions })
  unfolding IsValid
  insert_row-IsValid s st h placed within fresh j t e = elim (lookup-new s.id j s t st.sessions e) [
    | inr (_, e') ↦ h j t e'
    | inl (same, equal) ↦
        subst (λ i. IsSound sys st.files i t) same
          (subst (λ u. IsSound sys st.files s.id u) equal
            (record {
              named = refl;
              placed = placed;
              within = within;
              held = λ content e'. cc (fresh, e');
            }))
  ]

  insert_session-IsValid :
      (injective : (i j : Text) → sys.temp_path_of i ≡ sys.temp_path_of j → i ≡ j) (faults : Faults)
      (s : UploadSession) (st : Store)
      → IsValid sys st
      → s.temp_path ≡ sys.temp_path_of s.id
      → s.upload_offset ≡ 0
      → lookup s.temp_path st.files ≡ none
      → IsValid sys (insert_session sys faults s st).1
  unfolding insert_session create_temp_file
  insert_session-IsValid injective faults s st h placed start fresh =
      elim (Option-cases (insert_error sys faults s st)) [
        | inr (e, refused) ↦ rw (insert_session, refused) h
        | inl taken ↦ elim (Option-cases faults.create_fault) [
          | inr (e, fault) ↦
              rw (insert_session, taken, create_temp_file, fault)
                (delete_record-IsValid sys faults s.id
                  (record st { sessions = insert s.id s st.sessions })
                  (insert_row-IsValid s st h placed (omega (arith, start)) fresh))
          | inl fine ↦
              rw (insert_session, taken, create_temp_file, fine)
                (insert_both-IsValid sys injective s.id s [] st h refl placed (omega (arith, start))
                  (omega (arith, start)) (omega arith))
        ]
      ]

  create_of_length-IsValid :
      (injective : (i j : Text) → sys.temp_path_of i ≡ sys.temp_path_of j → i ≡ j) (faults : Faults)
      (id : Text) (now : ℕ) (req : CreateUploadRequest) (st : Store) (n : ℤ)
      → lookup (sys.temp_path_of id) st.files ≡ none
      → IsValid sys st
      → IsValid sys (create_of_length sys faults id now req st n).1
  unfolding create_of_length session_of
  create_of_length-IsValid injective faults id now req st (negsuc n) fresh h = h
  create_of_length-IsValid injective faults id now req st (pos n) fresh h =
      if_holds (λ (r : Answer UploadSession × Store). IsValid sys r.1) (exceeds sys.max_size n) _ _
        h
        (insert_session-IsValid injective faults (session_of sys id now req n) st h refl refl fresh)

  module _ {O R : Type 0} (objects : Objects O R) where
    abbrev Kept : Answer R × Store × O → Type 0
    Kept (answer, st, o) = IsValid sys st

    uploaded-IsValid :
        (faults : Faults) (s : UploadSession) (st : Store) (r : Result R × O)
        → IsValid sys st
        → Kept (uploaded objects sys faults s st r)
    unfolding uploaded
    uploaded-IsValid faults s st (err e, o) h = h
    uploaded-IsValid faults s st (ok resp, o) h = delete_session-IsValid sys faults s st h

    into_bucket-IsValid :
        (faults : Faults) (s : UploadSession) (st : Store) (o : O) (content : Text)
        (r : Result Text)
        → IsValid sys st
        → Kept (into_bucket objects sys faults s st o content r)
    unfolding into_bucket
    into_bucket-IsValid faults s st o content (err e) h = h
    into_bucket-IsValid faults s st o content (ok bucket) h =
        uploaded-IsValid faults s st
          (objects.upload_object o bucket s.object_name content s.upload_length (content_type_of s)
            s.owner_id s.upsert)
          h

    from_file-IsValid :
        (faults : Faults) (s : UploadSession) (st : Store) (o : O) (r : Result Text)
        → IsValid sys st
        → Kept (from_file objects sys faults s st o r)
    unfolding from_file
    from_file-IsValid faults s st o (err e) h = h
    from_file-IsValid faults s st o (ok content) h =
        into_bucket-IsValid faults s st o content (objects.bucket_name o s.bucket_id) h

    finalize_upload-IsValid :
        (faults : Faults) (now : ℕ) (id : Text) (st : Store) (o : O)
        → IsValid sys st
        → Kept (finalize_upload objects sys faults now id st o)
    unfolding finalize_upload finalize_got IsValid
    finalize_upload-IsValid faults now id st o h =
        get_upload-outcomes sys faults now id st (λ r. Kept (finalize_got objects sys faults o r))
          (λ e. h) (λ s. h)
          (λ s found live.
            if_holds Kept (is_complete s) _ _
              (from_file-IsValid faults s st o (open_file sys faults s.temp_path st) h) h)

  cleanup_expired-IsValid :
      (query_error : Option Text) (faults : Text → Faults) (now : ℕ) (st : Store)
      → IsValid sys st
      → IsValid sys (cleanup_expired sys query_error faults now st).1
  unfolding cleanup_expired IsValid
  cleanup_expired-IsValid (some e) faults now st h = h
  cleanup_expired-IsValid none faults now st h =
      cleanup_rows-IsValid sys faults (expired_rows sys (sys.format_time now) st.sessions) st h

-- One call, with whatever fails in it. A new session gets an id whose temporary file does not exist.
pub data Step {O R : Type 0} (objects : Objects O R) (sys : System) : Store → Store → Type 0 where
  created :
      (faults : Faults) (id : Text) (now : ℕ) (req : CreateUploadRequest) {st : Store}
      → lookup (sys.temp_path_of id) st.files ≡ none
      → Step objects sys st (create_upload sys faults id now req st).1
  got :
      (faults : Faults) (now : ℕ) (id : Text) {st : Store}
      → Step objects sys st (get_upload sys faults now id st).1
  wrote :
      (faults : Faults) (now : ℕ) (id : Text) (offset : ℤ) (data_of : Text) {st : Store}
      → Step objects sys st (write_chunk sys faults now id offset data_of st).1
  finalized :
      (faults : Faults) (now : ℕ) (id : Text) {st : Store} (o : O)
      → Step objects sys st (finalize_upload objects sys faults now id st o).1
  cancelled :
      (faults : Faults) (now : ℕ) (id : Text) {st : Store}
      → Step objects sys st (cancel_upload sys faults now id st).1
  cleaned :
      (query_error : Option Text) (faults : Text → Faults) (now : ℕ) {st : Store}
      → Step objects sys st (cleanup_expired sys query_error faults now st).1
  deleted : (faults : Faults) {st : Store} → Step objects sys st (run_deletion faults st)

-- The stores that calls make from no sessions, with any files there.
pub data Reachable {O R : Type 0} (objects : Objects O R) (sys : System) : Store → Type 0 where
  start :
      {files : Dict Text}
      → Reachable objects sys (record { sessions = []; files = files; deleting = [] })
  and_then :
      {st st' : Store}
      → Reachable objects sys st
      → Step objects sys st st'
      → Reachable objects sys st'

module _ {O R : Type 0} (objects : Objects O R) (sys : System)
    (injective : (i j : Text) → sys.temp_path_of i ≡ sys.temp_path_of j → i ≡ j) where
  Step-IsValid : {st st' : Store} → Step objects sys st st' → IsValid sys st → IsValid sys st'
  Step-IsValid (created faults id now req {st} fresh) h =
      unfold create_upload in
      create_of_length-IsValid sys injective faults id now req st req.upload_length fresh h
  Step-IsValid (got faults now id {st}) h =
      get_upload-outcomes sys faults now id st (λ r. IsValid sys r.1) (λ e. h)
        (λ s. unfold IsValid in h) (λ s f l. h)
  Step-IsValid (wrote faults now id offset data_of {st}) h =
      write_chunk-IsValid sys injective faults now id offset data_of st h
  Step-IsValid (finalized faults now id {st} o) h =
      finalize_upload-IsValid sys objects faults now id st o h
  Step-IsValid (cancelled faults now id {st}) h = cancel_upload-IsValid sys faults now id st h
  Step-IsValid (cleaned query_error faults now {st}) h =
      cleanup_expired-IsValid sys query_error faults now st h
  Step-IsValid (deleted faults {st}) h = run_deletion-IsValid sys faults st h

  -- After any calls, whatever failed in them, each session has the id of its row and the temporary path
  -- of that id, its offset is within its length, and its file, if there is one, has at least the bytes
  -- up to the offset and at most the upload's length. Different ids have different temporary paths.
  pub Reachable-IsValid : {st : Store} → Reachable objects sys st → IsValid sys st
  Reachable-IsValid start = unfold IsValid lookup in λ id s e. cc
  Reachable-IsValid (and_then r step) = Step-IsValid step (Reachable-IsValid r)
