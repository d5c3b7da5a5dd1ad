-- ===== src/Storage/Tus/Uploading.antt =====
-- An upload that nothing disturbs: what the chunks of WriteChunk leave in the temporary file
-- (internal/storage/tus.go).
use sblite.Prelude.{
  ℕ, zero, suc, Text, lookup, lookup-insert, insert, ◌+◌, ◌-◌, ◌≤◌, ◌≡◌, refl, ap, sym, ◌∙◌, arith,
  none, some, [], ◌∷◌, ◌++◌, length, length-append, append_assoc, drop, str_eq_refl, ◌==◌, false,
  true,
}
use mathlib.Core.Path.{subst}
use sblite.Numbers.{pos}
use sblite.Storage.Tus.{UploadSession, System, Faults, Store, is_expired, done}
use sblite.Storage.Tus.Sessions.{get_upload}
use sblite.Storage.Tus.Chunks.{
  take, padded, write_at, write_chunk, at_offset, write_session, open_file, copy_chunk,
  update_offset, write_got, set_offset,
}
use sblite.Storage.Tus.Invariant.{length-write_at, length-take}
use sblite.Storage.Tus.Writes.{set_offset-found}

take-append : (s t : Text) → take (length s) (s ++ t) ≡ s
unfolding take
take-append [] t = refl
take-append (b ∷ s) t = ap (λ r. b ∷ r) (take-append s t)

pub take-all : (n : ℕ) (s : Text) → length s ≤ n → take n s ≡ s
unfolding take
take-all zero [] h = refl
take-all zero (b ∷ s) h = ground arith
take-all (suc n) [] h = refl
take-all (suc n) (b ∷ s) h = ap (λ r. b ∷ r) (take-all n s (omega arith))

pub take_twice : (n : ℕ) (s t : Text) → length s ≤ n → take n (s ++ t) ≡ s ++ take (n - length s) t
unfolding take
take_twice n [] t h = ap (λ m. take m t) (omega arith)
take_twice zero (b ∷ s) t h = ground arith
take_twice (suc n) (b ∷ s) t h =
    ap (λ r. b ∷ r) (take_twice n s t (omega arith) ∙ ap (λ m. s ++ take m t) (omega arith))

padded-take : (n : ℕ) (s : Text) → n ≤ length s → padded n s ≡ take n s
unfolding take padded
padded-take zero s h = refl
padded-take (suc n) [] h = ground arith
padded-take (suc n) (b ∷ s) h = ap (λ r. b ∷ r) (padded-take n s (omega arith))

-- The bytes that an upload of `n` bytes has received, behind another chunk.
abbrev pub receive : ℕ → Text → Text → Text
receive n received chunk = received ++ take (n - length received) chunk

-- The file begins with what was received before and with the new bytes.
write_at-begins :
    (received data_of content : Text)
    → take (length received) content ≡ received
    → length received ≤ length content
    → take (length (received ++ data_of)) (write_at (length received) data_of content)
      ≡ received ++ data_of
unfolding write_at
write_at-begins received data_of content begins enough =
    let tail = drop (length received + length data_of) content in
    ap (λ p. take (length (received ++ data_of)) (p ++ (data_of ++ tail)))
      (padded-take (length received) content enough ∙ begins)
    ∙ (ap (take (length (received ++ data_of))) (sym (append_assoc received data_of tail))
        ∙ take-append (received ++ data_of) tail)

-- No error of the database and of the files.
abbrev pub no_faults : Faults
no_faults = record {
  query_fault = none;
  insert_fault = none;
  update_fault = none;
  delete_fault = none;
  create_fault = none;
  open_fault = none;
  seek_fault = none;
  copy_fault = none;
  remove_fault = none;
}

-- The abstract upload: `n` bytes are to come, and `received` are there.
pub record Holds (id e : Text) (n : ℕ) (received : Text) (st : Store) : Type 0 where
  pub session : UploadSession
  pub content : Text
  pub row : lookup id st.sessions ≡ some session
  pub file : lookup session.temp_path st.files ≡ some content
  pub named : session.id ≡ id
  pub expires : session.expires_at ≡ e
  pub sized : session.upload_length ≡ n
  pub counted : session.upload_offset ≡ length received
  pub begins : take (length received) content ≡ received
  pub enough : length received ≤ length content
  pub bounded : length content ≤ n

-- The time is not behind the end of the session.
abbrev pub Live : System → Text → ℕ → Type 0
Live sys e now = (expires : ℕ) × (sys.parse_time e ≡ some expires) × (now ≤ expires)

is_expired-Live :
    (sys : System) (e : Text) (now : ℕ) (s : UploadSession)
    → Live sys e now
    → s.expires_at ≡ e
    → is_expired sys now s ≡ false
unfolding is_expired
is_expired-Live sys e now s (expires, parsed, before) same =
    rw (is_expired, same, parsed) (ground arith)

same_number : (n : ℕ) → (n == n) ≡ true
same_number n = ground arith

module _ (sys : System) (id e : Text) (n : ℕ) where
  pub get_upload-Live :
      (now : ℕ) (received : Text) (st : Store) (h : Holds id e n received st)
      → Live sys e now
      → get_upload sys no_faults now id st ≡ (done h.session, st)
  unfolding get_upload
  get_upload-Live now received st h live =
      rw (get_upload, h.row, is_expired-Live sys e now h.session live h.expires) refl

  -- The bytes of the chunk that are taken, and the store that a chunk leaves.
  abbrev taken : UploadSession → Text → Text
  taken s chunk = take (s.upload_length - s.upload_offset) chunk

  abbrev stored : UploadSession → Text → Text → Store → Store
  stored s content chunk st = record st {
    sessions = set_offset id (s.upload_offset + length (taken s chunk)) st.sessions;
    files = insert s.temp_path (write_at s.upload_offset (taken s chunk) content) st.files;
  }

  write_chunk-fine :
      (now : ℕ) (chunk received : Text) (st : Store) (h : Holds id e n received st)
      → Live sys e now
      → write_chunk sys no_faults now id (pos h.session.upload_offset) chunk st ≡ (
        (h.session.upload_offset + length (taken h.session chunk), none),
        stored h.session h.content chunk st,
      )
  unfolding write_chunk write_got at_offset write_session open_file copy_chunk update_offset
  write_chunk-fine now chunk received st h live =
      rw
        (
          write_chunk,
          get_upload-Live now received st h live,
          write_got,
          at_offset,
          same_number h.session.upload_offset,
          write_session,
          open_file,
          h.file,
          copy_chunk,
          update_offset,
          h.named,
        )
        refl

  stored_count :
      (chunk received : Text) (st : Store) (h : Holds id e n received st)
      → h.session.upload_offset + length (taken h.session chunk) ≡ length (receive n received chunk)
  stored_count chunk received st h =
      rw (h.counted, h.sized)
        (omega (arith, length-append received (take (n - length received) chunk)))

  -- A chunk, and the abstract upload behind it.
  stored-Holds :
      (chunk received : Text) (st : Store) (h : Holds id e n received st)
      → Holds id e n (receive n received chunk) (stored h.session h.content chunk st)
  stored-Holds chunk received st h =
      let s = h.session in
      let data_of = taken s chunk in
      let fresh = take (n - length received) chunk in
      let (short, _) = length-take (n - length received) chunk in
      let sizes = length-write_at (length received) fresh h.content in
      record {
        session = record s { upload_offset = s.upload_offset + length data_of };
        content = write_at s.upload_offset data_of h.content;
        row =
            rw
              (
                set_offset-found id (s.upload_offset + length data_of) s st.sessions h.row,
                lookup-insert,
                str_eq_refl id,
              )
              refl;
        file = rw (lookup-insert, str_eq_refl s.temp_path) refl;
        named = h.named;
        expires = h.expires;
        sized = h.sized;
        counted = stored_count chunk received st h;
        begins =
            rw (h.counted, h.sized) (write_at-begins received fresh h.content h.begins h.enough);
        enough = rw (h.counted, h.sized) (omega (arith, sizes, length-append received fresh));
        bounded = rw (h.counted, h.sized) (omega (arith, sizes, short, h.enough, h.bounded));
      }

  -- One chunk at the current offset: the answer is the new offset, and what the store holds is what the
  -- upload has received.
  pub write_chunk-Holds :
      (now : ℕ) (chunk received : Text) (st : Store)
      → Holds id e n received st
      → Live sys e now
      → ((write_chunk sys no_faults now id (pos (length received)) chunk st).0
          ≡ (length (receive n received chunk), none))
        × Holds id e n
            (receive n received chunk)
            (write_chunk sys no_faults now id (pos (length received)) chunk st).1
  write_chunk-Holds now chunk received st h live =
      subst
        (λ m.
          ((write_chunk sys no_faults now id (pos m) chunk st).0
            ≡ (length (receive n received chunk), none))
          × Holds id e n (receive n received chunk)
              (write_chunk sys no_faults now id (pos m) chunk st).1)
        h.counted
        (rw (write_chunk-fine now chunk received st h live) (
          ap (λ m. (m, none)) (stored_count chunk received st h),
          stored-Holds chunk received st h,
        ))
