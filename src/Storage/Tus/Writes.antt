-- ===== src/Storage/Tus/Writes.antt =====
-- The calls of internal/storage/tus.go that write rows and files, and the invariant of the sessions.
use sblite.Prelude.{
  if_holds, ℕ, Text, Dict, insert, lookup, lookup-insert, Bool-cases, Option-cases, inl, inr, ◌+◌,
  ◌-◌, ◌≤◌, ◌≡◌, refl, ap, sym, arith, Option, some, str_eq, str_eq_iff, str_eq_refl, ◌∙◌, length,
  false,
}
use mathlib.Core.Path.{subst}
use mathlib.Core.Option.{some-injective}
use sblite.Storage.Tus.{UploadSession, System, Faults, Store, Failure, ℤ}
use sblite.Storage.Tus.Chunks.{
  take, write_at, update_offset, copy_chunk, set_offset, write_session, write_chunk, open_file,
  at_offset, write_got,
}
use sblite.Storage.Tus.Invariant.{
  IsSound, IsValid, IsSound-files, lookup-new, get_upload-outcomes, length-write_at, length-take,
}
use sblite.Numbers.{ℤ}

lookup-same {ℓ} :
    {V : Type ℓ} (k : Text) (v w : V) (m : Dict V) → lookup k (insert k v m) ≡ some w → v ≡ w
lookup-same k v w m h = ground (arith, lookup-insert k k v m, str_eq_refl k)

pub set_offset-found :
    (id : Text) (n : ℕ) (s : UploadSession) (m : Dict UploadSession)
    → lookup id m ≡ some s
    → set_offset id n m ≡ insert id (record s { upload_offset = n }) m
unfolding set_offset
set_offset-found id n s m found = rw (set_offset, found) refl

written-IsSound :
    (sys : System) (id : Text) (s : UploadSession) (content : Text) (files : Dict Text)
    → s.id ≡ id
    → s.temp_path ≡ sys.temp_path_of id
    → s.upload_offset ≤ s.upload_length
    → s.upload_offset ≤ length content
    → length content ≤ s.upload_length
    → IsSound sys (insert s.temp_path content files) id s
written-IsSound sys id s content files named placed within low high = record {
  named = named;
  placed = placed;
  within = within;
  held = λ found e.
      let same_content = lookup-same s.temp_path content found files e in
      (omega (arith, ap length same_content), omega (arith, ap length same_content));
}

module _ (sys : System)
    (injective : (i j : Text) → sys.temp_path_of i ≡ sys.temp_path_of j → i ≡ j) where
  -- Writing the file of one session leaves the others sound.
  insert_file-IsSound :
      (files : Dict Text) (id j : Text) (content : Text) (s : UploadSession)
      → str_eq id j ≡ false
      → IsSound sys files j s
      → IsSound sys (insert (sys.temp_path_of id) content files) j s
  insert_file-IsSound files id j content s other h =
      IsSound-files sys files (insert (sys.temp_path_of id) content files) j s h (λ found e.
        elim (lookup-new (sys.temp_path_of id) s.temp_path content found files e) [
          | inl (same, _) ↦
              let equal : id ≡ j = injective id j (same ∙ h.placed) in
              cc (rw (equal, str_eq_refl j) at other)
          | inr (_, e') ↦ e'
        ])

  -- A row that is written together with its file.
  pub insert_both-IsValid :
      (id : Text) (s : UploadSession) (content : Text) (st : Store)
      → IsValid sys st
      → s.id ≡ id
      → s.temp_path ≡ sys.temp_path_of id
      → s.upload_offset ≤ s.upload_length
      → s.upload_offset ≤ length content
      → length content ≤ s.upload_length
      → IsValid sys (record st {
        sessions = insert id s st.sessions;
        files = insert s.temp_path content st.files;
      })
  unfolding IsValid
  insert_both-IsValid id s content st h named placed within low high j t e =
      elim (lookup-new id j s t st.sessions e) [
        | inl (same, equal) ↦
            let files = insert s.temp_path content st.files in
            subst (λ i. IsSound sys files i t) same
              (subst (λ u. IsSound sys files id u) equal
                (written-IsSound sys id s content st.files named placed within low high))
        | inr (other, e') ↦ rw placed (insert_file-IsSound st.files id j content t other (h j t e'))
      ]

  -- A file that grows, with its row as it was.
  insert_file-IsValid :
      (id : Text) (s : UploadSession) (content : Text) (st : Store)
      → IsValid sys st
      → lookup id st.sessions ≡ some s
      → s.upload_offset ≤ length content
      → length content ≤ s.upload_length
      → IsValid sys (record st { files = insert s.temp_path content st.files })
  unfolding IsValid
  insert_file-IsValid id s content st h found low high j t e = elim (Bool-cases (str_eq id j)) [
    | inr other ↦
        rw ((h id s found).placed) (insert_file-IsSound st.files id j content t other (h j t e))
    | inl same ↦
        let equal : s ≡ t =
          some-injective s t (sym found ∙ rw (sym ((str_eq_iff id j).0 same)) at e) in
        let files = insert s.temp_path content st.files in
        let sound = h id s found in
        subst (λ i. IsSound sys files i t) ((str_eq_iff id j).0 same)
          (subst (λ u. IsSound sys files id u) equal
            (written-IsSound sys id s content st.files sound.named sound.placed sound.within low
              high))
  ]

  -- What a chunk makes of the file: no shorter than the new offset, and no longer than the upload.
  grown :
      (s : UploadSession) (data_of content : Text)
      → s.upload_offset ≤ s.upload_length
      → length content ≤ s.upload_length
      → s.upload_offset ≤ length content
      → length data_of ≤ s.upload_length - s.upload_offset
      → (s.upload_offset + length data_of ≤ length (write_at s.upload_offset data_of content))
        × (length (write_at s.upload_offset data_of content) ≤ s.upload_length)
  grown s data_of content within high low limited =
      omega (arith, length-write_at s.upload_offset data_of content)

  update_offset-IsValid :
      (faults : Faults) (id : Text) (s : UploadSession) (new_offset : ℕ) (content : Text)
      (st : Store)
      → IsValid sys st
      → lookup id st.sessions ≡ some s
      → s.upload_offset ≤ new_offset
      → new_offset ≤ length content
      → length content ≤ s.upload_length
      → IsValid sys
          (update_offset faults s new_offset
            (record st { files = insert s.temp_path content st.files })).1
  unfolding update_offset IsValid
  update_offset-IsValid faults id s new_offset content st h found more low high =
      let sound = h id s found in
      let kept = insert_file-IsValid id s content st h found (omega arith) high in
      elim (Option-cases faults.update_fault) [
        | inr (e, fault) ↦ rw (update_offset, fault) kept
        | inl fine ↦
            let files = insert s.temp_path content st.files in
            let written =
              insert_both-IsValid id (record s { upload_offset = new_offset }) content st h
                sound.named sound.placed (omega arith) low high in
            rw (update_offset, fine)
              (subst (λ m. IsValid sys (record st { sessions = m; files = files }))
                (sym (
                  ap (λ i. set_offset i new_offset st.sessions) sound.named
                  ∙ set_offset-found id new_offset s st.sessions found))
                written)
      ]

  copy_chunk-IsValid :
      (faults : Faults) (id : Text) (s : UploadSession) (content data_of : Text) (st : Store)
      → IsValid sys st
      → lookup id st.sessions ≡ some s
      → lookup s.temp_path st.files ≡ some content
      → IsValid sys (copy_chunk faults s content data_of st).1
  unfolding copy_chunk IsValid
  copy_chunk-IsValid faults id s content data_of st h found opened =
      let sound = h id s found in
      let (low, high) = sound.held content opened in
      let limited = take (s.upload_length - s.upload_offset) data_of in
      let (short, _) = length-take (s.upload_length - s.upload_offset) data_of in
      elim (Option-cases faults.copy_fault) [
        | inr ((written, e), fault) ↦
            let part = take written limited in
            let (_, few) = length-take written limited in
            let (reached, fits) = grown s part content sound.within high low (omega arith) in
            rw (copy_chunk, fault)
              (insert_file-IsValid id s (write_at s.upload_offset part content) st h found
                (omega arith) fits)
        | inl fine ↦
            let (reached, fits) = grown s limited content sound.within high low short in
            rw (copy_chunk, fine)
              (update_offset-IsValid faults id s (s.upload_offset + length limited)
                (write_at s.upload_offset limited content) st h found (omega arith) reached fits)
      ]

  write_session-IsValid :
      (faults : Faults) (id : Text) (s : UploadSession) (data_of : Text) (st : Store)
      → IsValid sys st
      → lookup id st.sessions ≡ some s
      → IsValid sys (write_session sys faults s data_of st).1
  unfolding write_session open_file
  write_session-IsValid faults id s data_of st h found = elim (Option-cases faults.open_fault) [
    | inr (e, fault) ↦ rw (write_session, open_file, fault) h
    | inl fine ↦ elim (Option-cases (lookup s.temp_path st.files)) [
      | inl missing ↦ rw (write_session, open_file, fine, missing) h
      | inr (content, opened) ↦ elim (Option-cases faults.seek_fault) [
        | inr (e, unsought) ↦ rw (write_session, open_file, fine, opened, unsought) h
        | inl sought ↦
            rw (write_session, open_file, fine, opened, sought)
              (copy_chunk-IsValid faults id s content data_of st h found opened)
      ]
    ]
  ]

  pub write_chunk-IsValid :
      (faults : Faults) (now : ℕ) (id : Text) (offset : ℤ) (data_of : Text) (st : Store)
      → IsValid sys st
      → IsValid sys (write_chunk sys faults now id offset data_of st).1
  unfolding write_chunk write_got IsValid
  write_chunk-IsValid faults now id offset data_of st h =
      get_upload-outcomes sys faults now id st
        (λ r. IsValid sys (write_got sys faults offset data_of r).1) (λ e. h) (λ s. h)
        (λ s found live.
          if_holds (λ (r : (ℕ × Option Failure) × Store). IsValid sys r.1) (at_offset offset s) _ _
            (write_session-IsValid faults id s data_of st h found) h)
