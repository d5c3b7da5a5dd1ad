-- ===== src/Storage/Tus/Answers.antt =====
-- What WriteChunk answers, and what CleanupExpired leaves (internal/storage/tus.go).
use sblite.Prelude.{
  ℕ, Text, codes, Dict, lookup, delete, insert, Bool-cases, Option-cases, inl, inr, ◌+◌, ◌-◌, ◌≡◌,
  refl, ap, Option, none, some, List, [], ◌∷◌, ◌++◌, length, str_eq, str_eq_refl, false, true,
  if_holds, comes_before, err, ok, All, lookup-delete,
}
use mathlib.Core.Path.{subst}
use mathlib.Core.Option.{some-injective}
use sblite.Numbers.{ℤ}
use sblite.Storage.Tus.{Failure, UploadSession, System, Faults, Store, internal}
use sblite.Storage.Tus.Sessions.{
  cleanup_expired, cleanup_rows, expired_rows, delete_session, delete_record, remove_file,
}
use sblite.Storage.Tus.Chunks.{
  take, write_chunk, update_offset, copy_chunk, write_session, write_got, write_at, open_file,
  at_offset,
}
use sblite.Storage.Tus.Invariant.{IsValid, get_upload-outcomes}
use sblite.Storage.Tus.Uploading.{no_faults}

module _ (sys : System) (faults : Faults) where
  -- With an error, the rows stay as they are.
  abbrev KeepsRows : Dict UploadSession → (ℕ × Option Failure) × Store → Type 0
  KeepsRows rows r = (e : Failure) → r.0.1 ≡ some e → r.1.sessions ≡ rows

  update_offset-KeepsRows :
      (s : UploadSession) (n : ℕ) (st : Store) → KeepsRows st.sessions (update_offset faults s n st)
  unfolding update_offset
  update_offset-KeepsRows s n st = elim (Option-cases faults.update_fault) [
    | inr (f, fault) ↦ rw (update_offset, fault) (λ e _. refl)
    | inl fine ↦ rw (update_offset, fine) (λ e h. cc)
  ]

  copy_chunk-KeepsRows :
      (s : UploadSession) (content data_of : Text) (st : Store)
      → KeepsRows st.sessions (copy_chunk faults s content data_of st)
  unfolding copy_chunk
  copy_chunk-KeepsRows s content data_of st = elim (Option-cases faults.copy_fault) [
    | inr (f, fault) ↦ rw (copy_chunk, fault) (λ e _. refl)
    | inl fine ↦
        let limited = take (s.upload_length - s.upload_offset) data_of in
        rw (copy_chunk, fine)
          (update_offset-KeepsRows s (s.upload_offset + length limited) (record st {
            files = insert s.temp_path (write_at s.upload_offset limited content) st.files;
          }))
  ]

  write_session-KeepsRows :
      (s : UploadSession) (data_of : Text) (st : Store)
      → KeepsRows st.sessions (write_session sys faults s data_of st)
  unfolding write_session
  write_session-KeepsRows s data_of st =
      elim (open_file sys faults s.temp_path st)
        as (λ r. KeepsRows st.sessions (elim r as (λ _. (ℕ × Option Failure) × Store) [
          | err e ↦
              ((s.upload_offset, some (internal (codes "Failed to open temp file: " ++ e))), st)
          | ok content ↦ (elim faults.seek_fault [
            | some e ↦ (
              (s.upload_offset, some (internal (codes "Failed to seek in temp file: " ++ e))),
              st,
            )
            | none ↦ copy_chunk faults s content data_of st
          ])
        ])) [
          | err e ↦ λ _ _. refl
          | ok content ↦
              elim faults.seek_fault
                as (λ r. KeepsRows st.sessions (elim r as (λ _. (ℕ × Option Failure) × Store) [
                  | some e ↦ (
                    (s.upload_offset, some (internal (codes "Failed to seek in temp file: " ++ e))),
                    st,
                  )
                  | none ↦ copy_chunk faults s content data_of st
                ])) [ some e ↦ λ _ _. refl | none ↦ copy_chunk-KeepsRows s content data_of st ]
        ]

  -- A chunk that is answered with an error, whichever it is, leaves the rows as they were: no offset
  -- moves, whatever became of the file.
  pub write_chunk-KeepsRows :
      (now : ℕ) (id : Text) (offset : ℤ) (data_of : Text) (st : Store) (e : Failure)
      → (write_chunk sys faults now id offset data_of st).0.1 ≡ some e
      → (write_chunk sys faults now id offset data_of st).1.sessions ≡ st.sessions
  unfolding write_chunk write_got
  write_chunk-KeepsRows now id offset data_of st =
      get_upload-outcomes sys faults now id st
        (λ r. KeepsRows st.sessions (write_got sys faults offset data_of r)) (λ f e _. refl)
        (λ s e _. refl)
        (λ s found live.
          if_holds (KeepsRows st.sessions) (at_offset offset s) _ _
            (write_session-KeepsRows s data_of st) (λ e _. refl))

remove_file-rows :
    (path : Text) (st : Store) → (remove_file no_faults path st).sessions ≡ st.sessions
unfolding remove_file
remove_file-rows [] st = refl
remove_file-rows (c ∷ path) st = refl

delete_session-rows :
    (s : UploadSession) (st : Store)
    → (delete_session no_faults s st).1.sessions ≡ delete s.id st.sessions
unfolding delete_session delete_record
delete_session-rows s st = ap (delete s.id) (remove_file-rows s.temp_path st)

cleanup_rows-lookup :
    (sys : System) (id : Text) (rows : List UploadSession) (st : Store) (s : UploadSession)
    → lookup id (cleanup_rows sys (λ _. no_faults) rows st).sessions ≡ some s
    → (lookup id st.sessions ≡ some s) × All (λ t. str_eq t.id id ≡ false) rows
unfolding cleanup_rows
cleanup_rows-lookup sys id [] st s e = (e, tt)
cleanup_rows-lookup sys id (t ∷ rows) st s e =
    let (found, others) = cleanup_rows-lookup sys id rows (delete_session no_faults t st).1 s e in
    let kept = rw (delete_session-rows t st, lookup-delete) at found in
    elim (Bool-cases (str_eq t.id id)) [
      | inl same ↦ cc (rw same at kept)
      | inr other ↦ (rw other at kept, (other, others))
    ]

expired_rows-parts :
    (sys : System) (now j : Text) (t : UploadSession) (m : Dict UploadSession)
    (P : UploadSession → Type 0)
    → All P (expired_rows sys now ((j, t) ∷ m))
    → (comes_before t.expires_at now ≡ true → P t) × All P (expired_rows sys now m)
unfolding expired_rows
expired_rows-parts sys now j t m P h = elim (Bool-cases (comes_before t.expires_at now)) [
  | inl over ↦ let (here, rest) = rw over at h in ((λ _. here), rest)
  | inr later ↦ ((λ over. cc (later, over)), rw later at h)
]

-- A row that is found and has ended is among the expired ones.
expired_rows-found :
    (sys : System) (now id : Text) (m : Dict UploadSession) (s : UploadSession)
    (P : UploadSession → Type 0)
    → lookup id m ≡ some s
    → comes_before s.expires_at now ≡ true
    → All P (expired_rows sys now m)
    → P s
unfolding expired_rows lookup
expired_rows-found sys now id ((j, t) ∷ m) s P e over h =
    let (here, rest) = expired_rows-parts sys now j t m P h in
    elim (Bool-cases (str_eq j id)) [
      | inl same ↦
          let equal : t ≡ s = some-injective t s (rw same at e) in
          subst P equal (here (rw equal over))
      | inr other ↦ expired_rows-found sys now id m s P (rw other at e) over rest
    ]
expired_rows-found sys now id [] s P e over h = cc

-- After CleanupExpired, where nothing fails, no session is left whose end is before the given time,
-- and each session that is left was there before. Each session has the id of its row.
pub cleanup_expired-lookup :
    (sys : System) (now : ℕ) (id : Text) (st : Store) (s : UploadSession)
    → IsValid sys st
    → lookup id (cleanup_expired sys none (λ _. no_faults) now st).1.sessions ≡ some s
    → (lookup id st.sessions ≡ some s) × (comes_before s.expires_at (sys.format_time now) ≡ false)
unfolding cleanup_expired IsValid
cleanup_expired-lookup sys now id st s valid e =
    let (found, others) =
      cleanup_rows-lookup sys id (expired_rows sys (sys.format_time now) st.sessions) st s e in
    elim (Bool-cases (comes_before s.expires_at (sys.format_time now))) [
      | inr later ↦ (found, later)
      | inl over ↦
          let other =
            expired_rows-found sys (sys.format_time now) id st.sessions s
              (λ t. str_eq t.id id ≡ false) found over others in
          cc (rw (valid id s found).named at other, str_eq_refl id)
    ]
