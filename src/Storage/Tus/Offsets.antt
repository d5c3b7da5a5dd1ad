-- ===== src/Storage/Tus/Offsets.antt =====
-- The offsets that WriteChunk answers with (internal/storage/tus.go).
use sblite.Prelude.{
  ℕ, Text, lookup, Option-cases, Bool-cases, inl, inr, ◌+◌, ◌-◌, ◌≤◌, ◌≡◌, ap, sym, arith, Option,
  none, some, length, insert,
}
use sblite.Numbers.{ℤ}
use sblite.Storage.Tus.{Failure, UploadSession, System, Faults, Store}
use sblite.Storage.Tus.Chunks.{
  take, write_chunk, update_offset, copy_chunk, write_session, write_got, write_at, open_file,
  at_offset,
}
use sblite.Storage.Tus.Invariant.{IsValid, get_upload-outcomes, length-take}

-- An answer with an error is none without.
refused :
    {P : Type 0} {k m : ℕ} {f : Failure} → ◌≡◌ {A = ℕ × Option Failure} (k, some f) (m, none) → P
refused e = cc (ap (λ (a : ℕ × Option Failure). a.1) e)

module _ (sys : System) (faults : Faults) (m : ℕ) where
  -- What is answered without an error.
  abbrev Answers : ((ℕ × Option Failure) × Store) → ℕ → Type 0
  Answers r n = r.0 ≡ (m, none) → m ≡ n

  update_offset-Answers :
      (s : UploadSession) (n : ℕ) (st : Store) → Answers (update_offset faults s n st) n
  unfolding update_offset
  update_offset-Answers s n st = elim (Option-cases faults.update_fault) [
    | inr (f, fault) ↦ rw (update_offset, fault) (λ e. refused e)
    | inl fine ↦ rw (update_offset, fine) (λ e. sym (ap (λ (a : ℕ × Option Failure). a.0) e))
  ]

  -- The offset behind the bytes that are taken.
  abbrev behind : UploadSession → Text → ℕ
  behind s data_of = s.upload_offset + length (take (s.upload_length - s.upload_offset) data_of)

  copy_chunk-Answers :
      (s : UploadSession) (content data_of : Text) (st : Store)
      → Answers (copy_chunk faults s content data_of st) (behind s data_of)
  unfolding copy_chunk
  copy_chunk-Answers s content data_of st = elim (Option-cases faults.copy_fault) [
    | inr (f, fault) ↦ rw (copy_chunk, fault) (λ e. refused e)
    | inl fine ↦
        let limited = take (s.upload_length - s.upload_offset) data_of in
        rw (copy_chunk, fine)
          (update_offset-Answers s (s.upload_offset + length limited) (record st {
            files = insert s.temp_path (write_at s.upload_offset limited content) st.files;
          }))
  ]

  write_session-Answers :
      (s : UploadSession) (data_of : Text) (st : Store)
      → Answers (write_session sys faults s data_of st) (behind s data_of)
  unfolding write_session open_file
  write_session-Answers s data_of st = elim (Option-cases faults.open_fault) [
    | inr (e, fault) ↦ rw (write_session, open_file, fault) (λ e. refused e)
    | inl fine ↦ elim (Option-cases (lookup s.temp_path st.files)) [
      | inl missing ↦ rw (write_session, open_file, fine, missing) (λ e. refused e)
      | inr (content, opened) ↦ elim (Option-cases faults.seek_fault) [
        | inr (e, unsought) ↦ rw (write_session, open_file, fine, opened, unsought) (λ e. refused e)
        | inl sought ↦
            rw (write_session, open_file, fine, opened, sought)
              (copy_chunk-Answers s content data_of st)
      ]
    ]
  ]

  -- An answer without an error: the session is in the table, and the new offset is neither below its
  -- offset nor above its length. The sessions keep to their lengths before the call.
  pub write_chunk-within :
      (now : ℕ) (id : Text) (offset : ℤ) (data_of : Text) (st : Store)
      → IsValid sys st
      → (write_chunk sys faults now id offset data_of st).0 ≡ (m, none)
      → (s : UploadSession) × (lookup id st.sessions ≡ some s)
        × (s.upload_offset ≤ m)
        × (m ≤ s.upload_length)
  unfolding write_chunk write_got IsValid
  write_chunk-within now id offset data_of st h =
      get_upload-outcomes sys faults now id st
        (λ r.
          (write_got sys faults offset data_of r).0 ≡ (m, none)
          → (s : UploadSession) × (lookup id st.sessions ≡ some s)
            × (s.upload_offset ≤ m)
            × (m ≤ s.upload_length))
        (λ f e. refused e) (λ s e. refused e)
        (λ s found live. elim (Bool-cases (at_offset offset s)) [
          | inl here ↦
              rw (write_got, here)
                (λ e.
                  let new = write_session-Answers s data_of st e in
                  let (short, _) = length-take (s.upload_length - s.upload_offset) data_of in
                  let within = (h id s found).within in
                  (s, found, omega (arith, new), omega (arith, new, short, within)))
          | inr elsewhere ↦ rw (write_got, elsewhere) (λ e. refused e)
        ])
