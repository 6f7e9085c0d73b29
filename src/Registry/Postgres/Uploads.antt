-- ===== src/Registry/Postgres/Uploads.antt =====
-- internal/registry/postgres.go: the row of an upload while other uploads come and go.
use storage_gateway.Prelude.{
  ◌≡◌, ◌≢◌, sym, ◌∙◌, inl, inr, Bool, true, false, ◌||◌, not, some, List, [], ◌∷◌, Str, str_eq,
  str_eq_iff, str_eq_other, ◌==◌, if◌then◌else◌, any, find, filter, Exec, Result, ok, err,
  Bool-cases, All, arith,
}
use storage_gateway.Registry.{MultipartUpload, Error, unique_violation}
use storage_gateway.Registry
use storage_gateway.Registry.Db.{Db, attempt}
use storage_gateway.Registry.Postgres.{
  has_upload_id, store_exists, create_multipart_upload, delete_multipart_upload,
}

-- A call of another request on the tracking records.
pub data UploadStep : Type 0 where
  new_upload : MultipartUpload → UploadStep
  deleted : Str → UploadStep

unfoldable pub step_uploads : UploadStep → Db → Db
step_uploads (new_upload u) db = (create_multipart_upload u db).1
step_uploads (deleted id) db = (delete_multipart_upload id db).1

unfoldable pub run_uploads : List UploadStep → Db → Db
run_uploads [] db = db
run_uploads (s ∷ ss) db = run_uploads ss (step_uploads s db)

-- The call does not delete the record of this id.
unfoldable pub Spares : Str → UploadStep → Type 0
Spares id (new_upload u) = Unit
Spares id (deleted other) = id ≢ other

-- What CreateMultipartUpload's statement does.
abbrev insert_upload : MultipartUpload → Db → Result Error (Unit {0}) × Db
insert_upload v db =
    if any (λ (w : MultipartUpload). w.id == v.id || str_eq w.gateway_upload_id v.gateway_upload_id)
      db.multipart_uploads
    then (err unique_violation, db)
    else if store_exists v.store_id db
    then (
      ok tt,
      record db { multipart_uploads = record v { created_at = db.now } ∷ db.multipart_uploads },
    )
    else (err Registry.other, db)

-- The first record of the id is this one.
abbrev pub Recorded : Str → MultipartUpload → Db → Type 0
Recorded id u db = find (has_upload_id id) db.multipart_uploads ≡ some u

module _ (id : Str) (u : MultipartUpload) where
  any-Recorded :
      (v : MultipartUpload) (us : List MultipartUpload)
      → find (has_upload_id id) us ≡ some u
      → str_eq v.gateway_upload_id id ≡ true
      → any
          (λ (w : MultipartUpload). w.id == v.id || str_eq w.gateway_upload_id v.gateway_upload_id)
          us
        ≡ true
  unfolding find any
  any-Recorded v [] h e = cc
  any-Recorded v (w ∷ us) h e = elim (Bool-cases (str_eq w.gateway_upload_id id)) [
    | inl here ↦
        let same : str_eq w.gateway_upload_id v.gateway_upload_id ≡ true =
          (str_eq_iff w.gateway_upload_id v.gateway_upload_id).1 (
            (str_eq_iff w.gateway_upload_id id).0 here
            ∙ sym ((str_eq_iff v.gateway_upload_id id).0 e)) in
        ground (arith, same)
    | inr later ↦ let rest = any-Recorded v us (rw later at h) e in ground (arith, rest)
  ]

  find_spared :
      (other : Str) (us : List MultipartUpload)
      → id ≢ other
      → find (has_upload_id id) us ≡ some u
      → find (has_upload_id id) (filter (λ w. not (has_upload_id other w)) us) ≡ some u
  unfolding find filter
  find_spared other [] n h = cc
  find_spared other (w ∷ us) n h = elim (Bool-cases (str_eq w.gateway_upload_id id)) [
    | inl here ↦
        let stays : str_eq w.gateway_upload_id other ≡ false =
          str_eq_other w.gateway_upload_id other
            (λ e. n (sym ((str_eq_iff w.gateway_upload_id id).0 here) ∙ e)) in
        let same = rw here at h in rw (stays, here) same
    | inr later ↦
        let rest = find_spared other us n (rw later at h) in
        elim (Bool-cases (str_eq w.gateway_upload_id other)) [
          | inl gone ↦ rw gone rest
          | inr stays ↦ rw (stays, later) rest
        ]
  ]

  insert-Recorded :
      (v : MultipartUpload) (db : Db) → Recorded id u db → Recorded id u (insert_upload v db).1
  unfolding find
  insert-Recorded v db h = elim (Bool-cases (str_eq v.gateway_upload_id id)) [
    | inl mine ↦ rw (any-Recorded v db.multipart_uploads h mine) h
    | inr another ↦
        elim (Bool-cases (
          any
            (λ (w : MultipartUpload).
              w.id == v.id || str_eq w.gateway_upload_id v.gateway_upload_id)
            db.multipart_uploads)) [
              | inl taken ↦ rw taken h
              | inr free ↦ elim (Bool-cases (store_exists v.store_id db)) [
                | inl known ↦ rw (free, known, another) h
                | inr unknown ↦ rw (free, unknown) h
              ]
            ]
  ]

  attempt-Recorded :
      (m : Exec Db Error (Unit {0})) (fs : List Bool) (db : Db)
      → ((d : Db) → Recorded id u d → Recorded id u (m d).1)
      → Recorded id u db
      → Recorded id u (attempt fs m db).1
  attempt-Recorded m [] db g h = g db h
  attempt-Recorded m (true ∷ fs) db g h = h
  attempt-Recorded m (false ∷ fs) db g h = g (record db { faults = fs }) h

  step-Recorded :
      (s : UploadStep) (db : Db)
      → Spares id s
      → Recorded id u db
      → Recorded id u (step_uploads s db)
  unfolding step_uploads create_multipart_upload delete_multipart_upload Spares
  step-Recorded (new_upload v) db n h = attempt-Recorded _ db.faults db (insert-Recorded v) h
  step-Recorded (deleted other) db n h =
      attempt-Recorded _ db.faults db (λ d. find_spared other d.multipart_uploads n) h

  -- The calls of other requests leave the record of the id, whatever the server fails.
  pub run-Recorded :
      (ss : List UploadStep) (db : Db)
      → All (Spares id) ss
      → Recorded id u db
      → Recorded id u (run_uploads ss db)
  unfolding run_uploads
  run-Recorded [] db n h = h
  run-Recorded (s ∷ ss) db (n, ns) h =
      run-Recorded ss (step_uploads s db) ns (step-Recorded s db n h)
