-- ===== src/Tests/Routes.antt =====
-- A request with a read-only key against the routes of the S3 API.
use storage_gateway.Prelude.{
  ◌≡◌, refl, sym, ap, ◌∙◌, inl, inr, true, none, some, [], Bool-cases, Option-cases, Str, bytes,
  find, ok, ok_injective, result-err-ne-ok,
}
use mathlib.Core.Path.{subst}
use storage_gateway.Registry.{
  AccessKeyRow, ResolvedBucket, BackendType, s3, r2, gcs, azure, local_fs, unknown_type,
}
use storage_gateway.Registry.Db.{active_key}
use storage_gateway.Registry.Db.Attempts.{some_injective}
use storage_gateway.Registry.Postgres
use storage_gateway.Backend.{Backend}
use storage_gateway.Backend.Pool.{build, new_backend}
use storage_gateway.S3.Handler.{Request}
use storage_gateway.S3.Routes.{Decoders, put_object, serve}
use storage_gateway.S3.Routes.ReadOnly.{KeptByReads, serve-readonly}
use storage_gateway.Tests.Handlers.{
  Keys, memory, providers, gateway, outside, request, world, key_row, database,
}

-- Nothing was written.
abbrev IsUntouched : Keys → Type 0
IsUntouched s = s ≡ []

memory-KeptByReads : KeptByReads IsUntouched memory
memory-KeptByReads = record {
  head_object = λ i s h. h;
  get_object = λ i s h. h;
  head_bucket = λ bucket s h. h;
  list_objects = λ i s h. h;
  presign_url = λ i s h. h;
}

opened-KeptByReads :
    (ty : BackendType) (config : Str) (be : Backend Keys)
    → new_backend providers ty config ≡ some be
    → KeptByReads IsUntouched be
unfolding new_backend
opened-KeptByReads local_fs config be h =
    subst (KeptByReads IsUntouched) (some_injective h) memory-KeptByReads
opened-KeptByReads s3 config be h = cc
opened-KeptByReads r2 config be h = cc
opened-KeptByReads gcs config be h = cc
opened-KeptByReads azure config be h = cc
opened-KeptByReads (unknown_type _) config be h = cc

built-KeptByReads :
    (rb : ResolvedBucket) (be : Backend Keys)
    → build providers rb ≡ ok be
    → KeptByReads IsUntouched be
unfolding build
built-KeptByReads rb be h =
    elim (Option-cases (new_backend providers rb.backend_type rb.backend_config_enc)) [
      | inl none_opened ↦ absurd (result-err-ne-ok (rw none_opened at h))
      | inr (b, e) ↦
          opened-KeptByReads rb.backend_type rb.backend_config_enc be
            (e ∙ ap some (ok_injective (rw e at h)))
    ]

only-readonly :
    (ak : Str) (row : AccessKeyRow)
    → (Postgres.lookup_access_key ak (database [])).0 ≡ ok row
    → row.readonly ≡ true
unfolding Postgres.lookup_access_key find
only-readonly ak row h = elim (Bool-cases (active_key ak key_row)) [
  | inl active ↦ sym (ap (λ (x : AccessKeyRow). x.readonly) (ok_injective (rw active at h)))
  | inr other ↦ absurd (result-err-ne-ok (rw other at h))
]

abbrev xml : Decoders
xml = record { delete = λ body. none; complete = λ body. none }

abbrev put_request : Request
put_request = record (request (bytes "/photos/a")) { verb = bytes "PUT" }

serve-readonly_example :
    IsUntouched (serve gateway outside xml put_object put_request (world [])).1.upstream
unfolding Postgres.lookup_access_key storage_gateway.S3.Handler.Managers.postgres_manager
    storage_gateway.S3.Routes.ReadOnly.method_of
serve-readonly_example =
    serve-readonly IsUntouched gateway outside xml put_object put_request (world [])
      (λ pa row p f. only-readonly pa.access_key_id row f) built-KeptByReads tt refl refl
