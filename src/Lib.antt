-- ===== src/Lib.antt =====
-- storage-gateway: an S3 server in front of several object stores. Tenants hold access keys and
-- stores; a gateway bucket maps to a bucket of one store, under an optional key prefix.
--
-- Parts and files
--   Prelude, Strconv       bytes, lists, results with state, 64-bit integers, package strconv
--   Registry               internal/registry/models.go, errors.go: rows, PrefixKey, StripPrefix,
--                          ParseBackendBucket
--   Registry/Db, Postgres  internal/registry/postgres.go over the tables of internal/db/migrations: one
--                          function for each method of pgManager
--   Registry/Cache         internal/registry/cache.go: cachedRegistry over Redis (Cache/Keyspace)
--   Backend                internal/backend/backend.go, errors.go: inputs, outputs, the interface
--   Backend/Range          parseHTTPRange of gcs.go and parseAzureRange of azure.go
--   Backend/Local          internal/backend/local.go: GetObject, ListObjects in Local/Listing, and the
--                          operations that write in Local/Files
--   S3/Chunked             internal/api/s3/objects.go: awsChunkedReader
--   Backend/Gcs            internal/backend/gcs.go: the operations of gcsBackend, and in Gcs/Compose the
--                          multipart uploads with composeTree
--   Backend/Azure          internal/backend/azure.go: the operations of azureBackend
--   Backend/S3             internal/backend/s3.go: the operations of s3Backend
--   Backend/Joined         the content of an upload of several parts
--   Backend/Pool           internal/backend/factory.go: New and the Pool; Backend/Config has the
--                          configurations of the providers and normalizeGCSCredentials
--   Crypto                 internal/auth/crypto.go: Encrypt and Decrypt
--   S3/Handler             internal/api/s3/handler.go: requests, responses, what the handlers share;
--                          Handler/Managers has the registries that fill the interface Manager
--   S3/Objects             internal/api/s3/objects.go, buckets.go: the handlers of objects and buckets
--   S3/Listing             internal/api/s3/buckets.go: listObjectsV2
--   S3/Multipart           internal/api/s3/multipart.go
--   S3/Auth                internal/api/s3/auth.go: the parsing of credentials and authMiddleware
--   S3/Routes              internal/api/s3/handler.go: New, with its table of routes
--   S3/Signature           internal/api/s3/auth.go: the canonical request and the signature
--   Admin                  internal/api/admin/response.go: requests, responses and the writers
--   Admin/Access           internal/api/admin/handler.go: what the handlers share, verifyStoreOwnership
--   Admin/Middleware       internal/api/admin/handler.go: the bearer token and CORS
--   Admin/Tenants, Keys, Stores, Buckets, Browse
--                          internal/api/admin, the handlers of the file of that name
--   Admin/Routes           internal/api/admin/handler.go: New, with its table of routes
--   Admin/Managers         the registries behind the admin API
--   Rotate                 cmd/rotate-key/main.go: the probe, the transaction that encrypts again, and
--                          the flush of Redis
--   Tests                  runs of the above at concrete inputs
--
-- How they interact: a request is authenticated with a key of the registry, its bucket is resolved by
-- the registry's cache, which asks Postgres on a miss, and the key is put under the bucket's prefix
-- before the backend of the bucket's store serves it. A body in aws-chunked framing goes through the
-- chunked reader on its way to the backend. The admin API writes the registry through the same cache and
-- takes the backend of a store that it changed out of the pool that the S3 handlers use.
--
-- Correspondence: text is a list of bytes; a uuid is a number; a time is a number of seconds. State is
-- passed explicitly: an operation of the registry is a function from the state to a result and the
-- next state. The database and Redis have a schedule that says which statement or command fails, so that
-- theorems hold for every pattern of failures unless they say otherwise. Package uuid, the md5 digest,
-- the file system and the clients of packages storage and azblob and of the SDK are arguments. An int64 keeps its wrap-around (wrap64).
--
-- Fuel: format_nat runs on n + 1 steps, which is enough for the digits of n; drain counts the calls of
-- Read, and its theorem says that one more than the number of payload bytes is enough; composeTree runs
-- on one more than the number of its sources, which is enough as well. The flush of Redis takes its
-- number of rounds as an argument, since only Redis says when its cursor is back at the start. So does
-- browseSizeStream, which ends when the upstream's listing does.
--
-- A handler is a function from the world (the manager's state, the pool and the upstreams' state) to a
-- response and the next world; a response that ends it early is the error of its result. The digests
-- of package crypto, AES-GCM, the clock and the parsing of dates and of XML are arguments, so that the
-- theorems hold for all of them.
--
-- Not modelled: XML printing, the HTTP server, the reading of the environment, start-up and the health
-- check, since they are input and output. White space in the size line of a chunk is that of ASCII only.
pub mod Prelude
pub mod Strconv
pub mod Backend
pub mod Registry
pub mod Crypto
pub mod Rotate
pub mod S3
pub mod Admin
pub mod Tests
