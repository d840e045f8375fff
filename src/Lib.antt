-- ===== src/Lib.antt =====
-- The backend of a game launcher: how accounts keep their sessions, how a publisher's build reaches
-- the server, and how an install is taken from one build to another.
--
-- The program answers each request in three layers: a controller reads it, a service decides, and a
-- repository or a store carries the decision out. This library models the services for accounts,
-- their administration, the catalog, uploads, downloads and retention with what they stand on, and the
-- rules of the domain that they share.
--
--   Base          what the parts share: bytes, signed integers, sorting, tables as lists of rows, and
--                 the errors and results of src/common/Error.h and src/common/Result.h.
--   Common        src/common. RateLimiter: RateLimiter.cpp, over the arithmetic of doubles, a
--                 parameter.
--                 ClientAddress: resolveClientAddress. EnvInterpolation: interpolateEnv, over an
--                 environment that is a parameter.
--   Domain        src/domain. Actor: permissions. Validation: trim, normalizeEmail, validateEmail,
--                 validatePassword, validateDisplayName, isUuid. CanonicalJson: the string escaper.
--                 Manifest: validateRelativePath, validateManifest, canonicalManifestDocument. Delta:
--                 computeDelta and fullDownload; Delta/Apply is the client that carries out a plan.
--                 Catalog: slugs, release dates, the words of the enumerations, and who may publish or
--                 read a build. Semver: parseSemver.
--   Database      src/repositories/postgres. Db holds the tables that the services share. Users, Tokens,
--                 Blobs, Sessions, Builds, Games, Downloads, Accounts and Admin have a function for each
--                 statement, with its WHERE clause as a Boolean test of a row. A statement is one
--                 step. findOwnership is the join of builds, versions and games; Games/Owned has the
--                 foreign keys that it follows.
--   Storage       src/storage/BlobStore.cpp and sha256File of src/common/Hash.cpp, on a disk of two
--                 directories, the staging and the store. DownloadUrlSigner.cpp beside it signs the
--                 addresses of blobs.
--   Auth          src/services/AuthService.cpp. Session: login, refresh, logout, issueSession. Account:
--                 registerUser, resendVerification, verifyEmail, requestPasswordReset, resetPassword,
--                 changePassword. Families/Reach has the histories of calls, Login what a login
--                 gives.
--   Administration  src/services/AdminUserService.cpp. Erasure: src/services/AccountService.cpp. Reach
--                 has the histories of calls.
--   Catalog       src/services/CatalogService.cpp. Games: createGame, updateGame, deleteGame and the
--                 library. Versions: createVersion, updateVersion, deleteVersion, createBuild,
--                 deleteBuild. History has the histories of calls.
--   Upload        src/services/UploadService.cpp. Transfer: writableBuild, missingBlobs, beginUpload,
--                 sessionStatus. Chunks: uploadChunk, completeSession, abortUpload,
--                 sweepExpiredSessions. Publishing: finalizeBuild, manifest. Reach has the histories of
--                 these calls, which nothing else interrupts.
--   Download      src/services/DownloadService.cpp. Plan: downloadableBuild, signAll, plan. Verify:
--                 verifyInstall.
--   Retention     src/services/RetentionService.cpp: collectUnreferencedBlobs.
--   Tests         the theorems at concrete inputs.
--
-- How the model stands to the code. A text is the list of its bytes. An int64_t is an integer without
-- bounds: the sums of the code are of at most 200000 sizes of stored blobs, each within maxBlobBytes, or
-- of a quota's use and one such size, far from 2^63. A request is one
-- step from a state to the next, so requests are taken one after another; the statements inside a
-- request are in the code's order. The time of a request is one number of seconds, and for the rate
-- limiter one of ticks of its clock. What is drawn at
-- random, and what the database draws for a new row, is an argument. An identifier that a request names
-- is in the form that the database prints, so that uuids are equal where their texts are. The unique
-- keys of the tables are kept by the statements that insert rows, as the code's ON CONFLICT clauses do.
-- Each call of the file system succeeds or fails as an argument of the operation says, and a failing
-- write leaves any part of its bytes behind. The argument list of an error's detail keeps the pieces
-- that the code concatenates. Log lines are left out.
--
-- Parameters, for code that is not in the repository: the digests of OpenSSL (sha256_hex, md5), the
-- password hasher, the issuer of access tokens and the mail transport. No law is
-- assumed of them, other than the hypotheses that a theorem names. The comparison with the threshold of
-- a full download, which the code makes on floating-point numbers, is a parameter too, and so is the
-- arithmetic of the rate limiter, of which a theorem asks that integers up to 2^53 are exact. Where a digest
-- hides a token, a theorem asks that two digests differ.
--
-- Bounds. Every loop runs over a list and ends with it. std::to_string divides with fuel: a number has at
-- most as many digits as its value, so the value is enough.
--
-- Not modelled: the reads of the catalog that list games (explore, publishedByActor, gameDetail and
-- library) and the lists of accounts and audit rows, which are pages that the database sorts and, for
-- explore and the lists, matches by ILIKE; the media, patch note, crash report, launcher release and
-- analytics services; a uuid in another form than the one that the database prints; the controllers,
-- filters, configuration and mail templates, which are input and output around the services; and the
-- migrations.
pub mod Base
pub mod Common
pub mod Domain
pub mod Database
pub mod Storage
pub mod Auth
pub mod Administration
pub mod Catalog
pub mod Upload
pub mod Download
pub mod Retention
pub mod Tests
