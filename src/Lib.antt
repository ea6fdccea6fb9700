-- ===== src/Lib.antt =====
-- The backup library of Prose Pod Server (api/crates/backup) and what it promises: that a backup
-- can be named, stored, listed, checked, restored to its place and deleted; and of the Pod API
-- (api/src), the state machine of the application, what it says to Prosody's shell, and the media
-- types it detects.
--
-- A backup is an archive in an object store, beside the digests and signatures of a second store;
-- the name of the object is its printed identifier. A restoration downloads the object through a
-- cache of files, checks its signature or its digest, and unpacks it where the blueprint says, its
-- paths migrated from the version of the backup to the current one.
--
-- The parts and their files:
-- - `Backup.Id`: `BackupId`, its `Display` and its `parse` (`mod backup_id` of
--   api/crates/backup/src/lib.rs), with decimal numbers (`Id/Decimal`), the encoding of components
--   (`Id/Url`) and the round trip (`Id/RoundTrip`).
-- - `Backup.Store`: the types and the size limit that all stores share
--   (api/crates/backup/src/stores/mod.rs). `Store/Fs` is `FsStore` (stores/fs.rs), a directory as
--   the list of its entries, with a Boolean for each system call that can fail. `Store/S3` is
--   `S3Store` (stores/s3.rs), with the service's answers as a parameter; `Store/S3/Stream` has the
--   multipart writer and the reader.
-- - `Backup.Cache`: the bookkeeping of `CachedStore` (stores/cache.rs), where a `VecDeque` is a
--   list, and in `Cache/Reader` its `cached_reader` over the files of the cache directory.
-- - `Backup.Verify`: the integrity check (api/crates/backup/src/verification.rs), `Signatures` for
--   the verdict on an OpenPGP message and `Download` for the blocks of
--   `download_backup_and_check_integrity`. The report that the code fills by a `&mut` is returned.
-- - `Backup.Listing`: `list_backups` (`mod read` of lib.rs), over what the two stores list; over two
--   directories (`Listing/Signed`), and over a check store that lists by prefix (`Listing/Prefix`).
-- - `Backup.Service`: `delete_backup` and `get_details` (lib.rs), which put the
--   stores, the cache and the integrity check together.
-- - `Backup.Decryption`: the lookup of keys and `decrypt` (decryption.rs and pgp.rs).
-- - `Backup.Amount`: `BytesAmount` (util/measurements.rs).
-- - `Backup.Tar`: the size of an archive before it is made (util/tar.rs); `Tar/Walk` and `Tar/Bounds`
--   have the theorems.
-- - `Backup.Restore`: `filter_migrations`, `flatten` and `map_path` (restoration.rs).
-- - `Api.Color`: the colors of a workspace (api/src/models/color.rs).
-- - `Api.Errors`: the errors of the API that its states carry (api/src/errors.rs and the modules that
--   declare them).
-- - `Api.State`: the substates of the back end and the front end and `AppState` (api/src/state.rs).
--   `State/Traits` has the methods of the states, `State/Transitions` the conversions between them
--   and the functions that swap the shared state. `AppState` has its frontend and its backend as
--   parameters, as in the code; `Routes` has a constructor for each pair that has a router.
-- - `Api.Lifecycle`: what moves the states: reload, restart and the end of bootstrapping
--   (api/src/router/lifecycle and api/src/startup.rs), the factory reset (`Lifecycle/Reset`), the
--   handlers and their answers (`Lifecycle/Serve`), and the routes, the start and a sequence of
--   requests (`Lifecycle/Server`). `Diagram` has the transitions that the state diagram of api/docs
--   and the comments of the code draw; `Reached`, `Coherent`, `Replies`, `Reachable`, `Invariant`,
--   `Recovery`, `Failures`, `Reload` and `Domain` are about the states that are reached.
-- - `Api.Media`: the detection of a media type by its first bytes and the dimensions of an image
--   (api/crates/media-utils): `Types` and `Jpeg` have the theorems, `Walk` that every walk over the
--   segments of a JPEG ends.
-- - `Api.Shell`: the client of Prosody's shell (api/crates/prosodyctl/src/prosody_shell.rs): the
--   handle that is kept between commands, the reading of an answer, the commands
--   (`Shell/Commands`), the readings of tables (`Shell/Readings`) and the operations
--   (`Shell/Operations`).
-- - `Api.Secrets`: the passwords and tokens of service accounts and their cache
--   (api/src/secrets_service.rs, secrets_store.rs, util/cache.rs): `Passwords` and `Tokens` have the
--   theorems.
-- - `Common`: tests, results, lists, bytes and their order, splitting, and signed integers.
--
-- Conventions. Text is its bytes, and a Rust string holds no others than those of UTF-8. Numbers
-- are naturals: where the code adds `u64` the sum is reduced modulo 2^64, and saturating
-- subtraction is the one that stops at zero. A result is `ok`, `err` or `panicked`, the last a
-- failed `assert!`, `unwrap` or `expect`; the texts of errors are left out, their cases are kept.
-- A release build is modelled: `debug_assert!` and `debug_panic_or_log_error!` do nothing. Tasks do
-- not interleave within an operation: the cache is locked while it changes. The API's requests are
-- served one after another, each with an environment that holds the answers it gets from outside;
-- an object shared between states (a configuration, a table of secrets) is named by a number. White
-- space in the shell's answers is that of ASCII.
--
-- Bounds and fuel. Twenty digits print every magnitude of 64 bits. The loop over the pages of a
-- bucket runs on fuel, and as much as there are pages is enough. The walk over a JPEG's segments runs
-- on as much fuel as the image has bytes, and this is enough as each turn moves on. The walk of
-- `Backup.Tar` runs on one unit for each path. Every other loop follows a list.
--
-- Parameters. The crates `urlencoding` and `time`, the hash functions, the OpenPGP library (what it
-- makes of a signature and a backup), the answers of the object store service, the queue of
-- expirations of `tokio_util`, logging in and revoking a token, and the outcomes of
-- system calls. Their laws are named where a theorem needs them.
--
-- Not modelled: the streams of an archive being created (tar, zstd and OpenPGP are libraries), the
-- unpacking loop of a restoration and its revert guard, configuration files, the steps of a start
-- within bootstrapping (only their outcome), the HTTP clients of Prosody, the process of the shell
-- (only what is written to it and read from it), the other routes of the HTTP API, analytics, the
-- purging of expired tokens, and the locks.
pub mod Common
pub mod Backup
pub mod Api
