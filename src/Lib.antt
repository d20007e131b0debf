-- ===== src/Lib.antt =====
-- NetMantle: network configuration management with an approval workflow, remote pollers and several
-- tenants, a Go server over one SQLite database (README.md, docs).
--
-- The parts that are modelled, and where:
--   ChangeReq   internal/changereq/changereq.go: requests for a change and their state machine. Machine
--               has the statuses and the table of transitions, Rows the two tables, Service one function
--               for each method (create for Create, transition_from for transitionFrom, and so on).
--               Evolve has the steps of all callers as a relation on the tables, Lifecycle, Races, Log,
--               Calls, Torn, Isolation and RoundTrip the proofs.
--   Poller      internal/poller/jobs.go: the queue from which remote pollers claim jobs. Rows and Jobs
--               have the tables and the methods of JobService, History the statements as a relation,
--               Calls, Claims, Pick, Effects and Reports the proofs. Registry has
--               internal/poller/poller.go, the registry of the pollers themselves, Tokens its proof.
--   Scheduler   internal/scheduler/scheduler.go: the lease of the replica that runs the jobs (Lease), and
--               what one tick starts (Runner).
--   Diff        internal/diff/diff.go: the line diff of two configurations (Engine), the table against
--               the recursion that it tabulates (Table), the diff as a patch (Minimal).
--   ApiTokens   internal/apitokens/apitokens.go: bearer tokens. Format has the texts of tokens and scopes,
--               Service the methods, Access the proofs.
--   Compliance  internal/compliance/compliance.go: rules over configurations. Rules has the rules and the
--               verdict on a text, Service the methods with the findings, Evaluate and Devices the proofs.
--   Tenants     internal/tenants/tenants.go: tenants and their device quotas (Service), proofs in Quota.
--   Auth        internal/auth/auth.go and totp.go: accounts, sessions and second factors. Users has the
--               tables, roles and passwords, Sessions the signed cookies, Totp the codes, Mfa secrets and
--               challenges, Login the handlers of internal/api/server.go that use them; the proofs are
--               in Bootstrap, Cookies, Codes, Challenges and Entry.
--   Fleet       internal/devices/repo.go (Devices), internal/crypto/sealer.go (Sealer),
--               internal/credentials/repo.go (Credentials) and internal/backup/service.go (Routes, Backup,
--               History) over the tables that they share (Tables). Envelopes and Secrets have the proofs
--               on what is sealed, Outcomes and Runs on the runs of backups, Versions on what can be read
--               again.
--   Changes     internal/changes/changes.go: the feed of changes of configurations (Service), with the
--               diff of Diff and the tables of Fleet; its proofs are in Previous,
--               Steps and Feed.
--   Rpc         internal/server/grpc.go over internal/poller/wire.go: the handlers that remote pollers
--               call. Cache has the nonces and sessions in memory, Service the handlers, which call
--               Poller; the proofs are in Replay and Sessions.
--   Audit       internal/audit/audit.go: the audit log and its filtered pages (Service), the proofs in
--               Filters and Paging.
--   Bcrypt      the interface of the password hashes that ApiTokens, Poller and Auth take as a parameter.
--   Db          the database and the clock as all of these use them; Prelude the shared names, Go's
--               strings helpers and int64 identifiers.
-- A backup reads a device and opens its credential; the feed of changes reads the versions of backups
-- and diffs them; the handlers of Rpc call the registry and the queue of Poller; the handlers of login
-- call the methods of Auth. The other packages do not call one another and meet in the database.
--
-- Db.World has the tables of one package, a schedule of faults and the readings of the clock. A
-- statement is a function on the tables; each call first asks the schedule whether the driver refuses
-- it, and a refused statement changes nothing. Every theorem that does not say otherwise holds for
-- every schedule. A method is a block of statements in the order of the code; SQLite has one
-- connection (storage.go), so a statement is atomic and callers interleave between statements: a step
-- of a history takes as arguments the values that its caller read earlier. A history has the steps of
-- one package: rows that go with a row deleted elsewhere, through ON DELETE, are not part of it. A
-- transaction gives back the tables that it began on unless its commit is taken. LastInsertId answers
-- the last key that the connection gave. The UNIQUE keys of devices and credentials and their ON DELETE
-- are written out; a statement that a foreign key refuses is one that the schedule refuses. A Go map
-- in memory is a function from its keys.
--
-- Timestamps are columns of RFC3339 text in seconds: a row holds the number of the second, a value of the
-- program nanoseconds since 1970, and format_time and parse_time pass between them. Identifiers are
-- integers that are only compared and counted up, so no width is written. ORDER BY id reads the rows in
-- their order, since keys only grow; ORDER BY created_at takes equal times in the order of the rows, but
-- the one candidate of a claim is the last of the equal ones, as the index of poller_jobs gives it. An
-- enumeration that the CHECK of a column closes is a data type. No definition needs fuel: the loops are
-- recursions on lists.
--
-- Parameters: the regular expressions of the ignore rules (a test of a line), bcrypt (a record with the
-- law that a hash matches its password), the parsers of rule patterns; the HMAC of a cookie (`sign`) and
-- HMAC-SHA1, base32 and ToUpper of the codes (Hotp); scrypt, the AEAD and base64 of the sealer (Cipher);
-- the drivers, sessions, git store and hooks of a backup (Plant) and what is read from that store
-- (Reader); the hash of a nonce; the operator LIKE of SQLite. What crypto/rand draws is an argument.
--
-- Not modelled: the HTTP handlers but login (internal/api), the transports and drivers, the packages
-- that call git, SMTP or devices, configuration and metrics, which are input and output; and, of the
-- core: automation, notify, search, discovery, netops and probes. Of the modelled files: the
-- goroutines and the ticker of the scheduler, the listener, TLS and StreamJobs of the gRPC server, the
-- gate on concurrent backups and the deadlines, the generators of random keys, the texts of errors.
pub mod ApiTokens
pub mod Audit
pub mod Auth
pub mod Bcrypt
pub mod ChangeReq
pub mod Changes
pub mod Compliance
pub mod Db
pub mod Diff
pub mod Fleet
pub mod Poller
mod Prelude
pub mod Rpc
pub mod Scheduler
pub mod Tenants
