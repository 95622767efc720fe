-- ===== src/Lib.antt =====
-- The task API: its domain packages, its middleware, its handlers and its configuration, as models
-- that can be run, with the theorems that make them correct.
--
-- The program. An HTTP API over domains that do not import each other. Each domain package has an
-- entity, its sentinel errors, a Repository interface with an in-memory and a PostgreSQL
-- implementation, decorators around a repository, a Service with the rules, and a Handler. A
-- request passes the chain of internal/middleware and, on most routes, RequireAuth
-- (internal/user/middleware.go), which turns a bearer token or a cookie into a user; the handler
-- calls the service with that user, and the service reads and writes the repository. A circuit
-- breaker that the domains share, and for tasks a cache of the listings, stand between the service
-- and the database. cmd/api puts the packages together: it hands the user handler a cascade that
-- deletes the tasks and attachments of an account, and internal/config gives it its settings.
--
-- The files. Common holds what the packages use of Go: Common/Failure has error values as errors.Is
-- and errors.As see them (a sentinel, a wrap, the breaker's rejection with its delay, an error from
-- outside), results, calls on a state, and contexts; Common/Dict is a map with string keys;
-- Common/Sort is sort.Slice; Common/Text has TrimSpace, ToLower and the order of strings,
-- Common/Strings more of the strings package; Common/Decimal is strconv.Itoa and Atoi; Common/Int
-- is int, Common/Log the levels of slog; Common/Uuid is newID, isValidID and the hex encoding;
-- Common/Breaker is the wrapper that the postgres_breaker.go files share.
--
-- Config is internal/config: Config/Env the environment, Config/Dotenv dotenv.go, Config/Settings
-- the fields of config.go, Config/Parse its helpers and Config/Load its Load; Config/Ensures,
-- Bounds and Within are about what Load ensures, Config/Dotenv/First and Quoted about the .env
-- file.
--
-- Web is HTTP as the program uses it: a handler gives the list of its calls of the ResponseWriter
-- and the logger, and the client's answer is computed from that list as net/http does for the
-- statuses from 200 on, which are all that the program sends. Web/Json has the answers that the
-- domain handlers share. Web/Middleware is internal/middleware and the chain that cmd/api/main.go
-- builds; Ids, AccessLog, Answers and Origins are about it.
--
-- Task/Entity is internal/task/task.go and errors.go; Task/Repository the interface of
-- repository.go, and Task/Contract what its documentation promises, over the rows by id.
-- Task/Memory is memory_repository.go; Task/Memory/Refines is about the contract, with Windows,
-- Listings, Grouping and Reliable about its pages, its rows, its counts and its outages.
-- Task/Service is service.go over any repository, with its theorems below it: Writes and Updates
-- (what a call may write), Isolation (other users' rows), Concurrency (versions), Graph (the
-- transition table), Filters, Listing. Task/Breaker is postgres_breaker.go, with Calls and
-- Transparent about it, Task/Cached is cached_repository.go. Task/Handler is handler.go and its
-- child Export csv_export.go; Routes is RegisterRoutes, and Etags, Conditional, Paging, Faults,
-- Down, Unavailable and Rejected are about the handlers.
--
-- User/Entity and User/Repository are internal/user/user.go, errors.go and repository.go.
-- User/Memory is memory_repository.go; Sessions, Eviction and Capacity below it are about
-- CreateSession. User/TokenCache is token_cache.go. User/Backoff is login_backoff.go, with the
-- curve of the delay and its history. User/WeakPasswords and User/Password are password_strength.go
-- and the password rules of service.go. User/Process is the state, the libraries and the pure
-- helpers of service.go, and User/Service its methods over any repository; Calm, Steps and Changes
-- below it say how a call may change the sessions and the token cache, Revocation and Credentials
-- what stays revoked, Login is about registering and logging in. User/Breaker is
-- postgres_breaker.go. User/Auth is the decision of middleware.go, and User/Auth/Protect the
-- middleware around a handler; Outage and Passing are about it. User/Answers and User/Handler are
-- handler.go, with Routes its RegisterRoutes; Closing is about deleting an account, Entering about
-- logging in, Revoked about tokens that are revoked.
--
-- Attachment/Entity and Attachment/Repository are attachment.go, errors.go and the interfaces of
-- repository.go and storage.go in internal/attachment. Attachment/Memory is memory_repository.go,
-- with Ownership below it. Of service.go, Attachment/Collector is CollectOrphans, with Safety below
-- it, Attachment/Upload is Upload, with Rollback below it, and Attachment/Service the other
-- methods, with Files below it. Attachment/Storage is the store of blobs in a directory
-- (storage.go), with Leftovers and Promise below it, Attachment/Breakers is postgres_breaker.go and
-- s3_breaker.go, and Attachment/Handler handler.go, with Hidden below it. There the ownership of
-- tasks is a function of the ids, and sizes are natural numbers.
--
-- Link/Service and Link/Handler are internal/link, with Link/Ownership about them. Api/Cascade is
-- deleteAccountCascade of cmd/api/main.go, with Tasks and Empties below it.
--
-- A function keeps the name of the Go function, in snake case; a handler whose name a service has
-- too begins with handle. The modules Tests hold runs, and the theorems at concrete inputs.
--
-- The correspondence. A method is a function from the state it works on to an answer and a state:
-- the lock of an in-memory repository makes it one step, and interleavings are lists of such steps.
-- What a method writes before it fails stays written. A call takes as arguments what it reads from
-- outside: the context (live, or the error with which it has ended), the readings of the clock in
-- their order, the bytes of the random source, the body that was decoded. A map is an association
-- list, and a range over it takes the entries in the list's order. sort.Slice is an insertion sort;
-- where its comparator leaves ties, it gives one of the orders that Go may give. Times and
-- durations are natural numbers of nanoseconds; a difference of times that Go makes negative is 0
-- here, which passes the same tests, and where the sign is used it is an integer. The shift of the
-- login delay and the TTL of a link are on 64 bits, as in Go. Strings are lists of code points, so
-- invalid UTF-8 is outside the models; the length of a password is in the bytes of UTF-8. Statuses
-- and priorities are enumerations that raw strings are parsed into. Loops are recursion on the list
-- that they range over, so there is no fuel, but for Itoa, which takes one more round than the
-- number that it prints: each round divides by ten.
--
-- Parameters. The libraries outside the repository are arguments, and theorems that rely on their
-- documented behaviour name it as a hypothesis: the rules of moat's sanitize and validate, its
-- secureheaders, csrf, realip and pathguard, bcrypt, SHA-256, the breaker of bastion, the cache of
-- cistern, cairn's shortener. So are what the program asks of Go's library and its models do not
-- spell out: the JSON decoder, the grammars of durations, addresses, networks, URLs and
-- floating-point numbers, the reading of cookies, the joining of CSV fields and how its writer
-- splits a row of more than 4096 bytes (a row is one write here), ServeContent, DetectContentType,
-- the file system, and Unicode's table of lower-case letters.
--
-- Not modelled: the PostgreSQL repositories (SQL and the driver decide them) and the classification
-- of their errors, the time that a comparison of passwords takes (the dummy one for an unknown
-- address has no other effect), the S3 store (calls of the minio client), the encoding of the cache
-- (gob), the texts of errors, the fields of log lines but for the access log and the audit events,
-- the migrations, and the commands apart from the chain and the cascade (wiring, signals, metrics,
-- a proxy, sample data).
pub mod Common
pub mod Api
pub mod Attachment
pub mod Config
pub mod Link
pub mod Task
pub mod User
pub mod Web
