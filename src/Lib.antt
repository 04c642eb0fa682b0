-- ===== src/Lib.antt =====
-- Verification of qa-sys, a question-and-answer service: an HTTP gateway (crates/gateway), the gRPC
-- service behind it over PostgreSQL, Redis and Pulsar (crates/qa-svc), its crypto (crates/core) and
-- its messages (crates/pb).
--
-- The parts and the code that they follow:
--   Prelude    lists, texts, machine integers (ℤ with i64 and u64 conversions) and the actions
--              `S → Result E A × S` in which all stateful code is written
--   Domain     crates/qa-svc/src/domain/entity: rows, sessions, vote messages, pages
--   World      the tables of migrations, the Redis store, the vote topic, and the outcomes of the
--              calls to those servers
--   Votes      crates/qa-svc/src/core/user_vote.rs: is_voted, is_batch_voted, vote_answer,
--              cancel_vote_answer, handler_answer_agree; Votes.Consumer has publish and consumer
--   Answers    crates/qa-svc/src/core/answer.rs and LatestAnswerResponse::try_new
--   Questions  crates/qa-svc/src/core/question.rs: rows, cursor pages, the read counts in Redis
--   Users      crates/qa-svc/src/core/user.rs: users and sessions
--   Aes        crates/core/src/aes.rs
--   Token      check_token of crates/qa-svc/src/application/app.rs, and what user_login encrypts
--   Pb         the messages of crates/pb/src/pb.rs
--   Service    the handlers of crates/qa-svc/src/application/app.rs, by subject
--   Gateway    crates/gateway: router.rs as Gateway.Router and Gateway.Auth, handler/qa.rs as
--              Gateway.Handlers and Gateway.Requests, handler/json_or_form.rs as Gateway.Content,
--              middleware/header.rs in Gateway.Auth; Gateway.Client is the interface of the service
--              that the handlers call, and `qa_service` the modelled service behind it
--   Rpc        the generated code of crates/pb/src/pb.rs: the trait QaService, the client (Rpc.Stub),
--              the server with its match on the path (Rpc.Server), and the gateway over them
--   Pools      crates/core/src/xredis.rs, xpgsql.rs and xpulsar.rs with the configurations of
--              crates/qa-svc/src/config that use them
--   Startup    crates/core/src/config.rs, the configurations of both programs, QaServiceImpl::new and
--              crates/qa-svc/src/main.rs up to where it serves
--   System     the gateway over the service, the consumer and the job, and their runs
--   Tests      runs on concrete inputs
--
-- How state is modelled. A SQL statement of the source is a function on the tables of `Db`, with the
-- constraints of migrations/20260725064428_db.sql that it can violate (varchar lengths, bigint
-- ranges, unique user names, the bigserial sequences). A varchar(n) refuses a longer text, unless all
-- behind its n-th character is spaces, which it cuts (`fits_varchar`, `in_varchar`). Every call to a
-- server first takes the next entry of `faults`: `none` lets it through and a text is the error of the
-- driver, so a theorem over all worlds covers every pattern of failing calls. A statement that writes
-- takes another entry after it has taken effect, for a reply that is lost, and so do a commit and
-- the commands SETEX, DEL and HINCRBY.
-- `transaction` gives the rows back on an error before the commit has taken effect, sequences excepted.
-- The consumer of the vote topic holds an exclusive subscription, so its
-- messages are handled one after the other, and what `tokio::select!` sees is a list of events.
--
-- Third-party code is a parameter: `Externals` (Redis, md5, serde_json, chrono, error texts) and
-- `Crypto` (block ciphers with padding, Base64, UTF-8), with `CryptoLaws` where a theorem needs what
-- those libraries document.
--
-- A run of the system is a sequence of events, each handled from its start to its end: an HTTP
-- request, a message of the vote topic, a round of the read-count job. The interleavings of two
-- handlers between their calls to the servers are not modelled.
--
-- In front of the service axum, serde and validator are the parameter `Framework` (which methods a
-- route takes, how payloads are read, addresses tested and errors written), and the status that the
-- transport gives for a panic is a parameter of `qa_service`. The drivers that open pools and clients
-- are parameters of Pools, the file system and serde_yaml of Startup; the assertions of r2d2 on the
-- sizes are left to them.
--
-- Between the gateway and the service stand the generated client and server. `Tonic` is their library:
-- what it documents of one unary call (an error before the server has seen it, the answer, or an error
-- after the server has handled it) is `TonicLaws`. System has the service behind a connection that
-- loses nothing; Rpc.Remote is about any connection.
--
-- Fuel. `scan_loop` follows HSCAN's cursor until it is 0 again, which depends on Redis, so it has
-- fuel; it answers `none` if the fuel ends first. All other loops are structural.
--
-- Not modelled: metrics, logs, shutdown signals, the main function of the gateway and what main of qa-svc
-- does once it serves, and the interceptors of the generated gRPC client and server.
pub mod Pools
pub mod Rpc
pub mod Prelude
pub mod Domain
pub mod World
pub mod Votes
pub mod Answers
pub mod Questions
pub mod Users
pub mod Aes
pub mod Token
pub mod Pb
pub mod Service
pub mod Tests
pub mod Gateway
pub mod Startup
pub mod System
