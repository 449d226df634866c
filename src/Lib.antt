-- ===== src/Lib.antt =====
-- The foosball API: a NestJS backend that records foosball matches, lets the players confirm their
-- results, and ranks users and pairs. Its parts are four applications (apps/api, apps/auth,
-- apps/worker, apps/producer) over shared libraries (libs/...). The API's match services write
-- MySQL through TypeORM and publish events to BullMQ queues; the worker consumes the queues, writes
-- audit rows and clears cached leaderboards in Redis; the auth application issues the tokens that
-- the API's guards check.
--
-- How the code is modelled. An async method is an `Action` (Action): a function of a state that
-- returns or throws, and gives the state that it leaves, so what was written before a throw stays
-- written unless a transaction takes it back. Exceptions are values (Http) that carry the HTTP
-- status and the body's `code`; message texts, `details` and logging are left out. Times are
-- natural numbers of milliseconds, given to each call once; numbers of the requests are naturals,
-- and a score of UpdateMatchDto is absent, null or a number.
--
-- What is not in the repository is a parameter. The database and the queues are the record `Orm`
-- (Matches/Orm): each write may fail, a commit may fail, and the queue may refuse a job; `OrmLaws`
-- states the documented effect of a write that succeeds on the answers of the program's queries.
-- Redis is the record `Redis` with `RedisLaws` (Redis), the token table `TokenStore` with
-- `TokenLaws` (Auth/RefreshToken), the users' table `UserStore` with `UserLaws` (Users), Azure AD's
-- client the record `Azure` (Auth/SignIn), the ORDER BY of the leaderboards a function with
-- `RowOrderLaws` (Leaderboard/Queries/Ranking); JSON, base64, the JWT library, BullMQ's retry of a
-- job, the environment (ConfigService and process.env) and class-validator's length of a text
-- (at least half its characters, since a variation selector after a character does not count) are
-- function arguments. The tests fill each interface that has laws with one in memory and
-- prove them.
--
-- Which file models what:
--   Events                 libs/events: queue names, envelope, payloads
--   Events/DlqInspector    libs/events/src/dlq-inspector.service.ts, and the retry route of
--                          apps/api/src/admin/admin.controller.ts
--   Matches/Entity, Dto    libs/matches/src/entities and dto, with the ranges that the decorators
--                          check
--   Matches/World          repositories/match.repository.ts, transactions and publication
--   Matches/MatchService   services/match.service.ts: create, findById, update, delete, addPlayers,
--                          submitResult
--   Matches/Confirmation   services/confirmation.service.ts: getStatus, confirm, cancel. `confirm`
--                          is `pre_check`, then `locked_vote` (the transaction under the row lock),
--                          then `publish_confirmed`; `cancel` is `cancel_check`, then
--                          `cancel_writes`. Race composes these parts in any order.
--   Matches/AdminOverride  services/admin-override.service.ts: overrideResult, deleteMatch,
--                          getAuditLog
--   Matches/Requests       the routes of apps/api that change a match, run one after the other
--   Matches/Api            the same routes behind the guards of apps/api/src/app.module.ts
--   Matches/Api/Replies    what the API answers, with the filter of
--                          apps/api/src/filters/http-exception.filter.ts
--   Matches/Api/Changes    the routes that change a match, with their replies
--   Matches/Api/Reads      the routes that only read matches, with their replies
--   Matches/Pagination     `list` of match.service.ts and `findPaginated` of match.repository.ts,
--                          over the table in the order of its query; base64 and JSON are arguments.
--                          Walk follows the cursors as a client does
--   Matches/Invariant      what holds of the tables between requests
--   Matches/Lifecycle      the state machine of a match, a specification that docs/API.md draws and
--                          that the services refine
--   Leaderboard            libs/leaderboard/src/leaderboard.service.ts; the repository's queries
--                          are arguments
--   Leaderboard/Queries    leaderboard.repository.ts: the SQL as joins, filters and groups of lists.
--                          Wins says independently what a win is
--   Leaderboard/Routes     apps/api/src/leaderboard and the query's dto
--   Worker                 apps/worker/src/processors, and the audit processor's pass over jobs
--   Flow                   the parts together: the published jobs, the worker's processor of the
--                          leaderboards' queue over them, and the boards over the services' tables
--   Producer               apps/producer: the event that it publishes every hour
--   Auth                   libs/auth/src: refresh tokens, token pairs, refresh, logout, the guards
--   Auth/SignIn            libs/auth/src/auth.service.ts and azure-ad.service.ts: the sign-in, over
--                          users and tokens together
--   Auth/App               apps/auth/src: auth.controller.ts, connect.controller.ts,
--                          users.controller.ts and http-exception.filter.ts
--   Users                  libs/users/src: upsertFromAzure, findById, updateDisplayName with the
--                          trimming and the length in UTF-16 units that it checks
--   Matches/Trail          the audit log over histories of requests
--   Schema                 migrations/*.ts: the tables, their columns and what a column admits, and
--                          the rows that the services write into them
--   Config                 the factories of apps/*/src/app.module.ts, auth.module.ts,
--                          azure-ad.service.ts and leaderboard.module.ts, the prefix of
--                          leaderboard-invalidate.processor.ts, the data source of libs/database,
--                          and what queue-config.ts and main.ts read
--   Prelude, Http, Action  shared names, lists and numbers; exceptions; the monad
--
-- No definition of the code uses fuel: every loop of the modelled code is a recursion on a list or a
-- text. The client of Matches/Pagination/Walk asks for a bounded number of pages, and the theorem
-- there says how many are enough. A request of Matches/Requests runs to its end before the next;
-- overlapping requests are modelled for the confirmations of one match (Matches/Confirmation/Race)
-- and for a cancellation that a confirmation overtakes (Matches/Confirmation/CancelRace).
--
-- Not modelled: the messages of errors, the deduplication of the hourly job, throttling, and what the
-- frameworks do at the start of a process. The routes check numbers and array lengths; the lengths
-- of the texts `position` and `reason` are modelled beside them (Matches/Dto). The
-- start of a leaderboard's period is computed without a change of the clock, and before 1970 times
-- stop at 0. A read that fails and a rollback that fails are not modelled either: a query answers.
pub mod Prelude
pub mod Http
pub mod Config
pub mod Schema
pub mod Events
pub mod Action
pub mod Matches
pub mod Redis
pub mod Leaderboard
pub mod Worker
pub mod Auth
pub mod Users
pub mod Producer
pub mod Flow
