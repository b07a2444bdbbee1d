-- ===== src/Lib.antt =====
-- A verification library of the services of this repository: jobs that a committee of staked
-- validators verifies, the verdicts on them, and what follows from a verdict that is disputed.
--
-- The parts and how they interact. A client submits a job (JobsService). The coordinator draws a
-- committee by stake (CoordinatorService, ValidatorsService, staking-tiers.ts) and either issues a
-- verdict at once or leaves the job to a commit-reveal round (CommitRevealService, commitment.ts),
-- which ends in a verdict (VerdictsService) or in a failed job, and in reputation records
-- (ReputationService, decay.ts). A dispute (DisputesService) can overturn a verdict, which raises
-- slashing proposals against its signers (SlashingService); one appeal per dispute
-- (DisputeAppealsService, appeal-quorum.ts) can reverse the resolution. Verdicts go to a chain by way
-- of the nonce manager and wait for finality there (common/blockchain).
-- Deferred jobs wait in a queue, ordered by fee and age, that the coordinator drains (JobQueueService,
-- priority.ts). The controllers pass requests on to these services, behind a CSRF check; tokens,
-- passwords and roles are services of their own (common/auth).
--
-- The files, with the sources that they model, paths from the repository's root:
--   Prelude        names of the libraries, tests, lists and texts that the modules share
--   Decimal        parseStake of src/modules/validators/staking-tiers.ts, parseFee of
--                  src/modules/jobs/priority.ts, and toString of a bigint
--   Store          the entities (src/modules/*/entities), the database's queries as an interface with
--                  its laws, the monad that the services run in, lemmas on rows
--   External       what the services call and the repository does not implement
--   Jobs           src/modules/jobs/jobs.service.ts
--   Validators     src/modules/validators/validators.service.ts, staking-tiers.ts
--   Verdicts       src/modules/verdicts/verdicts.service.ts
--   Reputation     src/modules/reputation/reputation.service.ts, decay.ts
--   CommitReveal   src/modules/commit-reveal/commit-reveal.service.ts, commitment.ts
--   Slashing       src/modules/slashing/slashing.service.ts
--   Disputes       src/modules/disputes/disputes.service.ts, dispute-appeals.service.ts,
--                  appeal-quorum.ts, dispute-evidence.service.ts, content-hash.ts
--   Coordinator    src/modules/coordinator/coordinator.service.ts, and selectWeighted of
--                  staking-tiers.ts
--   Chain          src/common/blockchain/nonce-manager.ts, retry.util.ts, confirmation-policy.ts,
--                  receipt-poller.ts
--   Priority       src/modules/jobs/priority.ts
--   JobQueue       src/modules/jobs/job-queue.service.ts
--   Policies       src/modules/policies/policies.service.ts
--   System         the controllers (src/modules/*/*.controller.ts) and runs of the whole node, in
--                  System.Runs: System.Quiet has the methods that leave the commitments alone,
--                  System.Changes what a request can do to them, System.Votes, System.Evolution and
--                  System.Refinement what follows, and System.Board the abstract view of a round
--   Auth           src/common/auth/refresh-token.service.ts, password.service.ts, roles.guard.ts, and
--                  src/common/middleware/csrf.middleware.ts
--   Filters        src/common/filters/database-error.filter.ts, http-exception.filter.ts
--   Sanitize       src/common/pipes/sanitize.pipe.ts
--   Deployments    src/config/deployments.config.ts
--   Tests          runs at concrete inputs
--
-- State and operations. An operation of a service has the method's name in snake case and is a function
-- from the database (Store, one list of rows to a table, oldest first) to a result: an answer and a
-- database, or an exception and the database at that time. There are no transactions in the code, so
-- what was written before an exception stays written. Each call of TypeORM is one of five queries
-- (Store.Queries): a client takes them as the parameter `q`, with the law record IsSql, which says what
-- each does to the rows of its table; an insertion that breaks the unique constraint of its table
-- is the exception `query_failed`, and it uses up an id. A method that changes an entity in
-- place and saves it is the saving of the changed row. Rows that are read by their time of creation,
-- ascending, are read in the order of insertion, and one request is one step: what runs between two queries of a
-- request is not modelled. A run of the node is a list of calls (System.Requests), each with its time, from
-- any database; a well-formed one is given by what the theorem assumes of it.
--
-- The authentication code and the queue keep their state in memory: the revoked tokens and the count of
-- random values are the record Tokens, and the flag of a running drain is an argument.
--
-- Parameters. Hashes, signatures, generated ids, the clock, doubles, the comparison of names and the
-- configuration are the record External, and what the authentication code calls is the record
-- Auth.Crypto; the ORDER BY of the queue is a field of External; the outcome of the transaction in createAndPublish is an
-- argument. `now` is an argument as in the code, in milliseconds.
-- Ids of rows are uuid columns. Jobs are looked up as the database does, in any case, since the column
-- `jobId` of a commitment is a varchar, which tells cases apart: a round is the commitments under one
-- spelling of the id of a job. The other tables are looked up under the database's own spelling, lower case
-- with dashes. A text that is no uuid finds no row, where Postgres refuses it with an error, and notations
-- without dashes or in braces are not modelled.
--
-- Bounds and fuel. Stakes, fees and amounts are bigints in the code and natural numbers here; numbers of
-- the configuration are whole, and the slashing fraction may be negative. `toString` has one round more
-- of fuel than the number, which is enough as each round divides by ten. The loops on the chain run on
-- the list of the node's answers and say so where the answers end.
--
-- Not modelled: message texts and logging, the validation of requests, the passport strategy and its
-- guard, observability, migrations, the abstract CRUD service, which has
-- no subclass, the timer of the queue, upsert of the reputation service, which only a test calls, and
-- the contracts.
pub mod Prelude
pub mod Decimal
pub mod Store
pub mod External
pub mod Priority
pub mod Jobs
pub mod Validators
pub mod Verdicts
pub mod Reputation
pub mod CommitReveal
pub mod Slashing
pub mod Disputes
pub mod Coordinator
pub mod JobQueue
pub mod Policies
pub mod Chain
pub mod Tests
pub mod System
pub mod Auth
pub mod Deployments
pub mod Filters
pub mod Sanitize
