-- ===== src/Lib.antt =====
-- Willy, a self-hosted deployment panel: the backend's lifecycle of a deployment and the pure parts
-- of the frontend.
--
-- The parts and the files that model them:
--
-- - Deploy (backend/src/build/*.service.ts): a deploy, from its release row to the swap of containers.
--   Deploy.antt has the state (the tables, the map `taskByRelease`, Docker's containers and images,
--   the cron registry and a clock) and the type of a computation that reads and writes it and may
--   throw; what was written before a throw stays written. Deploy/Releases is ReleasesService, Swap is
--   ContainerOps with the calls of DockerContainerService, Images is ImageBuilder, Runner is
--   ReleaseRunner with CronService's `sync`, ComposeRelease its blue-green release, and Orchestrator is
--   BuildOrchestrator. Hoare has the triples in which the proofs are written, Frames what each step
--   leaves alone, and Safety, Activation, NoLoss, Outcome, Single, Tracking, BlueGreen, Cutover,
--   NonDestructive and Requests the properties. Git, Docker, the environment-variable
--   store and the probes' observations are the record `Outside`, and `docker compose up` and the split
--   of a stack the record `Stack`, whose answers depend on the clock.
--   Statements on the database do not fail in the model, and nothing else writes to the state while a
--   computation runs. Ids are numbers, and the message of an exception is its class.
-- - Queue (backend/src/build/build-queue.ts): the queue that runs the orchestrator's work.
-- - Health (backend/src/build/health-prober.service.ts): the gates that Deploy's swap waits at. Their
--   loops are recursion on fuel, one round for each delay of two seconds in the time allowed and one
--   more; the theorems on the gates show that this is enough.
-- - Domains (backend/src/deployments/domains.service.ts): the domains of a deployment, their primary,
--   and the routes that Deploy's launch requires. A `limit 1` without an order is a parameter.
-- - Ports (backend/src/deployments/port-bindings.service.ts, backend/src/config/port-range.ts): the
--   bound host ports and the range they are taken from.
-- - Tasks (backend/src/tasks/tasks.service.ts): the activity tasks that Deploy's releases drive.
-- - Cron (frontend/src/cron.ts): the builder of cron expressions and its inverse.
-- - Compose (backend/src/build/strategies/compose.service.ts): a compose file is sanitized, its services
--   are split into the pinned and the eligible ones, and the base and the release file are built from
--   them. Values has the parsed YAML; Sanitize, Classify and Split are `sanitizeComposeYaml`,
--   `classifyComposeServices` and `splitComposeConfig`; Pinning says in its own words what pins a service.
--   The YAML library is a parameter, and two names of a document do not share one object.
-- - Accounts (backend/src/users/users.service.ts, backend/src/auth): the accounts, the login in one or two
--   steps, the tokens and the lockout. Accounts.antt is UsersService, Lockout the service of the failed
--   codes with its Redis commands, and Sessions AuthService, TwoFactorService and JwtStrategy. What argon2,
--   the token library, the codes and the encryption answer is the record `Services`, and any Redis
--   command may fail. The clock stands still while a request runs.
-- - EnvVars (backend/src/env-vars): the environment variables of a deployment and their injection.
-- - Traefik (backend/src/traefik/label-generator.service.ts): the routes that share a router, and its
--   labels.
-- - Backups (backend/src/backups): Backups.antt is what BackupsService does at once, Jobs the work that its
--   queue runs, and Schedules the schedules with the registry of their jobs. Docker, the artifacts'
--   directory and the offsite drivers are the record `Outside`, and the queue is that of Queue.
-- - Webhooks (backend/src/webhooks/webhooks.service.ts): a pushed event, with Redis as the list of the
--   deliveries that it remembers.
-- - Files (backend/src/files/file-path.ts, file-stat.ts, frontend/src/components/files/paths.ts): the
--   paths of the file manager and the names of copies. The search for a free name is recursion on fuel,
--   one round more than there are names, which its theorem shows to be enough.
-- - Zones (backend/src/domains/domain-zone.ts): the DNS zone of a domain.
-- - Prelude: lists, texts, decimals, tables, and the errors and results that the parts share.
--
-- Not modelled: the override files of a compose stack, the destinations of backups, the helper containers
-- of the file manager, statistics and the DNS providers; and input and output as such: HTTP controllers, log streams,
-- the console and the React components.
pub mod Prelude
pub mod Accounts
pub mod Backups
pub mod Compose
pub mod Cron
pub mod Deploy
pub mod Domains
pub mod EnvVars
pub mod Files
pub mod Health
pub mod Ports
pub mod Queue
pub mod Tasks
pub mod Traefik
pub mod Webhooks
pub mod Zones
