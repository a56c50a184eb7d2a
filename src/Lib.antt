-- ===== src/Lib.antt =====
-- Cloudrail, a platform that deploys container images on one host: a model of its core logic and
-- the theorems on it.
--
-- The program is a server and an agent. The server keeps projects, services, deployments, service
-- actions and cron runs in a PostgreSQL database (internal/deployment), builds images from
-- repositories (internal/builds), seals secrets (internal/secrets) and lets its owner in
-- (internal/auth). The agent claims one piece
-- of work at a time, runs it in containers and reports each stage under the token of its attempt;
-- a successful build becomes a deployment through the idempotency key of its request.
--
-- The files, and the code that each models:
--   Common, Result      tables as lists of rows, texts as lists of bytes, UTF-8, Go's (value, error)
--   Paths               path.Clean of the standard library, as the validations call it
--   Secrets             internal/secrets/cipher.go: Cipher.Seal and Cipher.Open
--   Deployment.Model    internal/deployment/model.go and the migrations: the rows, and the database Db
--   Deployment.Spec     model.go: Spec.Validate, ComputeSpec.Validate, ValidName
--   Deployment.Settings operations.go: Settings.Validate, normalizeServiceSettings, PublicHTTP
--   Deployment.Jobs     reliability.go: nextAttempt and checkAttempt, on the columns that jobs share
--   Deployment.Outside  the cipher, the encoders, and workspace.go's deploymentEnv
--   Deployment.Templates templates.go: the catalogue of data services
--   Deployment.Enqueue  store.go: enqueueTxWithStart
--   Deployment.Report   store.go and reliability.go: Store.Report and Store.Cancel
--   Deployment.Cron     cron.go and store.go: CronNext, SaveCronSchedule, ReportCronRun
--   Deployment.Actions  workspace.go: EnqueueAction and ReportAction
--   Deployment.Claim    store.go: Store.Claim and claimCronTx
--   Deployment.Invariant, Deployment.Histories  the invariant of the store, and sequences of calls
--   Builds              internal/builds/model.go: the sources and their validation
--   Builds.Queue, Builds.Running, Builds.Flush  internal/builds/store.go
--   Builds.Invariant, Builds.Histories, Builds.Pushes  the invariant of the builds, and their calls
--   Deployment.Volumes  volumes.go, and SaveSettings of operations.go
--   Deployment.Creation store.go and operations.go: projects, environments, applications, hosts
--   Deployment.Databases operations.go and templates.go: CreateDatabase and BindDatabase
--   Deployment.Variables workspace.go: the variables of a service and the references between services
--   Deployment.Buckets  buckets.go: buckets, and the variables by which they are bound to a service
--   Deployment.Workspaces  sequences of the operations on variables and buckets
--   Deployment.Canvas   canvas.go: the picture of an environment, and SaveCanvasLayout
--   Deployment.Networking operations.go: SaveNetworking and SaveRuntimeSettings
--   Agent               internal/agent/{runner,persistent}.go over an abstract Host
--   Agent.Actions       internal/agent/{actions,reconcile}.go
--   Agent.Writers       what Run does to the containers that share a volume
--   Auth                internal/auth/auth.go: the owner, sessions, and the limit of attempts
--   Routes              internal/proxy/routes.go: Routes.Set on a directory whose calls may fail
--   Tests and the Tests below Agent, Auth, Builds, Routes, Deployment.Volumes, Deployment.Workspaces,
--                       Deployment.Creation, Deployment.Databases, Deployment.Databases.Binding,
--                       Deployment.Histories.Finality and Deployment.Canvas: the theorems at concrete inputs
--
-- The conventions. A transaction is a function of the database that returns the new database or an
-- error; an error carries no database, since the code rolls back. Transactions run one
-- after another: interleavings of their statements are not modelled, though not every operation
-- locks the rows that it reads (SetReference, DeleteVariable and BindDatabase do not). Flush
-- is two transactions for each build and BindDatabase no transaction, so their results keep the
-- database beside the error. An
-- identifier is the number that its 24 hexadecimal digits spell, whose order is that of the texts;
-- '' is none. Times are in microseconds. Where the program walks a text it is a list of bytes, and
-- TrimSpace and ToLower are modelled on ASCII. A column of type jsonb holds the value itself.
--
-- The recursion is structural except in three functions on fuel. ReplaceAll has the length of the
-- text, since each round consumes a byte or more. Reading a variable has the number of variables and
-- one, since no two calls that have not returned are for one row. The recursive query of SetReference
-- has the number of references and one, since each round reaches a service that a row names.
--
-- Parameters of the model: the container engine, the proxy's routes, the readiness checks and the
-- server's endpoint for reports (the fields of Host), the digests of network and volume names, the
-- AEAD cipher, the JSON encoders, the hash of a request, the parser of
-- schedules, bcrypt, SHA-256, the parsers of addresses, which calls on the file system fail, and what
-- is drawn at random (identifiers, tokens, nonces). What Store.variables returns is part of a request;
-- Deployment.Variables models the function itself.
--
-- Not modelled: the handlers of internal/api, the Docker and GitHub clients, certificates, the
-- building of images, and operations that only read. The sequences
-- of Deployment.Workspaces leave out UnbindBucket, after which a reference may have no target,
-- BindDatabase, whose reference may have a fallback in the place of a target, and the variables that
-- CreateDatabase inserts. Those of Deployment.Histories are of the operations that write the tables of
-- services and deployments; the other tables that four of them use hold anything at that time.
pub mod Common
pub mod Result
pub mod Paths
pub mod Secrets
pub mod Deployment
pub mod Builds
pub mod Agent
pub mod Auth
pub mod Routes
pub mod Tests
