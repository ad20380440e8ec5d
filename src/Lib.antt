-- ===== src/Lib.antt =====
-- tiny-aws, a small cloud on one SQLite file per service: a verification library of its Go
--     services.
--
-- The parts and how they interact. Agents on nodes register with the registry
-- (control-plane/registry), send heartbeats, and poll the scheduler (control-plane/scheduler) for
-- jobs. Clients submit jobs to the scheduler over HTTP or through the queue "jobs" of the message
-- queue (control-plane/messaging/sqs), which the scheduler polls. The scheduler asks the registry
-- for healthy nodes. The registry and the scheduler publish notices through the topics
-- (control-plane/messaging/sns). The load balancer (data-plane/networking/load-balancer) sends
-- requests to the healthy nodes and services that the registry lists. The controller
-- (control-plane/controller) removes the workspaces of terminated instances. Virtual networks
-- (control-plane/networking/vpc) are a service of their own. The lambda runtime
-- (data-plane/compute/lambda-runtime) runs functions as jobs of the scheduler, and is called by
-- the topics when an object is stored. The gateway (control-plane/api) forwards requests to the
-- registry, the scheduler and the object store, and logs them. The metadata service
-- (control-plane/metadata) collects what the others list. The client (control-plane/cli) asks all
-- of them.
--
-- Files:
--   Prelude, Prelude/*: shared names, Boolean tests, lists, integers.
--   Go, Go/*: what the services use of Go: numbers as texts (Fmt), times (Time), maps (Map),
--     results (Errors), responses (Http), texts (Text, Bytes), and the round robin of two services
--     (RoundRobin). Map/Order is about the order of range loops.
--   Sql, Sql/Laws/*, Sql/Sequence: the SQL statements of the services, and their laws.
--   Sqs: control-plane/messaging/sqs/main.go. Record Sqs is the tables with msgSeq;
--     create_queue, list_queues, send, receive and delete are the handlers, serve a request,
--     restart a start. Sqs/Invariant is about identifiers, Sqs/Hidden and Sqs/Visibility about
--     hiding and deletion, Sqs/DeadLetter about the limit on receives, Sqs/Delivery about
--     contents and order. Sqs/Threads has the requests at the same time, one statement in a step:
--     Threads/Alone is about a request that is not interrupted, Threads/Hiding about what every
--     order keeps, Threads/Races about what some orders break.
--   Scheduler: control-plane/scheduler. Job has the jobs and what becomes of one, Store is
--     store.go, Pick the choice of a node, Server the handlers and the two background loops over
--     the record Scheduler. Invariant, Preserve and Reach are about reachable states, Durable and
--     Restart about the table, Timeout about watchJobTimeouts, Placement about the chosen nodes and
--     the polls of agents, Freshness about the heartbeats in the registry behind a chosen node,
--     Queue about a round of pollSQSQueue against the queue service, Outcome about queued messages
--     and reported failures. Auth is auth.go with the routes, Auth/Access about what the key
--     guards; Listing is about the order of listJobs, Limits about the limits that the environment
--     sets.
--   Registry: control-plane/registry. Nodes is main.go with store.go, Iam is iam.go with
--     auth.go, Instances is instances.go (its Handlers are the requests), Services is services.go;
--     their other children hold the proofs, of which Nodes/Mirror and Nodes/Restart are about the
--     table of nodes and Nodes/Reach about the map. Routes is the routes of main.go with the check
--     of keys around them, and Routes/Guard about what that check refuses.
--     Nodes/Overlap and Instances/Overlap are about handlers that overlap.
--   Sns, Sns/Fanout: control-plane/messaging/sns/main.go.
--   Vpc: control-plane/networking/vpc/main.go. Vpc/Routes is its routes, Vpc/Ids about a restart
--     and the assignment of instances, Vpc/Created, Vpc/Given and Vpc/Stored about what the tables
--     hold after a run.
--   LoadBalancer: data-plane/networking/load-balancer/main.go. Sync is syncTargets against the
--     routes of the registry, Choice is about nextTarget, Reach about the way of a new node to its
--     requests.
--   Controller: control-plane/controller/main.go. Reach is the pass against the registry, with the
--     way of a termination to it; Lasting is about how long an instance stays terminated.
--   Lambda: data-plane/compute/lambda-runtime/main.go. Record Lambda is the tables with trigSeq;
--     Invoke is handleInvoke and the wait for a job, Triggers the triggers and their events.
--     Invoke/Poll is about the end of the wait, Invoke/Jobs about the scheduler behind it,
--     Triggers/Fire about who is invoked.
--   Api: control-plane/api/main.go. Audit is about the log, Routes about the way to the
--     scheduler.
--   Metadata: control-plane/metadata/main.go.
--   Cli: control-plane/cli. A command is a Program, a tree of outputs, requests and file reads,
--     and run its run against services. Job is job.go, Queue is queue.go, Object is object.go
--     with bucket.go, Deploy is deploy.go, Instance is instance.go, Network is vpc.go with
--     lb.go, Registry is node.go, storage.go and service.go, Keys is auth.go, Lambda is
--     lambda.go, Commands is main.go; config.go and httpclient.go are in Cli itself. Queue/Pop,
--     Instance/Wait, Deploy/Flags and Network/Rules hold the proofs.
--   The Examples of each part: runs and theorems at concrete inputs.
--
-- How the code is modelled. A handler is a function of the request, the state and the outcome of
-- each call it makes, to the new state and the response. A handler runs as one step, one after the
-- other, and a theorem on any requests is about such runs, unless it says otherwise. This is what
-- the locks of the scheduler give. The queue has no locks, and its requests also run one statement
-- at a time in any order (Sqs/Threads). The registry writes some rows outside of its locks, and
-- Registry/Nodes/Overlap and Registry/Instances/Overlap show what handlers that overlap do to the
-- table. The goroutines that a handler starts are listed in the order in which it starts them. A
-- request is its decoded body, an Option where the code looks at the decoder's error; a database
-- call that may fail has a Bool, and answers of other services are arguments. The router's dispatch
-- on methods and paths is not modelled where the pattern of a route fixes the method. A table is
-- the list of its rows in rowid order; SQLite's statements are functions on lists (Sql). A Go map
-- is a list of pairs in the order of a range loop, and theorems hold for each order. A time is its
-- number of nanoseconds, and its RFC 3339 text the number of seconds, which orders as the texts do.
-- A uint64 sequence wraps at 2 ^ 64; theorems on fresh identifiers ask for one number that is left.
-- The column env_vars is the map that its JSON encodes. Parsing of times in keys is a parameter.
--
-- The decimal text of a number (Go.Fmt) is a recursion on fuel, whose fuel is the number
-- itself: each round divides it by ten. The waiting loops of the client, which the code does
-- not bound, count their rounds and are unfinished where these are over; any number of rounds
-- above that of the answers they wait for is enough. The wait of the lambda runtime has the 30
-- rounds of the code.
--
-- In the client, an answer is its status and its text; a text that breaks off is left out.
-- Readers of JSON, the padding and quoting verbs of fmt, the archive of a directory and the
-- shell of an instance are parameters.
--
-- Not modelled: most health handlers, and the agents, the storage and the network daemons, which
-- are Rust and C++ programs.
pub mod Prelude
pub mod Go
pub mod Sql
pub mod Sqs
pub mod Scheduler
pub mod Registry
pub mod Sns
pub mod Vpc
pub mod LoadBalancer
pub mod Controller
pub mod Lambda
pub mod Api
pub mod Cli
pub mod Metadata
