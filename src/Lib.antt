-- ===== src/Lib.antt =====
-- easytask, a task scheduler: programs register callback services and tasks over HTTP, a scheduler
-- reads the tasks that are due from MySQL, and a pool of workers locks each, calls its service over
-- HTTP and confirms the result.
--
-- The parts and the files that model them:
-- - internal/task (task.go, repo.go, callback.go, repo_query_opt.go): Task.antt has the entities
--   and the constructors, Task/Schedule.antt GetSchedNextAt, Task/Logs.antt the log details and
--   TaskLogger, Task/Repo.antt the interfaces TaskRepo, TaskCallbackSrvRepo and TaskCallbackSrvExec
--   as records of functions. Getters are the fields of the records.
-- - internal/task/sched.go and worker.go: Engine/Sched.antt has a round of `schedule`,
--   Engine/Worker.antt a round of `runWorker` and the wait group of the engine. A run of the engine
--   is a trace of rounds, each in some world.
-- - internal/task/impl/repo/mysql: Mysql/Ids.antt, Mysql/Models.antt and its children are
--   data_model.go, Mysql/Conn.antt is repo_conn.go and logger.go, Mysql/LogRepo.antt is
--   task_log_repo.go, the files of Mysql/TaskRepo are the methods of task_repo.go,
--   Mysql/SrvRepo/Routes.antt and Mysql/SrvRepo/Query.antt those of task_srv_repo.go, and
--   Mysql/Repos.antt fills the two interfaces with them.
-- - internal/task/impl/callback/http.go: Callback.antt has CallbackSrv, doReq and HeartBeat, whose
--   goroutines run in one piece each, in an order that is a parameter, over the response they
--   share; Callback/Interleaved.antt has them statement by statement, also over the error they
--   share.
-- - internal/registry/registry.go: Registry.antt has Discover, Register and Unregister,
--   Registry/Health.antt a round of HealthCheck and a round of its workers, Registry/Stopping.antt
--   the goroutines of sched, the workers and Stop as one sequence of events over the exit signal,
--   the channel of services and the wait group. Registry/Found.antt joins Register and Discover.
-- - internal/apihandler: Api/Service.antt and Api/Http.antt, from the handler to the repositories.
-- - internal/apiserver: Router.antt has the table of routes, the answer to a request, and
--   writeResp, whose loop runs on fuel: one round is enough for a writer that keeps the contract of
--   io.Writer. Router/Boot.antt has the calls of Boot and Register that run at once, statement by
--   statement, and Router/Serving.antt Stop and the requests being served, as one sequence of
--   events.
-- - api_route.go and pkg/rpc/http_cli.go: Api/Routes.antt has the table of routes, Client.antt the
--   client, and Client/Connection.antt and its siblings lead a call through the router to its
--   handler.
-- - main.go: Shutdown.antt has the goroutine that stops the parts after a signal, beside the
--   registry, the engine and the router.
-- - tool/main.go: Tool.antt has the two commands that clear old rows.
-- - internal/util/logger/logger.go: Logging.antt.
-- - pkg/errs and internal/util/errs: Errs.antt.
--
-- Stateful code is a function from a world to a result and a world (`Io` of Base/Effects.antt): an
-- error does not undo what was written before it. The world is that of the parameter `Gorm` of
-- Mysql/Gorm.antt, which stands for gorm, the MySQL server and the clock: a table offers the
-- statements that the repositories use, a query is a list of tests on rows, and an update a list of
-- assignments to columns. Mysql/Gorm/Laws.antt names what the proofs rely on, one statement at a
-- time: which rows a query reaches, what an update, a soft deletion or FirstOrCreate leaves, and
-- that a failed statement leaves nothing. Mysql/Gorm/Memory.antt is a database in memory that obeys
-- the laws, and the tests run over it. The network, the random source, the JSON decoder, the
-- validator and the cron parser are parameters too (Outside.antt, `Http` of Callback.antt,
-- `Connection` between the client and the router).
--
-- A Go int or int64 is a ℤ, and sums on it are wrapped to 64 bits where the code adds; a uint64 key
-- is a ℕ. A pointer is an Option, and a nil dereference the error `panic`. The decimal print runs
-- twenty rounds, which is enough for a uint64. A text is the list of its codes.
--
-- The goroutines of a part are sequences of events or statements over what they share. The pools of
-- the registry and of the engine are taken when all their workers are started. The engine's Stop cannot
-- pass before that, since its scheduler starts after the pool; the registry's can, as its pool starts
-- beside sched, and may then miss a worker that is not counted yet: this is left out. Two texts of
-- MySQL are equal if their codes are, as under a binary collation; the code sets none, and under one
-- that ignores case two names that differ in case are one.
--
-- Not modelled: the start of the HTTP server; that two appends of HeartBeat may write one place of an
-- array that their lists share; the configuration, the contexts of traces and the recovery of a panic,
-- which call third-party packages; the migration of the tables; the stream query, which nothing calls;
-- and in main.go the election, and the wiring of the parts.

pub mod Base
pub mod Errs
pub mod Outside
pub mod Task
pub mod Mysql
pub mod Callback
pub mod Engine
pub mod Registry
pub mod Router
pub mod Api
pub mod Client
pub mod Tool
pub mod Logging
pub mod Shutdown
pub mod Tests
