-- ===== src/Lib.antt =====
-- Verification of MycoAgent: a cluster Manager that keeps groups and nodes, and agents that give
-- subtasks to one another.
--
-- Parts and files (paths from the repository's root):
-- - Common, Exec, Table: shared names, methods that change an object and may raise, and tables of rows
--   with a key (a SQL table with its primary key, a `dict`).
-- - Models: the records and enums of src/mycoagent/models.py.
-- - Manager: `ManagerStore` of src/mycoagent/manager/store.py. Tables are the rows of the database;
--   Store has one method per method of the class, by the same name; Catalog is `catalog_matches`.
--   A call is one step, so a sequence of calls is a list of `Call`. The source gives its lock up between
--   the statements of one call; what other threads do in between is not modelled.
--   Manager.Client is `ManagerClient` of src/mycoagent/node/client.py, over the handlers.
--   Manager.Postgres is the second store, src/mycoagent/manager/postgres_store.py: the same tables, with
--   the collation of the database and the texts of the time stamps as parameters of each comparison of texts.
-- - Text: Python's methods on `str`, over the characters of a native string.
-- - Auth: src/mycoagent/auth.py and the middleware that asks it.
-- - Artifacts: src/mycoagent/artifacts.py, with the store in memory.
-- - Node.Workspace, Node.OpenCode, Node.Planner, Node.LocalConfig: src/mycoagent/node/workspace.py, and opencode.py,
--   planner.py and local_config.py of the same directory. The file system, the program `opencode` and the
--   model are parameters.
-- - Node.Specs: the reading of lists and of models in src/mycoagent/node/specs.py.
-- - Node.Jobs: `JobStore` of src/mycoagent/node/jobs.py, with its table on disk.
-- - Node.Agent, Node.Target, Node.Parent, Node.Submit, Node.Mailbox: `AgentRuntime` of
--   src/mycoagent/node/runtime.py. Target chooses the node that a subtask goes to, Parent hands the
--   subtask over and takes its result, Submit has `submit_job` and `forward_subtask`, Mailbox is
--   the child side, Host is `HostRuntime`, `reregister` and `apply_config`, and Heartbeat is `_heartbeat_loop`
--   beside the Manager's other requests. A leading underscore of a
--   method's name is left out.
-- - Node.Executor: `ChildAgentExecutor` of src/mycoagent/node/executor.py.
-- - Node.Names, Node.Capabilities: src/mycoagent/node/capabilities.py, and `resolve_agent_id` of
--   src/mycoagent/node/identity.py. Capabilities.Paths has the file system as `pathlib` shows it, and the search of
--   src/mycoagent/node/opencode_discover.py.
-- - Node.Providers: src/mycoagent/node/providers.py, with the answer to `GET /models` as a parameter.
-- - Cli: src/mycoagent/cli.py. Init is `init` with its questions, Options, Specs and Start are `node` up to the
--   runtime that it runs, with the files that keep ids as the state, and Ctl has the request of each `ctl` command.
-- - Manager.Api, Node.Api: the handlers of src/mycoagent/manager/api.py and src/mycoagent/node/api.py, from a
--   method's outcome to a status code.
--
-- The agents reach the Manager and each other by HTTP. What answers there is the record `Network`, an
-- argument of the methods that ask; its `meanwhile` is the interleaving of an agent's other tasks
-- with a dispatch that waits for its answer. Clock readings and fresh ids are arguments as well.
-- The language model (planner, executor) and pydantic's JSON are parameters.
--
-- Numbers are natural numbers without a bound, as Python's; an instant counts microseconds. The
-- loops with a bound are that of the report, whose fuel is `REPORT_ATTEMPTS`, the executor's, whose fuel
-- is `max_steps`, and the wait for a bucket, whose fuel is its number of tries: the ranges of the
-- source, so that running out of it is what the source does.
--
-- Not modelled: the routing of both services, the S3 store's client, the file system, the start of
-- programs, the requests to a model, and the parsing of the command line's options. The tools of a
-- workspace are functions of their arguments, without its files as a state, and `parse_models` refuses a
-- negative context window, which the source reads.
mod Common
pub mod Exec
pub mod Models
pub mod Table
pub mod Text
pub mod Auth
pub mod Manager
pub mod Node
pub mod Artifacts
pub mod Cli
