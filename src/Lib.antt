-- ===== src/Lib.antt =====
-- Kasane MCP: a server that keeps the development knowledge of a workspace (memories, stack choices
-- and practices) in PostgreSQL, indexes it for search, and offers it to agents over MCP.
--
-- The parts, and the files that model them:
--   Prelude, GoText, Table, Tx   what the parts share: numbers, texts, tables, statements
--   Core         internal/core: the types, ValidID, the two Validate methods, PackContext
--   Store        internal/store/store.go, tenancy.go, usage.go and migrate.go: Remember, Move, Get,
--                Forget, Rehydrate, Reindex, ProcessOne, the lists and the statistics over the tables
--                of schema.sql
--   Search       internal/search/service.go: Service.Search over its two interfaces
--   Feedback     internal/store/decision_feedback.go: the review queue
--   Decision     internal/decision/client.go: the checks of requests and responses
--   Accounts     internal/server/security.go and invitations.go: accounts, sessions, agent keys, the
--                waitlist and invitations; the workspaces of internal/store (store.go, tenancy.go)
--   Server       internal/server: the limiter, the address of a client, the access of keys, the tools,
--                the handlers of memories and evaluations, the relevance of selected practices, and
--                the worker
--   Examples     runs on small inputs
-- The tools of Server check the access of a key and call Store or Search with its workspace. Store
-- queues an index job with every write; Store/Worker.antt takes one job, and Server/Worker.antt runs
-- the loop around it. Accounts decides who a request is from (owner, agent), and Server/Access.antt
-- which workspaces that identity may use. Accounts has a record of tables of its own, which shares the
-- rows of the workspaces with Store.
--
-- A function of the code keeps its name, in lower case with underscores (ProcessOne is process_one);
-- a part of one that is a function of its own ends in _tx where it runs inside a transaction.
--
-- Texts are lists of units: a Unicode code point, or 0x110000 + b for a byte b that is not UTF-8;
-- `len` counts bytes. Errors are the four kinds that the handlers tell apart, and `unavailable` for
-- every other; messages are not modelled. Times are in microseconds. IDs in tables are the texts that
-- PostgreSQL prints, and a `::uuid` cast is a function of the environment. A cast is a statement of
-- its own where the code has it inside a statement.
--
-- A statement fails where the list of faults says so, and then the transaction is rolled back. The
-- faults also stand for what the tables' constraints and PostgreSQL itself refuse (foreign keys, NUL
-- characters, lost connections). A commit that fails counts as one that did not happen. Transactions
-- run one behind the other: Remember and Move lock their workspaces, ProcessOne its memory (what others
-- have locked, which it skips, is an argument), and Forget decides and writes in one statement. A
-- SELECT that takes no lock before a later statement has the tables that it sees as an argument: that
-- of Reindex, the count of a list, the first statement of Stats, and each SELECT of Rehydrate. In the
-- runs of Store/Reach.antt the SELECT of a Reindex may have seen any earlier tables; the writes of others
-- between its updates come before them, as each update locks its row until the commit.
-- The interval of the retention of evaluations is counted in days of 24 hours.
--
-- There is no fuel: every loop of the modelled code runs over a list.
--
-- The worker's loop runs over the list of its turns, so it ends when its context does.
--
-- Not modelled: routing, JSON, HTML and configuration, the vector index and the knowledge map (floats),
-- the start-up of the command, and the lists of keys, invitations and the waitlist. Random IDs and
-- tokens, bcrypt and SHA-256, the clock, the parsing of addresses, the Unicode tables, the full-text
-- match and rank of PostgreSQL, the index and the decision service are arguments.
pub mod Accounts
pub mod Core
pub mod Decision
pub mod Examples
pub mod Feedback
pub mod GoText
pub mod Prelude
pub mod Search
pub mod Server
pub mod Store
pub mod Table
pub mod Tx
