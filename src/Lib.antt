-- ===== src/Lib.antt =====
-- A verification library for go-database, a server in Go that manages connections to databases, lets
-- users and programs run statements on them, and guards what each of them may do.
--
-- How the parts interact. A request carries a role and extra permissions. internal/auth makes of them
-- the effective permissions and the databases that may be reached. A statement that comes over HTTP
-- passes internal/guard, which finds its most dangerous command and asks for that command's
-- permission; then internal/executor asks internal/suggest for the risk of the statement and runs it,
-- or asks for a confirmation first. A statement that comes over MCP passes the gate of
-- internal/executor, which holds the caller to a scope. Both reach a database through
-- internal/connection, which keeps the connections and calls the plugin of each. plugins/graph is such
-- a plugin, with a store of its own. internal/api/middleware stands in front of the handlers of HTTP,
-- and internal/transfer copies tables from one connection to another. internal/scheduler starts transfers
-- at the times of a cron line. internal/agent lets a language model choose a tool, and runs the tool
-- through the gate of internal/executor. internal/suggest also proposes statements and words while a user
-- types. internal/crypto keeps the keys of the users and encrypts and signs with them.
--
-- Which file models which part:
--   Base                  texts, association lists and arithmetic that the parts share
--   Auth/Permission       internal/auth/permission.go: HasPermission, GetEffectivePerms
--   Auth/Resource         internal/auth/resourceperm.go: HasResourcePermission and its patterns
--   Auth/DbAccess         internal/auth/resourceperm.go: CheckDBAccess, GetEffectiveDBAccess
--   Auth/ApiKey           internal/auth/apikey.go: Generate, Validate, Revoke, FormatKey
--   Guard                 internal/guard/rbac.go, every function
--   Suggest/Types, Risk   internal/suggest/types.go and risk.go
--   Suggest/Distance      internal/suggest/levenshtein.go: Levenshtein
--   Suggest/Trie          internal/suggest/trie.go: Insert, Search and the tries of keywords and of a schema
--   Suggest/Fuzzy         internal/suggest/levenshtein.go: FuzzyMatcher.Match
--   Suggest/Templates     internal/suggest/engine.go: getStatementTemplates and its helpers
--   Suggest/Engine        internal/suggest/engine.go: GetSuggestions
--   Plugin/Types, Detect  internal/plugin/interface.go and detect.go
--   Connection/Types      internal/connection/model.go, and the interface of a plugin
--   Connection/Manager    internal/connection/manager.go: Add, Remove, Get, List, Query and the others
--   Connection/Health     internal/connection/manager.go: Ping, checkAll
--   Executor/Execute      internal/executor/executor.go: Execute, estimateAffected
--                         (what an execution leaves alone is in the module Keeps)
--   Executor/Gate         internal/executor/guard.go: GuardGate
--   Executor/Managed      the connection manager as the implementation of the executor's interface
--   Mcp/Scope             internal/mcp: the gates of requests, the tools on databases
--   Middleware/Context    internal/api/middleware/auth.go: AuthMiddleware
--   Middleware/Access     internal/api/middleware: PermissionMiddleware, DBAccessMiddleware
--   Middleware/Keys       the keys of internal/auth/apikey.go behind AuthMiddleware
--   InternalDb/Slices     internal/internaldb/store.go: joinSlice, splitSlice
--   InternalDb/Keys       internal/internaldb/store.go: SaveKey, GetKey, ListKeys, DeleteKey
--   Middleware/RateLimit  internal/api/middleware/ratelimit.go: LoginRateLimit
--   Transfer/Types        internal/transfer/typemap.go: classifyType
--   Transfer/Targets      internal/transfer/typemap.go: mapTypeToTarget, ValueMapper
--   Transfer/Sql          internal/transfer/engine.go: the SQL that is generated
--   Transfer/Engine       internal/transfer/engine.go: transferTable, readPage
--   Transfer/Run          internal/transfer/engine.go: run, over the tables of a job
--   Transfer/Jobs         internal/transfer/engine.go: Start, Cancel, Status, List, fail
--   Scheduler/Calendar    the times that nextTime of internal/scheduler/cron.go goes through
--   Scheduler/Cron        internal/scheduler/cron.go: parseField, nextTime
--   Scheduler/Store       internal/scheduler/model.go and store.go: FileStore
--   Scheduler/Runner      internal/scheduler/scheduler.go: check, execute, recordRun, EnsureJob; in the
--                         module Lifecycle Start and Stop
--   Agent/Text            internal/agent/handler.go: extractSQL, cleanJSON, quoteIdent, truncate
--   Agent/Memory          internal/agent/memory.go: Remember, ContextPrompt
--   Agent/Tools           internal/agent/handler.go: executeTool, nl2sql, vectorSearch, rag
--   Agent/Chat            internal/agent/handler.go: HandleChat, decideTool, buildPrompt
--   Agent/Chat/Steps      internal/agent/handler.go: the steps of chats that overlap
--   Crypto/Padding        internal/crypto/crypto.go: padPKCS7, unpadPKCS7
--   Crypto/Ciphers        internal/crypto/algorithms.go: Encrypt and Decrypt of AES-GCM, XChaCha20-Poly1305,
--                         AES-CBC with a keyed hash, and the hybrid cipher over X25519
--   Crypto/Signature      internal/crypto/modern.go: Sign and Verify of ecdsaCrypter
--   Crypto/Service        internal/crypto/engine.go and store.go: Service and KeyStore
--   Crypto/Store          internal/crypto/store.go: persist, NewKeyStore
--   Graph/Store           plugins/graph/graph.go: the store, and the statements that change it
--   Graph/Traverse        plugins/graph/graph.go: the search of TRAVERSE
--   Graph/Query           plugins/graph/graph.go: Query and the parsing of its statements
--   Graph/Lifecycle       plugins/graph/graph.go: Connect, Close, Tables, Schema
-- The modules below these hold what is proved of them, and modules called Tests the examples.
--
-- How the model stands to the code. A text is the list of its bytes; letters change case and blanks
-- are trimmed as in ASCII, so what is said of a text with other letters is said of its bytes. A Go map
-- is an association list; where the code ranges over a map, the model takes the order of the list. A
-- slice is a list, an `int` an integer without bound, except where TRAVERSE scans one and where the steps
-- of a cron field are added. A call that may fail returns a Reply. What is changed behind a pointer is
-- written back into the map it lives in. A mutex makes of concurrent calls a sequence of steps, and that is
-- how the steps of the manager are modelled; a ping, which holds the lock only while it writes, is taken as
-- one step. The chats of the agent, the requests of the server of MCP and the logins, which overlap, are
-- sequences of smaller steps.
--
-- Parameters. A database is a state W of any type and a plugin a record of functions on it. The loader
-- of roles, the decoder of JSON, the writer of the graph's file, the clock, the print of a value
-- and the validation of tokens are arguments of the functions that use them. So are the language model and
-- the embedder of the agent, the engine of transfers of the scheduler, and, of cryptography, the primitives
-- of the ciphers, the curves, the hashes, base64 and the random bytes.
--
-- Fuel. The walk up the parents of a role takes one unit for each role, since the code need not
-- return. The loop that removes comments takes the length of its text and one more: each round drops at
-- least two bytes. The search of a graph takes one unit for each round of the loop over the depth, as
-- the code. The copying of a table takes one unit a page, of which there are at most as many as rows. The
-- search of nextTime takes a unit for each minute up to the end of the two years, and each of its steps
-- goes on by a minute at least; the steps of a field take a unit a value of its range, and two more for
-- each where a sum wraps round. The loop that waits
-- for a transfer takes one unit a poll, which is also the number of polls that are looked at. The bytes of
-- a number take a unit a byte, and the number itself is more than enough.
--
-- Not modelled: the handlers and the router of HTTP, the drivers of other databases, the SQL of the
-- internal database, language models, provisioning and the commands, which are input and output or calls
-- of libraries; of credentials the tokens, the passwords, the passkeys and the public keys; of cryptography
-- the hashes, RSA and argon2; of the scheduler clocks that change; of the agent its audit log and the
-- cleanup of its sessions; of the server of MCP its sessions; and of the transfer of data the
-- subscriptions and their events.
pub mod Base
pub mod Agent
pub mod Auth
pub mod Connection
pub mod Crypto
pub mod Executor
pub mod Graph
pub mod Guard
pub mod InternalDb
pub mod Mcp
pub mod Middleware
pub mod Plugin
pub mod Scheduler
pub mod Suggest
pub mod Transfer
