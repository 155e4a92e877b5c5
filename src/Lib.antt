-- ===== src/Lib.antt =====
-- Coulisse: an OpenAI-compatible server configured by one YAML file, as a Cargo workspace. A request
-- names an agent or an experiment; the server assembles the user's context, checks the user's token
-- caps, runs the agent with its tools and records what it used, and background workers take queued
-- tasks. Each crate under crates/ owns one of these parts with its tables, and cli/ puts them
-- together. The development models the crates' decisions: what they store, pick, keep and refuse.
--
-- Tasks (crates/tasks/src/queue.rs): the table `tasks` is the list of its rows in rowid order, and
-- each method is a function of the table, the clock reading and, for `enqueue`, the new id. The calls
-- of Tasks/Calls are the steps of a history, and an optimistic claim that loses its race is a step on
-- a row that another worker has taken: `next_runnable_from` starts from any row a worker has read.
-- Limits (crates/limits/src): `Tracker` over the table `rate_limit_windows`, with the caps that a
-- request's metadata gives. A count past i64::MAX, which SQLite keeps as floating point, fails to be read.
-- Memory (crates/memory/src/types.rs, and `assemble_context` of crates/memory/src/store.rs): the token
-- estimates and what fits a budget. The recalled memories, the stored messages and the memories' share
-- of the budget, a product of floating-point numbers, are arguments.
-- Merge (crates/agents/src/merge.rs): how YAML entries and database rows become the list that runs
-- and the administrator's list. The merge.rs of crates/experiments, crates/judges and crates/smoke are
-- the same code at another configuration type, so the functions take the configuration and its name as
-- parameters; Agents, Experiments, Judges and Smoke declare the configurations and the instances.
-- A `HashMap` is the list it is collected from, where the later of two equal keys counts.
-- Experiments (crates/experiments/src/router.rs): the hash a pick is drawn from, with 64-bit
-- wrap-around and the UTF-8 bytes of a name, the picks of each strategy, and the router with its
-- counter of picks. The `f32` operations are fields of `Floats`; laws on their order, which `f32`
-- has with its NaN, are hypotheses of the one theorem that needs them.
-- Sanitize (crates/mcp/src/sanitize.rs): the names that tools get for a provider, over code points.
-- Storage (crates/storage/src/store.rs, crates/storage/src/config.rs): the index of stored files and the
-- eviction of the oldest ones; the blobs are a state of the caller's, with their deletion. Storage.Mime
-- (crates/storage/src/mime.rs) has the types that are let in. Storage.Backend
-- (crates/storage/src/backend.rs, crates/storage/src/fs.rs) is the interface of a blob backend, its
-- contract, and the backend on a file system; the S3 backend calls its client. Storage.Files is `Store`
-- over any such backend: upload, read, delete and the check at boot. Its history is a list of calls, in
-- which the process may stop between the blob and the index, and a blob may be lost.
-- Config (cli/src/config.rs): the root of coulisse.yaml. Config.Expansion replaces `${VAR}` and
-- `${vars.name}` in the text and locates errors, Config.Strategies and Config.Validate are the checks,
-- Config.Loading puts them together as `from_str`. Config.Consistent says block by block what the checks
-- are for, Config.Accepted relates the two, and Config.Resolution looks at the router. Of the
-- `Config` struct, the blocks that are handed on to other crates unread are left out. A loop over a list
-- that fills a set of names is `each_distinct` of Validation.
-- Auth, Mcp, Sidecars (crates/auth/src/config.rs, crates/mcp/src/config.rs,
-- crates/sidecars/src/config.rs): the blocks of the configuration that these crates own.
-- Mcp.Vault (crates/mcp/src/vault.rs): the sealed OAuth tokens and clients, as two tables.
-- Mcp.Vault.Interface is what other code asks of a vault of tokens, and the tables behind it. Mcp.Session
-- (crates/mcp/src/pool.rs) is a connection over each transport and the grant for a refresh token.
-- Mcp.Pool (crates/mcp/src/pool.rs): the sessions of users over that interface, with refreshes, forced
-- consents and the cache; a call is looked at from the cache it finds, and what the moka crate drops
-- where a session is inserted, for its capacity or the idle time, is a parameter.
-- Auth.Tokens (crates/auth/src/token.rs): the API tokens, as the two tables and the operations on them;
-- a history is a list of calls. An insert that breaks a key of the table fails.
-- Triggers (crates/triggers/src): the check of cron schedules and what is armed, the templates of a
-- webhook and the answer to a request.
-- Providers (crates/providers/src/lib.rs): the words that name the providers.
-- Core (crates/core/src/lib.rs, crates/memory/src/types.rs): the integer casts and the words that
-- columns store for the enums. Core.Migrate (crates/core/src/migrate.rs): the versions of the crates'
-- schemas, from the validation of their list to the upgrades one by one, over any tables.
--
-- Shared: Prelude has the notation, lists, results, signed integers, stable sorting by name and
-- membership; Decimal has Rust's decimal text of numbers; Sql has the statements that the crates send
-- to SQLite; Uuid is the interface of the uuid crate.
-- Parameters: `CronCrate`, `JsonCrate` and `YamlCrate` are what the cron, serde_json and serde_yaml
-- crates make of a text; the environment and the digest of a secret are functions. `Sql.Ordering` is
-- `ORDER BY`, which leaves the order of equal keys open; `UuidCrate` is printing and parsing of ids;
-- clock readings and new ids are arguments. `SemverCrate` is the order of versions; `Crypto` and
-- `MetadataJson` are the cipher, UTF-8 and the JSON that the vault uses; `Outside` is what the rmcp, reqwest
-- and tokio crates and crates/mcp/src/sse_client.rs do for a session, and `SessionCache` the moka crate;
-- `Backend` and the calls of the file system stand for where blobs are kept.
-- Fuel: `Decimal.print_fuel n` needs at most n + 1 digits and gets them; the search for a free suffix
-- in Sanitize gets one try more than there are names taken, so that one of
-- them is free. The expansions of a configuration and the substitution in a template get the length
-- of their text, of which every turn uses some.
-- Not modelled: a database statement that fails (the error is passed on and nothing is written),
-- the error of SQLite's SUM
-- past 2^63, two calls of one store or pool that run
-- at the same time, HTTP, HTML and the model providers. Left out as whole crates or modules: the agents'
-- runtime, the rows of dynamic configuration and their pages, the judges' evaluation, skills, the proxy,
-- telemetry, the OAuth flow and transport of the MCP clients, the supervisor of sidecars and the command
-- line.
pub mod Agents
pub mod Auth
pub mod Config
pub mod Core
pub mod Decimal
pub mod Experiments
pub mod Judges
pub mod Limits
pub mod Mcp
pub mod Memory
pub mod Merge
pub mod Prelude
pub mod Providers
pub mod Sanitize
pub mod Sidecars
pub mod Smoke
pub mod Sql
pub mod Storage
pub mod Tasks
pub mod Triggers
pub mod Uuid
pub mod Validation
