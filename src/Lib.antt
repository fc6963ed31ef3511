-- ===== src/Lib.antt =====
-- The Cashu broker of cashu-broker/: a service that holds ecash on several mints and swaps a
-- client's tokens of one mint for its own tokens of another, locked with an adaptor secret.
--
-- Parts, from the outside in. The HTTP handlers (cashu-broker/src/api.rs) call the broker and keep
-- a record of quotes and swaps in the database. The broker (broker.rs) holds the configuration, the
-- swap coordinator and the liquidity manager. The coordinator (swap.rs) keeps a map of quotes with
-- their private keys and a map of executions: `create_quote` adds a pending quote, `prepare_swap`
-- pays a pending quote out and makes it accepted, `complete_swap` claims the client's tokens, adds
-- them to the liquidity and makes the quote completed. The liquidity manager (liquidity.rs) keeps
-- per mint a balance, the proofs and a wallet. The adaptor context (adaptor.rs) computes keys and
-- signatures. The database (db.rs) keeps quotes, swaps and liquidity events.
--
-- Files, with the code under cashu-broker/src/ that they model under the same function names:
--   Error       error.rs, `BrokerError`
--   Types       types.rs, the records; Types/Status the statuses and their text; Types/Wire the
--               serde formats, and below it what is read back
--   Adaptor     adaptor.rs, and the encodings of points and scalars of swap.rs; Adaptor/Keys proofs
--   Liquidity   liquidity.rs; Liquidity/Select, Secrets and Balance prove `select_proofs`,
--               `add_proofs` and `remove_proofs`, Liquidity/New proves `new`; Liquidity/Ledger
--               has the bags of proofs that deposits and withdrawals act on, and
--               Liquidity/Initialize proves `initialize_liquidity`
--   Swap        swap.rs: Swap/Quote has the state, the validation and `create_quote`, Swap/Execute
--               has `prepare_swap`, `complete_swap` and `get_quote`; the files below them, and
--               Lifecycle, Closing, Complete, Completed and Lock beside them, prove.
--               Swap/Tasks has the requests that run at once: the points at which a request
--               waits, the guards that it holds there, and the steps; the files below it prove
--   Broker      broker.rs; Broker/Status proves `get_liquidity_status`, Broker/Atomic what is left
--               where an operation fails
--   Database    db.rs and the constraints of the migration: Rows the tables and how a statement
--               runs, Quotes, Swaps and Events the three repositories; Columns lemmas on
--               columns; Encoding what the INSERTs bind and `from_row` reads, and below it the
--               round trip; Promises the quotes as a map from ids to records, and what each
--               call that writes promises of it, Store that the calls keep it; Consistency,
--               Statements, Lookups and Changes prove
--   Api         api.rs: Types the state, the requests and the errors, Handlers the handlers that
--               write, Reads those that only read; Calls, Offer, Agreement, Completion, Refusals,
--               Metrics and Balances prove. Invariant has rules for what holds however a handler
--               ends; Api/Behind has sequences of requests, and with Stuck proves what holds of
--               both stores after them. Api/Tasks has the handlers that run at once, call by call;
--               the files below it prove
--   Config      config.rs, `Config::from_env`; Config/Text what it uses of the standard library on
--               texts, Config/Load proves
--   Start       main.rs up to the listener, with the connection of db.rs and the CORS layer of
--               api.rs; Start/Defaults and Start/Fresh prove
--   Base        shared names; Dict a map by `insert` and `lookup`, Word machine integers, Perms and
--               Lists lemmas
--   Effect      the monad of the operations: a state, the world outside, and an outcome that is a
--               value, an error or a panic; Effect/Frame rules for what an action leaves
--               alone, Effect/Success rules for what holds where it returns a value,
--               Effect/Invariant rules for what holds however it ends
--   Env         the parameters: the curve, the ecash library, clock, randomness and encodings, and
--               the database driver; Env/Laws what the theorems assume of them
--   Tests       a concrete environment, runs, and the theorems applied to them
--
-- How it is modelled. An `async fn` under a lock is one action on the state. A call outside the
-- program takes the world and returns its result with a new world; it may fail wherever its Rust
-- type lets it fail, and an `expect` or `unwrap` of a failure is a panic. A `u64` is a natural
-- number; a sum wraps as in a release build, `saturating_sub` stops at 0, and casts between `u64`
-- and `i64` wrap. A hash map is an association list; where the code iterates over a map, the order
-- is a parameter. No operation takes fuel: every loop of the code runs over a list. A statement of
-- the database either changes the tables as its SQL says, or fails by a constraint or by a fault of
-- the driver, and then changes nothing.
--
-- Requests that run at once. In Swap/Tasks a step of a request goes from one wait for a lock or a
-- mint to the next, and any request may take the next step. The lock itself is a parameter: when
-- it grants a guard beside those that are held, by the request itself too, with the laws that a guard for writing excludes
-- every other, and that a free lock is granted. In what order a lock serves those that wait is left
-- open, and a request is not cancelled. The calls of the wallet in `prepare_swap` are one step.
-- `create_quote` is there from its one lock on. The other files take each operation as one action,
-- which Swap/Tasks/Alone justifies for a request that has no other beside it.
--
-- In Api/Tasks a step of a handler is one call of the broker or of the database with what the
-- handler computes up to the next one, and any handler may take the next step, or none for ever, as
-- when the client goes away. Api/Tasks/Alone relates the two ways of modelling a handler.
--
-- Not modelled: logging and printing, `Broker::run`, the routes, the listener and the address it is
-- bound to, what dotenvy reads, the serde formats of api.rs and db.rs, and the texts of
-- `BrokerError`. They are input and output, or calls of libraries. `system_time_serde` of types.rs
-- is used nowhere.
pub mod Base
pub mod Error
pub mod Effect
pub mod Env
pub mod Types
pub mod Adaptor
pub mod Liquidity
pub mod Swap
pub mod Broker
pub mod Database
pub mod Api
pub mod Config
pub mod Start
mod Tests
