-- ===== src/Lib.antt =====
-- S3 Pulse watches S3 prefixes for new objects. This development models the logic of its Rust
-- workspace: the core crate (crates/s3pulse-core/src) with object URIs, errors, date templates,
-- the rolling arrival history, the listing of a bucket, the download of an object and the polling
-- watcher, and in the command-line crate (crates/s3pulse-cli/src/rpc) the JSON-RPC transport, the
-- methods of the service and the registry of watchers behind them.
--
-- Base.antt and its children hold what the components share: Boolean tests on the native numbers,
-- lists, membership, Rust's Result, texts as lists of code points, stable sorting (`sort_by`),
-- and ordered maps (`BTreeMap`, as an association list in ascending order of its keys).
--
-- Uri.antt is uri.rs: `new`, `validate`, `parse` (from_str) and `display` (fmt). Error.antt is
-- error.rs: the error values and `aws`, which puts a failure of the AWS SDK into a category; the
-- error that the source walks is given as its Display text and those of its sources. Model.antt
-- is the part of model.rs that the history and the listing exchange, with instants as numbers.
-- Model/Update.antt has the accessors of `HistoryUpdate`.
--
-- Template.antt is template.rs: the parser (`scan` is its loop, whose first argument says that a
-- placeholder's name is being read) and `matches`. Template/Resolve.antt has `render`,
-- `step_back` and `resolve`; the calendar of chrono and the zones of chrono-tz are a record of
-- functions (`Calendar`), in which a subtraction that panics is `none`. The parser's loop is
-- structural recursion on the text.
--
-- History.antt is history.rs: `RollingHistory` with `upsert_many`, cut into the steps of its
-- body: `collect` fills `incoming`, `apply` is the loop that finds the changes and writes the
-- entries, `retained_keys` the selection. A method that changes the history returns the new one.
-- History/Ranking and History/Merge hold lemmas, the others the properties.
--
-- Statistics.antt is the rest of history.rs, the intervals and the statistics of a history, and
-- Statistics/Sizes.antt `classify_newest_size`. The operations of an f64 are a record (`Floats`),
-- so that nothing is said of rounding; an index that would panic is `none`.
--
-- Store.antt is the listing of store.rs. `list_objects` takes the SDK client as a function from
-- the number of the request and the continuation token to a page or an error, and the conversion
-- of the SDK's time by chrono as a function to an optional instant. The loop over pages runs on
-- fuel, one unit for each request; a service that ends its pages after n of them (`Serves`) needs
-- n units.
--
-- Watcher.antt is watcher.rs with `WatcherConfig` and the events of model.rs: `new`,
-- `resolve_targets` and `poll_once`, which lists every target and hands all objects to
-- `upsert_many`; Watcher/Run.antt is `run`. What `select!` picks, the times of the clock and the
-- answers of the store come as a list of turns, and a number says how many events the receiver
-- takes before it is closed.
--
-- Transport.antt is the line reader of crates/s3pulse-cli/src/rpc/transport.rs; a reader is the
-- list of what `fill_buf` gives. Transport/Serve.antt is one round of the loop of
-- `serve_with_limit` (`receive`, `dispatch`, `admit`, `cancel_request`) with the messages of
-- rpc/protocol.rs, and Transport/Steps.antt the steps of the spawned tasks: the end of a handler,
-- which drops the permit, the write of the response, and the removal from `in_flight`. `Step`
-- lets them happen in any order. Handlers are open: any result may come at any time.
--
-- Download.antt is the download of store.rs with the values of model.rs. Its monad
-- (Download/Monad.antt) carries the files, the meter of GET requests, the messages that the
-- progress channel took, and the number of places passed that look at the cancellation; a
-- function says at which of them it has come. The operating system is a record of calls
-- (`FileSystem` in Download/Files.antt), and `IsLawful` is what their documentation says of
-- files; a call that a cancellation drops may have done anything to the temporary file
-- (`abandon`). What the SDK answers, the file names of a path and the random part of the
-- temporary name are parameters. Download/Memory.antt is a file system with these laws.
--
-- Service.antt is crates/s3pulse-cli/src/rpc/service.rs. `read_call` is the part of every arm of
-- `handle` before its `await`: it reads and checks the parameters and gives the call (`Call`)
-- that the arm makes of the runtime, which is the record `ServiceRuntime`; `perform` makes it.
--
-- Runtime.antt is crates/s3pulse-cli/src/rpc/runtime.rs. The map of watchers is a list of
-- entries. `watch_start` and `watch_stop` are cut at their locks: what other requests do to the
-- map between two critical sections is an argument of them, and Runtime/Interleaving.antt has the
-- relation (`Steps`) that those keep to. The number `serial` of a session stands for the identity
-- of its `Arc`. Runtime/Relay.antt has `object_download`, where the store's behaviour is a
-- function of the request; Runtime/Queries.antt has the methods that only read, and
-- Runtime/Polling.antt `run_watcher`, over the rounds of its loop and the results of their polls.
--
-- Command.antt is `default_destination` and `is_portable_file_name` of
-- crates/s3pulse-cli/src/app.rs and `terminal_text` of output.rs; the two messages of
-- `default_destination` are the constructors of `NameError`.
--
-- The watcher calls `list_objects` and hands the result to `upsert_many`; both order objects by
-- `newest_first`, and share that definition here, as does `objects_list`. The runtime accepts a
-- download by `matches` of the template whose renderings its watcher lists.
--
-- Numbers of the source that cannot overflow in these operations (sizes, counts, capacities) are
-- the natural numbers. Logging, the async runtime and locks, serde, the AWS SDK and chrono are
-- not modelled; where their results matter they are parameters.
--
-- In the model of the transport the writer takes every message; a write that fails, the
-- notifications of handlers and the drain at the end of the input are left out. The statistics
-- that the runtime hands on are of an abstract type there. Not modelled are the commands of the
-- command-line crate with the sizes and durations they print (app.rs, output.rs). The editor
-- extension is a client in another language.
pub mod Base
pub mod Uri
pub mod Template
pub mod Transport
pub mod Model
pub mod Error
pub mod Command
pub mod Download
pub mod Service
pub mod Runtime
pub mod Store
pub mod Statistics
pub mod History
pub mod Watcher
