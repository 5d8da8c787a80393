-- ===== src/Lib.antt =====
-- Seekbase is an embedded store of rows with a query pipeline in front of it (seekbase/). A
-- write goes through a queue to a worker, which writes JSONL lines to a tree of files and then
-- rows to DuckDB; the files are the truth, and a rebuild replays them. A delete only marks rows,
-- so that a query can look at the state as of an earlier day. A query is a pipeline of SQL
-- segments and operators, authorized by a policy and compiled to phases for DuckDB and for bash.
-- Long operations are tasks with an append-only log. The same surface is served over HTTP.
--
-- Files and what they model:
--   Base: texts as lists of code points, results with the library's exceptions, lists with keys,
--   digits and white space of Python's str, line breaks. Value: the Python values in rows, read
--   through str and None.
--   Json: what is relied on of Python's json module.
--   Schema (schema.py, struct/schema.py): Data has TableSpec and Schema, Types has _sql_type,
--   Parse has parse_schema and its helpers; WellFormed, Accepts, Decimals and Find prove.
--   Store (service/store_service.py): Rows has the physical rows, Visible the time machine
--   (_asof_conds, _visible, _check_ds), Validate has validate and _existing_keys, Change has
--   _insert_rows, soft_delete and match_live, Plan has run_query and run_plan, Jsonl has
--   _rows_to_jsonl and _jsonl_to_rows, Chain has _run_bash_chain; Insert, Fresh, Unhindered and
--   Fused prove.
--   Files (service/file_service.py): Mirror has _append, write_puts, write_deletes and
--   iter_events over parsed lines, Disk has _append and iter_events over the text of the files,
--   and over the bytes of one; Append, Stands and Torn prove.
--   Write (service/write_service.py): Execute has _execute_one, Batch has _process_batch, Worker
--   has _submit, close and _worker_loop as steps; Keeps, Past, Serial and Closing prove. An
--   operation gives its result or its exception beside the state that it leaves, since what is
--   written before an exception stays.
--   Admin (service/admin_service.py): Replay has _replay; Synced says when the rows and the
--   events of a table agree, and Lines, Marked, Live, Deletes, Inserts, History, Rebuild,
--   Reached and Whole prove.
--   Operator (operator/): Base, Policy, Registry and Builtins, as the files of these names;
--   Lookup proves.
--   Pipeline (service/pipeline_service.py): Split has split_pipeline and _count_placeholders,
--   Stage has _classify and the first part of _compile, Fuse the second part and _fuse_duck_run,
--   Query has _compile and query; Rejoin, Allowed and Shape prove.
--   Embedding (embedders/api.py, service/embedding_service.py): Api has ApiEmbedder.embed with
--   its batches and attempts, Records has _tokens, embed and embed_records; Retries and Aligned
--   prove.
--   Search (service/store_service.py, operator/builtins.py): Names has _ident, _phys, veccol and
--   tokcol, Statements the SQL that creates, inserts, looks up and deletes, and _visible, Lower
--   has search_lower, Prepare has Search.prepare, Values the values that are bound; Marks, Bound
--   and Writes prove.
--   Runtime (runtime/readpool.py): Pool has ReadPool.run as steps; Exclusive proves.
--   Tasks (struct/task.py, service/task_service.py): Record has to_wire and from_wire, Log has
--   append, status and gc, Drive has submit, adopt and _drive, Results has _persist_result and
--   result, Recent has list, Wait has the client's wait; Trip, Life and Newest prove.
--   Wire (_wire.py). Api (api/, server.py, client.py): Route, Server, Client and Handlers, the
--   last with the endpoints' service calls; Paths, Agree and Same prove.
--   Streams (service/stream_service.py): Reader has _read_new_lines, Compile has _compile, Run
--   has the rounds of _run with _land and _checkpoint, Table has start_stream, and stop and
--   close as steps; Lines, Covered, Landed, Handles and Closing prove.
--   Examples: concrete inputs.
--
-- Numbers are unbounded, as Python's are. Embedding.Api.batches_of counts rounds, one for each
-- text, which are enough since each round takes a text at least. Tasks.Wait.wait has the number
-- of its polls as fuel, and gives none if they are used up. The other loops are structural
-- recursion, so each returns. The worker, the read pool and a stream do not end by themselves:
-- they are step relations.
--
-- Parameters: what DuckDB decides (whether it takes a row, a statement or a WHERE clause, and
-- which rows the clause selects), the embedding server, jieba, str.lower, the search index,
-- json.dumps and json.loads, the clock, the utf-8 codec, what HTTP makes of a path, and the
-- operator classes' methods. What a query sees of a table is modelled by the meaning of the
-- visibility conditions; the text of the SQL is modelled beside it.
--
-- Not modelled: that DuckDB converts a value to the type of its column when it stores it (the
-- rows of the model hold the values as they were bound, and a row whose values it refuses is a
-- parameter); the setup of DuckDB's extensions, the indexes of hybrid search and the writing of
-- the lance datasets; the bridge table between a bash phase and a database phase, and how the
-- system runs a process; the bridge thread and the closing of the read pool; the waiting of a
-- stream; the reading and sending of HTTP bodies. These are calls of DuckDB, of the operating
-- system or of asyncio, with little logic of the program's own around them. The proofs of
-- concept (poc/) are not part of the library.
pub mod Base
pub mod Value
pub mod Json
pub mod Schema
pub mod Store
pub mod Files
pub mod Write
pub mod Admin
pub mod Embedding
pub mod Search
pub mod Runtime
pub mod Operator
pub mod Pipeline
pub mod Tasks
pub mod Wire
pub mod Api
pub mod Streams
pub mod Examples
