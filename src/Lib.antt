-- ===== src/Lib.antt =====
-- kvbench (src/kvbench) answers chat requests without a model: it keeps the KV-cache traffic of an
-- LLM server real, and replaces the compute by modelled delays. A server tokenizes the prompt,
-- asks the KV stack how much of it is cached, reads that part, and stores the full chunks of the
-- rest; the stack hands each call to the LMCache engines of its tensor-parallel ranks. A warmup
-- fills the stack before a benchmark, and a proxy sends the prefill and the decode phase of a
-- request to separate servers.
--
-- Files. Prelude and its modules hold what all parts use: lists over the native numbers,
-- range(start, stop, step), exceptions as a result type, texts as lists of code points, and
-- str and int.
-- Chunks is TokenChunk and TokenProcessor of src/kvbench/core/tokens.py, one function for each
-- method (chunk_tokens, chunk_tokens_with_metadata, compute_chunk_hash, find_prefix_match,
-- simulate_tokenize). SHA-256 comes from the standard library of Python, so it is a parameter,
-- and a lemma names what it needs of it. CacheKey is CacheKeyConfig and CacheKeyGenerator of the
-- same file: the keys are texts, and parse_key returns the exceptions of the source.
-- Proxy is DisaggregatedProxy of src/kvbench/servers/proxy.py. A handler runs without interruption
-- from one await to the next, and with a stream from one yield to the next; each such segment is a
-- function on the state of the proxy, and a run is a list of events of both handlers in any order.
-- Warmup is WarmupController of src/kvbench/servers/warmup.py in the same style: the calls of
-- start and cancel, the turns of the run, of its workers and of the eviction check are events.
-- Models is the part of ModelProfile (src/kvbench/core/models.py) that sizes a KV cache, and Stack
-- is LMCacheStack of src/kvbench/kv/lmcache_stack.py with the statistics of src/kvbench/kv/base.py
-- over a parameter for the LMCache engine.
-- Combined is CombinedServer of src/kvbench/servers/combined.py over any KvStack, the interface
-- of src/kvbench/kv/base.py as a record of calls; Disaggregated is PrefillServer and DecodeServer
-- (src/kvbench/servers/prefill.py and decode.py) over one shared stack. Both run one request at a
-- time. What they ask of the stack is stated by two records of laws: its lookups answer whole
-- chunks of the sequence, and, where a theorem says so, it raises nothing and evicts nothing.
-- Gpus and the rest of Models are the registered profiles of src/kvbench/core/gpu_profiles.py and
-- models.py. Latency is LatencyCalculator of src/kvbench/core/latency.py, its FLOP counts over the
-- natural numbers and its times over Numbers, an interface of floats with laws. Timing is
-- src/kvbench/timing: the roofline and the simple strategy, the times of communication, and the
-- factory; Timing.Contract states what a server relies on. Combined.Delays gives the combined
-- server its timing strategy and the sleeps of a request.
-- Messages is the prompt and the answers of src/kvbench/servers/openai_compat.py; Combined.Stream
-- holds the two handlers of the combined server that answer with them. App is the start, the
-- shutdown and the routes of src/kvbench/servers/app.py with both factories (servers/factory.py and
-- kv/factory.py). Trace is the recorder of src/kvbench/trace/recorder.py, whose calls under the
-- lock are the steps of a run, with the reader and the analysis of analyze.py and the numbers of a
-- job in fio.py; json.dumps and json.loads are parameters there, and the round trip asks that they
-- read back each recorded event. Trace.Hooks is install_lmcache_trace of recorder.py with the hooks
-- around the calls of a storage backend, which is a parameter.
-- Calibration is src/kvbench/timing/calibration.py, the third strategy, over the same floats, with
-- the loading of anchor files.
-- Stack.Contract joins the LMCache stack to the servers as a KvStack, and Stack.Agreement compares
-- the statistics of the two.
-- Config is the reading of environment variables and endpoint lists in src/kvbench/core/config.py,
-- and Config.Fields the sections of KVBenchConfig with the ranges and validators of their fields.
-- Each component has a module Examples with runs and the theorems at small inputs.
--
-- Bounds and fuel: numbers are unbounded as in Python, the four bytes of a token are written out
-- with the exception above 2^32, and the eight bytes of a nonce with their remainders. No
-- definition takes fuel: loops recur on their lists, range recurs on the number of its values,
-- and the loop of a warmup worker is one event for each turn.
--
-- Not modelled: NaN, infinite floats and what rounds to zero; the passing of time, so a sleep is a
-- number and the elapsed time of a request an input; the decoding of YAML and JSON files, which is a
-- parameter where anchors are loaded; the bodies of the routes, the command line, the conversion of
-- values to their types by pydantic and its checks of a request, metrics export, logging and
-- rendering. Negative token limits are outside the model, and so is a lookup of the KV stack that
-- answers more tokens than it was asked for.
pub mod Prelude
pub mod Chunks
pub mod CacheKey
pub mod Proxy
pub mod Warmup
pub mod Numbers
pub mod Gpus
pub mod Models
pub mod Stack
pub mod Combined
pub mod Disaggregated
pub mod Latency
pub mod Trace
pub mod Messages
pub mod App
pub mod Timing
pub mod Calibration
pub mod Config
