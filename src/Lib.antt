-- ===== src/Lib.antt =====
-- Caedral Notre Engine: an engine that serves mixture-of-experts models larger than the memory, by
-- reading expert slices from disk on demand into a cache.
--
-- The program's parts, and how they interact. At boot the memory budget (core/include/cne/memory_budget.h,
-- core/src/memory) clamps the size of the expert cache and suggests a KV context. While a model runs, the
-- streaming callback (runtime/cne_stream_cb.cpp) tells the slice cache (core/include/cne/cache.h,
-- core/src/features/streaming/cache.cpp) which expert slices a step needs; the cache fills misses through
-- the direct file reads (direct_io.cpp), several at a time on the lanes of the read scheduler
-- (io_scheduler.cpp), and evicts what is least recent. The server (server/cne-server.cpp) authenticates
-- requests and limits their rate with runtime/cne_api.cpp, and keeps a sequence of the llama.cpp context
-- for each conversation with runtime/cne_session.cpp.
--
-- The files. `Prelude` and its children hold what the others share: Boolean tests, lists measured by native
-- numbers, bytes, 64-bit words, sets and maps as lists of distinct keys.
--   Cache: `SliceCache`. `Defs` has the state, `make_room_locked` (`make_room_round` is its loop's body) and
--     `commit_locked`; `Ops` has `fill_slice`, `touch_locked`, `touch`, `touch_at`; `Batch` has `touch_batch`,
--     `touch_batch_at` and the three phases of `prefetch_batch_at`. An operation runs under the cache's
--     mutex, so it is one function of the state; `none` is `abort` or undefined behaviour. The memory of the
--     process is a function of the address, which fills write and evictions clear. `map_` with its iterators
--     is a list of pairs, with the list `lru` of keys.
--   Memory: `Budget` is memory_budget.h and memory_budget.cpp, `Kv` is kv_budget.h and kv_budget.cpp.
--   Session: `Llama` is the part of llama.cpp that runtime/cne_session.cpp calls, a parameter with the laws
--     that llama.h documents; `Defs` and `Store` are `SessionStore`, `Prefill` is `session_prefill` with what
--     it calls.
--   Api: runtime/cne_api.cpp. `Load` is `load_settings`, `Parse` reads key files, `Auth` is `authenticate`,
--     `Limit` is `RateLimiter`, `Conversation` the conversation ids.
--   Io: `Scheduler` is `IoScheduler` as a step relation, one step for what a thread does between two points
--     where it gives up the mutex; `Direct` is `DirectFile::read_aligned`, with `pread` as a parameter.
--   Gguf: `Stream` and `Reader` are core/src/gguf/gguf.cpp, over a file that is its list of bytes: the cursor
--     with its reads, and `open` with the lookups; `Types` has `ggml_type_name`. `Format` writes files for the
--     proofs. `Classify` is classify.cpp; `Registry` and `Build` are model_registry.cpp beside it.
--   Config: `Env` is `env` of core/src/config.cpp with its map of resolved values, `Knob` the idiom by which
--     runtime/cne_runtime.cpp and runtime/cne_api.cpp read numbers and flags.
--   Runtime: `Policy` and `Context` are the decisions of `runtime_prepare` and `runtime_load_llama` in
--     runtime/cne_runtime.cpp.
--   Streaming: runtime/cne_stream_cb.cpp. `Names` has `node_rank` and `rank_name`, `Lookahead` the queue with
--     `stream_step_boundary` and the worker, `Dense` the binding of dense tensors, `Router` the gate on the
--     mass of experts, `Callback` the nodes and the windows, `Serve` the expert branch, `Eval` the whole
--     `stream_cb_eval`. The arithmetic of doubles and the cache are parameters.
--   Server: server/cne-server.cpp. `Emitter` is `Emitter::visible`, which hides think blocks; `TokenStream` is
--     the handoff between generation and HTTP with `emit_token`; `Request` is `resolve_conversation_id` and
--     `trim_messages_for_context`; `Generate` is the loop of `generate_sequential` and `bind_conversation`.
--   Tools: `Prepare` is `main` of tools/cne-prepare.cpp from the open reader to the copied file.
-- The other children of these hold proofs, and `Tests` runs the theorems at concrete inputs.
--
-- Numbers. `size_t` and `uint64_t` are native numbers with `add64`, `sub64` and `mul64` where the source
-- computes; where it matters that nothing overflows, a theorem asks for it. An `int` index is a number, the
-- pattern of its 32 bits. The addresses that pages are dropped at, and the places in a file that `fseek` goes
-- to, are numbers without a bound: mapped memory and files stay far below the end of the machine word.
-- `(uint64_t)((double) mem_available * safety_margin_frac)` is a parameter.
--
-- Loops and fuel. `make_room_locked` runs on fuel one above the length of the list, and each round evicts one
-- key. The eviction loops of `get_or_create` run on the number of slots. `session_prefill` calls itself after
-- a reset, and two levels are enough. The loop of `suggest_serving_kv` runs on fuel, of which 1537 rounds
-- are enough where it ends at all. The loop of `visible` runs on one more than the length of the text. The
-- loop of `read_aligned` needs a round for each interruption, each byte and one more. `prefill_chunked` runs
-- on the number of tokens. `skip_value` runs on two more than the bytes that are left, of which every level
-- of nesting takes some; `trim_loop` on one more than the messages; the digits of a number n on n + 1. The
-- loop of `generate_sequential` runs on the tokens asked for, `copy_loop` on one more than the bytes to copy.
--
-- Not modelled: the speculative decoder, which works on the graphs and the sampler of llama.cpp; in the
-- callback the dumps, the audit builds and the telemetry; in the boot code the warm pass and the calls that
-- load the model; the server's routes and its configuration file, the setup wizard, the other tools and the
-- ggml seam, which are I/O and glue; the Python gateway.
pub mod Prelude
pub mod Cache
pub mod Memory
pub mod Session
pub mod Api
pub mod Io
pub mod Gguf
pub mod Server
pub mod Config
pub mod Streaming
pub mod Tools
pub mod Runtime
mod Tests
