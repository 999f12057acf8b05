-- ===== src/Lib.antt =====
-- CUDAForge: the Python side of an inference engine for language models, and its evaluation tools.
--
-- The engine (cudaforge/engine.py) registers a prompt in the paged cache, queues the request in the
-- native batcher, and at every step turns the tokens of the native runner into results, which the
-- streaming engine delivers to one queue a request. The HTTP front (serving/) sheds load, holds
-- permits, and streams the events of a generator that stands in for the engine. Speculative decoding,
-- quantization, the evaluation platform (eval_platform/), the benchmarks and the profiling tools stand
-- beside these.
--
-- What stands where:
--   Prelude, Fixed: tests on numbers, lists, dictionaries in insertion order, integers, floats as a
--     record of operations, and a fixed-point instance of them for concrete runs.
--   Engine: cudaforge/engine.py. Types has its data; Native is the interface of the C++ extension, a
--     state with the calls that the engine makes, of which registering a sequence and appending to it
--     may raise; Core is `LLMEngine`, where building a native request raises on parameters that are no
--     32-bit integers (csrc/bindings/pybind_module.cpp); Streams is `AsyncLLMEngine`. Sync, Ownership,
--     Outputs and Delivery are about these.
--   Speculative: cudaforge/speculative.py. Tensors lists the tensor operations as parameters, Sampling
--     is `_sample_next_token`, Step is `step`, whose random numbers come from an explicit generator, with
--     Verified and Acceptance.
--   Quantization: cudaforge/quantization.py: Levels (`quantize_int8`), Packing (`pack_int4_gemm` and
--     `unpack_int4_gemm`, bit by bit on bytes), Nibbles and RoundTrip; Divergence
--     (`compute_kl_divergence_scale`) and Threshold.
--   Serving: Backpressure (serving/middleware.py and serving/app.py) as two halves of a request, with
--     Load for any interleaving of them; Generator and Generate (serving/api/v1/generate.py), with the
--     value of the semaphore as state, and Permits.
--   Triton: the kernels of csrc/kernels/triton/. Device has what they use of Triton's language, with
--     memory as a function of offsets and a launch as the list of its stores, and the laws of
--     arithmetic without rounding; Stores is about memory after stores. FlashAttn
--     (flash_attn_triton.py) with OnlineSoftmax, Tiles, Attention and Launch; Int4Gemm
--     (int4_dequant_triton.py) with Nibbles, Dequant and GemmLaunch; Rope (fused_rope_triton.py), whose
--     programs run on the tensors in any order, with Rotation, RopeLaunch and RopeGrid. Numbers is
--     an instance of the arithmetic for concrete runs.
--   Eval.Pareto: eval_platform/statistics/pareto.py. Eval.Accuracy: `evaluate_correctness` in
--     eval_platform/pipelines/accuracy_eval.py, with the table of `_lcs_length`. Eval.Latency:
--     eval_platform/pipelines/latency_eval.py (Profile), whose step function may raise and which asserts
--     a CUDA device, with Steps and Schedule.
--   Eval.Workloads: the loader of eval_platform/workloads/dataset_loader.py, and
--     eval_platform/workloads/error_analysis.py. Eval.Tracking: the artifact store and the experiment
--     logger of eval_platform/tracking/, over a file system that maps paths to contents, with a
--     serialization that may raise half-way. Eval.Analyzer:
--     eval_platform/statistics/analyzer.py, over numpy. Eval.Orchestrator and
--     Eval.Matrix: eval_platform/orchestrator.py, which composes the latency profile, the analyzer,
--     the error analysis and the logger, with SuiteRecords, SuiteRuns and MatrixSize.
--   Benchmarks: the scheduler's simulation in benchmarks/suite/bench_continuous_batch.py (Batcher,
--     Counts, Admission), the page pool of benchmarks/suite/bench_paged_kv.py (Pool), and
--     benchmarks/regression_runner.py (Regression).
--   Profiling: profiling/cuda_event_tracer.py (Tracer, Sections) and
--     profiling/memory_leak_detector.py (Leaks). cudaforge/profiler.py: Csv and Ncu (the command and the
--     parsing of its table), with CsvPrint, Keys, Grouping, Reports and Profiled, and Timing
--     (`CUDAEventProfiler`), with Rounds.
--
-- Fuel: the simulation of the batcher runs on a number of rounds, and the requests' remaining work is
-- enough of them when every prompt fits the budget; a stream of batches runs at most as many rounds as
-- there are samples. Every other loop is recursion on its list or counter.
--
-- Not modelled: the C++ and CUDA sources under csrc/, which are a parameter of the engine, with the
-- documented behaviour of the page tables in Registers; the sampling kernel; tensors, statistics,
-- clocks, hashes, paths and JSON, which are parameters where the code calls them; printing and
-- logging; health and metrics. Floats are any type with the operations of Prelude.Float: a theorem that
-- needs an order or exact arithmetic on them says so.
pub mod Prelude
pub mod Fixed
pub mod Engine
pub mod Eval
pub mod Quantization
pub mod Speculative
pub mod Benchmarks
pub mod Profiling
pub mod Serving
pub mod Triton
