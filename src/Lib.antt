-- ===== src/Lib.antt =====
-- Pipeline C++ is a header library that builds typed pipelines from stages and runs them. A finished
-- pipeline is a list of stages, some of them branch nodes: a selected branch runs the first case
-- whose predicate holds, a fan-in runs every case whose predicate holds. An engine runs the stages
-- in order, turns what they report or throw into runtime errors, and tells an observer of each step.
--
-- The files, and the code that they model:
--   Error       include/pb/runtime/error.hpp and src/runtime/error.cpp: `error`, `stage_id`,
--               `describe`, `to_json`
--   Json        `append_json_string`, which src/runtime/error.cpp (Json/Runtime),
--               include/pb/core/export_json.hpp (Json/Graph) and include/pb/runtime/trace.hpp
--               (Json/Trace) define each; Json/Reader is a reader for JSON strings that stands beside
--               the code, as the description to compare it with
--   Result      include/pb/runtime/result.hpp: `result`, `to_result`, `normalize_expected_error`
--   Observer    include/pb/runtime/observer.hpp: one event for each handler of `observer`
--   Stage       the parts of a finished pipeline (include/pb/core/pipeline_state.hpp: `branch_case`,
--               the branch nodes, `fan_in_case_result`; include/pb/core/stage_traits.hpp) and the
--               stage ids of include/pb/runtime/sequential.hpp
--   Sequential  include/pb/runtime/sequential.hpp: Calls has the error and notification helpers and
--               what surrounds a call, Branch the selected branches, Settling and FanIn the fan-ins,
--               Engine `invoke_stage`, `try_run_after_result` and the engine's `try_run`,
--               `try_run_range` and `try_run_each`, TypedRun its `run`
--   ThreadPool  include/pb/runtime/thread_pool.hpp: the queue, the workers and the counters, and one
--               function for each critical section; its threads are steps in any order
--               (ThreadPool/System)
--   ThreadPoolBackend
--               include/pb/runtime/thread_pool_backend.hpp and the token of
--               include/pb/runtime/cancellation.hpp: a fan-in whose cases are posted to a pool; the
--               thread of the run and the workers are steps in any order (ThreadPoolBackend/System)
--   FanInError  include/pb/runtime/fan_in_error.hpp: the failed cases of a fan-in and their report
--   Sample      a small fan-in for tests
--   ErrorPolicy include/pb/runtime/error_policy.hpp: `pipeline_exception` and the four wrappers that
--               decide what a failed run comes to
--   Verbose     the same file's `verbose_observer` and `verbose_engine`
--   Policy      the markers of include/pb/core/policy.hpp, `append_policies` of
--               include/pb/core/pipeline_state.hpp and, of include/pb/runtime/sequential.hpp,
--               `apply_error_policy`, `apply_diagnostics_policy` and `compile`
--   Trace       include/pb/runtime/trace.hpp: the events of `trace_observer` and the lines that
--               `tracing_sink` writes
--   CppType     the types that the builder compares
--   Builder     the builder of include/pb/core/pipeline_state.hpp: `append_stage`, `append_branch`,
--               `append_join`, `append_fan_in` and `finalize_pipeline` with their assertions, and the
--               stages that the engine makes of what is built; the values of a type are in
--               Builder/Values
--   ThreadPoolBackend/Engine
--               `invoke_stage`, `run_stages` and the engine of include/pb/runtime/thread_pool_backend.hpp;
--               ThreadPoolBackend/Points has the places where a run of it can stand
--   State       include/pb/runtime/state.hpp: the stack of states of each thread, its scopes, the
--               storage policies and `stateful_engine`; State/Spec has the policies as abstract
--               machines, State/Factory the factories, State/Access the calls that read and replace an
--               engine's state
--   Descriptor  include/pb/runtime/descriptor.hpp: `make_descriptor`; Descriptor/Records has the
--               records, those of include/pb/core/describe.hpp among them, and Descriptor/Buffer the
--               strings that are made at compile time
--   ExportJson  include/pb/core/export_json.hpp: `to_json`; ExportJson/Reader is a reader for its
--               documents that stands beside the code
--   ExportDot   include/pb/core/export_dot.hpp: names, labels and the form of linear pipelines;
--               ExportDot/Branches and ExportDot/Ways have the form of pipelines with branches,
--               ExportDot/Statements a reader of both that stands beside the code, and
--               ExportDot/Graph and ExportDot/Linear the graphs that it finds
--   Registry    include/pb/tooling/cli_registry.hpp: `pipeline_registry`
--   Routing     include/pb/runtime/routing.hpp: `select_route`
--
-- How the model corresponds to the code:
--   * A template over stage types is a function of a `Callable`, a record of the type's name and key,
--     the state of a new object, the object's `operator()` and the state of the object that the
--     engine stores. What the compiler decides (`if constexpr`) is a case distinction. The static
--     types of inputs and outputs are erased: one type `A` stands for what stages return, and a value
--     on its way between stages is such a value, a `std::variant` of a branch or the aggregate of a
--     fan-in. Void inputs and outputs are the case that `A` is the unit type.
--   * A call of user code has an `Outcome`: it returns, throws a `std::exception` with a text, or
--     throws anything else. The `try` blocks of the code are case distinctions on it. User code
--     cannot reach the observer, and an observer's handlers return: what the code does when one throws
--     (the thread pool makes it the error of the fan-in) is not modelled.
--   * An action has type `Run`: it takes the observer, with the events that it has been sent, and
--     gives it back. A null observer records nothing.
--   * A text is the list of its bytes. Numbers of cases and stages are unbounded, where the code has
--     `std::size_t`: they are the lengths of lists that are template arguments.
--   * The recursion over the stages and over the cases is structural, so runs end when the calls of
--     user code do; no fuel is used but in `decimal`, the digits of a number, where the number itself
--     is enough.
--
-- Not modelled: the messages of the compile-time checks, the text form of graphs, the clone helpers,
-- the trace export to one document, the adapters and the command line tool.
pub mod Builder
pub mod CppType
pub mod Descriptor
pub mod Error
pub mod ErrorPolicy
pub mod ExportDot
pub mod ExportJson
pub mod FanInError
pub mod Json
pub mod Observer
pub mod Policy
pub mod Prelude
pub mod Registry
pub mod Result
pub mod Routing
pub mod Sample
pub mod Sequential
pub mod Stage
pub mod State
pub mod ThreadPool
pub mod ThreadPoolBackend
pub mod Trace
pub mod Verbose
