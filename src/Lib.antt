-- ===== src/Lib.antt =====
-- modern-data-platform: the processing framework of src/data_platform/processing, the Bronze
-- consumer of src/streaming/consumers/bronze_consumer.py with the decoding and the schemas of its
-- rows, and parts of the simulator of src/simulator.
--
-- A `Pipeline` is an ordered collection of stages, some of them in groups. An executor walks over
-- it: it tells the `ExecutionRuntime` what happens, which keeps the state of the execution in the
-- `ProcessingContext` and in ContextVars; it tells the hooks; and after a stage has failed it asks
-- the `PolicyManager` whether to retry it, to go on or to stop. What comes of it is a
-- `PipelineResult`.
--
-- The Bronze consumer polls one Kafka topic for each entity in turn, buffers the decoded rows, and
-- hands a full or old buffer to a worker thread, which writes it to the Bronze table and then commits
-- the offsets. An error leaves the buffer for a new attempt, or drops it if the consumer has to rejoin
-- its group.
--
-- The simulator fills the database that the connector watches: it buffers insertions, retries those
-- that collide, and moves orders through their statuses with time.
--
-- Files:
--   Prelude, Prelude/*: names of the libraries, Boolean tests, lemmas on lists, integers, Python's
--     dict as an association list (Dict), and the values of `Any` (Value).
--   Processing/Outcome: how a call ends; an exception is the name of its type and its text.
--   Processing/Core/Status, Results, Context, Stage, Pipeline: the classes of processing/core.
--     A stage is what its `execute` does to the context and to the world outside.
--   Processing/Machine: the state of one `execute` and the actions on it. An action returns the
--     state beside every outcome, since an exception undoes nothing. Machine/Ensures has the rules
--     of a Hoare logic for these actions.
--   Processing/Runtime: runtime/execution_runtime.py.
--   Processing/Hooks: hooks/hook_manager.py and the events. A hook is told from others by its id.
--   Processing/Policies: policies/*.py.
--   Processing/Executor/Base: executor/base_executor.py; Processing/Executor/Sequential:
--     executor/sequential_executor.py. The nested loops of `_execute_pipeline` are `run_stages`
--     over the stages and `run_attempts` over the attempts of one stage, whose body is `on_outcome`.
--   Processing/Executor/Parallel: executor/parallel_executor.py. `_run_stage` is cut at its awaits
--     (`advance`), and a scheduler that sees the whole state picks the member of a group that runs
--     next (`gather`); each member has its own copy of the ContextVars. Parallel/Groups has the loop
--     over the groups.
--   Processing/Metrics: processing/metrics/prometheus_metrics_hook.py, as a function of the events.
--   Streaming/Bronze: the `_EntityBuffer`, the body of the loop of `run_bronze_consumer` for one
--     entity (`turn`) and its parts; Bronze/Flush: `_flush`, cut where it calls out of the
--     process (`flush_step`); Bronze/Interleavings: turns and flushes of all entities in any order. A
--     turn is one step, so its own calls are not interleaved with those of a flush. The MessagingProvider, the
--     decoder of envelopes and the writing of rows are the fields of `Backend`; what the consumer
--     relies on of them is `Documented`.
--   Streaming/Kafka: integrations/kafka/messaging/kafka_messaging_provider.py, over the Kafka client
--     as a parameter; Kafka/Contract makes it a `Backend` of the Bronze consumer.
--   Streaming/Debezium: integrations/kafka/messaging/debezium_envelope.py, over JSON values; what
--     Python raises on a value of the wrong type is written out. Debezium/Encoding has the
--     messages of the connector, as the docstring of that file describes them.
--   Compute/BronzeSchema: data_platform/compute/bronze_schema.py; Processing/Extraction: the types
--     and values of processing/extraction/postgres_extraction_stage.py.
--   Simulator/BatchWriter, UniqueInsert: simulator/core/batch_writer.py and unique_insert.py.
--   Simulator/OrderStatus: simulator/domain/orders/order_status_service.py, whose SQL statements are
--     functions of the tables that they read and write.
--   Simulator/Inventory: simulator/domain/inventory/inventory_repository.py and restock_service.py, and
--     the reservation of simulator/domain/orders/order_service.py.
--   Samples: sample pipelines, tests, and the theorems at concrete inputs.
--
-- Bounds: the `while True` over the attempts of a stage takes a unit of fuel for each attempt. The
-- policies of the package ask for a retry only while the attempt number is below the maximum, so
-- `max_attempts` units are enough (and one where `max_attempts` is 0, which Python's `or 1` reads
-- as 1). Gathering a group takes a unit of fuel for each step of a member; `group_cost` adds up the
-- steps that the members may take: an event is a step for each hook and one more, and each attempt
-- is a call, an event and a decision. Times are natural numbers of microseconds, and the limit of the
-- timeout policy an integer. A flush has at most four steps.
--
-- Not modelled: the hooks that log and trace, the stages of the medallion layers, the generators of
-- the simulator and the integrations. A stage, a hook or a policy of the application is a parameter:
-- any function of the context, the variables and the world. It may raise, and it may change the
-- context, but it does not change the executor, the pipeline or the ContextVars. In a parallel group
-- the `execute` of a stage, a hook, and the evaluation of the policies are one step each, and a task
-- works on its own copy of the ContextVars, as asyncio gives it one. Of the Bronze consumer metrics,
-- logs and the schemas read before the loop are left out; the worker pool's size only delays flushes,
-- which an interleaving may do too. Left out are also a `BaseException` that is no `Exception` (a
-- cancelled task), a negative `max_attempts` of a stage, and a `started_at` without a time zone,
-- from which the timeout policy could not be computed.
pub mod Prelude
pub mod Processing
pub mod Compute
pub mod Streaming
pub mod Simulator
pub mod Samples
