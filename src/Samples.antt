-- ===== src/Samples.antt =====
-- Tests on small inputs, and the theorems at inputs that meet their hypotheses.
mod Pipelines
mod Executions
mod Witnesses
mod Bronze
mod Hooks
mod Kafka
mod Parallel
mod Debezium
mod Schemas
mod Simulator
mod Metrics
