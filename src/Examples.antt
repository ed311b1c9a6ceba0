-- ===== src/Examples.antt =====
-- Concrete runs of the models, each with the theorems applied to it.
mod StateMachine
mod CircuitBreaker
mod Limits
mod Retry
mod EventEngine
mod Claims
mod Lifecycle
mod Audit
mod Clarification
mod Command
mod ValueLocator
mod Worker
mod CsvParser
mod ToolDedup
mod Engine
mod Facts
mod Normalization
mod Candidates
