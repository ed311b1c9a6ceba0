-- ===== src/Orchestration.antt =====
-- services/api/app/orchestration: the runtime that carries one analysis job from its receipt to
-- its result.
pub mod Exceptions
pub mod StateMachine
pub mod CircuitBreaker
pub mod Budget
pub mod PolicyEngine
pub mod Retry
pub mod EventEngine
pub mod Store
pub mod Claims
pub mod Clarification
pub mod Engine
pub mod Worker
pub mod ToolDedup
