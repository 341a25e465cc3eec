-- ===== src/Examples.antt =====
-- Tests of the definitions, and the theorems applied at concrete inputs.
mod ErrorsAt
mod ClientsAt
mod ServerAt
mod ActionClientAt
mod ParametersAt
mod NodeAt
mod UntypedActionAt
mod CommonAt
mod BuildAt
mod ContextsAt
mod MemoryAt
mod LifecycleAt
mod GeneratedAt
