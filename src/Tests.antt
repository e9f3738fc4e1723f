-- ===== src/Tests.antt =====
-- Runs of the model, and each theorem at an input that meets its hypotheses.
mod PolicyRuns
mod PolicyWitnesses
mod ProxyRuns
mod ProxyWitnesses
mod ConfigWitnesses
mod ValidateWitnesses
mod CompileWitnesses
mod GateWitnesses
mod LoadWitnesses
mod BrokerWitnesses
mod AuditWitnesses
mod ProjectWitnesses
mod WatchWitnesses
mod ServiceWitnesses
