-- ===== src/Tests.antt =====
-- Runs of the definitions, and each theorem with hypotheses at an input that meets them.
mod Decimal
mod Store
mod RiskTests
mod SizingTests
mod LimiterTests
mod ExecutionTests
mod IngestTests
mod SignalTests
mod NotifyTests
mod SignalServiceTests
mod ReconciliationTests
mod GatewayTests
mod FeatureTests
mod LoggingTests
mod TerminalTests
mod MlTests
