-- ===== src/Tests.antt =====
-- Runs at concrete inputs, and the theorems at inputs that meet their hypotheses.
mod Memory
mod StoreTests
mod CommitTests
mod KubeTests
mod WebhookTests
mod ReconcileTests
mod SweepTests
mod ConfigTests
mod ControllerTests
mod Fixed
mod NotifyTests
mod RetryTests
mod RuleTests
mod DecisionTests
