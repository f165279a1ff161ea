-- ===== src/Tests.antt =====
-- Concrete runs of the components, and their theorems at concrete inputs.
mod MuxcoolFrame
mod RuleTable
mod FakeIpPool
mod MuxcoolServer
mod TrojanHeader
mod VlessHeader
mod SocksSession
mod MeterLimits
mod MeterRegistry
mod GroupChoice
