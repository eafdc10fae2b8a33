-- ===== src/App.antt =====
-- internal/app: the services.
pub mod Deviation
pub mod Validator
pub mod Outlier
pub mod Consensus
pub mod PriceService
pub mod Request
pub mod Convert
pub mod Alerts
pub mod Address
pub mod Registry
pub mod Admin
