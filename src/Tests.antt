-- ===== src/Tests.antt =====
-- The theorems applied to small concrete inputs.
mod Sample
mod Codes
mod PagingTests
mod AuthTests
mod BoardTests
mod UpkeepTests
mod SessionTests
mod HitlTests
mod ManagerTests
mod LimiterTests
mod EventTests
mod LifeTests
mod AccessTests
