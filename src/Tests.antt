-- ===== src/Tests.antt =====
-- The theorems at concrete inputs, and runs of the definitions.
mod Samples
mod StreamTests
mod BusTests
mod SendTests
mod MonitorTests
mod PanelTests
mod EditorTests
mod ThreadTests
mod LinkTests
mod AppTests
