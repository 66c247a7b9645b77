-- ===== src/Tests.antt =====
-- Runs of the theorems on concrete inputs; `Sample` holds the inputs.
mod Sample
mod Alarms
mod Overlay
mod Panel
mod Memory
mod Layouts
mod Wire
mod Requests
mod Swing
mod Boot
mod Widgets
