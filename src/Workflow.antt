-- ===== src/Workflow.antt =====
-- Workflows: their definitions are checked by services/app/core/v2_services.py and run by
-- services/app/core/v2_engine.py; people decide on their steps in core/v2_views.py and
-- core/chat_views.py.
pub mod State
pub mod Engine
pub mod ToolStep
pub mod Advance
pub mod Effects
pub mod Turns
pub mod Induction
pub mod Measure
pub mod Records
pub mod Definition
pub mod Started
pub mod Decisions
pub mod Decided
pub mod Verdicts
pub mod Resumed
pub mod Consent
mod Tests
mod DecisionTests
mod ResumeTests
