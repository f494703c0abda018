-- ===== src/AgentCore.antt =====
-- `src/kai/agent/core.py` and `src/kai/agent/goal.py`: the agent's tools, its goal, the prompt of a
-- turn, and the turn itself.
pub mod Registry
pub mod Goal
pub mod Chat
pub mod Samples
