-- ===== src/Streams.antt =====
-- The fair stream scheduler of nano_qwen3tts_vllm/stream_scheduler.py.
pub mod State
pub mod Turns
pub mod Pruning
pub mod Rounds
pub mod Rule
pub mod Keeping
pub mod Validity
pub mod Admission
pub mod Outcomes
pub mod Completion
pub mod Cancelling
pub mod Waiting
pub mod Fairness
pub mod Routes
pub mod History
pub mod Abandoned
mod Tests
pub mod Calls
pub mod Audio
pub mod Prepare
