-- ===== src/Engine.antt =====
-- The engine below the requests: nano_qwen3tts_vllm/engine.
pub mod Effects
pub mod Sequence
pub mod Blocks
pub mod Scheduler
pub mod Talker
pub mod Predictor
mod Tests
