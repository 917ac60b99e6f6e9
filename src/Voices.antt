-- ===== src/Voices.antt =====
-- The stored voices: nano_qwen3tts_vllm/voice_store.py and its clients.
pub mod Effects
pub mod Filtering
pub mod Rows
pub mod Store
pub mod Picking
pub mod Finding
pub mod Validity
pub mod History
pub mod Choosing
pub mod Enabled
pub mod Uploads
mod Tests
pub mod Naming
pub mod Mapping
pub mod Prepared
pub mod Service
pub mod Routes
