-- ===== src/EdgeAgent.antt =====
-- edge-agent: what a venue's agent keeps of its camera and microphone, how it packs a clip, and how
-- it pushes one on a trigger.
pub mod Buffer
pub mod Bytes
pub mod ClipFormat
pub mod Wav
pub mod Upload
pub mod WebRtc
pub mod Config
pub mod Server
pub mod Agent
pub mod Capture
pub mod Main
pub mod Tests
