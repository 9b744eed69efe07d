-- ===== src/OpenAi.antt =====
-- provider/openai.rs: the parts of the client that turn the bytes of an answer into events. Sse is
-- the decoder of server-sent events, Boundary where a frame ends, and Decoder what is proved of it.
pub mod Sse
pub mod Boundary
pub mod Frames
pub mod Decoder
pub mod Push
pub mod Chunks
pub mod RoundTrip
pub mod Events
pub mod Responses
pub mod Reasoning
pub mod Noted
pub mod Replays
pub mod SearchLimits
mod EventTests
mod Tests
