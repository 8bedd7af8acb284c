-- ===== src/Speech.antt =====
-- What is said in a call: how gateway/main.go cuts the sound into utterances, answers them, and cuts a
-- reply into sentences; and the chunks of a recorded leg in gateway/siprec.go.
pub mod Segments
pub mod Sentences
pub mod Chunks
pub mod Conversation
pub mod Transcripts
pub mod Pipeline
