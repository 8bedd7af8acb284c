-- ===== src/Audio.antt =====
-- The audio path of the gateway: PCM samples, the G.711 codec, the conference mixer, the noise
-- gate, WAV files and the RTP sender.
pub mod Pcm
pub mod G711
pub mod Mixer
pub mod Gate
pub mod Wav
pub mod Rtp
