-- ===== src/Tests.antt =====
-- The theorems at concrete inputs.
mod Text
mod Threads
mod Views
mod Serializer
mod Watchers
mod Encodings
mod Failures
mod Buffers
mod Digests
mod Rects
mod Timer
mod Numbers
mod Streams
mod Crypto
mod Net
mod Cli
mod Files
mod Delegates
mod Judger
