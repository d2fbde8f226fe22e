-- ===== src/Lib.antt =====
-- A verification library for cpp-essence.
--
-- Texts are lists of bytes, bytes and machine words are numbers with their bounds, and a map is an
-- association list that keeps the order of the first insertion. Messages to handlers and the
-- operating system stay outside, and code of other libraries is a parameter.
--
-- Prelude: the names that all files share, Boolean tests, lists, texts and maps.
-- Text: include/essence/char.hpp, include/essence/string.hpp and src/string.cpp; Text.View: the
--   searches of include/essence/zstring_view.hpp.
-- Numeric: include/essence/numeric_conversion.hpp over std::from_chars and std::to_chars, for
--   unsigned integers. The fuel of write_digits is one more than the number, which bounds the count
--   of its digits in every base from two on.
-- Net.Ipv4, Net.Ipv6: the addresses of include/essence/net and src/net with their texts. Reading
--   the zone of an IPv6 address past the end of its array is `none`.
-- Net.Sse: the event stream between src/net/sse_server.cpp and src/net/sse_client.cpp. How a line
--   is read is a parameter, since the HTTP library does it.
-- Cli.Matching, Cli.ArgParser: src/cli/arg_parser.cpp, for any options: what an option does with a
--   value is a parameter with a state of its own. The loop over the arguments runs on fuel, of which it needs
--   as much as there are arguments. Arguments are taken to hold no NUL characters.
-- Cli.BaseOption: the names and aliases of src/cli/option.cpp.
-- Cli.RangeOption: options that hold ranges, of include/essence/cli/option.hpp, and join_with of
--   include/essence/range.hpp. The parser of arguments calls them through parse_value_and_cache.
-- Delegate: include/essence/delegate.hpp, which the parser, the options and the event stream use to
--   call their handlers. The listeners and the buffer that callers read are one state; a call is
--   the list of the functions it makes. Delegate.History says what a history of subscriptions
--   promises.
-- Globalization: src/globalization, the compiler of language files and the translator that reads
--   them. The file system is a record of functions.
-- Io.TypeJudger: src/io/bitstream_type_judger.cpp on a buffer and on a stream, for any order of the hints.
-- Io.Spanbuf: include/essence/io/spanbuf.hpp over bytes, with the calls of the standard base class
--   that read and write between its pointers.
-- Io.StdioWatcher: src/io/stdio_watcher.cpp on POSIX. What the descriptors name is a table; which
--   closed one the system hands out is a parameter, and a stop that never returns is `none`.
-- Imaging: src/imaging on a buffer: the extractors of PNG, BMP and JFIF headers, and Imaging.Prober,
--   which picks one of them by what the judger says.
-- Color: include/essence/argb_color.hpp with the predefined colours.
-- Memory: include/essence/memory/swapping_buffer.hpp, over spans of any kind, and
--   include/essence/memory/nonuniform_grid_buffer.hpp, whose template arguments are arguments; and
--   include/essence/memory/atomic_readable_buffer.hpp, whose loads and stores are steps of two threads.
-- Crypto.Pipeline: what a chain of chunk processors promises, without buffers. A processor of OpenSSL
--   is a parameter, a function from a state and a chunk to both; that the cuts between chunks do not
--   matter to it is the hypothesis IsStreaming. Whether a call succeeds is a function too. Sizes stand
--   below 2 ^ 31, where the casts to int32 keep them.
-- Crypto.Spans, Crypto.Chain: src/crypto/chunk_processor.cpp with chunk_processing_helper.hpp and
--   inout_buffer_pair.cpp, on regions of bytes and spans of them, over the swapping buffer. A write
--   past a span's end, a call whose input and output overlap, and an exception are results of their own.
-- Crypto.Ostream: the stream buffer of src/crypto/ostream.cpp over any processor, whose failed calls
--   leave it as exceptions.
--   The buffer for the output of a processor is taken to be large enough there.
-- Thread.ParallelFor: parallel_for of src/thread.cpp. A schedule names the worker of each step and
--   what a call of the handler that ends does, so every interleaving is a schedule. The counter wraps
--   around at 64 bits.
-- Thread.Timer: src/interruptable_timer.cpp. The worker and the thread that starts and stops the
--   timer are state machines whose steps come in any order: each load, store, notification and wait is
--   a step, and a wait with a time limit may end at any time. Only the notifications
--   of change_state, and with them the destructor's store of stop_pending_, are one step. The atomics are sequentially consistent.
-- Exceptions: src/exception.cpp and the search in include/essence/exception.hpp.
-- Encoding: src/encoding.cpp, with c16rtomb and mbrtoc16 of the C library as parameters. The loop
--   over bytes runs on fuel, of which it needs one more than twice the number of characters.
-- Crypto.Digest: src/crypto/digest.cpp. The functions of OpenSSL are parameters, which are handed the
--   low 32 bits of sizes, and so is the file system. The loop over a file runs on fuel, of which it
--   needs more than the file has bytes.
-- Rect: include/essence/rect.hpp on integers without bounds.
-- Meta.NamingConvention, Meta.JsonSerializer: include/essence/meta/naming_convention.hpp and to_json
--   of include/essence/meta/runtime/json_serializer.hpp, with what the thread keeps as a state that is
--   passed on.
-- Numeric.Gcd, Numeric.Rational: include/essence/rational.hpp on integers without bounds. The fuel
--   of the greatest common divisor is one more than the second number, which shrinks in each round.
-- Numeric.PowerOfTwo: ceil_power_of_two of include/essence/math.hpp for 64 bits.
-- Crypto.BufferSize: calculate_output_buffer_size of src/crypto/inout_buffer_pair.cpp over both.
-- Tests: the theorems at concrete inputs.
--
-- Not modelled: reading images from streams, the HTTP client, what OpenSSL does, keys and ciphers,
-- reflection, JNI, the JSON library and the ports, which are bindings, generated or of other
-- projects, and flags, compression, file systems and the sums and orders of rational numbers.
pub mod Prelude
pub mod Text
pub mod Meta
pub mod Encoding
pub mod Exceptions
pub mod Rect
pub mod Numeric
pub mod Net
pub mod Cli
pub mod Globalization
pub mod Io
pub mod Memory
pub mod Crypto
pub mod Color
pub mod Imaging
pub mod Delegate
pub mod Thread
pub mod Tests
