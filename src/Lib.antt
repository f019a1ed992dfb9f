-- ===== src/Lib.antt =====
-- black_circle, a Twitter client for the console, as functions and relations.
--
-- The program keeps the OAuth parameters of its account in a `token_requester` (oauth.hpp), which
-- signs each request with the escapes and digests of util.hpp. What the server sends is HTTP, which
-- `http_client` (http_client_inst.cc) reads in chunks, and JSON (json_parser.hpp); black_circle.cc
-- gives one value at a time to `process_single_entity`, which puts tweets and their authors into
-- the two stores of twitter.hpp, takes deleted tweets out, and prints. conversion.cc converts what
-- is printed and typed between UTF-8 and the encoding of the locale.
--
-- The files, and the sources that they are about:
--   Prelude     lists, bytes, strings and machine integers that the others share
--   Util        util.hpp: `Hex` and `Escape` for `url_escape`, `Base64` for `base64_encode`; the
--               decoders that stand in `Decode` are those of a server, of whom `Received` speaks
--   StringMap   `std::map<std::string, V>` as a list in the order of its keys
--   OAuth       oauth.hpp: `token_requester`; a call that changes it returns the new requester. `Server`,
--               `Header` and `Query` are the server of the OAuth core, with its own encoder, order,
--               base string and parsers; `Verify` is about the two sides
--   Json        json_parser.hpp: the variant of values; of json_parser_inst.cc `Utf8` is `ucn_to_utf8_t`,
--               and `Grammar` the rules of `json_parser`; below it `Doc` has texts and what they stand
--               for, `Reads` is about `parse_json`, and the other files are about one rule each
--   Twitter     twitter.hpp and twitter.cc: `Types` for the objects, `UserStore` and `TweetStore` for the
--               two containers, `Build` for the constructors from JSON and `insert_new_tweet`
--   Entity      black_circle.cc: `process_single_entity`, and the loop over a timeline
--   Http        http_client.hpp and http_client_inst.cc: a request as it goes out
--   Qi          what http_client_inst.cc uses of Boost.Spirit.Qi; `Rules` follow from the interface;
--               `Recursive` is what json_parser_inst.cc uses of it
--   Answers     http_client_inst.cc: `Grammar` has the three parsers, with a file on each, and `Reader` the
--               handlers of the reads; `Reader/Delivery` is about chunks, `Reader/Broken` about a connection that
--               breaks off, `Reader/Plain` about the rest
--   Client      black_circle.cc: `twitter_client`. `Session` is about what it sends, `Handler` defines
--               `http_handler`, and `Handler/Answers` is about it
--   Stream      http_client_inst.cc and black_circle.cc: the responses of a user stream, as they are handed
--               over; `Tweets` goes from the bytes of a connection to the stores
--   Shell       black_circle.cc: the commands of `console_handler`; `Print` is about "print", `Keeps` about
--               what the commands do to the client
--   Auth        black_circle.cc: `do_initial_auth` and its two handlers; `Access` is about the second request
--   Launch      black_circle.cc: `main`, and in `Session` what the program sends from its start
--   Conversion  conversion.cc: the loops around iconv, and in `Windows` the calls of that system
--   Console     console.cc: `out_handler`, and in `Typing` `in_handler`
--   Devices     console.cc: `piped_stdio`, with the proof in `Redirect`, `Restored` and `Stdio`, and in
--               `Termios` `raw_termios`
--   Reads       console.cc: `stream_descriptor_impl` and its threads; `Locks` is about the mutex, `Once`
--               and `Posts` about the handlers, `Ends` about the destructor
--   Sockets     http_connection.hpp: the streams of Boost.Asio, each of their operations,
--               `Lifetime` for `connection`, `Clients` for the constructors of
--               `http_client` (http_client_inst.cc)
--   Tests       the theorems at concrete inputs
--
-- State is passed on: an operation takes the stores, or the requester, and returns the new ones
-- beside its result. An exception is a result that keeps what was written before it. Reading the
-- end of a container is a result of its own, `undefined`, so a theorem can say when it happens.
-- Members that the program leaves unset hold a value that is a parameter (`Fresh`).
--
-- The reading half of `http_client` is a state machine. Its state is the buffer, the read that is
-- under way with its completion handler, and what the server has still to send; a step lets some
-- bytes come, or runs the handler of a read that is complete. The reads of `stream_descriptor_impl`
-- are one too: its state is what each thread and the destructor have come to, with the mutex, and a
-- step is one of a thread or of the destructor, so a sequence of steps is an interleaving of them.
--
-- Libraries are records of their operations and of what they document: `Crypto` for OpenSSL,
-- `Platform` for dates, `Iconv` for conversion descriptors, `Asio` for sockets, `Posix` for
-- descriptors, `Tty` for the terminal, `WindowsApi` for its conversions, `Qi` and `Rules` for the
-- parsers of Boost.Spirit. The grammar of JSON refers to itself, so what `parse_json` makes of a
-- text is a relation; the handler of answers has it as a parameter, a function. JSON numbers with a
-- fraction are a type parameter, since no code reads one. A client of HTTP is made by a call that
-- connects and may throw (`make_http_client`, by `Draw.connects`); calls that only start a read or a
-- write of a socket have no effect on the state here. `iconv_open` may fail (`unopened`).
--
-- Fuel: `encode_loop` of base64 gets one step for each byte, and each of its rounds reads at least
-- one. `push_loop` gets five, since a 32-bit value is below 0x80 after five shifts by six.
-- `convert_loop` gets one more than the bytes of its text, since each round but one on an empty
-- text reads or passes over a byte. The loop over backspaces gets one more than the bytes of the line.
--
-- Not modelled: connections that break off within a header or a body without chunks; the modes of
-- the Windows console; the constructor of `output_handler_impl`; the event loop and the options of
-- `main`.
pub mod Answers
pub mod Auth
pub mod Client
pub mod Console
pub mod Conversion
pub mod Devices
pub mod Entity
pub mod Http
pub mod Json
pub mod Launch
pub mod OAuth
pub mod Prelude
pub mod Qi
pub mod Reads
pub mod Shell
pub mod Sockets
pub mod Stream
pub mod StringMap
pub mod Tests
pub mod Twitter
pub mod Util
