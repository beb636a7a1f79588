-- ===== src/Lib.antt =====
-- brokit: the JavaScript runtime library, by the parts of it that are modelled.
--
-- The natives are C++ functions that the engine calls with script values. Each part keeps its
-- state in globals of its file; a part touches another one by calls only, and the host drives
-- them all by a tick. What a native is told by the operating system, the engine or the access
-- gate is an argument of its model; what it asks of them is in its result.
--
--   * Net.antt is src/api/net_internal.h and the operations of src/api/net.cpp on a socket:
--     NetEvent, NetHandle (`fd` is none for BROKIT_INVALID_SOCKET), hard_close (hardClose),
--     fail_handle (failHandle), flush_out_buf (flushOutBuf). Net/Calls and Net/Open are its
--     natives (js_net_write is `write`, js_net_tcp_listen is `tcp_listen`), Net/Tick and Net/Loop
--     the rounds (js_net_tick is `tick`), with the branches for Linux and macOS. `Net` is
--     g_handles and g_nextId; an operation returns its new state with a list of `Effect`s, the
--     calls of the system and of the gate that it made. Net/Sound, Net/Turns, Net/Opening and
--     Net/Invariant carry an invariant of a socket through them, Net/Reach through histories;
--     Net/Stream is about the bytes of a connection.
--   * Storage.antt is the map and the file format of src/api/storage.cpp (`load_text` is
--     loadStorage on the text, `save_text` what saveStorage writes), Storage/Store its object. A
--     std::map is a list of entries whose keys rise.
--   * Base64.antt is src/api/base64.cpp, and base64Encode of src/api/blob.cpp.
--   * Blob.antt is blobSlice, startRead and the abort of a FileReader of src/api/blob.cpp; a
--     Reader is ReaderData with the tasks it posted and the events it has still to dispatch.
--   * FsWatch.antt is the ring of src/api/fs_watch.h and src/api/fs_watch.cpp, in the steps of
--     its two threads: pushEvent is push_check, push_write and push_publish, or push_drop; drain
--     is drain_check, drain_take, drain_advance and drain_finish.
--   * Watching.antt is the table of watchers of src/api/fs_watch.cpp: CtxState,
--     js_fs_watch_create (`watch_create`), js_fs_watch_close (`watch_close`), the gate's callback
--     (`revoke_watcher`), the reports of js_fs_watch_tick (`take_revoked`) and uninstallFSWatch.
--   * Path.antt is src/api/path.cpp, for both platforms (`windows` is kWindows): normalizeInto
--     (`normalize`, its loop's body `place`), js_join, js_resolve, js_dirname, js_basename and
--     js_extname. Path/Find, Path/Segments and Path/Normal are about normalizeInto, Path/Names
--     about the others.
--   * Http.antt is src/api/http.cpp: ParserHandle and the callbacks of llhttp (on_header_field is
--     `on_header_field`, and so on), `run_callback` one of them. Http/Natives is its table of
--     parsers and its natives; what llhttp calls back and answers in one call of llhttp_execute
--     is an `Execution`. Http/Message is about one header, Http/Delivery about several calls.
--   * Async.antt is src/api/fs_async.cpp: what each operation asks the gate for. Async/Asking is
--     js_fs_async up to the job, Async/Pool the pool's queues, its threads' steps (`pick`,
--     `finish_job`), every JS thread's promises and js_fs_async_tick, Async/File the work of
--     readFile and writeFile. Async/Tally, Async/Settling and Async/Draining are about the
--     promises, Async/Reading about readFile. What the work of an operation comes to is an
--     argument of `finish_job`.
--   * FsFd.antt is openSync and the table of descriptors of src/api/fs_fd.cpp, FsFd/Calls its
--     other natives, FsFd/Window the place in a buffer. A std::fstream is the operations called
--     on it.
--   * WebSocket.antt is WsConnection and the tables of src/api/websocket.cpp, WebSocket/Frames
--     what it does with the frames of libcurl, WebSocket/Natives its natives and the parts of
--     js_ws_tick (`tick_messages`, `tick_frames`, `tick_reap`). `Ws` keeps a log of the promises
--     settled, the frames sent and the connections destroyed; following a pointer to one that was
--     destroyed would be written down there. The other files are proofs.
--   * Fetch.antt is FetchRequest, FetchState and the callbacks of libcurl of src/api/fetch.cpp,
--     and the schemes of src/api/fetch_response.cpp; Fetch/Options the options of js_fetch,
--     Fetch/Natives its natives (`abort_request` is abortRequest, `fetch_local` is
--     queueLocalResponse), Fetch/Tick the parts of js_fetch_tick and `fetch_tick`, the whole.
--     Phase 3 is `finish`: `complete`, with the reader that it calls, and `close`; `current` is the
--     request between the two. The readers that wait are those of src/api/js/fetch_helpers.js
--     (`try_read`), called where abortRequest and the tick call them; what they do to the table is
--     there for the lines behind the call. FetchState has a log like Ws, and following an iterator
--     or a pointer to a request that is gone would be written down there. Fetch/Kept, Fetch/Cases,
--     Fetch/Sound, Fetch/Rounds, Fetch/Adding, Fetch/Steps, Fetch/Whole and Fetch/Idle carry an
--     invariant of a request to the histories of Fetch/Reach; Fetch/Body, Fetch/Stream and
--     Fetch/Given are about the bytes of a body, Fetch/Ends, Fetch/Loop and Fetch/Served about the
--     tick.
--   * Compression.antt is src/api/compression.cpp: CodecState, pumpDeflate and pumpInflate
--     (`pump_deflate`, `pump_inflate`), parseGzipHeader; Compression/Natives is codecPush,
--     codecFinish and codecCreate. What each call of miniz answers is in a list, and mz_crc32 is
--     a parameter. Compression/Header, Compression/Prefix and Compression/Waiting are about the
--     header of gzip, Compression/Framing about a compressor, Compression/Phases and
--     Compression/Integrity about a decompressor.
--   * Child.antt is ChildHandle of src/api/child_process_internal.h and the natives of
--     src/api/child_process_spawn.cpp on a child, for Linux and macOS (js_childPoll is
--     `child_poll`, and so on; `add_child` the end of js_spawnAsync). Child/Pipe is one of its
--     pipes: pipeReader in the steps of its thread, and what js_childRead takes. Child/Kept and
--     Child/Grants are about what the gate granted.
--   * Access.antt is the text part of src/api/access_policy.cpp.
--   * Prelude.antt is what the modules share.
--
-- Bounds and fuel. Texts are lists of bytes (ℕ; where it matters, `AreBytes` says that they are
-- below 256). The loop of loadStorage runs on the length of its text and one more, which
-- Storage/Text shows to be enough. The loops of the tick of net.cpp take at most 16 connections
-- or datagrams and 8 reads, as in the source; the loop over ::send takes one result for each
-- call, and the socket blocks behind the last, as miniz makes no more progress behind its last
-- call. Those of readFile run on fuel that Async/Reading shows to be enough. A round of the tick
-- of websocket.cpp polls a connection ten times, and ws_send_all tries fifty times, as in the
-- source. Ids and a reader's generations are unbounded, where the source's int and uint64_t would
-- wrap.
--
-- Not modelled: how arguments are read from script values, the engine's conversion of strings, the
-- Windows branches of src/api/net.cpp and src/api/child_process_spawn.cpp, what the operations of
-- src/api/fs_async.cpp other than readFile and writeFile do on the pool, and the parts that mostly
-- call other libraries or the system: the responses that fetch builds for the script, the
-- synchronous fs, the creation of processes (execSync, most of js_spawnAsync), process, os, crypto,
-- image, noise, SQLite, IndexedDB, the scripts under src/api/js, the runtime's event loop, and the
-- vendored libraries.
pub mod Prelude
pub mod Access
pub mod Async
pub mod Base64
pub mod Blob
pub mod Child
pub mod Compression
pub mod Fetch
pub mod FsFd
pub mod FsWatch
pub mod Http
pub mod Net
pub mod Path
pub mod Storage
pub mod Watching
pub mod WebSocket
