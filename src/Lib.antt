-- ===== src/Lib.antt =====
-- Verification of the studio host (src/studio_host.cpp, src/user_plugin_portability.h): the loading
-- of user plugins with its crash containment, the streaming outputs with their egress gate, the
-- recordings and replays, the renderer's scenes and sources, the control server
-- that serves them, and the texts and encodings that these stand on.
--
-- The parts and their files:
--   Prelude         shared names, Boolean tests, lists, bytes, results; Prelude/Ordered is
--                   `std::map<std::string, V>` and `std::set<std::string>` with their order.
--   Json/Escape     `json_escape`.
--   Scanner         `user_plugins::ManifestScanner`. Its position `pos_` is the rest of the text; an
--                   operation returns what the method returns with the rest it leaves. Scanner/Utf8
--                   has `hex_digit_value` and `append_utf8`, Scanner/Number the numbers,
--                   Scanner/Value `skip_value`.
--   Manifest        the launch manifest: its types and arrays; Manifest/Parse has
--                   `user_plugins::parse_manifest_text`.
--   Sentinel        `namespace plugin_sentinel`: `State`, `serialize`, `resolve`; Sentinel/Parse has
--                   `load_or_throw`.
--   Plugins         Portable (the predicates on names), Record (`UserPluginRecord`), Plan
--                   (`build_user_plugin_load_plan` behind the inventory), Load
--                   (`load_user_plugin_candidates`, `PluginLoadWatchdog`, `classify_failed_dlopen`),
--                   Image (`parse_macho_archs`, `parse_pe_archs`),
--                   Boot (`build_user_plugins_boot_report_json` up to the report, and the part of
--                   `parse_args` that reads, resolves and probes the sentinel), Probe
--                   (`probe_user_plugin_binary`).
--   Encodings       Encodings/Sha256 (`Sha256Stream`, `sha256_hex_of_bytes`), Encodings/Base64
--                   (`base64`), Encodings/Frames (`send_text_frame`, `read_text_frame`);
--                   Encodings/Standard is SHA-256 as FIPS 180-4 has it, and
--                   Encodings/Chunks, Compression, Reference and Digest are proofs.
--   Rpc/Fields      `extract_json_string`, `extract_json_int`, `extract_json_bool`, `std::stoi`;
--                   Rpc/Fields/Decimal is a proof.
--   Output          `OutputController`: its state; Output/Endpoint (`parse_rtmp_endpoint`),
--                   Output/Control (`configure`, `start`, `start_live`, `stop`, `subscribe`),
--                   Output/Tick (`tick`); Output/Endpoint/Url, Custody, Flags, Reachable and Replies are proofs.
--   Recording       `RecordReplayController`; Recording/Confined is a proof.
--   Rpc/Tokens      `parse_json_string_token`, `extract_json_object_body`.
--   Rpc/Identity    `sanitize_json_string_token`, `is_json_number_token`, `extract_json_id`;
--                   Rpc/Identity/Numbers has the grammar of JSON numbers; it and
--                   Rpc/Identity/StringBody and Rpc/Identity/Untouched are proofs.
--   Rpc/Reply       what a request is answered with.
--   Renderer        `RendererState`: its model and its mirrors in libobs; Renderer/Mirror (the
--                   `mirror_` methods), Renderer/Settings (`parse_settings_body`), Renderer/Create
--                   (`create_source`), Renderer/Scenes (`load_scene`, `set_program`),
--                   Renderer/Edits and Renderer/Requests (the requests on one source, item or
--                   filter: what they check and change, and how they find it), Renderer/Steps (the
--                   states that they reach); the other files of Renderer are proofs.
--   Server          `ControlServer`: its members and the sending of results; Server/Overlays
--                   (`NativeOverlayManager`), Server/Headers (`parse_headers`), Server/Table
--                   (`build_command_table`, `handle_message`), Server/Session (`handle_client`);
--                   Server/Composed and Server/Served are proofs.
--   Tests           runs of the definitions.
--
-- How they interact: at a launch the manifest and the sentinel of the last run are parsed with the
-- scanner, `resolve` turns them into suspects and used grants, the plan's candidates that are
-- suspected are refused, and the load loop attempts the others one by one, with the sentinel written
-- before each attempt, by the watchdog on a hang, and at rest behind the loop. What the modules,
-- libobs and the file system do is the parameter `World` of Plugins/Load: for each module reference
-- the outcome of its attempt and whether each write goes through. `PluginLoadWatchdog`'s thread is
-- the outcome of a hanging attempt; the second open behind a failed one has outcomes of its own, which the
-- thread does not watch. A sentinel file is the state that it holds.
--
-- An output is driven by requests, by the control server's `tick` and by signals of libobs: the
-- steps of Output/Reachable. What the sockets, libobs and the clock answer is an argument of each
-- step. A reply is a refusal with its code and message or an answer without its JSON text.
--
-- Recordings and replays meet `std::filesystem`, the environment and the disk as the `World` of
-- Recording, one for each request.
--
-- The renderer is generic in the type that stands for `double`: `Std` is what the code asks of it
-- and of the regular expressions. `Libobs` is what libobs answers during one request. A source, an
-- item or a filter that a request edits is replaced in the model, which is what writing through the
-- iterator or the reference does.
--
-- The server puts the components together: a client's connection is a list of turns, each with what
-- came in, what everything outside answers, and the signals of libobs in front of it.
--
-- Texts are lists of bytes. Sizes are natural numbers without a bound; the code's are `size_t`.
-- A `while (true)` over a text runs on fuel, one more than the length of the text left: each round
-- takes at least one byte, so a run that needs more does not exist. The string loop has the length
-- of the text. `skip_value` has the code's own bound of 65 levels.
--
-- Paths are POSIX paths, and the build is the one with libobs outside Windows. Not modelled: the
-- engine's life cycle and everything that only calls libobs or the operating system, the sockets
-- and the importers, the captures and rasters, SHA-1 with the handshake, the
-- images' encodings, and the discovery of the plugins on disk.
mod Prelude
pub mod Encodings
pub mod Json
pub mod Scanner
pub mod Manifest
pub mod Sentinel
pub mod Plugins
pub mod Rpc
pub mod Output
pub mod Recording
pub mod Renderer
pub mod Server
pub mod Tests
