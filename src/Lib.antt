-- ===== src/Lib.antt =====
-- CC Switch Trans is a local HTTP proxy between AI clients and their upstream services. A request is
-- routed by its method and path to a profile, its headers are filtered, the profile's rules rewrite
-- its JSON body, and it is passed on to the profile's upstream; what requests hold in memory is
-- bounded by a budget that all parts share. Profiles are edited as documents, which are validated and
-- compiled to a snapshot with the route table and the rules. On Windows a tray process owns the proxy and a GUI process controls it over a named pipe, on which
-- framed messages travel under a handshake with sequence numbers and state revisions. This library
-- models these cores and proves what they promise to their callers.
--
-- The parts, and the files that model them (paths from the repository's root):
--
-- - Core/Url.antt: src/core/url.cpp, `canonicalize_http_path`, `join_url_path` and their helpers. A
--   text is a list of bytes (Common/Bytes.antt). The loop over the path runs on fuel; each round
--   takes a byte at least, so the length of the path is enough. Core/Url/Units.antt cuts a path into
--   the units that a round takes, Canonical.antt is about the canonical form, Safety.antt about what
--   it excludes.
-- - Core/UpstreamUrl.antt: `parse_http_url` of the same file. An exception is a value of `UrlError`.
-- - Core/HeaderFilter.antt: src/transport/header_filter.cpp, with `tolower` and `isspace` as in the
--   "C" locale.
-- - Core/Budget.antt: src/core/inflight_memory_budget.cpp with the in-flight counters of
--   src/core/runtime_metrics.cpp. Each atomic loop is one step, that of the round whose exchange
--   succeeds; 64-bit additions wrap. Core/Budget/Leases.antt is about one lease, Accounts.antt about
--   sequences of calls.
-- - Core/Sha256.antt: src/core/sha256.cpp, with the bytes of the buffer that are in use as a list. The
--   loop over the blocks runs on the size of the content, of which each round takes 64 bytes.
--   Core/Sha256/Stream.antt is about contents that arrive in pieces, Padding.antt about the digest,
--   Vectors.antt holds a test vector. Of `sha256_file_hex` the pieces that the reads deliver are the
--   input; failures to open or read a file are not modelled.
-- - Routing.antt: src/routing/route_table.cpp, which canonicalises by Core/Url.antt. The handler and
--   the pipeline of a profile are parameters, since the table compares them with null at most; the
--   hash maps are association lists, whose order is observable nowhere. Routing/Lookup.antt is about one
--   call of `add`, Namespace.antt and Answers.antt about the lookups of a table that calls of it have
--   filled, with what `add` keeps of the table in Listed.antt and the
--   sorted methods in Methods.antt.
-- - Ipc/Enums.antt, Ipc/Messages.antt: src/gui_ipc/protocol_types.hpp and protocol_types.cpp, the
--   enumerations with their names and the records that are exchanged.
-- - Ipc/Frame.antt: src/gui_ipc/frame_codec.cpp. The decoder is the record of its buffer, offset and
--   failure flag. Both loops run on fuel, the inner on the number of buffered bytes, of which each
--   round reads five at least, the outer on the number of bytes delivered, of which each round takes
--   one at least; Ipc/Frame/Stream.antt and Consume.antt prove both enough, against the plain
--   parser of Ipc/Frame/Parser.antt. Delivery.antt is about streams that arrive in chunks,
--   Roundtrip.antt about frames that a sender encoded.
-- - Ipc/Session.antt: src/gui_ipc/session.cpp, the outbound queue and the server's session, and
--   Ipc/Session/Tracker.antt, the client's tracker. A call under the queue's mutex is one step, and
--   `wait_pop` is modelled from the end of its wait on.
-- - Config/Profile.antt: src/config/profile_model.hpp and the identifiers of
--   src/config/config_document.cpp. Config/Fields.antt and Config/Settings.antt:
--   src/config/field_descriptor.cpp, the descriptors in Config/Fields/Descriptors.antt, the fields of a
--   profile and those of the application settings; an `int` is an integer that wraps at 32 bits.
--   Config/Fields/Access.antt and Config/Settings/Access.antt are about writing and reading them,
--   Config/Settings/Parsed.antt about those that are given as text.
-- - Config/Editor.antt and the files below it: src/config/configuration_editor.cpp. Draft.antt has the
--   calls on profiles and rules, Steps.antt batches, validation and commit. The repository, the
--   validation of a snapshot, the rules text and the edits of a rule's JSON options are functions of
--   the record `Calls`. Lists.antt has the searches and edits of lists, Sound.antt and RuleLists.antt
--   what a sound draft is, Runs.antt, RuleEdits.antt, FieldEdits.antt and Batch.antt that the calls
--   keep it, Effects.antt what batches and moves leave.
-- - Config/Document.antt and the files below it: the documents of src/config/config_document.hpp and their
--   checks in src/config/config_document.cpp, of the settings, the profiles, the values of rule options
--   and the whole. The JSON library's values are the record `ConfigJson`; the recursion over a value
--   runs on the levels that its depth leaves. What the standard library says of the name of the log
--   file is a function.
-- - Protocols.antt: src/protocols, the three handlers with their descriptors and the registry, in which
--   a handler has an address beside its descriptor. Protocols/Registry.antt is about what a registry
--   holds.
-- - Config/RuntimeCompiler.antt: src/config/runtime_compiler.cpp, which composes the checks of a document,
--   the protocol registry, the compilation of rules and the route table. Reading an empty
--   `std::optional` is an error of its own. Runnable.antt and Succeeds.antt are about what a
--   profile that was accepted has, Snapshots.antt, Live.antt and Compiled.antt about what a snapshot
--   serves.
-- - Config/EditingService.antt: src/config/config_editing_service.cpp, the validation of a candidate and
--   the service. Agreement.antt compares the routes that it collects with a route table, Compiles.antt,
--   Loop.antt, Failures.antt and Validation.antt its loop with that of the compiler, which it runs at the
--   end.
-- - Rules.antt and the files below it: src/rules. Rules/Json.antt is the interface of the JSON library
--   (nlohmann::basic_json), with what it documents as laws; a write through a reference is a function
--   to the new value. Rules/Pointer.antt is the JSON Pointers of generic_json_rules.cpp,
--   Rules/Fields.antt the rules `set_field` and `remove_field` of it, Rules/Tools.antt the rule of
--   remove_tool_rule.cpp, and Rules/Pipeline.antt the run of a compiled pipeline in rule.cpp, where
--   each call of the library or of a rule comes as its outcome, `InflightBudgetExceeded` and other
--   exceptions included, and the budget as its counters when the new body is accounted for.
--   Rules/Registry.antt is rule_registry.cpp, Rules/Factories.antt the factories that compile the three
--   rules from their options; Registry/Compile.antt and Factories/Kinds.antt are about what they build.
--   Rules/Allocations.antt is rule_json.hpp and rule_json.cpp, which count the bytes that the JSON
--   library allocates, Allocations/Balance.antt is about these counts and Scopes.antt about the context
--   that a thread takes; whether the system has the memory is an argument.
--   Rules/Fields/Lookup.antt and Edits.antt are about values that tokens name, the other children
--   about the rule or the part that they are named for.
-- - App/ControlExecutor.antt: src/app/control_executor.cpp, the bounded queue of control tasks and its
--   worker, with the control counters of src/core/runtime_metrics.cpp. Each critical section is one
--   step; a callback is a number, and is taken to return. App/ControlExecutor/Keys.antt and Runs.antt
--   are about the coalescing keys, Order.antt about the order of the tasks and the end of the worker.
-- - Common.antt and the files below it hold what the parts share: Boolean tests, lists, byte texts
--   and integers. Tests.antt and the files below it apply the theorems to concrete inputs.
--
-- Not modelled: sockets, threads, pipes and windows, the HTTP server and the transports, logging,
-- the reading and writing of configuration documents and the SQLite store, the JSON codecs, the JSON
-- text of local errors, the application controller, and the command line. The path of the log file
-- is checked and resolved by std::filesystem, so these two checks are functions that the validation and
-- the compiler take. Error texts are
-- constructors of data types. Memory is taken not to run out but where a rule's JSON is allocated.
pub mod Common
pub mod Config
pub mod Core
pub mod Routing
pub mod Protocols
pub mod Rules
pub mod Ipc
pub mod App
pub mod Tests
