-- ===== src/Lib.antt =====
-- A verification library for the hardware-test dispatcher: the HTTP job broker (server.py), the plan
-- language and its tar container (plan.py), the schemas of plugin ops (plugin.py), the registry of
-- devices (registry.py), the run of one job (session.py), the bench host's loop (poller.py) and some of
-- the drivers' own logic (plugins/).
--
-- An agent submits a plan with POST /submit. The broker queues it under the SHA-256 of its body, a
-- poller claims it with GET /plan, runs it on the bench, and posts an artefact tar under the same
-- digest, which the agent fetches and deletes. A job is a file that moves between directories, and
-- cancels are marker files. The poller parses the plan's text into ops, looks the devices up in a
-- registry, decodes the arguments of each op by its schema, and runs the ops in order.
--
-- Files and the code they model:
--   Base            helpers: lists, dicts (Dict), text (Text), integers (Int), errors (Result)
--   Json            JSON values
--   Server/Digest   SAFE_DIGEST_RE, SAFE_NAME_RE, parse of uploaded names
--   Server/Store    the state directory, as one dict for each kind of file
--   Server/Meta     _read_meta and the writer of meta files in queue_job
--   Server/Queue    queue_job
--   Server/Submit   _meta_from_headers, Handler._submit_job
--   Server/Pickup   Handler._pickup, Handler._rollback_pickup
--   Server/Upload   Handler._artefact, delete_outputs, fetch and HEAD, Handler._receive_status
--   Server/Cancel   Handler._cancel_job, Handler._resolve_stale_cancel, the release and sweep marks
--   Server/Sweep    prune_stale_jobs, _gc_outputs, Handler._wipe_all_jobs, Handler._pull_cancels
--   Server/Jobs     Handler._list_jobs, the job list
--   Server/Workers  _BoundedThreadingServer
--   Server/Lifecycle one job from its submission to its clean-up
--   Server/Steps    the requests as atomic steps on the state; Server/Invariant is about those
--   Plan/Value      Value, _parse_value          Plan/Tokens   shlex.split as parse_text calls it
--   Plan/Args       _parse_args                  Plan/Text     Op, parse_text
--   Plan/Tar        load_tar, extract_description
--   Plan/Devices    split_device_ref, required_devices, required_device_refs
--   Schema          decode_args and the typed reads of Value
--   Registry        the state of DeviceRegistry
--   Registry/Specs  refresh, refresh_plugin, release_now, close_all
--   Registry/Lend   _Acquire
--   Registry/Resolve DeviceRegistry.resolve
--   Registry/Threads the threads that acquire, release and refresh devices, as steps of one world
--   Session/Stream  Stream
--   Session/Locks   the device locks of Session.run_all, from the first acquire to the last release
--   Session/Run     Session._run_block, Session._run_one, the status of pack_artefact
--   Session/Devices Session._resolve_device, Session._run_device_op
--   Poller/Spool    _spool_artefact, _post_spooled, _drain_pending_uploads, _gc_refused_spools
--   Poller/Dispatch _dispatch, _validate_against_plugins, _worker and the slots of the main loop
--   Poller/Cancels  _drain_cancels
--   Poller/Transfer ProgressLine, _timeout_left, the loops of _get and _post_streamed, _meta_float
--   Poller/Supervisor _supervise, _heartbeat_stale
--   Plugins/Prbs    XorShift32Bytes               Plugins/Escapes   decode_escapes
--   Plugins/Msc     _write_generated, _verify_generated and the ops on them
--   Plugins/Fpga    _xfer and _verify of plugins/fpga.py; Fpga/Mpsse reads the bytes they write
--
-- The tests and concrete runs stand in the Tests module of each part.
--
-- State is passed explicitly: a handler takes the State record and returns its reply and the new
-- State. Times are milliseconds on the native numbers, and a file keeps its modification time when
-- it is renamed. hashlib, json, tarfile, the UTF-8 codec and Python's Unicode character classes are
-- parameters (Externals, Files, PyText), as are the code of the ops, the clock and the cancel flag
-- (Runner), how a reply gets through (Delivery) and the outcome of a plugin's open (Opened), the replies of a server to a post (Posted),
-- the clock of the poller (Moment), what runs while a session runs (World of Poller/Dispatch), and
-- the counts that os.read and os.write return (Os). Loops are structural recursion on the listing
-- they walk, or recursion on fuel where they go by a count: the chunk loops have one more than the
-- bytes to transfer, which is enough since each round transfers at least one. The pickup's retry loop
-- has its source's budget of eight rounds, and each round has the interference of other requests as a
-- function on the state. Threads are step relations: Server/Steps, Registry/Threads, Poller/Spool/Uploads
-- and Poller/Dispatch/Slots.
--
-- Not modelled: the staging directories of write_atomic, HTTP framing and the routing of paths, the web page, the examples, the command line
-- clients, the other drivers of the bench hardware, the control verbs and the watchdog of a session,
-- verify_sweep, list_devices, and of the poller the status snapshots, the release and sweep drains,
-- log rotation and the signal handlers.
pub mod Base
pub mod Json
pub mod Plan
pub mod Plugins
pub mod Poller
pub mod Registry
pub mod Schema
pub mod Server
pub mod Session
