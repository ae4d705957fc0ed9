-- ===== src/Lib.antt =====
-- mmx (ppmmx), a live media server built on MediaMTX: a verification library for its own logic.
--
-- Parts, and the files that model them. Paths are from the repository's root.
--   Degrade    internal/degrade: the per-path ladder that tells an OBS executor how many Simulcast
--              layers to publish and at which bitrate. `State` is the struct of that name. Degrade
--              has its methods (observe_session_layer_count, degrade, recover, bind_conn, unbind_conn),
--              Degrade/Sample has Sample and recordSample, Degrade/Manager the registry, and
--              Degrade/Race the parts of BindConn between which other calls may come.
--   Selector   internal/protocols/webrtc/track_selector.go: the Simulcast layer that one reader
--              receives. `TrackSelector` is the struct of that name, and select, on_access_unit,
--              set_track_dimensions and load_from_description are its methods.
--   Abr        internal/servers/webrtc/abr_controller.go: the automatic choice of that layer from the
--              loss and the round trips that the reader reports. `Controller` is abrController, and
--              observe_rtt, evaluate and reset are its methods; video_ladder and step are the
--              functions of those names. Its input is the selector's record.
--   PathConf   internal/conf/path.go: which names a path can have (is_valid_path_name) and which
--              configuration a name falls under (find_path_conf). A name is the list of its bytes; the
--              settings of a configuration are two values, by whether a running path can take them.
--              The package of regular expressions and sort.Slice are parameters.
--   PathManager internal/core/path_manager.go: the map of the paths. `Manager` is the struct
--              `pathManager`; PathManager has the handlers, PathManager/Reload doReloadConf, and
--              PathManager/Sessions the manager, the paths and the requests that were handed one as a
--              system that steps in any order. What the paths do is in StreamPath; here they may ask
--              to be closed at any time.
--   PauseState internal/protocols/webrtc/media_state.go: what one WHEP reader gets while video or audio
--              is paused, and the wait for a keyframe after a resume. `MediaState` is the struct;
--              set_video_paused, video_needs_keyframe and allow are its methods. The number of an
--              IDR's NALU type, a constant of another module, is a parameter.
--   StreamPath internal/core/path.go: one path. `StreamPath` is the struct `path`; StreamPath/OnDemand
--              has the on-demand state with its timers, which the code has twice, for a static source
--              and for a publisher; StreamPath/Handlers the helpers of the handlers, and
--              StreamPath/Steps the handlers, runInner, and the start and the end of run. Requests,
--              authors and targets are numbers; an event is a message of a channel or a timer.
--   Moq        internal/protocols/moq: the codecs of Media over QUIC. Moq has errors, results and
--              readers; Moq/Varint the integers of varint/varint.go, with `Unmarshal`, `Read`,
--              `MarshalSize`, and `MarshalTo` and `Marshal` as one function `marshal`; Moq/Property
--              the object properties of property/, whose decoding loop has one unit of fuel for each
--              byte and one more; Moq/Subgroup the subgroup streams of subgroup/, where the largest
--              slice that `make` takes is a parameter; Moq/Parameter the parameters
--              of parameter/; Moq/ControlMessage the messages of controlmessage/, with the encoders in
--              Moq/ControlMessage/Encode; Moq/Reorderer the reorderer of reorderer/, whose map of pending
--              subgroups is the list of them.
--   Recording  internal/recordstore/segment.go: the segments that a walk over the files finds
--              (find_segments, find_all_paths_with_segments), and, in Recording/Cleaner,
--              internal/recordcleaner/cleaner.go: what a run of the cleaner removes (do_run). The file
--              system, `Path.Decode`, CommonPath and the sorts are parameters; the file system is asked
--              after the segments that were removed so far.
--   Base       the shared names, tests, list lemmas, integers and the interface of float64.
--
-- How the code is read. A method that changes its receiver returns the new record, with what it sends
-- or calls back as a list in order; its mutex makes it one step. Instants are clock readings in
-- nanoseconds, with `none` for the zero time.Time where the code asks for it. float64 is a parameter
-- (Base.Float) with conversions, products, quotients and comparisons, of which the theorems use only
-- the laws of the order. Counters are natural numbers, and each subtraction of the code is guarded
-- there. The loops are structural recursions, save those of Moq/Property and Moq/Reorderer, which are
-- on fuel; for the latter 2 ^ 64 is enough, since its loop counts up a group id.
--
-- Not modelled: log lines, network and file input and output, and the parts of the repository whose
-- work is done by libraries.
pub mod Base
pub mod Degrade
pub mod Selector
pub mod Abr
pub mod PathConf
pub mod PathManager
pub mod PauseState
pub mod Moq
pub mod Recording
pub mod StreamPath
