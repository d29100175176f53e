-- ===== src/Lib.antt =====
-- AXM Embodied: a robot that moves only inside a signed safety envelope and records what it does. The
-- Law Gate (src/axm_embodied/gate.py) checks a bounds shard against the enrolled keys and loads its
-- envelope (envelope.py); the Shadow Runtime (runtime.py) rules on every frame by that envelope and has
-- the flight recorder (recorder.py) write it down; the strict judge (streams.py) reads a capsule back
-- and believes the bytes, not the log. Frame capture (frame_capture.py) is a second recorder and judge,
-- for camera frames, whose records form a hash chain. Both share a record header
-- (src/axm_embodied_core/protocol.py). What a judge has accepted is compiled into claims and a signed shard
-- (compile.py, frame_compile.py), whose manifest can be queued for a time stamp (attest.py); the training
-- capsules of a safe robot are what the bounds are compiled from (bounds.py).
--
-- Which file models which part:
--   Common          Python itself: tests on numbers, byte strings, `dict`s, exceptions (`Raise`), exact
--                   floats (`Float`), JSON values, a file with its durable length (`Disk`)
--   Protocol        protocol.py: constants, `pack_header`, `unpack_header`
--   Recorder        recorder.py: `CapsuleRecorder`, `ResidualBuffer`; `record_frame`, `push`, `trigger`
--                   and `close` under their names. Session drives them by any sequence of calls; Frames,
--                   Hot, Cold and Freeze are about single calls, the hot and the cold stream, a freeze;
--                   Stored and Logged are about what any session leaves for the judge
--   Streams         streams.py: `resync_to_magic`, `scan_residuals`, `verify_latent`,
--                   `build_streams_evidence`. Search, Residuals, Latents and Evidence are about
--                   these, in this order, and Recorded is about the capsule of a recorded session
--   Envelope        envelope.py: `load` and what it reads
--   Gate            gate.py: `law_gate`, `authorize`, `enroll_key`
--   Runtime         runtime.py: `guard`, `breach`, and `latent_l_inf` of bounds.py. Norm, Guard, Latch and
--                   Flight are about the norm, one frame, a stopped runtime, a whole flight; Seal has
--                   `seal` and is about what it reports
--   FrameCapture    frame_capture.py: `FrameCaptureRecorder`; Judge has `FrameJudge`, and Evidence is
--                   about what a file that it accepts shows. Session drives the recorder by any sequence
--                   of calls, Records and Invariant say what it has written then, Calls follows each
--                   call, Ended is about the manifest of a closed session, and CrossCheck and
--                   RoundTrip are about the judge of such a capture
--   Compile         compile.py: `extract_candidates`, `compile_capsule`, with the claims of each kind of
--                   event. Claims is about the drawing of candidates, Breach about breach claims, Sealing
--                   about a shard that is reported. Frames has frame_compile.py: `capture_claims`,
--                   `compile_frame_capsule`, with the decoding of the log for `FrameJudge`
--   Attest          attest.py: `queue_attestation`, `list_queue`, `flush_queue`, `encode_tsq`,
--                   `extract_rfc3161_gentime`, `verify_entry_matches_shard`. Der, Entries, Flush and
--                   Gentime are about the encoding, a queued entry, a flush and the time in a response;
--                   Shard has `build_attestation_shard`, and Sealing is about it
--   Bounds          bounds.py: the ingestion of `compile_bounds`, with `read_latent_payload` and
--                   `read_residual_payload`; Finite is about where the norms come from
--
-- State is passed explicitly: a method is a function from the object before to its result and the object
-- after, and what it changed before it raised stays changed. `Error` has a constructor for each raise.
-- A loop that reads a file runs on fuel, the length of the file and one or two more rounds: every round
-- but the last reads a byte, so that the fuel is never used up, which is proved for both scans. The
-- search for a time in a response and the bytes of a length run on fuel that is enough for the same reason.
-- Numbers are unbounded as in Python; the 32-bit fields of a header raise when they are exceeded. A float
-- is exact, a whole multiple of 2^-1074 or an infinity or a NaN, since the modelled code only compares
-- floats and takes absolute values and maxima.
--
-- Parameters: the digests (sha256, blake3), the kernel's `verify_shard`, `int` of a text, `float` of a JSON
-- value, the text of numbers and reasons, the compiler and the attestation queue that `seal` calls, the kernel
-- compiler (`compile_generic_shard`), and in Compile the decoding and printing of texts and JSON. In
-- Attest the time-stamping authority is one, a function of the number of the request, and so is what becomes
-- of the writes that follow its answer. Elsewhere JSON lines are taken as decoded. Not modelled: the percentiles and the claims of bounds.py, keys.py, ids.py, the CLI
-- and the simulator; other failing writes, directories and clocks.
pub mod Common
pub mod Compile
pub mod Protocol
pub mod Recorder
pub mod Streams
pub mod Envelope
pub mod Gate
pub mod Runtime
pub mod FrameCapture
pub mod Attest
pub mod Bounds
