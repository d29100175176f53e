-- ===== src/FrameCapture.antt =====
-- src/axm_embodied/frame_capture.py: `FrameCaptureRecorder`. `f_frames` is frames.bin byte for byte,
-- `f_log` holds what the lines of events.jsonl say, and `manifest` what capture_manifest.json says.
-- `sha256` is the digest of hashlib, `utf8` the encoding of a text, and `is_blank` tells whether
-- `strip` leaves nothing of a text.
pub mod Judge
pub mod Evidence
pub mod Session
pub mod Records
pub mod Invariant
pub mod Calls
pub mod CrossCheck
pub mod Ended
pub mod RoundTrip
pub mod Tests
use axm_embodied.Common.{
  ℕ, zero, suc, ◌+◌, ◌-◌, ◌*◌, ◌^◌, String, Bool, true, false, ◌||◌, List, [], ◌∷◌, ◌++◌, Option,
  none, some, Bytes, ltb, ◌==◌, if◌then◌else◌, length, Action, ok, err, pure, gets, or_raise,
  raise_if, modify, ◌>>=◌, ◌>>◌, hex, le32, recorder_closed, frame_type, frame_size, trigger_reason,
  struct_range,
}
use axm_embodied.Common.Disk.{File, empty_file, write, tell, fdatasync}
use axm_embodied.Common.Int.{ℤ, pos, negsuc}
use axm_embodied.Protocol.{rec_header_len, pack_header}
use axm_embodied.Recorder.{append_bounded}

abbrev pub magic_frame_file : Bytes
magic_frame_file = b'A' ∷ b'X' ∷ b'F' ∷ b'F' ∷ []

abbrev pub magic_frame_rec : Bytes
magic_frame_rec = b'A' ∷ b'X' ∷ b'F' ∷ b'R' ∷ []

abbrev pub hash_len : ℕ
hash_len = 32

abbrev pub frame_rec_fixed_len : ℕ
frame_rec_fixed_len = rec_header_len + hash_len + hash_len

abbrev pub default_max_frame_bytes : ℕ
default_max_frame_bytes = 32 * 1024 * 1024

-- "axm-embodied/frames@1:"
abbrev pub chain_domain : Bytes
chain_domain =
    b'a' ∷ b'x' ∷ b'm' ∷ b'-' ∷ b'e' ∷ b'm' ∷ b'b' ∷ b'o' ∷ b'd' ∷ b'i' ∷ b'e' ∷ b'd' ∷ b'/' ∷ b'f'
    ∷ b'r' ∷ b'a' ∷ b'm' ∷ b'e' ∷ b's' ∷ b'@' ∷ b'1' ∷ b':' ∷ []

pub record Texts : Type 0 where
  pub sha256 : Bytes → Bytes
  pub utf8 : String → Bytes
  pub is_blank : String → Bool

pub record FrameCaptureConfig : Type 0 where
  pub pre_window_frames : ℕ
  pub post_window_frames : ℕ
  pub max_frame_bytes : ℕ

pub record KeptFrameRef : Type 0 where
  pub frame_id : ℕ
  pub offset : ℕ
  pub len : ℕ
  pub content_sha256 : Bytes
  pub chain : Bytes

-- The lines of events.jsonl; each ends with the sensor id. The flag of `capture_window_closed` is
-- its note that the session ended inside the window.
pub data LogEntry : Type 0 where
  capture_trigger : ℕ → String → String → String → LogEntry
  capture_window_opened : ℕ → ℕ → String → LogEntry
  capture_window_closed : ℤ → Bool → String → LogEntry
  frame_kept : KeptFrameRef → String → LogEntry

pub record CaptureManifest : Type 0 where
  pub session_id : String
  pub sensor_id : String
  pub started_at : String
  pub frames_observed : ℕ
  pub frames_kept : ℕ
  pub triggers : ℕ
  pub chain_genesis : Bytes

-- `buffer` is a `deque` with `maxlen`, oldest first.
pub record FrameCaptureRecorder : Type 0 where
  pub sensor_id : String
  pub session_id : String
  pub started_at : String
  pub config : FrameCaptureConfig
  pub f_frames : File
  pub f_log : List LogEntry
  pub buffer : List (ℕ × Bytes)
  pub post_left : ℕ
  pub chain : Bytes
  pub next_frame_id : ℕ
  pub frames_kept : ℕ
  pub triggers : ℕ
  pub window_open : Bool
  pub closed : Bool
  pub manifest : Option CaptureManifest

-- `n - 1`
abbrev pub previous : ℕ → ℤ
previous n = if n == 0 then negsuc 0 else pos (n - 1)

abbrev pub log : LogEntry → FrameCaptureRecorder → FrameCaptureRecorder
log entry r = record r { f_log = r.f_log ++ (entry ∷ []) }

-- `self._buffer[0][0] if self._buffer else trigger_frame`
abbrev pub first_kept : ℕ → List (ℕ × Bytes) → ℕ
first_kept trigger_frame [] = trigger_frame
first_kept trigger_frame ((fid, payload) ∷ buffer) = fid

-- The end of a window, when its last frame has been written.
unfoldable pub close_window : ℕ → FrameCaptureRecorder → FrameCaptureRecorder
close_window frame_id r =
    let left = r.post_left - 1 in
    if left == 0
    then log (capture_window_closed (pos frame_id) false r.sensor_id)
        (record r { post_left = left; f_frames = fdatasync r.f_frames; window_open = false })
    else record r { post_left = left }

module _ (t : Texts) where
  abbrev pub chain_genesis : String → Bytes
  chain_genesis session_id = t.sha256 (chain_domain ++ t.utf8 session_id)

  -- `struct.pack("<I", frame_id)` raises for an id that outgrows 32 bits.
  unfoldable pub chain_next : Bytes → Bytes → ℕ → Option Bytes
  chain_next prev_chain payload_sha256 frame_id =
      if ltb frame_id (2 ^ 32)
      then some (t.sha256 (prev_chain ++ payload_sha256 ++ le32 frame_id))
      else none

  -- `FrameCaptureRecorder.__init__`
  unfoldable pub new_capture : String → String → String → FrameCaptureConfig → FrameCaptureRecorder
  new_capture sensor_id session_id started_at config = record {
    sensor_id = sensor_id;
    session_id = session_id;
    started_at = started_at;
    config = config;
    f_frames = write magic_frame_file empty_file;
    f_log = [];
    buffer = [];
    post_left = 0;
    chain = chain_genesis session_id;
    next_frame_id = 0;
    frames_kept = 0;
    triggers = 0;
    window_open = false;
    closed = false;
    manifest = none;
  }

  unfoldable pub write_record : ℕ → Bytes → Action FrameCaptureRecorder KeptFrameRef
  write_record frame_id payload = do
    let payload_hash = t.sha256 payload
    prev ← gets (λ r. r.chain)
    chain ← or_raise (chain_next prev payload_hash frame_id) struct_range
    modify (λ r. record r { chain = chain })
    offset ← gets (λ r. tell r.f_frames)
    header ← or_raise (pack_header magic_frame_rec frame_id (length payload)) struct_range
    modify
        (λ r. record r { f_frames = write (header ++ payload_hash ++ chain ++ payload) r.f_frames })
    let ref : KeptFrameRef = record {
      frame_id = frame_id;
      offset = offset;
      len = frame_rec_fixed_len + length payload;
      content_sha256 = hex payload_hash;
      chain = hex chain;
    }
    modify (λ r. record r { frames_kept = r.frames_kept + 1 })
    modify (λ r. log (frame_kept ref r.sensor_id) r)
    pure ref

  -- A frame inside a window.
  unfoldable pub observe_kept : ℕ → Bytes → Action FrameCaptureRecorder (Option KeptFrameRef)
  observe_kept frame_id frame = do
    ref ← write_record frame_id frame
    modify (close_window frame_id)
    pure (some ref)

  -- A frame outside every window.
  unfoldable pub observe_buffered : ℕ → Bytes → Action FrameCaptureRecorder (Option KeptFrameRef)
  observe_buffered frame_id frame = do
    modify (λ r. record r {
      buffer = append_bounded r.config.pre_window_frames (frame_id, frame) r.buffer;
    })
    pure none

  unfoldable pub observe_frame : Bytes → Action FrameCaptureRecorder (Option KeptFrameRef)
  observe_frame frame = do
    raise_if (← gets (λ r. r.closed)) recorder_closed
    raise_if (length frame == 0) frame_type
    raise_if (← gets (λ r. ltb r.config.max_frame_bytes (length frame))) frame_size
    frame_id ← gets (λ r. r.next_frame_id)
    modify (λ r. record r { next_frame_id = r.next_frame_id + 1 })
    inside ← gets (λ r. ltb 0 r.post_left)
    if inside then observe_kept frame_id frame else observe_buffered frame_id frame

  -- `while self._buffer:` pop the oldest frame and write its record.
  unfoldable pub flush : List (ℕ × Bytes) → Action FrameCaptureRecorder (Unit {0})
  flush [] = pure tt
  flush ((fid, payload) ∷ rest) = do
    modify (λ r. record r { buffer = rest })
    write_record fid payload
    flush rest

  -- The part of `trigger` that opens a window.
  unfoldable pub open_window : ℕ → Action FrameCaptureRecorder (Unit {0})
  open_window trigger_frame = do
    modify (λ r.
        log (capture_window_opened trigger_frame (first_kept trigger_frame r.buffer) r.sensor_id) r)
    modify (λ r. record r { window_open = true })
    buffer ← gets (λ r. r.buffer)
    flush buffer
    modify (λ r. record r { f_frames = fdatasync r.f_frames })
    modify (λ r. record r { post_left = r.config.post_window_frames })

  unfoldable pub trigger : String → String → Action FrameCaptureRecorder (Unit {0})
  trigger reason source = do
    raise_if (← gets (λ r. r.closed)) recorder_closed
    raise_if (t.is_blank reason || t.is_blank source) trigger_reason
    modify (λ r. record r { triggers = r.triggers + 1 })
    trigger_frame ← gets (λ r. r.next_frame_id)
    modify (λ r. log (capture_trigger trigger_frame reason source r.sensor_id) r)
    inside ← gets (λ r. ltb 0 r.post_left)
    if inside
        then modify (λ r. record r { post_left = r.config.post_window_frames })
        else open_window trigger_frame

  unfoldable pub capture_manifest : FrameCaptureRecorder → CaptureManifest
  capture_manifest r = record {
    session_id = r.session_id;
    sensor_id = r.sensor_id;
    started_at = r.started_at;
    frames_observed = r.next_frame_id;
    frames_kept = r.frames_kept;
    triggers = r.triggers;
    chain_genesis = hex (chain_genesis r.session_id);
  }

  unfoldable pub close : FrameCaptureRecorder → FrameCaptureRecorder
  close r =
      if r.closed
      then r
      else let r' : FrameCaptureRecorder =
          if r.window_open
          then log (capture_window_closed (previous r.next_frame_id) true r.sensor_id) r
          else r in
        record r' { closed = true; manifest = some (capture_manifest r') }
