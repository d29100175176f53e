-- ===== src/Recorder.antt =====
-- src/axm_embodied/recorder.py: the Flash Freeze flight recorder. `ResidualBuffer` is the ring
-- buffer of the cold stream, `CapsuleRecorder` a session with its three files. `f_lat` and
-- `residuals.f` are cam_latents.bin and cam_residuals.bin byte for byte; `f_log` holds the objects
-- that the lines of events.jsonl encode, and `meta` what `close` writes into meta.json. A write
-- that the operating system refuses, and the creation of the directory, are not modelled.
pub mod Cold
pub mod Hot
pub mod Frames
pub mod Freeze
pub mod Session
pub mod Stored
pub mod Logged
mod Tests
use axm_embodied.Common.{
  ℕ, suc, ◌+◌, ◌-◌, ◌*◌, ◌^◌, String, Bool, true, false, ◌&&◌, not, List, [], ◌∷◌, ◌++◌, Option,
  none, some, Bytes, ltb, ◌==◌, if◌then◌else◌, length, drop, Action, ok, err, Result, pure, gets,
  or_raise, raise_if, modify, within, ◌>>=◌, ◌>>◌, recorder_closed, closed_file, latent_length,
  struct_range,
}
use axm_embodied.Common.Disk.{File, empty_file, write, tell, fdatasync, write_all}
use axm_embodied.Common.Json.{Json, integer, string, object, boolean, Fields, field, end, update}
use axm_embodied.Protocol.{
  magic_latent_file, magic_latent_rec, magic_resid_rec, latent_dim, latent_rec_len, pack_header,
}

pub record RecorderConfig : Type 0 where
  pub pre_window_frames : ℕ
  pub post_window_frames : ℕ
  pub fsync_every_frame : Bool

abbrev pub default_config : RecorderConfig
default_config = record {
  pre_window_frames = 20;
  post_window_frames = 20;
  fsync_every_frame = true;
}

pub record FrameRef : Type 0 where
  pub frame_id : ℕ
  pub offset : ℕ
  pub len : ℕ

-- `buffer` is a `deque` with `maxlen`, oldest first.
pub record ResidualBuffer : Type 0 where
  pub f : File
  pub buffer : List Bytes
  pub maxlen : ℕ
  pub post_window : ℕ
  pub recording_frames_left : ℕ

abbrev pub new_buffer : ℕ → ℕ → ResidualBuffer
new_buffer pre post = record {
  f = empty_file;
  buffer = [];
  maxlen = pre;
  post_window = post;
  recording_frames_left = 0;
}

-- The newest `n` elements.
abbrev pub last_n {ℓ} : {A : Type ℓ} → ℕ → List A → List A
last_n n xs = drop (length xs - n) xs

-- `deque.append`: the oldest element falls out of a full deque.
abbrev pub append_bounded {ℓ} : {A : Type ℓ} → ℕ → A → List A → List A
append_bounded maxlen x xs = last_n maxlen (xs ++ (x ∷ []))

pub data PushStatus : Type 0 where
  written buffered : PushStatus

-- One record written through; the last one of the window is followed by fdatasync.
unfoldable pub write_through : Bytes → ResidualBuffer → ResidualBuffer
write_through blob b =
    let left = b.recording_frames_left - 1 in
    let f = write blob b.f in
    record b { f = if left == 0 then fdatasync f else f; recording_frames_left = left }

unfoldable pub push_blob : Bytes → Action ResidualBuffer PushStatus
unfolding write_through
push_blob blob b =
    if ltb 0 b.recording_frames_left
    then (ok written, write_through blob b)
    else (ok buffered, record b { buffer = append_bounded b.maxlen blob b.buffer })

unfoldable pub push : ℕ → Bytes → Action ResidualBuffer PushStatus
push frame_id payload = do
  header ← or_raise (pack_header magic_resid_rec frame_id (length payload)) struct_range
  push_blob (header ++ payload)

-- `ResidualBuffer.trigger`. A file that has been closed raises at the first write, when its record has
-- left the buffer, or at the flush.
unfoldable pub trigger_buffer : Bool → Action ResidualBuffer (Unit {0})
trigger_buffer file_closed b =
    if ltb 0 b.recording_frames_left
    then (ok tt, b)
    else if file_closed
    then (err closed_file, record b { buffer = drop 1 b.buffer })
    else (
      ok tt,
      record b {
        f = fdatasync (write_all b.buffer b.f);
        buffer = [];
        recording_frames_left = b.post_window;
      },
    )

pub record CapsuleRecorder : Type 0 where
  pub robot_id : String
  pub session_id : String
  pub path : String
  pub started_at : String
  pub config : RecorderConfig
  pub f_lat : File
  pub f_log : List Fields
  pub residuals : ResidualBuffer
  pub next_frame_id : ℕ
  pub triggered : Bool
  pub closed : Bool
  pub meta : Option Fields

-- `CapsuleRecorder.__init__`, with the session id, the path and the time that it works out.
unfoldable pub new_recorder : String → String → String → String → RecorderConfig → CapsuleRecorder
new_recorder robot_id session_id path started_at config = record {
  robot_id = robot_id;
  session_id = session_id;
  path = path;
  started_at = started_at;
  config = config;
  f_lat = write magic_latent_file empty_file;
  f_log = [];
  residuals = new_buffer config.pre_window_frames config.post_window_frames;
  next_frame_id = 0;
  triggered = false;
  closed = false;
  meta = none;
}

-- What a caller hands to `record_frame`.
pub record Frame : Type 0 where
  pub latents : Bytes
  pub selected_action : String
  pub action_distribution : Fields
  pub residual : Option Bytes
  pub event : Option Fields

abbrev pub put_residuals : ResidualBuffer → CapsuleRecorder → CapsuleRecorder
put_residuals b r = record r { residuals = b }

-- `if residual is not None: self._residuals.push(frame_id, residual)`
unfoldable pub push_residual : ℕ → Option Bytes → Action CapsuleRecorder (Unit {0})
push_residual frame_id none = pure tt
push_residual frame_id (some payload) = do
  within (λ r. r.residuals) put_residuals (push frame_id payload)
  pure tt

-- The log entry before the caller's event is merged in.
unfoldable pub base_entry : ℕ → String → ℕ → Frame → Fields
base_entry frame_id robot_id lat_offset fr = field "frame_id" (integer frame_id) (
    field "robot_id" (string robot_id) (
      field "selected_action" (string fr.selected_action) (
        field "action_distribution" (object fr.action_distribution) (
          field "stream_refs"
            (object (
              field "latents"
                (object (
                  field "file" (string "cam_latents.bin") (
                    field "offset" (integer lat_offset)
                      (field "length" (integer latent_rec_len) end))))
                end))
            end))))

-- `if event: entry.update(event)`
abbrev pub merge_event : Option Fields → Fields → Fields
merge_event none entry = entry
merge_event (some event) entry = update entry event

abbrev pub append_hot : Bytes → CapsuleRecorder → CapsuleRecorder
append_hot b r =
    let f = write b r.f_lat in
    record r { f_lat = if r.config.fsync_every_frame then fdatasync f else f }

unfoldable pub record_frame : Frame → Action CapsuleRecorder FrameRef
record_frame fr = do
  raise_if (← gets (λ r. r.closed)) recorder_closed
  raise_if (not (length fr.latents == latent_dim)) latent_length
  frame_id ← gets (λ r. r.next_frame_id)
  modify (λ r. record r { next_frame_id = r.next_frame_id + 1 })
  lat_offset ← gets (λ r. tell r.f_lat)
  header ← or_raise (pack_header magic_latent_rec frame_id (length fr.latents)) struct_range
  modify (append_hot (header ++ fr.latents))
  push_residual frame_id fr.residual
  robot_id ← gets (λ r. r.robot_id)
  let entry = merge_event fr.event (base_entry frame_id robot_id lat_offset fr)
  modify (λ r. record r { f_log = r.f_log ++ (entry ∷ []) })
  pure (record { frame_id = frame_id; offset = lat_offset; len = latent_rec_len })

-- `close` has closed the file of the cold stream with the others.
unfoldable pub trigger : Action CapsuleRecorder (Unit {0})
trigger = do
  modify (λ r. record r { triggered = true })
  file_closed ← gets (λ r. r.closed)
  within (λ r. r.residuals) put_residuals (trigger_buffer file_closed)

-- The object of meta.json.
unfoldable pub meta_entry : CapsuleRecorder → Fields
meta_entry r = field "session_id" (string r.session_id) (
    field "robot_id" (string r.robot_id) (
      field "started_at" (string r.started_at)
        (field "frames" (integer r.next_frame_id) (field "triggered" (boolean r.triggered) end))))

-- `close` flushes and closes the files and writes meta.json; a second call changes nothing.
unfoldable pub close : CapsuleRecorder → CapsuleRecorder
close r = if r.closed then r else record r { closed = true; meta = some (meta_entry r) }
