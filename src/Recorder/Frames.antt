-- ===== src/Recorder/Frames.antt =====
-- `record_frame` on every branch.
use axm_embodied.Common.{
  ℕ, ◌+◌, ◌^◌, ◌≤◌, ◌<◌, ◌≡◌, refl, true, false, [], ◌∷◌, ◌++◌, Option, none, some, Bytes, length,
  arith, ok, err, ◌≢◌, recorder_closed, latent_length, struct_range,
}
use axm_embodied.Common.Disk.{tell}
use axm_embodied.Protocol.{
  magic_resid_rec, magic_latent_rec, latent_dim, latent_rec_len, header_bytes, pack_header,
}
use axm_embodied.Protocol.Laws.{pack_header-some}
use axm_embodied.Recorder.{
  ResidualBuffer, CapsuleRecorder, Frame, push_blob, push, push_residual, put_residuals,
  record_frame, append_hot, merge_event, base_entry, trigger_buffer, trigger,
}

-- The record of a residual in the cold stream.
abbrev pub resid_blob : ℕ → Bytes → Bytes
resid_blob fid payload = header_bytes magic_resid_rec fid (length payload) ++ payload

-- The record of a frame in the hot stream.
abbrev pub hot_blob : ℕ → Bytes → Bytes
hot_blob fid latents = header_bytes magic_latent_rec fid latent_dim ++ latents

abbrev pub pushed : ℕ → Option Bytes → ResidualBuffer → ResidualBuffer
pushed fid none b = b
pushed fid (some payload) b = (push_blob (resid_blob fid payload) b).1

abbrev pub ResidualFits : Option Bytes → Type 0
ResidualFits none = Unit {0}
ResidualFits (some payload) = length payload < 2 ^ 32

-- What a recorder takes: an open session, latents of the frozen size, sizes and ids of 32 bits.
pub record IsRecordable (fr : Frame) (r : CapsuleRecorder) : Type 0 where
  pub open_session : r.closed ≡ false
  pub dim : length fr.latents ≡ latent_dim
  pub id_fits : r.next_frame_id < 2 ^ 32
  pub residual_fits : ResidualFits fr.residual

-- The recorder after such a frame.
abbrev pub recorded : Frame → CapsuleRecorder → CapsuleRecorder
recorded fr r =
    let fid = r.next_frame_id in
    let entry = merge_event fr.event (base_entry fid r.robot_id (tell r.f_lat) fr) in
    let r' = append_hot (hot_blob fid fr.latents) r in
    record r' {
      next_frame_id = fid + 1;
      residuals = pushed fid fr.residual r.residuals;
      f_log = r.f_log ++ (entry ∷ []);
    }

push_ok :
    (fid : ℕ) (payload : Bytes) (b : ResidualBuffer)
    → fid < 2 ^ 32
    → length payload < 2 ^ 32
    → push fid payload b ≡ push_blob (resid_blob fid payload) b
unfolding push
push_ok fid payload b hf hp = rw (pack_header-some magic_resid_rec fid (length payload) hf hp)

pub push_residual_ok :
    (fid : ℕ) (res : Option Bytes) (r : CapsuleRecorder)
    → fid < 2 ^ 32
    → ResidualFits res
    → push_residual fid res r ≡ (ok tt, put_residuals (pushed fid res r.residuals) r)
unfolding push_residual push_blob
push_residual_ok fid none r hf hp = refl
push_residual_ok fid (some payload) r hf hp = ground (arith, push_ok fid payload r.residuals hf hp)

-- A frame that an open recorder can take is given the next id and its place; its record, its residual
-- and its log line are added, and nothing else changes.
pub record_frame_ok :
    (fr : Frame) (r : CapsuleRecorder)
    → IsRecordable fr r
    → record_frame fr r ≡ (
      ok (record { frame_id = r.next_frame_id; offset = tell r.f_lat; len = latent_rec_len }),
      recorded fr r,
    )
unfolding record_frame
record_frame_ok fr r h = ground (
  arith,
  pack_header-some magic_latent_rec r.next_frame_id (length fr.latents),
  push_residual_ok r.next_frame_id fr.residual (
      append_hot (hot_blob r.next_frame_id fr.latents)
        (record r { next_frame_id = r.next_frame_id + 1 })),
)

-- A closed recorder and a payload of another size raise, and change nothing.
pub record_frame_closed :
    (fr : Frame) (r : CapsuleRecorder)
    → r.closed ≡ true
    → record_frame fr r ≡ (err recorder_closed, r)
unfolding record_frame
record_frame_closed fr r h = ground arith

pub record_frame_dim :
    (fr : Frame) (r : CapsuleRecorder)
    → r.closed ≡ false
    → length fr.latents ≢ latent_dim
    → record_frame fr r ≡ (err latent_length, r)
unfolding record_frame
record_frame_dim fr r h d = ground arith

-- A residual too long for its header: the latents are written by then, the log line is not.
pub record_frame_residual :
    (fr : Frame) (payload : Bytes) (r : CapsuleRecorder)
    → r.closed ≡ false
    → length fr.latents ≡ latent_dim
    → r.next_frame_id < 2 ^ 32
    → fr.residual ≡ some payload
    → 2 ^ 32 ≤ length payload
    → record_frame fr r ≡ (
      err struct_range,
      append_hot
          (hot_blob r.next_frame_id fr.latents)
          (record r { next_frame_id = r.next_frame_id + 1 }),
    )
unfolding record_frame pack_header push push_residual
record_frame_residual fr payload r h d f e big = ground arith

-- The recorder after a freeze of an open session.
abbrev pub frozen : CapsuleRecorder → CapsuleRecorder
frozen r = record r { triggered = true; residuals = (trigger_buffer false r.residuals).1 }

-- In an open session a freeze returns.
pub trigger_open : (r : CapsuleRecorder) → r.closed ≡ false → trigger r ≡ (ok tt, frozen r)
unfolding trigger trigger_buffer
trigger_open r c = ground arith
