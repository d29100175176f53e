-- ===== src/Recorder/Hot.antt =====
-- The hot stream: cam_latents.bin holds one record for each accepted frame, in order, with ids
-- from 0 on and no gap.
use axm_embodied.Common.{
  ℕ, suc, ◌+◌, ◌*◌, ◌^◌, ◌≡◌, refl, min, Bool, true, not, ◌&&◌, List, [], ◌∷◌, ◌++◌, append-nil,
  append_assoc, Bytes, length, arith, ok, ltb, String, ◌==◌, if◌then◌else◌, All, length-append,
}
use axm_embodied.Protocol.{
  magic_latent_file, latent_dim, latent_rec_len, file_header_len, pack_header,
}
use axm_embodied.Recorder.{
  CapsuleRecorder, Frame, FrameRef, push_residual, record_frame, trigger, close, new_recorder,
  RecorderConfig,
}
use axm_embodied.Recorder.Frames.{hot_blob}
use axm_embodied.Recorder.Session.{Op, frame, freeze, finish, run_op, run}

-- The records of the payloads `ps`, the first with id `k`.
abbrev pub hot_records : ℕ → List Bytes → Bytes
hot_records k [] = []
hot_records k (p ∷ ps) = hot_blob k p ++ hot_records (suc k) ps

-- The whole file.
abbrev pub hot_image : List Bytes → Bytes
hot_image ps = magic_latent_file ++ hot_records 0 ps

abbrev pub IsLatent : Bytes → Type 0
IsLatent p = length p ≡ latent_dim

-- The frames whose latents are written: in an open session, of the frozen size, with an id left.
abbrev pub accepted : Frame → CapsuleRecorder → Bool
accepted fr r = not r.closed && (length fr.latents == latent_dim && ltb r.next_frame_id (2 ^ 32))

hot_records-snoc :
    (k j : ℕ) (ps : List Bytes) (p : Bytes)
    → k + length ps ≡ j
    → hot_records k (ps ++ (p ∷ [])) ≡ hot_records k ps ++ hot_blob j p
hot_records-snoc k j [] p e = let e' : k ≡ j = omega arith in rw (e', append-nil (hot_blob j p))
hot_records-snoc k j (q ∷ ps) p e = rw (
  hot_records-snoc (suc k) j ps p (omega arith),
  append_assoc (hot_blob k q) (hot_records (suc k) ps) (hot_blob j p),
)

All-snoc :
    (ps : List Bytes) (p : Bytes) → All IsLatent ps → IsLatent p → All IsLatent (ps ++ (p ∷ []))
All-snoc [] p h hp = (hp, tt)
All-snoc (q ∷ ps) p (hq, h) hp = (hq, All-snoc ps p h hp)

-- The hot stream of `r` holds exactly the payloads `ps`. Once the ids have run out they are still
-- counted, and no record follows.
pub record IsHot (ps : List Bytes) (r : CapsuleRecorder) : Type 0 where
  pub image : r.f_lat.content ≡ hot_image ps
  pub sizes : All IsLatent ps
  pub count : length ps ≡ min r.next_frame_id (2 ^ 32)

-- What `record_frame` does to the hot stream, whether it returns or raises.
content-record_frame :
    (fr : Frame) (r : CapsuleRecorder)
    → (record_frame fr r).1.f_lat.content ≡ (
        if accepted fr r
        then r.f_lat.content ++ hot_blob r.next_frame_id fr.latents
        else r.f_lat.content)
unfolding record_frame push_residual pack_header
content-record_frame fr r = ground arith

next_frame_id-record_frame :
    (fr : Frame) (r : CapsuleRecorder)
    → (record_frame fr r).1.next_frame_id ≡ (
        if not r.closed && (length fr.latents == latent_dim)
        then r.next_frame_id + 1
        else r.next_frame_id)
unfolding record_frame push_residual pack_header
next_frame_id-record_frame fr r = ground arith

-- The payloads after an operation.
abbrev pub taken : Op → CapsuleRecorder → List Bytes
taken (frame fr) r = if accepted fr r then fr.latents ∷ [] else []
taken freeze r = []
taken finish r = []

pub record_frame-IsHot :
    (fr : Frame) (ps : List Bytes) (r : CapsuleRecorder)
    → IsHot ps r
    → IsHot (ps ++ taken (frame fr) r) (record_frame fr r).1
record_frame-IsHot fr ps r h = record {
  image = ground (
    arith,
    content-record_frame fr r,
    hot_records-snoc 0 r.next_frame_id ps fr.latents,
    append-nil ps,
  );
  sizes = ground (arith, append-nil ps, All-snoc ps fr.latents h.sizes);
  count =
      ground
        (arith, next_frame_id-record_frame fr r, append-nil ps, length-append ps (fr.latents ∷ []));
}

pub run_op-IsHot :
    (op : Op) (ps : List Bytes) (r : CapsuleRecorder)
    → IsHot ps r
    → IsHot (ps ++ taken op r) (run_op op r)
unfolding run_op trigger close
run_op-IsHot (frame fr) ps r h = record_frame-IsHot fr ps r h
run_op-IsHot freeze ps r h = rw (append-nil ps) (ground arith)
run_op-IsHot finish ps r h = rw (append-nil ps) (ground arith)

-- The payloads that a session accepts, in order.
unfoldable pub payloads : List Op → CapsuleRecorder → List Bytes
payloads [] r = []
payloads (op ∷ ops) r = taken op r ++ payloads ops (run_op op r)

pub run-IsHot :
    (ops : List Op) (ps : List Bytes) (r : CapsuleRecorder)
    → IsHot ps r
    → IsHot (ps ++ payloads ops r) (run ops r)
unfolding run payloads
run-IsHot [] ps r h = rw (append-nil ps) h
run-IsHot (op ∷ ops) ps r h =
    rw (append_assoc ps (taken op r) (payloads ops (run_op op r))) at
      (run-IsHot ops (ps ++ taken op r) (run_op op r) (run_op-IsHot op ps r h))

pub new_recorder-IsHot :
    (robot_id session_id path started_at : String) (config : RecorderConfig)
    → IsHot [] (new_recorder robot_id session_id path started_at config)
unfolding new_recorder
new_recorder-IsHot robot_id session_id path started_at config = record {
  image = refl;
  sizes = tt;
  count = omega arith;
}

pub length-hot_blob : (k : ℕ) (p : Bytes) → IsLatent p → length (hot_blob k p) ≡ latent_rec_len
length-hot_blob k p h = omega arith

pub length-hot_records :
    (k : ℕ) (ps : List Bytes)
    → All IsLatent ps
    → length (hot_records k ps) ≡ length ps * latent_rec_len
length-hot_records k [] h = refl
length-hot_records k (p ∷ ps) (hp, h) = omega (
  arith,
  length-append (hot_blob k p) (hot_records (suc k) ps),
  length-hot_blob k p hp,
  length-hot_records (suc k) ps h,
)

-- Whatever calls a session makes, and whichever of them raise, cam_latents.bin holds exactly the
-- accepted payloads: one record each, in order, with the ids 0, 1, 2, … and no gap.
pub IsHot-stream_gap_free :
    (ops : List Op) (robot_id session_id path started_at : String) (config : RecorderConfig)
    → let r = new_recorder robot_id session_id path started_at config in
      IsHot (payloads ops r) (run ops r)
IsHot-stream_gap_free ops robot_id session_id path started_at config =
    let r = new_recorder robot_id session_id path started_at config in
    run-IsHot ops [] r (new_recorder-IsHot robot_id session_id path started_at config)

-- In a session with `fsync_every_frame`, whose hot stream is in order, an acknowledged frame has
-- the next id, it is on the disk, and its record stands where strict offset math looks for it.
pub record_frame_acknowledged :
    (fr : Frame) (ps : List Bytes) (r : CapsuleRecorder) {ref : FrameRef}
    → IsHot ps r
    → r.config.fsync_every_frame ≡ true
    → (record_frame fr r).0 ≡ ok ref
    → (ref.frame_id ≡ r.next_frame_id)
      × (ref.offset ≡ file_header_len + ref.frame_id * latent_rec_len)
      × ((record_frame fr r).1.f_lat.durable ≡ ref.offset + latent_rec_len)
      × ((record_frame fr r).1.f_lat.content ≡ r.f_lat.content ++ hot_blob ref.frame_id fr.latents)
unfolding record_frame push_residual pack_header
record_frame_acknowledged fr ps r h sync e = ground (
  arith,
  length-hot_records 0 ps h.sizes,
  length-append r.f_lat.content (hot_blob r.next_frame_id fr.latents),
)
