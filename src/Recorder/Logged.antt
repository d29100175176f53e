-- ===== src/Recorder/Logged.antt =====
-- What a session leaves for the judge: log lines that name the place of their frame, and whole records
-- in both streams, for frames whose events leave the recorder's own keys alone.
use axm_embodied.Common.{
  ℕ, subst, subst₂, append_assoc, ◌+◌, ◌*◌, ◌≤◌, ◌<◌, ◌^◌, ◌≡◌, refl, sym, ap, ◌∙◌, inl, inr, true,
  false, List, [], ◌∷◌, ◌++◌, append-nil, Option, none, some, Bytes, All, Bool-cases, length,
  length-append, arith, String,
}
use axm_embodied.Common.Disk.{tell}
use axm_embodied.Common.Json
use axm_embodied.Common.Json.{Json, integer, object, Fields}
use axm_embodied.Protocol.{default_max_residual_size, file_header_len, latent_rec_len, pack_header}
use axm_embodied.Recorder.{
  CapsuleRecorder, ResidualBuffer, Frame, RecorderConfig, push_residual, merge_event, base_entry,
  record_frame, trigger, close, new_recorder,
}
use axm_embodied.Recorder.Frames.{pushed, ResidualFits, IsRecordable, record_frame_ok}
use axm_embodied.Recorder.Hot.{
  accepted, taken, IsHot, record_frame-IsHot, run_op-IsHot, new_recorder-IsHot, payloads,
  length-hot_records,
}
use axm_embodied.Recorder.Session.{Op, frame, freeze, finish, run_op, run}
use axm_embodied.Recorder.Stored.{IsCold, push_blob-IsCold, trigger_buffer-IsCold}

-- A frame whose event leaves the keys alone that the judge reads, and whose residual it takes.
abbrev pub IsPlainEvent : Option Fields → Type 0
IsPlainEvent none = Unit {0}
IsPlainEvent (some event) =
    (Json.lookup "frame_id" event ≡ none) × (Json.lookup "stream_refs" event ≡ none)

abbrev pub IsSmall : Option Bytes → Type 0
IsSmall none = Unit {0}
IsSmall (some payload) = length payload ≤ default_max_residual_size

abbrev pub IsPlain : Op → Type 0
IsPlain (frame fr) = IsPlainEvent fr.event × IsSmall fr.residual
IsPlain freeze = Unit {0}
IsPlain finish = Unit {0}

-- A log line that names frame `k` and its place, for a `k` below `n`.
pub record IsLogged (n : ℕ) (entry : Fields) : Type 0 where
  pub k : ℕ
  pub below : k < n
  pub frame_id_eq : Json.lookup "frame_id" entry ≡ some (integer k)
  pub refs : Fields
  pub refs_eq : Json.lookup "stream_refs" entry ≡ some (object refs)
  pub l_ref : Fields
  pub l_ref_eq : Json.lookup "latents" refs ≡ some (object l_ref)
  pub offset_eq : Json.lookup "offset" l_ref ≡ some (integer (file_header_len + k * latent_rec_len))
  pub len_eq : Json.lookup "length" l_ref ≡ some (integer latent_rec_len)

base_entry-IsLogged :
    (n k : ℕ) (robot_id : String) (fr : Frame)
    → k < n
    → IsPlainEvent fr.event
    → IsLogged n
        (merge_event fr.event (base_entry k robot_id (file_header_len + k * latent_rec_len) fr))
unfolding base_entry
base_entry-IsLogged n k robot_id fr lt plain =
    let e = base_entry k robot_id (file_header_len + k * latent_rec_len) fr in
    let (f, s) = merged fr.event e plain in
    record {
      k = k;
      below = lt;
      frame_id_eq = f;
      refs = _;
      refs_eq = s;
      l_ref = _;
      l_ref_eq = refl;
      offset_eq = refl;
      len_eq = refl;
    }
  where
    merged :
        (event : Option Fields) (e : Fields)
        → IsPlainEvent event
        → (Json.lookup "frame_id" (merge_event event e) ≡ Json.lookup "frame_id" e)
          × (Json.lookup "stream_refs" (merge_event event e) ≡ Json.lookup "stream_refs" e)
    merged none e plain = (refl, refl)
    merged (some event) e (a, b) = (
      Json.lookup-update-none "frame_id" e event a,
      Json.lookup-update-none "stream_refs" e event b,
    )

IsLogged-snoc :
    (n : ℕ) (log : List Fields) (entry : Fields)
    → All (IsLogged n) log
    → IsLogged (n + 1) entry
    → All (IsLogged (n + 1)) (log ++ (entry ∷ []))
IsLogged-snoc n [] entry h he = (he, tt)
IsLogged-snoc n (x ∷ log) entry (hx, h) he = (
  record {
    k = hx.k;
    below = omega (arith, hx.below);
    frame_id_eq = hx.frame_id_eq;
    refs = hx.refs;
    refs_eq = hx.refs_eq;
    l_ref = hx.l_ref;
    l_ref_eq = hx.l_ref_eq;
    offset_eq = hx.offset_eq;
    len_eq = hx.len_eq;
  },
  IsLogged-snoc n log entry h he,
)

-- A session so far: the payloads `ps` in the hot stream, whole records in the cold one, and a log of
-- recorded frames.
pub record IsSession (ps : List Bytes) (r : CapsuleRecorder) : Type 0 where
  pub hot : IsHot ps r
  pub cold : IsCold r.residuals
  pub logged : All (IsLogged (length ps)) r.f_log

-- A frame that is not accepted.
refused :
    (fr : Frame) (r : CapsuleRecorder)
    → accepted fr r ≡ false
    → ((record_frame fr r).1.f_log ≡ r.f_log) × ((record_frame fr r).1.residuals ≡ r.residuals)
unfolding record_frame push_residual pack_header
refused fr r e = (ground arith, ground arith)

small_fits : (residual : Option Bytes) → IsSmall residual → ResidualFits residual
small_fits none h = tt
small_fits (some payload) h = omega arith

accepted-IsRecordable :
    (fr : Frame) (r : CapsuleRecorder)
    → accepted fr r ≡ true
    → IsSmall fr.residual
    → IsRecordable fr r
accepted-IsRecordable fr r e small = record {
  open_session = ground arith;
  dim = ground arith;
  id_fits = ground arith;
  residual_fits = small_fits fr.residual small;
}

pushed-IsCold :
    (fid : ℕ) (residual : Option Bytes) (b : ResidualBuffer)
    → fid < 2 ^ 32
    → IsSmall residual
    → IsCold b
    → IsCold (pushed fid residual b)
pushed-IsCold fid none b hf small h = h
pushed-IsCold fid (some payload) b hf small h = push_blob-IsCold (fid, payload) b (hf, small) h

record_frame-IsSession :
    (fr : Frame) (ps : List Bytes) (r : CapsuleRecorder)
    → IsPlain (frame fr)
    → IsSession ps r
    → IsSession (ps ++ taken (frame fr) r) (record_frame fr r).1
record_frame-IsSession fr ps r (plain, small) h =
    let hot = record_frame-IsHot fr ps r h.hot in
    elim (Bool-cases (accepted fr r)) [
      | inr no_frame ↦
          let (log_same, cold_same) = refused fr r no_frame in
          let none_taken : taken (frame fr) r ≡ [] = ground arith in
          let size : length ps ≡ length (ps ++ taken (frame fr) r) =
            ap length (sym (ap (λ x. ps ++ x) none_taken ∙ append-nil ps)) in
          record {
            hot = hot;
            cold = subst IsCold (sym cold_same) h.cold;
            logged = subst₂ (λ n log. All (IsLogged n) log) size (sym log_same) h.logged;
          }
      | inl took ↦
          let fits = accepted-IsRecordable fr r took small in
          let done = record_frame_ok fr r fits in
          let one_taken : taken (frame fr) r ≡ fr.latents ∷ [] = ground arith in
          let size : length ps + 1 ≡ length (ps ++ taken (frame fr) r) =
            omega (arith, length-append ps (taken (frame fr) r), ap length one_taken) in
          let next : length ps ≡ r.next_frame_id = omega (arith, h.hot.count, fits.id_fits) in
          let place : file_header_len + r.next_frame_id * latent_rec_len ≡ tell r.f_lat =
            omega (arith, next, length-hot_records 0 ps h.hot.sizes, ap length h.hot.image) in
          let entry =
            base_entry-IsLogged (length ps + 1) r.next_frame_id r.robot_id fr (omega (arith, next))
              plain in
          record {
            hot = hot;
            cold =
                subst (λ x. IsCold x.1.residuals) (sym done)
                  (pushed-IsCold r.next_frame_id fr.residual r.residuals fits.id_fits small h.cold);
            logged =
                subst₂ (λ n x. All (IsLogged n) x.1.f_log) size (sym done)
                  (IsLogged-snoc (length ps) r.f_log _ h.logged (
                    subst
                      (λ off.
                        IsLogged (length ps + 1)
                          (merge_event fr.event (base_entry r.next_frame_id r.robot_id off fr)))
                      place entry));
          }
    ]

run_op-IsSession :
    (op : Op) (ps : List Bytes) (r : CapsuleRecorder)
    → IsPlain op
    → IsSession ps r
    → IsSession (ps ++ taken op r) (run_op op r)
unfolding run_op trigger close
run_op-IsSession (frame fr) ps r plain h = record_frame-IsSession fr ps r plain h
run_op-IsSession freeze ps r plain h = record {
  hot = run_op-IsHot freeze ps r h.hot;
  cold = trigger_buffer-IsCold r.closed r.residuals h.cold;
  logged = rw (append-nil ps) h.logged;
}
run_op-IsSession finish ps r plain h = record {
  hot = run_op-IsHot finish ps r h.hot;
  cold = ground (arith, h.cold);
  logged = rw (append-nil ps) (ground (arith, h.logged));
}

pub run-IsSession :
    (ops : List Op) (ps : List Bytes) (r : CapsuleRecorder)
    → All IsPlain ops
    → IsSession ps r
    → IsSession (ps ++ payloads ops r) (run ops r)
unfolding run payloads
run-IsSession [] ps r plain h = rw (append-nil ps) h
run-IsSession (op ∷ ops) ps r (plain, rest) h =
    rw (append_assoc ps (taken op r) (payloads ops (run_op op r))) at
      (run-IsSession ops (ps ++ taken op r) (run_op op r) rest (run_op-IsSession op ps r plain h))

pub new_recorder-IsSession :
    (robot_id session_id path started_at : String) (config : RecorderConfig)
    → IsSession [] (new_recorder robot_id session_id path started_at config)
unfolding new_recorder
new_recorder-IsSession robot_id session_id path started_at config = record {
  hot = new_recorder-IsHot robot_id session_id path started_at config;
  cold = record { rs = []; bs = []; file = refl; rs_ok = tt; held = refl; bs_ok = tt };
  logged = tt;
}
