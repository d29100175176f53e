-- ===== src/Streams/Recorded.antt =====
-- The judge accepts what the recorder writes: the capsule of any session gives evidence.
use axm_embodied.Common.{
  ℕ, zero, suc, ◌+◌, ◌*◌, ◌^◌, ◌≤◌, ◌<◌, ◌≡◌, refl, sym, ap, ◌∙◌, true, String, List, [], ◌∷◌, ◌++◌,
  append-nil, Option, some, Bytes, All, hex, length, length-append, get_elem?, concat, map, ok,
  arith,
}
use axm_embodied.Common.Int.{ℤ, pos}
use axm_embodied.Common.Json.{Fields}
use axm_embodied.Common.Decode.{◌>>=◌}
use axm_embodied.Protocol.{file_header_len, latent_rec_len}
use axm_embodied.Recorder.{CapsuleRecorder, RecorderConfig, new_recorder}
use axm_embodied.Recorder.Hot.{hot_image, IsLatent, payloads}
use axm_embodied.Recorder.Stored.{blob_of}
use axm_embodied.Recorder.Logged.{
  IsPlain, IsLogged, IsSession, run-IsSession, new_recorder-IsSession,
}
use axm_embodied.Recorder.Session.{Op, run}
use axm_embodied.Streams.{
  Capsule, StrictJudge, Scan, Row, latents, residual_rows, new_scan, scan_residuals, judge,
  event_rows, all_rows, build_streams_evidence,
}
use axm_embodied.Streams.Evidence.{IsBorneOut, build_streams_evidence-IsBorneOut}
use axm_embodied.Streams.Latents.{claim_image}
use axm_embodied.Streams.Residuals.RoundTrip.{IsTorn, index_all, scan-records}

-- The files that a session leaves.
abbrev pub capsule_of : CapsuleRecorder → Capsule
capsule_of r = record {
  cam_latents = some r.f_lat.content;
  cam_residuals = some r.residuals.f.content;
  events = r.f_log;
}

get_elem?-some : (ps : List Bytes) (k : ℕ) → k < length ps → (p : Bytes) × (get_elem? ps k ≡ some p)
get_elem?-some [] k h = absurd (omega arith)
get_elem?-some (p ∷ ps) zero h = (p, refl)
get_elem?-some (p ∷ ps) (suc k) h = get_elem?-some ps k (omega arith)

module _ (sha256 : Bytes → Bytes) (parse_int : String → Option ℤ) where
  -- The line of a recorded frame gives at least the row of its latents.
  event_rows-IsLogged :
      (ps : List Bytes) (scan : Scan) (entry : Fields)
      → All IsLatent ps
      → length ps ≤ 2 ^ 32
      → IsLogged (length ps) entry
      → let j : StrictJudge = record { scan = scan; f_lat = hot_image ps } in
        (rows : List Row) × (event_rows sha256 parse_int j entry ≡ ok rows) × (1 ≤ length rows)
  unfolding event_rows
  event_rows-IsLogged ps scan entry sizes count l =
      let (p, there) = get_elem?-some ps l.k l.below in
      let accepted = claim_image sha256 ps l.k sizes count there in
      let row : Row = record {
        frame_id = pos l.k;
        stream = latents;
        offset = pos (file_header_len + l.k * latent_rec_len);
        len = pos latent_rec_len;
        content_hash = hex (sha256 p);
      } in
      (
        row ∷ residual_rows (pos l.k) scan.residual_index,
        ground (arith, l.frame_id_eq, l.refs_eq, l.l_ref_eq, l.offset_eq, l.len_eq, accepted),
        omega arith,
      )

  all_rows-IsLogged :
      (ps : List Bytes) (scan : Scan) (log : List Fields)
      → All IsLatent ps
      → length ps ≤ 2 ^ 32
      → All (IsLogged (length ps)) log
      → let j : StrictJudge = record { scan = scan; f_lat = hot_image ps } in
        (rows : List Row) × (all_rows sha256 parse_int j log ≡ ok rows) × (length log ≤ length rows)
  unfolding all_rows
  all_rows-IsLogged ps scan [] sizes count h = ([], refl, omega arith)
  all_rows-IsLogged ps scan (entry ∷ log) sizes count (l, h) =
      let (first, e, n) = event_rows-IsLogged ps scan entry sizes count l in
      let (rest, e', n') = all_rows-IsLogged ps scan log sizes count h in
      (first ++ rest, ground (arith, e, e'), omega (arith, length-append first rest))

  nothing_torn : IsTorn sha256 []
  nothing_torn = record {
    torn = (0, []);
    storable = (omega arith, omega arith);
    n = 0;
    partial = omega arith;
    tail_eq = refl;
  }

  judge_session :
      (ps : List Bytes) (r : CapsuleRecorder) (h : IsSession ps r)
      → judge sha256 (capsule_of r)
        ≡ ok (record { scan = index_all sha256 0 h.cold.rs new_scan; f_lat = hot_image ps })
  unfolding judge
  judge_session ps r h =
      let scanned : scan_residuals sha256 (some r.residuals.f.content)
          ≡ ok (index_all sha256 0 h.cold.rs new_scan) =
        ap (λ x. scan_residuals sha256 (some x))
          (h.cold.file ∙ sym (append-nil (concat (map blob_of h.cold.rs))))
        ∙ scan-records sha256 h.cold.rs [] h.cold.rs_ok nothing_torn in
      ap
        (λ f. judge sha256 (record {
          cam_latents = some f;
          cam_residuals = some r.residuals.f.content;
          events = r.f_log;
        }))
        h.hot.image
      ∙ ap (λ x. x >>= (λ scan. ok (record { scan = scan; f_lat = hot_image ps }))) scanned

  -- Whatever calls a session makes, and whichever of them raise, once it has been closed: if the
  -- events leave the keys frame_id and stream_refs alone and no residual is longer than 10 MiB, the
  -- capsule gives evidence, with at least one row for each line of the log, each of which stands for
  -- a whole record.
  pub build_streams_evidence-run :
      (ops : List Op) (robot_id session_id path started_at : String) (config : RecorderConfig)
      → All IsPlain ops
      → (run ops (new_recorder robot_id session_id path started_at config)).closed ≡ true
      → let c = capsule_of (run ops (new_recorder robot_id session_id path started_at config)) in
        (rows : List Row) × (build_streams_evidence sha256 parse_int c ≡ ok rows)
        × (length c.events ≤ length rows)
        × All (IsBorneOut sha256 c) rows
  unfolding build_streams_evidence
  build_streams_evidence-run ops robot_id session_id path started_at config plain shut =
      let r = run ops (new_recorder robot_id session_id path started_at config) in
      let ps = payloads ops (new_recorder robot_id session_id path started_at config) in
      let h =
        run-IsSession ops [] _ plain
          (new_recorder-IsSession robot_id session_id path started_at config) in
      let (rows, e, n) =
        all_rows-IsLogged ps (index_all sha256 0 h.cold.rs new_scan) r.f_log h.hot.sizes
          (omega (arith, h.hot.count)) h.logged in
      let built : build_streams_evidence sha256 parse_int (capsule_of r) ≡ ok rows =
        ap (λ j. j >>= (λ judge. all_rows sha256 parse_int judge r.f_log)) (judge_session ps r h)
        ∙ e in
      (rows, built, n, build_streams_evidence-IsBorneOut sha256 parse_int (capsule_of r) built)
