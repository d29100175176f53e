-- ===== src/Streams/Tests.antt =====
-- Small files: two residuals and a torn one, one latent record, a magic behind garbage. The digest
-- is a stand-in that keeps the first two bytes.
use axm_embodied.Common.{
  ℕ, zero, suc, ◌+◌, ◌*◌, ◌≡◌, ◌≢◌, refl, true, List, [], ◌∷◌, ◌++◌, map, none, some, Bytes, length,
  take, concat, find, read_at, hex, ok, err, get_elem?, out_of_fuel, arith, ◌≤◌,
}
use axm_embodied.Common.Int.{ℤ, pos}
use axm_embodied.Common.Json.{Fields, integer, string, object, field, end}
use axm_embodied.Protocol.{
  file_header_len, latent_rec_len, magic_resid_rec, default_max_resync_bytes,
}
use axm_embodied.Recorder.{
  Frame, new_recorder, default_config, record_frame, push_residual, push, push_blob, trigger,
  trigger_buffer, close,
}
use axm_embodied.Recorder.Hot.{hot_image, payloads}
use axm_embodied.Recorder.Session.{Op, frame, freeze, finish, run_op, run}
use axm_embodied.Streams.{new_scan, scan_residuals, eof, verified, resync_to_magic}
use axm_embodied.Streams.{
  Capsule, Row, latents, residuals, build_streams_evidence, all_rows, event_rows, judge, scan_loop,
  scan_round, scan_record, indexed, verify_latent, verify_at, verify_header, verify_payload,
}
use axm_embodied.Streams.Evidence.{IsBorneOut, build_streams_evidence-IsBorneOut}
use axm_embodied.Common.{All, Option, String}
use axm_embodied.Protocol.{pack_header, unpack_header}
use axm_embodied.Streams.Latents.{
  claim, claim_image, session_verified, IsLatentRecord, verify_latent_sound,
}
use axm_embodied.Streams.Residuals.{
  IsIndexed, scan_residuals-IsIndexed, scan_residuals-ne-out_of_fuel,
}
use axm_embodied.Recorder.Stored.{Residual, blob_of}
use axm_embodied.Streams.Residuals.RoundTrip.{IsTorn, index_all, scan-records}
use axm_embodied.Streams.Recorded.{capsule_of, build_streams_evidence-run}
use axm_embodied.Streams.Search.{answer, resync_to_magic-find}

abbrev pub first_two : Bytes → Bytes
first_two b = take 2 b

abbrev two_residuals : List Residual
two_residuals = (0, 7 ∷ []) ∷ (5, 1 ∷ 2 ∷ []) ∷ []

abbrev torn_tail : Bytes
torn_tail = take 14 (blob_of (6, 8 ∷ 9 ∷ []))

torn : IsTorn first_two torn_tail
torn = record {
  torn = (6, 8 ∷ 9 ∷ []);
  storable = (omega arith, omega arith);
  n = 14;
  partial = omega arith;
  tail_eq = refl;
}

abbrev pub torn_file : Bytes
torn_file = concat (map blob_of two_residuals) ++ torn_tail

scan-records_example :
    scan_residuals first_two (some torn_file) ≡ ok (index_all first_two 0 two_residuals new_scan)
scan-records_example =
    scan-records first_two two_residuals torn_tail
      ((omega arith, omega arith), ((omega arith, omega arith), tt)) torn

scan_residuals-IsIndexed_example :
    IsIndexed first_two torn_file (index_all first_two 0 two_residuals new_scan)
scan_residuals-IsIndexed_example = scan_residuals-IsIndexed first_two torn_file (
    scan-records first_two two_residuals torn_tail
      ((omega arith, omega arith), ((omega arith, omega arith), tt)) torn)

scan_residuals-ne-out_of_fuel_example : scan_residuals first_two (some torn_file) ≢ err out_of_fuel
scan_residuals-ne-out_of_fuel_example = scan_residuals-ne-out_of_fuel first_two (some torn_file)

abbrev bytes_of : ℕ → ℕ → Bytes
bytes_of zero b = []
bytes_of (suc n) b = b ∷ bytes_of n b

abbrev pub one_latent : Bytes
one_latent = hot_image (bytes_of 256 5 ∷ [])

verify_latent_sound_example :
    (k : ℕ) × (pos 0 ≡ pos k)
    × (pos 4 ≡ pos (file_header_len + k * latent_rec_len))
    × (pos latent_rec_len ≡ pos latent_rec_len)
    × IsLatentRecord first_two one_latent k (hex (5 ∷ 5 ∷ []))
verify_latent_sound_example =
    verify_latent_sound first_two one_latent (pos 4) (pos latent_rec_len) (pos 0)
      (claim_image first_two (bytes_of 256 5 ∷ []) 0 (refl, tt) (omega arith) refl)

abbrev walk : Frame
walk = record {
  latents = bytes_of 256 5;
  selected_action = "walk";
  action_distribution = end;
  residual = none;
  event = none;
}

session_verified_example :
    let r = new_recorder "r1" "s1" "out" "t" default_config in
    let ops = frame walk ∷ [] in
    ((p : Bytes)
      → get_elem? (payloads ops r) 0 ≡ some p
      → claim first_two (run ops r).f_lat.content 0 ≡ ok (verified (hex (first_two p))))
    × (length (payloads ops r) ≤ 0 → claim first_two (run ops r).f_lat.content 0 ≡ ok eof)
session_verified_example =
    session_verified first_two (frame walk ∷ []) "r1" "s1" "out" "t" default_config 0

abbrev pub no_texts : String → Option ℤ
no_texts s = none

-- Two frames around a freeze, one with a residual and an event, and the end of the session.
abbrev slipping : Frame
slipping = record walk {
  residual = some (1 ∷ 2 ∷ 3 ∷ []);
  event = some (field "evt" (string "wheel_slip") end);
}

abbrev slipping_calls : List Op
slipping_calls = frame walk ∷ freeze ∷ frame slipping ∷ finish ∷ freeze ∷ []

session_ended : (run slipping_calls (new_recorder "r1" "s1" "out" "t" default_config)).closed ≡ true
unfolding run run_op new_recorder record_frame pack_header push_residual push push_blob trigger
    trigger_buffer close
session_ended = refl

build_streams_evidence-run_example :
    let c = capsule_of (run slipping_calls (new_recorder "r1" "s1" "out" "t" default_config)) in
    (rows : List Row) × (build_streams_evidence first_two no_texts c ≡ ok rows)
    × (length c.events ≤ length rows)
    × All (IsBorneOut first_two c) rows
build_streams_evidence-run_example =
    build_streams_evidence-run first_two no_texts slipping_calls "r1" "s1" "out" "t" default_config
      ((tt, tt), (tt, (((refl, refl), omega arith), (tt, (tt, tt))))) session_ended

abbrev garbled : Bytes
garbled = 1 ∷ b'A' ∷ b'X' ∷ b'A' ∷ b'X' ∷ b'R' ∷ b'R' ∷ 2 ∷ []

resync_to_magic-find_example :
    resync_to_magic garbled magic_resid_rec 1
    ≡ answer 1 (find magic_resid_rec (read_at garbled 1 default_max_resync_bytes))
resync_to_magic-find_example = resync_to_magic-find garbled magic_resid_rec 1 (omega arith)

abbrev pub step_event : Fields
step_event = field "frame_id" (integer 0) (
    field "stream_refs"
      (object (
        field "latents" (object (field "offset" (integer 4) (field "length" (integer 269) end)))
          end))
      end)

abbrev capsule : Capsule
capsule = record {
  cam_latents = some one_latent;
  cam_residuals = some torn_file;
  events = step_event ∷ [];
}

abbrev pub evidence : List Row
evidence =
    record {
      frame_id = pos 0;
      stream = latents;
      offset = pos 4;
      len = pos 269;
      content_hash = hex (5 ∷ 5 ∷ []);
    }
    ∷ record {
      frame_id = pos 0;
      stream = residuals;
      offset = pos 0;
      len = pos 14;
      content_hash = hex (7 ∷ []);
    }
    ∷ []

pub compiles : build_streams_evidence first_two no_texts capsule ≡ ok evidence
unfolding build_streams_evidence all_rows event_rows judge scan_residuals scan_loop scan_round
    scan_record indexed verify_latent verify_at verify_header verify_payload unpack_header
compiles = refl

build_streams_evidence-IsBorneOut_example : All (IsBorneOut first_two capsule) evidence
build_streams_evidence-IsBorneOut_example =
    build_streams_evidence-IsBorneOut first_two no_texts capsule compiles
