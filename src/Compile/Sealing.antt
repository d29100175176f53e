-- ===== src/Compile/Sealing.antt =====
-- `compile_capsule` of src/axm_embodied/compile.py: what has been checked of a capsule whose shard it
-- reports.
use axm_embodied.Common.{
  ◌≡◌, ◌≢◌, refl, sym, ap, ◌∙◌, subst, no_events, inl, inr, String, Bool, true, false, List, [],
  ◌∷◌, Option, none, some, Bytes, All, Result, ok, err, Option-cases, arith, hex,
}
use axm_embodied.Common.Decode.{bind_inv, ◌>>=◌}
use axm_embodied.Common.Int.{ℤ}
use axm_embodied.Common.Json.{Fields}
use axm_embodied.Compile.{
  Texts, Candidate, CapsuleDir, CompileRequest, Kernel, capsule_config, compiled, decode_events,
  judged_rows, compile_claims, compile_capsule, extract_candidates, file_lines, split_lines,
}
use axm_embodied.Streams.{Capsule, Row, build_streams_evidence}
use axm_embodied.Streams.Evidence.{IsBorneOut, build_streams_evidence-IsBorneOut}

module _ (blake3 : Bytes → Bytes) where
  -- The kernel has accepted, and the id is the digest of the manifest that it left.
  pub record IsAccepted (answer : Bool × Option Bytes) (id : Bytes) : Type 0 where
    pub manifest : Bytes
    pub accepted : answer ≡ (true, some manifest)
    pub id_eq : id ≡ hex (blake3 manifest)

  pub compiled-IsAccepted :
      (answer : Bool × Option Bytes) {id : Bytes}
      → compiled blake3 answer ≡ ok id
      → IsAccepted answer id
  compiled-IsAccepted (true, some manifest) e = record {
    manifest = manifest;
    accepted = refl;
    id_eq = ground arith;
  }
  compiled-IsAccepted (true, none) e = cc
  compiled-IsAccepted (false, manifest) e = cc

module _ (t : Texts) (sha256 : Bytes → Bytes) (parse_int : String → Option ℤ) where
  -- The streams of a capsule, as the judge reads them.
  abbrev pub streams_of : CapsuleDir → List Fields → Capsule
  streams_of dir objects = record {
    cam_latents = dir.cam_latents;
    cam_residuals = dir.cam_residuals;
    events = objects;
  }

  -- The rows of a capsule: none without a latent stream, else those of the judge.
  pub record AreJudged (events : Bytes) (dir : CapsuleDir) (rows : List Row) : Type 0 where
    pub objects : List Fields
    pub borne_out : All (IsBorneOut sha256 (streams_of dir objects)) rows
    pub judged :
        (content : Bytes)
        → dir.cam_latents ≡ some content
        → (decode_events t (file_lines (split_lines events)) ≡ ok objects)
          × (build_streams_evidence sha256 parse_int (streams_of dir objects) ≡ ok rows)

  judged_rows-AreJudged :
      (events : Bytes) (dir : CapsuleDir) {rows : List Row}
      → judged_rows t sha256 parse_int events dir ≡ ok rows
      → AreJudged events dir rows
  unfolding judged_rows
  judged_rows-AreJudged events dir {rows} e = elim (Option-cases dir.cam_latents) [
    | inl missing ↦
        let empty : [] ≡ rows = ground arith in
        record {
          objects = [];
          borne_out = subst (All (IsBorneOut sha256 (streams_of dir []))) empty tt;
          judged = λ content there. absurd (ground arith);
        }
    | inr (f, there) ↦
        let (objects, decoded, e₁) =
          bind_inv (decode_events t (file_lines (split_lines events))) _ (rw there at e) in
        let built : build_streams_evidence sha256 parse_int (streams_of dir objects) ≡ ok rows =
          rw (streams_of, there) e₁ in
        record {
          objects = objects;
          borne_out =
              build_streams_evidence-IsBorneOut sha256 parse_int (streams_of dir objects) built;
          judged = λ content same. (decoded, built);
        }
  ]

  module _ (blake3 : Bytes → Bytes) where
    -- A shard that is reported: the log claims something, the judge has borne every row of the streams
    -- out, and the kernel was given just these claims, these rows and the bytes of these files, and
    -- accepted.
    pub record IsSealed (kernel : Kernel Row) (envelope : Option Bytes) (req : CompileRequest)
        (dir : CapsuleDir) (id : Bytes) : Type 0 where
      pub events : Bytes
      pub there : dir.events_jsonl ≡ some events
      pub candidates : List Candidate
      pub drawn : extract_candidates t envelope events ≡ ok candidates
      pub some_claim : candidates ≢ []
      pub rows : List Row
      pub are_judged : AreJudged events dir rows
      pub accepted : IsAccepted blake3 (kernel (capsule_config req dir events candidates rows)) id

    compile_claims-IsSealed :
        (kernel : Kernel Row) (envelope : Option Bytes) (req : CompileRequest) (dir : CapsuleDir)
        (events : Bytes) (candidates : List Candidate) {id : Bytes}
        → dir.events_jsonl ≡ some events
        → extract_candidates t envelope events ≡ ok candidates
        → compile_claims t sha256 parse_int blake3 kernel req dir events candidates ≡ ok id
        → IsSealed kernel envelope req dir id
    unfolding compile_claims
    compile_claims-IsSealed kernel envelope req dir events [] there drawn e = cc
    compile_claims-IsSealed kernel envelope req dir events (c ∷ cs) there drawn e =
        let (rows, judged, e₁) = bind_inv (judged_rows t sha256 parse_int events dir) _ e in
        record {
          events = events;
          there = there;
          candidates = c ∷ cs;
          drawn = drawn;
          some_claim = λ empty. cc;
          rows = rows;
          are_judged = judged_rows-AreJudged events dir judged;
          accepted = compiled-IsAccepted blake3 _ e₁;
        }

    -- What the compiler does with the log, if it is there.
    abbrev on_log :
        Kernel Row → Option Bytes → CompileRequest → CapsuleDir → Option Bytes → Result Bytes
    on_log kernel envelope req dir file = elim file [
      | none ↦ err no_events
      | some events ↦ do
        candidates ← extract_candidates t envelope events
        compile_claims t sha256 parse_int blake3 kernel req dir events candidates
    ]

    -- An id is returned only for a capsule whose log claims something and whose latent stream, if it
    -- has one, the judge bears out row by row, and only if the kernel, given just those claims and
    -- rows and the bytes of the files, accepts; and it is the digest of the manifest.
    pub compile_capsule-IsSealed :
        (kernel : Kernel Row) (envelope : Option Bytes) (req : CompileRequest) (dir : CapsuleDir)
        {id : Bytes}
        → compile_capsule t sha256 parse_int blake3 kernel envelope req dir ≡ ok id
        → IsSealed kernel envelope req dir id
    unfolding compile_capsule
    compile_capsule-IsSealed kernel envelope req dir e = elim (Option-cases dir.events_jsonl) [
      | inl missing ↦ absurd (ground arith)
      | inr (events, there) ↦
          let (candidates, drawn, e₁) =
            bind_inv (extract_candidates t envelope events) _
              (sym (ap (on_log kernel envelope req dir) there) ∙ e) in
          compile_claims-IsSealed kernel envelope req dir events candidates there drawn e₁
    ]
