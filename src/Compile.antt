-- ===== src/Compile.antt =====
-- src/axm_embodied/compile.py: a capsule becomes claims, and the claims a signed shard. The kernel
-- compiler (`axm_build.compiler_generic`) is a parameter, as are blake3 and, in `Texts`, what Python
-- itself does with texts and JSON. The kernel is given the claims themselves in place of the file of
-- their JSON lines. The lines that are printed after a shard has been written are left out.
pub mod Claims
pub mod Breach
pub mod Sealing
pub mod Frames
mod Tests
use axm_embodied.Common.{
  ℕ, suc, String, Bool, true, false, ◌&&◌, ◌||◌, List, [], ◌∷◌, ◌++◌, Option, none, some, Bytes,
  if◌then◌else◌, Result, Error, ok, err, ◌==◌, str_eq, hex, bad_text, bad_json, no_object,
  no_events, no_candidates, kernel_rejected, no_file,
}
use axm_embodied.Common.Decode.{◌>>=◌, key}
use axm_embodied.Common.Int.{ℤ}
use axm_embodied.Common.Json
use axm_embodied.Common.Json.{
  Json, null, boolean, integer, negative, number, string, object, Fields, field, end,
}
use axm_embodied.Streams.{Capsule, Row, build_streams_evidence}
use Prim.Native.String.{◌++◌ as ◌⧺◌}

-- `decode` and `loads` raise for what they cannot read; `str` is the text of a value, and `dumps` its
-- JSON in compact form.
pub record Texts : Type 0 where
  pub decode : Bytes → Option String
  pub loads : String → Option Json
  pub str : Json → String
  pub dumps : Json → String

pub record Reference : Type 0 where
  pub dst_shard_id : Bytes
  pub relation_type : String
  pub dst_object_type : String
  pub dst_object_id : String
  pub confidence : String
  pub note : String

-- `references` is empty where the key is missing.
pub record Candidate : Type 0 where
  pub subject : Json
  pub predicate : String
  pub object : Json
  pub object_type : String
  pub tier : ℕ
  pub evidence : String
  pub references : List Reference

-- A candidate without references.
abbrev pub claim : Json → String → Json → String → ℕ → String → Candidate
claim subj pred obj obj_type tier ev = record {
  subject = subj;
  predicate = pred;
  object = obj;
  object_type = obj_type;
  tier = tier;
  evidence = ev;
  references = [];
}

-- The candidates so far, and the keys that have been seen.
pub record Drawn : Type 0 where
  pub candidates : List Candidate
  pub seen : List String

abbrev pub nothing_drawn : Drawn
nothing_drawn = record { candidates = []; seen = [] }

abbrev pub is_seen : String → List String → Bool
is_seen k [] = false
is_seen k (j ∷ ks) = str_eq j k || is_seen k ks

-- `text.split(b"\n")`, with the codes of the line that has begun.
abbrev pub split_lines : Bytes → List Bytes
split_lines [] = [] ∷ []
split_lines (b ∷ bs) = elim (split_lines bs) [
  | [] ↦ (b ∷ []) ∷ []
  | line ∷ lines ↦ if b == 10 then [] ∷ line ∷ lines else (b ∷ line) ∷ lines
]

-- `evt.get(name, default)`
abbrev pub get_or : String → Json → Fields → Json
get_or name default evt = elim (Json.lookup name evt) [ none ↦ default | some v ↦ v ]

-- `name in evt`
abbrev pub has : String → Fields → Bool
has name evt = elim (Json.lookup name evt) [ none ↦ false | some v ↦ true ]

-- `evt.get("evt") == name`
abbrev pub is_evt : String → Fields → Bool
is_evt name evt = elim (Json.lookup "evt" evt) [ some (string s) ↦ str_eq s name | _ ↦ false ]

-- `isinstance(v, (int, float))`; a `bool` is an `int`.
abbrev pub is_number : Json → Bool
is_number (boolean b) = true
is_number (integer n) = true
is_number (negative n) = true
is_number (number x) = true
is_number v = false

abbrev pub as_object : Json → Result Fields
as_object (object d) = ok d
as_object v = err no_object

-- The reference to the envelope that a breach claim carries; an id is never the empty text.
abbrev pub envelope_ref : Option Bytes → List Reference
envelope_ref none = []
envelope_ref (some id) =
    record {
      dst_shard_id = id;
      relation_type = "cites";
      dst_object_type = "shard";
      dst_object_id = "";
      confidence = "1.0";
      note = "safety envelope in force at the moment of the breach";
    }
    ∷ []

module _ (t : Texts) where
  abbrev pub key_of : Candidate → String
  key_of c =
      t.str c.subject
      ⧺ "\0"
      ⧺ c.predicate
      ⧺ "\0"
      ⧺ t.str c.object
      ⧺ "\0"
      ⧺ c.object_type
      ⧺ "\0"
      ⧺ c.evidence

  -- `_add`
  unfoldable pub add : Candidate → Drawn → Drawn
  add c s =
      if is_seen (key_of c) s.seen
      then s
      else record { candidates = s.candidates ++ (c ∷ []); seen = key_of c ∷ s.seen }

  unfoldable pub add_all : List Candidate → Drawn → Drawn
  add_all [] s = s
  add_all (c ∷ cs) s = add_all cs (add c s)

  -- A line of the log: its text, and the object that it encodes.
  unfoldable pub decode_line : Bytes → Result (String × Fields)
  decode_line b = elim (t.decode b) [
    | none ↦ err bad_text
    | some text ↦ elim (t.loads text) [
      | none ↦ err bad_json
      | some v ↦ do evt ← as_object v; ok (text, evt)
    ]
  ]

  abbrev pub slip_claims : Json → String → Fields → Result (List Candidate)
  slip_claims robot text evt = ok (
      claim robot "observed" (string "wheel_slip") "entity" 2 text
      ∷ elim (Json.lookup "surface" evt) [
        | none ↦ []
        | some surface ↦
            claim (string "wheel_slip") "on_surface" surface "literal:string" 2 text ∷ []
      ])

  abbrev pub recovery_claims : String → Fields → Result (List Candidate)
  recovery_claims text evt = do
    action ← key "action" evt
    value ← key "value" evt
    ok (
        claim (string "wheel_slip") "resolved_by" action "entity" 1 text
        ∷ claim action "applied_value" (string (t.str value)) "literal:string" 2 text
        ∷ [])

  -- The claim of a field that holds a number.
  abbrev pub number_claims : String → String → String → Fields → Result (List Candidate)
  number_claims name pred text evt = elim (Json.lookup name evt) [
    | none ↦ ok []
    | some v ↦
        if is_number v
        then (do
          fid ← key "frame_id" evt
          ok (
              claim (string ("breach/frame-" ⧺ t.str fid)) pred (string (t.str v)) "literal:decimal"
                1 text
              ∷ []))
        else ok []
  ]

  abbrev pub breach_claim : Option Bytes → Json → String → Fields → Candidate
  breach_claim envelope robot text evt =
      let c =
        claim robot "breached_envelope" (string (t.str (get_or "action" (string "") evt)))
          "literal:string" 1 text in
      record c { references = envelope_ref envelope }

  abbrev pub breach_claims : Option Bytes → Json → String → Fields → Result (List Candidate)
  breach_claims envelope robot text evt = do
    norm ← number_claims "l_inf" "observed_l_inf" text evt
    bound ← number_claims "bound" "envelope_bound" text evt
    ok (breach_claim envelope robot text evt ∷ norm ++ bound)

  -- `action_distribution.items()`
  abbrev pub considered_claims : Json → String → Fields → List Candidate
  considered_claims robot text end = []
  considered_claims robot text (field action conf d) =
      claim robot "considered_action"
        (string (t.dumps (object (field "action" (string action) (field "confidence" conf end)))))
        "literal:string" 2 text
      ∷ considered_claims robot text d

  -- The choice that the robot made on a frame.
  unfoldable pub action_claims : Json → String → Fields → Result (List Candidate)
  action_claims robot text evt =
      if has "selected_action" evt && has "action_distribution" evt
      then (do
        selected ← key "selected_action" evt
        dist ← key "action_distribution" evt
        weights ← as_object dist
        ok (
            claim robot "selected_action" selected "entity" 1 text
            ∷ considered_claims robot text weights))
      else ok []

  -- What the kind of an event claims.
  unfoldable pub kind_claims : Option Bytes → Json → String → Fields → Result (List Candidate)
  kind_claims envelope robot text evt =
      if is_evt "wheel_slip" evt
      then slip_claims robot text evt
      else if is_evt "recovery_action" evt
      then recovery_claims text evt
      else if is_evt "emergency_stop" evt
      then ok (claim robot "triggered" (string "emergency_stop") "entity" 1 text ∷ [])
      else if is_evt "envelope_breach" evt
      then breach_claims envelope robot text evt
      else ok []

  -- The claims of one event, in the order in which they are added.
  unfoldable pub event_claims : Option Bytes → String → Fields → Result (List Candidate)
  event_claims envelope text evt = do
    let robot = get_or "robot_id" (string "robot-001") evt
    first ← kind_claims envelope robot text evt
    rest ← action_claims robot text evt
    ok (first ++ rest)

  module _ (draw : String → Fields → Result (List Candidate)) where
    -- The loop over the lines, with the claims that each event makes.
    unfoldable pub extract_lines : List Bytes → Drawn → Result Drawn
    extract_lines [] s = ok s
    extract_lines ([] ∷ bs) s = extract_lines bs s
    extract_lines ((x ∷ xs) ∷ bs) s = do
      line ← decode_line (x ∷ xs)
      claims ← draw line.0 line.1
      extract_lines bs (add_all claims s)

    unfoldable pub draw_candidates : Bytes → Result (List Candidate)
    draw_candidates raw_bytes = do
      s ← extract_lines (split_lines raw_bytes) nothing_drawn
      ok s.candidates

  -- `_extract_candidates` on the bytes of events.jsonl
  abbrev pub extract_candidates : Option Bytes → Bytes → Result (List Candidate)
  extract_candidates envelope raw_bytes = draw_candidates (event_claims envelope) raw_bytes

-- What the kernel compiler is asked for. `extra_content` has the bytes of each file, and `extra_ext`
-- the name of the table and its rows.
pub record CompilerConfig (R : Type 0) : Type 0 where
  pub source : Bytes
  pub candidates : List Candidate
  pub out_dir : String
  pub private_key : Bytes
  pub publisher_id : String
  pub publisher_name : String
  pub namespace : String
  pub created_at : String
  pub title : String
  pub license_spdx : String
  pub profiles : List String
  pub extra_content : List (String × Bytes)
  pub extra_ext : Option (String × List R)

-- The kernel compiler: its answer, and what manifest.json is in the output directory afterwards.
abbrev pub Kernel : Type 0 → Type 0
Kernel R = CompilerConfig R → Bool × Option Bytes

-- What a caller asks for; `now` is the clock, and `name` the last part of the capsule's path.
pub record CompileRequest : Type 0 where
  pub name : String
  pub out_path : String
  pub secret_key : Bytes
  pub timestamp : Option String
  pub now : String

-- `timestamp or utc_now_rfc3339()`
abbrev pub created_at_of : CompileRequest → String
created_at_of req = elim req.timestamp [
  | none ↦ req.now
  | some s ↦ if str_eq s "" then req.now else s
]

-- `rows if rows else None`, under the name of the table
abbrev pub ext_of {ℓ} : {R : Type ℓ} → List R → Option (String × List R)
ext_of [] = none
ext_of (row ∷ rows) = some ("streams@1", row ∷ rows)

-- The id of a shard is the digest of its manifest; its prefix "sh1_" is left out.
abbrev pub derive_shard_id : (Bytes → Bytes) → Option Bytes → Result Bytes
derive_shard_id blake3 none = err no_file
derive_shard_id blake3 (some manifest) = ok (hex (blake3 manifest))

-- The kernel's answer and, if it accepts, the id of the shard.
abbrev pub compiled : (Bytes → Bytes) → Bool × Option Bytes → Result Bytes
compiled blake3 (true, manifest) = derive_shard_id blake3 manifest
compiled blake3 (false, manifest) = err kernel_rejected

-- A capsule directory.
pub record CapsuleDir : Type 0 where
  pub events_jsonl : Option Bytes
  pub cam_latents : Option Bytes
  pub cam_residuals : Option Bytes

-- The lines that iteration over a file yields: none for what follows the last line feed, if nothing does.
abbrev pub file_lines : List Bytes → List Bytes
file_lines [] = []
file_lines ([] ∷ []) = []
file_lines (line ∷ lines) = line ∷ file_lines lines

abbrev pub latent_content : Option Bytes → List (String × Bytes)
latent_content none = []
latent_content (some content) = ("cam_latents.bin", content) ∷ []

-- An empty file of residuals is not sealed.
abbrev pub residual_content : Option Bytes → List (String × Bytes)
residual_content (some (b ∷ bs)) = ("cam_residuals.bin", b ∷ bs) ∷ []
residual_content content = []

abbrev pub capsule_config :
    CompileRequest → CapsuleDir → Bytes → List Candidate → List Row → CompilerConfig Row
capsule_config req dir events candidates rows = record {
  source = events;
  candidates = candidates;
  out_dir = req.out_path;
  private_key = req.secret_key;
  publisher_id = "@axm_embodied";
  publisher_name = "AXM Embodied";
  namespace = "embodied/incident";
  created_at = created_at_of req;
  title = "Flash Freeze capsule " ⧺ req.name;
  license_spdx = "Apache-2.0";
  profiles = "embodied@1" ∷ [];
  extra_content = latent_content dir.cam_latents ++ residual_content dir.cam_residuals;
  extra_ext = ext_of rows;
}

module _ (t : Texts) where
  -- The events of a log, for the judge.
  unfoldable pub decode_events : List Bytes → Result (List Fields)
  decode_events [] = ok []
  decode_events (b ∷ bs) = do line ← decode_line t b; rest ← decode_events bs; ok (line.1 ∷ rest)

  module _ (sha256 : Bytes → Bytes) (parse_int : String → Option ℤ) where
    -- The judge runs before anything is sealed, if there is a latent stream. Its log is decoded as a
    -- whole, before it opens the streams: of two errors, the other one is raised.
    unfoldable pub judged_rows : Bytes → CapsuleDir → Result (List Row)
    judged_rows events dir = elim dir.cam_latents [
      | none ↦ ok []
      | some content ↦ do
        objects ← decode_events (file_lines (split_lines events))
        build_streams_evidence sha256 parse_int (record {
          cam_latents = some content;
          cam_residuals = dir.cam_residuals;
          events = objects;
        })
    ]

    module _ (blake3 : Bytes → Bytes) where
      -- A capsule whose log is there and claims something.
      unfoldable pub compile_claims :
          Kernel Row → CompileRequest → CapsuleDir → Bytes → List Candidate → Result Bytes
      compile_claims kernel req dir events [] = err no_candidates
      compile_claims kernel req dir events (c ∷ cs) = do
        rows ← judged_rows events dir
        compiled blake3 (kernel (capsule_config req dir events (c ∷ cs) rows))

      unfoldable pub compile_capsule :
          Kernel Row → Option Bytes → CompileRequest → CapsuleDir → Result Bytes
      compile_capsule kernel envelope req dir = elim dir.events_jsonl [
        | none ↦ err no_events
        | some events ↦ do
          candidates ← extract_candidates t envelope events
          compile_claims kernel req dir events candidates
      ]
