-- ===== src/Attest.antt =====
-- src/axm_embodied/attest.py: the queue of attestations. A queue is its entry directories with their
-- names, an entry is its files, and record.json what it encodes. The digests, the clock,
-- `loads` (`json.loads`) and the time-stamping authority are parameters. Ids are without their "sh1_".
pub mod Gentime
pub mod Der
pub mod Entries
pub mod Flush
pub mod Shard
pub mod Sealing
mod Tests
use axm_embodied.Common.{
  ℕ, zero, suc, ◌+◌, ◌-◌, ◌/◌, ◌%◌, String, Bool, true, false, ◌&&◌, not, List, [], ◌∷◌, ◌++◌,
  Option, none, some, Bytes, ltb, leb, ◌==◌, if◌then◌else◌, length, take, drop, Action, Result, ok,
  err, pure, raise, gets, or_raise, modify, ◌>>=◌, ◌>>◌, bytes_eq, find, hex, digest_size, no_file,
  bad_json, no_object, key_missing,
}
use axm_embodied.Common.Json
use axm_embodied.Common.Json.{Json, object, Fields}

-- `n.to_bytes((n.bit_length() + 7) // 8, "big")`; each round divides by 256, so that `n` of them do.
unfoldable pub to_bytes : ℕ → ℕ → Bytes
to_bytes zero n = []
to_bytes (suc fuel) n =
    let rest = to_bytes fuel (n / 256) in if n == 0 then [] else rest ++ ((n % 256) ∷ [])

-- `_der_len`, for a length whose own length fits the seven bits that are left beside 0x80.
unfoldable pub der_len : ℕ → Bytes
der_len n = let body = to_bytes n n in if ltb n 128 then n ∷ [] else (128 + length body) ∷ body

unfoldable pub der : ℕ → Bytes → Bytes
der tag content = (tag ∷ []) ++ (der_len (length content) ++ content)

-- The object identifier of SHA-256, without its tag and length.
abbrev pub sha256_oid : Bytes
sha256_oid = 96 ∷ 134 ∷ 72 ∷ 1 ∷ 101 ∷ 3 ∷ 4 ∷ 2 ∷ 1 ∷ []

abbrev pub tsq_alg : Bytes
tsq_alg = der 48 (der 6 sha256_oid ++ der 5 [])

unfoldable pub encode_tsq : Bytes → Result Bytes
encode_tsq digest_sha256 =
    let imprint = der 48 (tsq_alg ++ der 4 digest_sha256) in
    if not (length digest_sha256 == 32)
    then err digest_size
    else ok (der 48 (der 2 (1 ∷ []) ++ (imprint ++ der 1 (255 ∷ []))))

pub record Anchor : Type 0 where
  pub kind : String
  pub tsa : String
  pub anchored_at_local_clock : String
  pub response_file : String

pub record AttestRecord : Type 0 where
  pub shard_id : Bytes
  pub manifest_sha256 : Bytes
  pub merkle_root : Json
  pub publisher_id : Json
  pub created_at_claimed : Json
  pub queued_at_local_clock : String
  pub note : String
  pub anchors : Option (List Anchor)

-- The files of an entry directory.
pub record EntryDir : Type 0 where
  pub manifest_json : Option Bytes
  pub manifest_tsq : Option Bytes
  pub manifest_tsr : Option Bytes
  pub record_json : Option AttestRecord

abbrev pub new_entry_dir : EntryDir
new_entry_dir = record {
  manifest_json = none;
  manifest_tsq = none;
  manifest_tsr = none;
  record_json = none;
}

abbrev pub Queue : Type 0
Queue = List (Bytes × EntryDir)

-- The order of names.
abbrev pub bytes_lt : Bytes → Bytes → Bool
bytes_lt xs [] = false
bytes_lt [] (y ∷ ys) = true
bytes_lt (x ∷ xs) (y ∷ ys) = if x == y then bytes_lt xs ys else ltb x y

abbrev pub entry_of : Bytes → Queue → Option EntryDir
entry_of id [] = none
entry_of id ((j, e) ∷ q) = if bytes_eq j id then some e else entry_of id q

-- A change of an entry directory, which is made where it is missing.
unfoldable pub update_entry : Bytes → (EntryDir → EntryDir) → Queue → Queue
update_entry id f [] = (id, f new_entry_dir) ∷ []
update_entry id f ((j, e) ∷ q) =
    let rest = update_entry id f q in if bytes_eq j id then (j, f e) ∷ q else (j, e) ∷ rest

pub record AttestationEntry : Type 0 where
  pub path : Bytes
  pub shard_id : Bytes
  pub manifest_sha256 : Bytes
  pub anchored : Bool

-- `d[k]` on a value that need not be a `dict`
abbrev pub item : String → Json → Result Json
item k (object d) = elim (Json.lookup k d) [ none ↦ err key_missing | some v ↦ ok v ]
item k v = err no_object

abbrev pub is_some {ℓ} : {A : Type ℓ} → Option A → Bool
is_some none = false
is_some (some a) = true

abbrev pub lift : {S A : Type 0} → Result A → Action S A
lift r s = (r, s)

-- Two items deep: `d[j][k]`
abbrev pub item_of : String → String → Json → Result Json
item_of j k v = elim (item j v) [ err e ↦ err e | ok inner ↦ item k inner ]

abbrev pub decoded : Option Json → Result Json
decoded none = err bad_json
decoded (some v) = ok v

module _ (sha256 blake3 : Bytes → Bytes) where
  -- `queue_attestation` of a shard whose manifest.json is `shard`.
  unfoldable pub queue_attestation :
      (Bytes → Option Json) → Option Bytes → String → String → Action Queue AttestationEntry
  queue_attestation loads shard note now = do
    manifest_bytes ← or_raise shard no_file
    let shard_id = hex (blake3 manifest_bytes)
    let manifest_sha256 = sha256 manifest_bytes
    manifest ← lift (decoded (loads manifest_bytes))
    modify (update_entry shard_id (λ e. record e { manifest_json = some manifest_bytes }))
    tsq ← lift (encode_tsq manifest_sha256)
    modify (update_entry shard_id (λ e. record e { manifest_tsq = some tsq }))
    merkle_root ← lift (item_of "integrity" "merkle_root" manifest)
    publisher_id ← lift (item_of "publisher" "id" manifest)
    created_at ← lift (item_of "metadata" "created_at" manifest)
    let entry : AttestRecord = record {
      shard_id = shard_id;
      manifest_sha256 = hex manifest_sha256;
      merkle_root = merkle_root;
      publisher_id = publisher_id;
      created_at_claimed = created_at;
      queued_at_local_clock = now;
      note = note;
      anchors = some [];
    }
    modify (update_entry shard_id (λ e. record e { record_json = some entry }))
    pure (record {
      path = shard_id;
      shard_id = shard_id;
      manifest_sha256 = hex manifest_sha256;
      anchored = false;
    })

  -- The digests of a manifest against a record and a query.
  unfoldable pub check_entry : Bytes → AttestRecord → Option Bytes → Result Bool
  check_entry manifest_bytes rec tsq =
      if not (bytes_eq rec.manifest_sha256 (hex (sha256 manifest_bytes)))
      then ok false
      else if not (bytes_eq rec.shard_id (hex (blake3 manifest_bytes)))
      then ok false
      else elim tsq [
        | none ↦ err no_file
        | some query ↦ elim (encode_tsq (sha256 manifest_bytes)) [
          | err e ↦ err e
          | ok expected ↦ ok (bytes_eq query expected)
        ]
      ]

  -- The live shard: `none` where none is given, and `some none` where it has no manifest.
  abbrev pub check_shard : Bytes → Option (Option Bytes) → Result Bool
  check_shard manifest_bytes none = ok true
  check_shard manifest_bytes (some none) = err no_file
  check_shard manifest_bytes (some (some live)) = ok (bytes_eq live manifest_bytes)

  unfoldable pub verify_entry_matches_shard : EntryDir → Option (Option Bytes) → Result Bool
  verify_entry_matches_shard e shard = elim e.manifest_json [
    | none ↦ err no_file
    | some manifest_bytes ↦ elim e.record_json [
      | none ↦ err no_file
      | some rec ↦ elim (check_entry manifest_bytes rec e.manifest_tsq) [
        | err x ↦ err x
        | ok false ↦ ok false
        | ok true ↦ check_shard manifest_bytes shard
      ]
    ]
  ]

abbrev pub listed : Bytes → EntryDir → AttestRecord → AttestationEntry
listed path e rec = record {
  path = path;
  shard_id = rec.shard_id;
  manifest_sha256 = rec.manifest_sha256;
  anchored = is_some e.manifest_tsr;
}

-- `sorted(queue_dir.iterdir())`
abbrev pub insert_by_name : Bytes × EntryDir → Queue → Queue
insert_by_name d [] = d ∷ []
insert_by_name d (c ∷ q) =
    let rest = insert_by_name d q in if bytes_lt c.0 d.0 then c ∷ rest else d ∷ c ∷ q

unfoldable pub sort_by_name : Queue → Queue
sort_by_name [] = []
sort_by_name (d ∷ q) = insert_by_name d (sort_by_name q)

-- A directory without a record is passed over.
unfoldable pub list_entries : Queue → List AttestationEntry
list_entries [] = []
list_entries ((path, e) ∷ q) = elim e.record_json [
  | none ↦ list_entries q
  | some rec ↦ listed path e rec ∷ list_entries q
]

abbrev pub list_queue : Queue → List AttestationEntry
list_queue q = list_entries (sort_by_name q)

pub data Status : Type 0 where
  anchored pending : Status

pub record FlushResult : Type 0 where
  pub shard_id : Bytes
  pub tsa : String
  pub status : Status

-- The record of an entry and its list of anchors, if it has one.
abbrev pub anchors_of : EntryDir → Option (AttestRecord × List Anchor)
anchors_of e = elim e.record_json [
  | none ↦ none
  | some rec ↦ elim rec.anchors [ none ↦ none | some anchors ↦ some (rec, anchors) ]
]

-- What becomes of the two writes after an answer: both go through; or that of the response raises, and
-- manifest.tsr is as before or has some bytes; or that of the record raises, which is as before.
pub data Storing : Type 0 where
  both_written record_refused : Storing
  response_refused : Option Bytes → Storing

-- The anchor that is noted in the record.
abbrev pub new_anchor : String → String → Anchor
new_anchor tsa_url now = record {
  kind = "rfc3161";
  tsa = tsa_url;
  anchored_at_local_clock = now;
  response_file = "manifest.tsr";
}

-- The rest of the `try` block: the status and the entry afterwards. A record without anchors raises
-- once the response is stored.
unfoldable pub store_answer : Storing → String → String → Bytes → EntryDir → Status × EntryDir
store_answer (response_refused none) tsa_url now tsr e = (pending, e)
store_answer (response_refused (some left)) tsa_url now tsr e =
    (pending, record e { manifest_tsr = some left })
store_answer record_refused tsa_url now tsr e = (pending, record e { manifest_tsr = some tsr })
store_answer both_written tsa_url now tsr e = elim (anchors_of e) [
  | none ↦ (pending, record e { manifest_tsr = some tsr })
  | some (rec, anchors) ↦ (
    anchored,
    record e {
      manifest_tsr = some tsr;
      record_json = some (record rec { anchors = some (anchors ++ (new_anchor tsa_url now ∷ [])) });
    },
  )
]

-- `post n` is what the authority answers to the `n`th request, `none` for one that fails, `storing n`
-- what becomes of the writes then, and `now n` the clock.
module _ (post : ℕ → Bytes → Option Bytes) (storing : ℕ → Storing) (now : ℕ → String)
    (tsa_url : String) where
  abbrev pub tsq_of : Bytes → Queue → Option Bytes
  tsq_of path q = elim (entry_of path q) [ none ↦ none | some e ↦ e.manifest_tsq ]

  -- The request for one entry.
  unfoldable pub flush_entry : ℕ → Bytes → Bytes → Action Queue Status
  flush_entry n path tsq = elim (post n tsq) [
    | none ↦ pure pending
    | some tsr ↦ do
      found ← gets (entry_of path)
      elim found [
        | none ↦ pure pending
        | some e ↦
            let (status, e') = store_answer (storing n) tsa_url (now n) tsr e in
            modify (update_entry path (λ d. e')) >> pure status
      ]
  ]

  -- The loop over the entries, with the number of requests so far.
  unfoldable pub flush_entries : ℕ → List AttestationEntry → Action Queue (List FlushResult)
  flush_entries n [] = pure []
  flush_entries n (entry ∷ entries) = elim entry.anchored [
    | true ↦ flush_entries n entries
    | false ↦ do
      found ← gets (tsq_of entry.path)
      tsq ← or_raise found no_file
      status ← flush_entry n entry.path tsq
      rest ← flush_entries (suc n) entries
      pure (record { shard_id = entry.shard_id; tsa = tsa_url; status = status } ∷ rest)
  ]

  unfoldable pub flush_queue : Action Queue (List FlushResult)
  flush_queue q = flush_entries 0 (list_queue q) q

-- The mark of a GeneralizedTime of 15 bytes.
abbrev pub time_mark : Bytes
time_mark = 24 ∷ 15 ∷ []

abbrev pub is_digit : ℕ → Bool
is_digit b = leb 48 b && leb b 57

abbrev pub are_digits : Bytes → Bool
are_digits [] = true
are_digits (b ∷ bs) = is_digit b && are_digits bs

-- Fourteen digits and a Z.
abbrev pub is_time : Bytes → Bool
is_time v =
    (length v == 15) && (are_digits (take 14 v) && bytes_eq (take 1 (drop 14 v)) (b'Z' ∷ []))

abbrev pub rfc3339 : Bytes → Bytes
rfc3339 s =
    take 4 s
    ++ (b'-' ∷ take 2 (drop 4 s))
    ++ (b'-' ∷ take 2 (drop 6 s))
    ++ (b'T' ∷ take 2 (drop 8 s))
    ++ (b':' ∷ take 2 (drop 10 s))
    ++ (b':' ∷ take 2 (drop 12 s))
    ++ (b'Z' ∷ [])

-- The search of `extract_rfc3161_gentime` in what is left of the response from position `i` on.
unfoldable pub gentime_loop : ℕ → Bytes → Option Bytes
gentime_loop zero bytes = none
gentime_loop (suc fuel) bytes = elim (find time_mark bytes) [
  | none ↦ none
  | some p ↦
      let v = take 15 (drop (p + 2) bytes) in
      let rest = gentime_loop fuel (drop (p + 2) bytes) in
      if is_time v then some (rfc3339 v) else rest
]

-- Every round but the last passes over two bytes.
unfoldable pub extract_rfc3161_gentime : Bytes → Option Bytes
extract_rfc3161_gentime tsr_bytes = gentime_loop (length tsr_bytes + 1) tsr_bytes
