-- ===== src/Attest/Flush.antt =====
-- `flush_queue` of src/axm_embodied/attest.py: each pending entry is asked for once, and anchored if
-- the authority answers and both files are written.
use axm_embodied.Common.{
  ℕ, suc, ◌≡◌, ◌≢◌, ◌⊎◌, Bool, true, false, String, List, [], ◌∷◌, Option, none, some, Bytes, ok,
}
use axm_embodied.Attest.{
  Queue, EntryDir, AttestationEntry, FlushResult, Status, anchored, pending, Storing, both_written,
  is_some, anchors_of, store_answer, entry_of, update_entry, tsq_of, flush_entry, flush_entries,
}

-- The entry has a response.
abbrev pub IsAnchored : Bytes → Queue → Type 0
IsAnchored path q =
    (e : EntryDir) × (tsr : Bytes) × (entry_of path q ≡ some e) × (e.manifest_tsr ≡ some tsr)

-- Whether the record of an entry has a list of anchors.
abbrev pub is_listing : Bytes → Queue → Bool
is_listing path q = elim (entry_of path q) [ none ↦ false | some e ↦ is_some (anchors_of e) ]

module _ (post : ℕ → Bytes → Option Bytes) (storing : ℕ → Storing) (now : ℕ → String)
    (tsa_url : String) where
  -- The query of an entry.
  abbrev pub query : Bytes → Queue → Option Bytes
  query path q = tsq_of post storing now tsa_url path q

  abbrev pub IsReady : Bytes → Queue → Type 0
  IsReady path q = (tsq : Bytes) × (query path q ≡ some tsq)

  -- Why the `n`th request leaves an entry pending: it is not answered, or one of the two writes is
  -- refused, or the record has no list of anchors.
  abbrev pub IsRefused : ℕ → Bytes → Queue → Bytes → Type 0
  IsRefused n path q tsq =
      (post n tsq ≡ none) ⊎ ((storing n ≢ both_written) ⊎ (is_listing path q ≡ false))

  -- What the `n`th request has come to: it was answered, both writes went through and the entry has
  -- a response, or something has failed.
  abbrev pub IsDone : ℕ → Queue → Queue → AttestationEntry → FlushResult → Type 0
  IsDone n q q' entry r =
      (tsq : Bytes) × (query entry.path q ≡ some tsq)
      × (((r.status ≡ anchored)
            × (post n tsq ≢ none)
            × (storing n ≡ both_written)
            × IsAnchored entry.path q')
          ⊎ ((r.status ≡ pending) × IsRefused n entry.path q tsq))

  -- One result for each pending entry, in order.
  abbrev pub AreFlushed : ℕ → Queue → Queue → List AttestationEntry → List FlushResult → Type 0
  AreFlushed n q q' [] rs = rs ≡ []
  AreFlushed n q q' (entry ∷ entries) rs = elim entry.anchored [
    | true ↦ AreFlushed n q q' entries rs
    | false ↦
        (r : FlushResult) × (rest : List FlushResult) × (rs ≡ r ∷ rest)
        × (r.shard_id ≡ entry.shard_id)
        × IsDone n q q' entry r
        × AreFlushed (suc n) q q' entries rest
  ]

  -- What no request changes: the queries, whether a record lists anchors, and that an entry has a
  -- response.
  record IsLater (q q' : Queue) : Type 0 where
    same : (path : Bytes) → query path q' ≡ query path q
    listing : (path : Bytes) → is_listing path q' ≡ is_listing path q
    kept : (path : Bytes) → IsAnchored path q → IsAnchored path q'

  -- What becomes of an entry whose request is answered.
  abbrev answered : ℕ → Bytes → EntryDir → Status × EntryDir
  answered n tsr e = store_answer (storing n) tsa_url (now n) tsr e

  -- The queue afterwards.
  abbrev stored : ℕ → Bytes → Bytes → EntryDir → Queue → Queue
  stored n path tsr e q = update_entry path (λ d. (answered n tsr e).1) q

  -- What the loop comes to from a queue `s`, if `q` has the same queries.
  record IsFlushed (n : ℕ) (q s : Queue) (entries : List AttestationEntry) : Type 0 where
    results : List FlushResult
    after : Queue
    returned : flush_entries post storing now tsa_url n entries s ≡ (ok results, after)
    later : IsLater s after
    all_done : AreFlushed n q after entries results

  result_of : AttestationEntry → Status → FlushResult
  result_of entry status = record { shard_id = entry.shard_id; tsa = tsa_url; status = status }

  -- What one request does: the status, the queue after it, and what that means.
  record IsAsked (n : ℕ) (s : Queue) (entry : AttestationEntry) (tsq : Bytes) : Type 0 where
    status : Status
    after : Queue
    returned : flush_entry post storing now tsa_url n entry.path tsq s ≡ (ok status, after)
    later : IsLater s after
    outcome :
        ((status ≡ anchored)
          × (post n tsq ≢ none)
          × (storing n ≡ both_written)
          × IsAnchored entry.path after)
        ⊎ ((status ≡ pending) × IsRefused n entry.path s tsq)
