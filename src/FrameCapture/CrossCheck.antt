-- ===== src/FrameCapture/CrossCheck.antt =====
-- `_cross_check_log` accepts a log whose frame_kept lines are the records on disk.
use axm_embodied.Common.{
  ℕ, ◌+◌, ◌≤◌, ◌<◌, ◌≡◌, refl, ◌∙◌, true, List, [], ◌∷◌, some, All, bytes_eq_refl, ==_self, ok,
  arith, map,
}
use axm_embodied.Common.Dict
use axm_embodied.Common.Dict.{Dict}
use axm_embodied.FrameCapture.{
  KeptFrameRef, LogEntry, capture_trigger, capture_window_opened, capture_window_closed, frame_kept,
}
use axm_embodied.FrameCapture.Judge.{
  by_frame_id, check_claim, check_claims, all_claimed, cross_check_log,
}
use axm_embodied.FrameCapture.Records.{kept_refs}

-- References whose frame ids increase from `lo` on.
abbrev pub AreIncreasing : ℕ → List KeptFrameRef → Type 0
AreIncreasing lo [] = Unit {0}
AreIncreasing lo (ref ∷ refs) = (lo ≤ ref.frame_id) × AreIncreasing (ref.frame_id + 1) refs

lookup-by_frame_id :
    (refs : List KeptFrameRef) (d : Dict KeptFrameRef) (lo k : ℕ)
    → AreIncreasing lo refs
    → k < lo
    → Dict.lookup k (by_frame_id refs d) ≡ Dict.lookup k d
lookup-by_frame_id [] d lo k h n = refl
lookup-by_frame_id (ref ∷ refs) d lo k (a, h) n =
    lookup-by_frame_id refs (Dict.insert ref.frame_id ref d) (ref.frame_id + 1) k h (omega arith)
    ∙ ground (arith, Dict.lookup-insert ref.frame_id k ref d)

-- Each reference is found under its own id.
by_frame_id-found :
    (refs : List KeptFrameRef) (d : Dict KeptFrameRef) (lo : ℕ)
    → AreIncreasing lo refs
    → All (λ ref. Dict.lookup ref.frame_id (by_frame_id refs d) ≡ some ref) refs
by_frame_id-found [] d lo h = tt
by_frame_id-found (ref ∷ refs) d lo (a, h) = (
  lookup-by_frame_id refs (Dict.insert ref.frame_id ref d) (ref.frame_id + 1) ref.frame_id h
        (omega arith)
      ∙ ground (arith, Dict.lookup-insert ref.frame_id ref.frame_id ref d),
  by_frame_id-found refs (Dict.insert ref.frame_id ref d) (ref.frame_id + 1) h,
)

check_claim_self : (ref : KeptFrameRef) → check_claim ref (some ref) ≡ ok tt
unfolding check_claim
check_claim_self ref =
    rw (
      ==_self ref.offset,
      ==_self ref.len,
      bytes_eq_refl ref.content_sha256,
      bytes_eq_refl ref.chain,
    )

check_claims-found :
    (log : List LogEntry) (d : Dict KeptFrameRef)
    → All (λ ref. Dict.lookup ref.frame_id d ≡ some ref) (kept_refs log)
    → check_claims d log ≡ ok (map (λ ref. ref.frame_id) (kept_refs log))
unfolding check_claims kept_refs
check_claims-found [] d h = refl
check_claims-found (frame_kept ref sensor_id ∷ log) d (a, h) =
    rw (a, check_claim_self ref, check_claims-found log d h)
check_claims-found (capture_trigger x y z w ∷ log) d h = check_claims-found log d h
check_claims-found (capture_window_opened x y z ∷ log) d h = check_claims-found log d h
check_claims-found (capture_window_closed x y z ∷ log) d h = check_claims-found log d h

all_claimed-more :
    (refs : List KeptFrameRef) (x : ℕ) (claimed : List ℕ)
    → all_claimed claimed refs ≡ true
    → all_claimed (x ∷ claimed) refs ≡ true
all_claimed-more [] x claimed h = refl
all_claimed-more (ref ∷ refs) x claimed h = ground (arith, all_claimed-more refs x claimed)

all_claimed_self :
    (refs : List KeptFrameRef) → all_claimed (map (λ ref. ref.frame_id) refs) refs ≡ true
all_claimed_self [] = refl
all_claimed_self (ref ∷ refs) =
    rw (==_self ref.frame_id)
      (all_claimed-more refs ref.frame_id (map (λ r. r.frame_id) refs) (all_claimed_self refs))

-- A log whose frame_kept lines are the records on disk, in the order of their ids.
pub cross_check_log-same :
    (refs : List KeptFrameRef) (log : List LogEntry) (lo : ℕ)
    → kept_refs log ≡ refs
    → AreIncreasing lo refs
    → cross_check_log refs log ≡ ok tt
unfolding cross_check_log
cross_check_log-same refs log lo e h = rw (
  check_claims-found log (by_frame_id refs []) (rw e (by_frame_id-found refs [] lo h)),
  e,
  all_claimed_self refs,
)
