-- ===== src/Gate/Enroll.antt =====
-- `enroll_key`: the only way into the trust store.
use axm_embodied.Common.{
  ◌≡◌, inl, inr, String, ◌||◌, List, [], ◌∷◌, ◌++◌, Option, none, some, Bytes, bytes_eq,
  bytes_eq_iff, Option-cases, hex, ok, arith, Bool-cases,
}
use axm_embodied.Common.Table
use axm_embodied.Common.Table.{Table}
use axm_embodied.Envelope.{Kernel}
use axm_embodied.Gate.{Governance, contains, add_fingerprint, enroll_key}

contains-append :
    (x fp : Bytes) (fps : List Bytes)
    → contains x (fps ++ (fp ∷ [])) ≡ (contains x fps || bytes_eq fp x)
contains-append x fp [] = ground arith
contains-append x fp (y ∷ fps) = ground (arith, contains-append x fp fps)

module _ (k : Kernel) where
  -- Afterwards a fingerprint is listed exactly if it was listed before or is that of the new key.
  contains-add :
      (x fp : Bytes) (fps : List Bytes)
      → contains x (add_fingerprint k fp fps) ≡ (contains x fps || bytes_eq fp x)
  contains-add x fp fps = elim (Bool-cases (contains fp fps)) [
    | inl old ↦ ground (arith, bytes_eq_iff fp x)
    | inr new ↦ ground (arith, contains-append x fp fps)
  ]

  -- The trust store of a governance directory that has one, or that has none yet.
  abbrev pub listed : Option (Option (List Bytes)) → List Bytes
  listed none = []
  listed (some none) = []
  listed (some (some fps)) = fps

  -- Enrolling a key writes its file and lists its fingerprint, and no other fingerprint enters or
  -- leaves the store; the policy is not touched.
  pub enroll_key_lem :
      (gov : Governance) (name : String) (blob fp : Bytes)
      → (enroll_key k gov name blob).0 ≡ ok fp
      → let gov' = (enroll_key k gov name blob).1 in
        (fp ≡ hex (k.sha256 blob))
        × ((x : Bytes)
            → contains x (listed gov'.trust_store)
              ≡ (contains x (listed gov.trust_store) || bytes_eq fp x))
        × (gov'.keys ≡ some (Table.insert name blob (elim gov.keys [ none ↦ [] | some d ↦ d ])))
        × (gov'.local_policy ≡ gov.local_policy)
  unfolding enroll_key
  enroll_key_lem gov name blob fp e = elim (Option-cases gov.trust_store) [
    | inl missing ↦ (
      ground arith,
      (λ x. ground (arith, contains-add x (hex (k.sha256 blob)) [])),
      ground arith,
      ground arith,
    )
    | inr (store, there) ↦ elim (Option-cases store) [
      | inl unlisted ↦ absurd (ground arith)
      | inr (fps, l) ↦ (
        ground arith,
        (λ x. ground (arith, contains-add x (hex (k.sha256 blob)) fps)),
        ground arith,
        ground arith,
      )
    ]
  ]
