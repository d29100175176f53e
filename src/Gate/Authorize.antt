-- ===== src/Gate/Authorize.antt =====
-- No proof, no motion: what a clearance rests on.
use axm_embodied.Common.{
  ◌≡◌, refl, subst, ◌⊎◌, inl, inr, String, true, List, [], ◌∷◌, some, Bytes, bytes_eq, bytes_eq→eq,
  bytes_eq_iff, hex, if◌then◌else◌, ok, arith, Bool-cases, Option-cases, Result-cases,
}
use axm_embodied.Common.Int.{◌≤ℤ◌, ≤ℤ_trans, gt_ℤ}
use axm_embodied.Common.Float.{Float}
use axm_embodied.Common.Table.{Table}
use axm_embodied.Envelope.{Shard, Kernel, bound_for, load, read_labels}
use axm_embodied.Envelope.Load.{IsLoaded, IsSigned, load-IsLoaded}
use axm_embodied.Gate.{
  LawGate, Clearance, contains, Anchors, anchor_for, add_anchor, collect_keys, trusted_keys, clear,
  authorize,
}

pub HasKey : Bytes → Table Bytes → Type 0
HasKey key [] = ⊥
HasKey key ((name, k) ∷ d) = (k ≡ key) ⊎ HasKey key d

module _ (k : Kernel) where
  -- An anchor is the content of a key file, under its own fingerprint, which the store lists.
  abbrev IsAnchor : List Bytes → Table Bytes → Bytes → Bytes → Type 0
  IsAnchor trusted keys fp key =
      HasKey key keys × (hex (k.sha256 key) ≡ fp) × (contains fp trusted ≡ true)

  abbrev AreAnchors : List Bytes → Table Bytes → Anchors → Type 0
  AreAnchors trusted keys out =
      (fp key : Bytes) → anchor_for fp out ≡ some key → IsAnchor trusted keys fp key

  anchor_for-add :
      (fp x key : Bytes) (d : Anchors)
      → anchor_for x (add_anchor fp key d) ≡ (if bytes_eq fp x then some key else anchor_for x d)
  anchor_for-add fp x key [] = refl
  anchor_for-add fp x key ((y, old) ∷ d) =
      ground
        (arith, bytes_eq_iff fp x, bytes_eq_iff y fp, bytes_eq_iff y x, anchor_for-add fp x key d)

  collect-AreAnchors :
      (trusted : List Bytes) (all keys : Table Bytes) (out : Anchors)
      → ((key : Bytes) → HasKey key keys → HasKey key all)
      → AreAnchors trusted all out
      → AreAnchors trusted all (collect_keys k trusted keys out)
  unfolding collect_keys HasKey
  collect-AreAnchors trusted all [] out sub h = h
  collect-AreAnchors trusted all ((name, key) ∷ keys) out sub h =
      let fp = hex (k.sha256 key) in
      collect-AreAnchors trusted all keys
        (if contains fp trusted then add_anchor fp key out else out) (λ x m. sub x (inr m))
        (added (sub key (inl refl)))
    where
      added :
          HasKey key all
          → AreAnchors trusted all (
              if contains (hex (k.sha256 key)) trusted
              then add_anchor (hex (k.sha256 key)) key out
              else out)
      added m fp x e = elim (Bool-cases (contains (hex (k.sha256 key)) trusted)) [
        | inr unlisted ↦ h fp x (rw unlisted at e)
        | inl listed ↦ elim (Bool-cases (bytes_eq (hex (k.sha256 key)) fp)) [
          | inl same ↦
              let fp_eq = bytes_eq→eq (hex (k.sha256 key)) fp same in
              let hit : key ≡ x = ground (arith, anchor_for-add (hex (k.sha256 key)) fp key out) in
              (subst (λ y. HasKey y all) hit m, rw (← hit) fp_eq, rw (← fp_eq) listed)
          | inr other ↦ h fp x (ground (arith, anchor_for-add (hex (k.sha256 key)) fp key out))
        ]
      ]

  -- What a clearance rests on: the shard's publisher key has the fingerprint of an enrolled key
  -- file, the kernel has verified the shard against that file, and every bound of the envelope is
  -- signed at a tier that the local policy permits.
  pub record IsCleared (gate : LawGate) (shard : Shard) (c : Clearance) : Type 0 where
    pub pub_bytes : Bytes
    pub publisher : shard.publisher_pub ≡ some pub_bytes
    pub keys : Table Bytes
    pub keys_eq : gate.keys ≡ some keys
    pub on_disk : HasKey c.trusted_key keys
    pub same_fingerprint : hex (k.sha256 c.trusted_key) ≡ hex (k.sha256 pub_bytes)
    pub enrolled : contains (hex (k.sha256 pub_bytes)) gate.trusted_fingerprints ≡ true
    pub verified : k.verify_shard shard c.trusted_key ≡ true
    pub loaded : IsLoaded k shard c.envelope
    pub tier_ok : c.envelope.max_tier ≤ℤ gate.max_actuation_tier
    pub tier_kept : c.max_actuation_tier ≡ gate.max_actuation_tier

  clear_inv :
      (gate : LawGate) (shard : Shard) (anchor : Bytes) (c : Clearance)
      → clear k gate shard anchor ≡ ok c
      → (load k shard anchor ≡ ok c.envelope)
        × (c.trusted_key ≡ anchor)
        × (c.envelope.max_tier ≤ℤ gate.max_actuation_tier)
        × (c.max_actuation_tier ≡ gate.max_actuation_tier)
  unfolding clear
  clear_inv gate shard anchor c e = elim (Result-cases (load k shard anchor)) [
    | inr (x, refused) ↦ absurd (ground arith)
    | inl (env, loaded) ↦ elim (Bool-cases (gt_ℤ env.max_tier gate.max_actuation_tier)) [
      | inl above ↦ absurd (ground arith)
      | inr within ↦
          let made : let d : Clearance = record {
            envelope = env;
            trusted_key = anchor;
            max_actuation_tier = gate.max_actuation_tier;
          } in
              d ≡ c =
            ground arith in
          subst
            (λ (d : Clearance).
              (load k shard anchor ≡ ok d.envelope)
              × (d.trusted_key ≡ anchor)
              × (d.envelope.max_tier ≤ℤ gate.max_actuation_tier)
              × (d.max_actuation_tier ≡ gate.max_actuation_tier))
            made (loaded, refl, within, refl)
    ]
  ]

  authorize_inv :
      (gate : LawGate) (shard : Shard) (c : Clearance)
      → authorize k gate shard ≡ ok c
      → (pub_bytes anchor : Bytes) × (shard.publisher_pub ≡ some pub_bytes)
        × (anchor_for (hex (k.sha256 pub_bytes)) (trusted_keys k gate) ≡ some anchor)
        × (clear k gate shard anchor ≡ ok c)
  unfolding authorize
  authorize_inv gate shard c e = elim (Option-cases shard.publisher_pub) [
    | inl missing ↦ absurd (ground arith)
    | inr (pub_bytes, p) ↦
        elim (Option-cases (anchor_for (hex (k.sha256 pub_bytes)) (trusted_keys k gate))) [
          | inl unknown ↦ absurd (ground arith)
          | inr (anchor, a) ↦ (pub_bytes, anchor, p, a, ground arith)
        ]
  ]

  trusted_keys-AreAnchors :
      (gate : LawGate) (fp key : Bytes)
      → anchor_for fp (trusted_keys k gate) ≡ some key
      → (keys : Table Bytes) × (gate.keys ≡ some keys)
        × IsAnchor gate.trusted_fingerprints keys fp key
  unfolding trusted_keys
  trusted_keys-AreAnchors gate fp key e = elim (Option-cases gate.keys) [
    | inl missing ↦ absurd (ground arith)
    | inr (keys, d) ↦ (
      keys,
      d,
      collect-AreAnchors gate.trusted_fingerprints keys keys [] (λ x m. m) (λ x y l. cc) fp key
          (rw d at e),
    )
  ]

  -- No proof, no motion: `authorize` returns a clearance only with all of that.
  pub authorize-IsCleared :
      (gate : LawGate) (shard : Shard) (c : Clearance)
      → authorize k gate shard ≡ ok c
      → IsCleared gate shard c
  authorize-IsCleared gate shard c e =
      let (pub_bytes, anchor, p, a, e₁) = authorize_inv gate shard c e in
      let (keys, d, (on_disk, same, listed)) =
        trusted_keys-AreAnchors gate (hex (k.sha256 pub_bytes)) anchor a in
      let (l, key_eq, tier, kept) = clear_inv gate shard anchor c e₁ in
      let (passed, loaded) = load-IsLoaded k shard anchor c.envelope l in
      record {
        pub_bytes = pub_bytes;
        publisher = p;
        keys = keys;
        keys_eq = d;
        on_disk = rw key_eq on_disk;
        same_fingerprint = rw key_eq same;
        enrolled = listed;
        verified = rw key_eq passed;
        loaded = loaded;
        tier_ok = tier;
        tier_kept = kept;
      }

  -- The robot moves only under law of a tier that its policy permits: each bound that the runtime
  -- will look up for an action is the decimal of a bound claim of the shard at most of that tier,
  -- whose subject the shard's own entities label with the prefix of the bounds and that action.
  pub authorize-bound :
      (gate : LawGate) (shard : Shard) (c : Clearance) (action : String) (bound : Float)
      → authorize k gate shard ≡ ok c
      → bound_for c.envelope action ≡ some bound
      → (labels : Table String) × (read_labels shard.entities [] ≡ ok labels)
        × IsSigned k labels shard.claims gate.max_actuation_tier action bound
  authorize-bound gate shard c action bound e l =
      let cleared = authorize-IsCleared gate shard c e in
      let signed = cleared.loaded.signed action bound l in
      (
        cleared.loaded.labels,
        cleared.loaded.labels_eq,
        record {
          row = signed.row;
          among = signed.among;
          tier = signed.tier;
          bounds = signed.bounds;
          covered =
              ≤ℤ_trans signed.tier c.envelope.max_tier gate.max_actuation_tier signed.covered
                cleared.tier_ok;
        },
      )
