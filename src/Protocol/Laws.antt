-- ===== src/Protocol/Laws.antt =====
-- Packing and unpacking a record header.
use axm_embodied.Common.{ℕ, ◌^◌, ◌<◌, ◌≡◌, refl, [], ◌∷◌, some, Bytes, length, arith, un_le32-le32}
use axm_embodied.Protocol.{
  Header, header_bytes, pack_header, unpack_header, version, rec_header_len,
}

-- `struct.unpack` gives back what `struct.pack` was given, for fields of 32 bits.
pub unpack-pack :
    (m a g i fid dlen : ℕ)
    → fid < 2 ^ 32
    → dlen < 2 ^ 32
    → unpack_header (header_bytes (m ∷ a ∷ g ∷ i ∷ []) fid dlen)
      ≡ some (record { magic = m ∷ a ∷ g ∷ i ∷ []; ver = version; frame_id = fid; dlen = dlen })
unfolding unpack_header
unpack-pack m a g i fid dlen hf hd = rw (un_le32-le32 fid hf, un_le32-le32 dlen hd)

pub length-header_bytes :
    (magic : Bytes) (fid dlen : ℕ) → length magic ≡ 4 → length (header_bytes magic fid dlen) ≡ 13
length-header_bytes (m ∷ a ∷ g ∷ i ∷ []) fid dlen h = refl
length-header_bytes _ fid dlen h = absurd (omega arith)

pub pack_header-some :
    (magic : Bytes) (fid dlen : ℕ)
    → fid < 2 ^ 32
    → dlen < 2 ^ 32
    → pack_header magic fid dlen ≡ some (header_bytes magic fid dlen)
unfolding pack_header
pack_header-some magic fid dlen hf hd = ground arith

pub pack_header-inv :
    (magic : Bytes) (fid dlen : ℕ) {b : Bytes}
    → pack_header magic fid dlen ≡ some b
    → (b ≡ header_bytes magic fid dlen) × (fid < 2 ^ 32) × (dlen < 2 ^ 32)
unfolding pack_header
pack_header-inv magic fid dlen h = ground arith

-- Thirteen bytes always unpack.
pub unpack_header-total :
    (b : Bytes) → length b ≡ rec_header_len → (h : Header) × (unpack_header b ≡ some h)
unfolding unpack_header
unpack_header-total (m ∷ a ∷ g ∷ i ∷ v ∷ f0 ∷ f1 ∷ f2 ∷ f3 ∷ d0 ∷ d1 ∷ d2 ∷ d3 ∷ []) h = (_, refl)
unpack_header-total _ h = absurd (omega arith)
