-- ===== src/Protocol.antt =====
-- src/axm_embodied_core/protocol.py: the magic values and the record layout that the recorders and
-- the judges share, with `struct.pack` and `struct.unpack` at the format "<4sBII".
pub mod Laws
use axm_embodied.Common.{
  ℕ, suc, ◌+◌, ◌*◌, ◌^◌, ◌&&◌, List, [], ◌∷◌, ◌++◌, Option, none, some, Bytes, ltb, if◌then◌else◌,
  length, le32, un_le32,
}

abbrev pub magic_latent_file : Bytes
magic_latent_file = b'A' ∷ b'X' ∷ b'L' ∷ b'F' ∷ []

abbrev pub magic_latent_rec : Bytes
magic_latent_rec = b'A' ∷ b'X' ∷ b'L' ∷ b'R' ∷ []

abbrev pub magic_resid_rec : Bytes
magic_resid_rec = b'A' ∷ b'X' ∷ b'R' ∷ b'R' ∷ []

abbrev pub version : ℕ
version = 1

abbrev pub rec_header_len : ℕ
rec_header_len = 13

abbrev pub default_max_residual_size : ℕ
default_max_residual_size = 10 * 1024 * 1024

abbrev pub default_max_resync_bytes : ℕ
default_max_resync_bytes = 64 * 1024 * 1024

abbrev pub default_max_garbage_bytes : ℕ
default_max_garbage_bytes = 256 * 1024

abbrev pub latent_dim : ℕ
latent_dim = 256

abbrev pub file_header_len : ℕ
file_header_len = 4

abbrev pub latent_rec_len : ℕ
latent_rec_len = rec_header_len + latent_dim

-- What "<4sBII" unpacks to.
pub record Header : Type 0 where
  pub magic : Bytes
  pub ver : ℕ
  pub frame_id : ℕ
  pub dlen : ℕ

-- The bytes of a header whose fields are in range: magic, version, frame id, payload length.
abbrev pub header_bytes : Bytes → ℕ → ℕ → Bytes
header_bytes magic fid dlen = magic ++ (version ∷ (le32 fid ++ le32 dlen))

-- `struct.pack(REC_HEADER_FMT, magic, VERSION, fid, dlen)`: `none` is `struct.error`, raised when a
-- field does not fit 32 bits.
unfoldable pub pack_header : Bytes → ℕ → ℕ → Option Bytes
pack_header magic fid dlen =
    if ltb fid (2 ^ 32) && ltb dlen (2 ^ 32) then some (header_bytes magic fid dlen) else none

-- `struct.unpack(REC_HEADER_FMT, b)`: `none` is `struct.error`, raised unless `b` has 13 bytes.
unfoldable pub unpack_header : Bytes → Option Header
unpack_header (m ∷ a ∷ g ∷ i ∷ v ∷ f0 ∷ f1 ∷ f2 ∷ f3 ∷ d0 ∷ d1 ∷ d2 ∷ d3 ∷ []) = some (record {
  magic = m ∷ a ∷ g ∷ i ∷ [];
  ver = v;
  frame_id = un_le32 f0 f1 f2 f3;
  dlen = un_le32 d0 d1 d2 d3;
})
unpack_header b = none
