-- ===== src/FrameCapture/Invariant.antt =====
-- What holds of a capture recorder after any calls: its file, its log and its chain are those of the
-- frames that it has kept, and kept and buffered frames stand in the order of their ids.
use axm_embodied.Common.{
  ℕ, ◌+◌, ◌≤◌, ◌<◌, ◌^◌, ◌≡◌, refl, sym, ap, ◌∙◌, List, [], ◌∷◌, ◌++◌, append_assoc, ◌⊎◌, Bytes,
  All, length, length-append, ok, err, Result, struct_range, arith, String,
}
use axm_embodied.Common.Disk.{write, tell}
use axm_embodied.FrameCapture.{
  Texts, FrameCaptureConfig, FrameCaptureRecorder, frame_kept, magic_frame_rec, hash_len,
  chain_genesis, magic_frame_file, chain_next, write_record, flush, log,
}
use axm_embodied.FrameCapture.Records.{
  Kept, kept_refs, kept_refs-append, IsOrdered, IsOrdered-skip, HasId, All-snoc, link, frame_blob,
  kept_ref, last_link, refs_of, capture_image, last_link-snoc, frame_records-snoc, refs_of-snoc,
}
use axm_embodied.Protocol.Laws.{pack_header-some}
use native.Mathlib.Decide.{dec_lt}

module _ (t : Texts) where
  -- The recorder after a record was written.
  abbrev pub written : Kept → FrameCaptureRecorder → FrameCaptureRecorder
  written k r =
      let chain = link t r.chain k in
      log (frame_kept (kept_ref t (tell r.f_frames) chain k) r.sensor_id) (record r {
        chain = chain;
        f_frames = write (frame_blob t chain k) r.f_frames;
        frames_kept = r.frames_kept + 1;
      })

  pub write_record_ok :
      (fid : ℕ) (payload : Bytes) (r : FrameCaptureRecorder)
      → fid < 2 ^ 32
      → length payload < 2 ^ 32
      → write_record t fid payload r ≡ (
        ok (kept_ref t (tell r.f_frames) (link t r.chain (fid, payload)) (fid, payload)),
        written (fid, payload) r,
      )
  unfolding write_record chain_next
  write_record_ok fid payload r hf hp =
      ground (arith, pack_header-some magic_frame_rec fid (length payload) hf hp)

  -- An id that has outgrown 32 bits: nothing is written and the chain stays.
  pub write_record_id :
      (fid : ℕ) (payload : Bytes) (r : FrameCaptureRecorder)
      → 2 ^ 32 ≤ fid
      → write_record t fid payload r ≡ (err struct_range, r)
  unfolding write_record chain_next
  write_record_id fid payload r h = ground arith

  flush_ok :
      (fid : ℕ) (payload : Bytes) (rest : List Kept) (r : FrameCaptureRecorder)
      → fid < 2 ^ 32
      → length payload < 2 ^ 32
      → flush t ((fid, payload) ∷ rest) r
        ≡ flush t rest (written (fid, payload) (record r { buffer = rest }))
  unfolding flush
  flush_ok fid payload rest r hf hp =
      cc (write_record_ok fid payload (record r { buffer = rest }) hf hp)

  flush_nil : (r : FrameCaptureRecorder) → flush t [] r ≡ (ok tt, r)
  unfolding flush
  flush_nil r = refl

  flush_id :
      (fid : ℕ) (payload : Bytes) (rest : List Kept) (r : FrameCaptureRecorder)
      → 2 ^ 32 ≤ fid
      → flush t ((fid, payload) ∷ rest) r ≡ (err struct_range, record r { buffer = rest })
  unfolding flush
  flush_id fid payload rest r hf = cc (write_record_id fid payload (record r { buffer = rest }) hf)

-- A session: the library functions, its id, its windows. Digests have 32 bytes, and a frame that
-- the recorder takes has a length of 32 bits.
pub record Setting : Type 0 where
  pub t : Texts
  pub hash_size : (b : Bytes) → length (t.sha256 b) ≡ hash_len
  pub session_id : String
  pub config : FrameCaptureConfig
  pub small : config.max_frame_bytes < 2 ^ 32

module _ (s : Setting) where
  open s use {t, hash_size, session_id, config, small}

  -- The file, the chain and the log hold exactly the frames `l`.
  pub record IsWritten (l : List Kept) (r : FrameCaptureRecorder) : Type 0 where
    pub session_eq : r.session_id ≡ session_id
    pub config_eq : r.config ≡ config
    pub image : r.f_frames.content ≡ capture_image t session_id l
    pub link_eq : r.chain ≡ last_link t (chain_genesis t session_id) l
    pub refs : kept_refs r.f_log ≡ refs_of t 4 (chain_genesis t session_id) l
    pub count : r.frames_kept ≡ length l
    pub ids : All HasId l

  -- And the buffered frames come after them; a window that is open has emptied the buffer.
  pub record IsCaptured (l : List Kept) (r : FrameCaptureRecorder) : Type 0 where
    pub written_all : IsWritten l r
    pub ordered : IsOrdered config.max_frame_bytes 0 (l ++ r.buffer) r.next_frame_id
    pub apart : (r.buffer ≡ []) ⊎ (r.post_left ≡ 0)

  pub written-IsWritten :
      (l : List Kept) (k : Kept) (r : FrameCaptureRecorder)
      → IsWritten l r
      → HasId k
      → IsWritten (l ++ (k ∷ [])) (written t k r)
  unfolding kept_refs
  written-IsWritten l k r h hk = record {
    session_eq = h.session_eq;
    config_eq = h.config_eq;
    image =
        ap (λ x. x ++ frame_blob t (link t r.chain k) k) h.image
        ∙ ap (λ c. capture_image t session_id l ++ frame_blob t (link t c k) k) h.link_eq
        ∙ ap (λ b. magic_frame_file ++ b)
            (sym (frame_records-snoc t (chain_genesis t session_id) l k));
    link_eq =
        ap (λ c. link t c k) h.link_eq ∙ sym (last_link-snoc t (chain_genesis t session_id) l k);
    refs =
        kept_refs-append r.f_log
          (frame_kept (kept_ref t (tell r.f_frames) (link t r.chain k) k) r.sensor_id ∷ [])
        ∙ ap (λ x. x ++ (kept_ref t (tell r.f_frames) (link t r.chain k) k ∷ [])) h.refs
        ∙ ap
            (λ c.
              refs_of t 4 (chain_genesis t session_id) l
              ++ (kept_ref t (tell r.f_frames) (link t c k) k ∷ []))
            h.link_eq
        ∙ sym (
            refs_of-snoc t hash_size 4 (tell r.f_frames) (chain_genesis t session_id) l k
              (omega (arith, ap length h.image)));
    count = omega (arith, h.count, length-append l (k ∷ []));
    ids = All-snoc l k h.ids hk;
  }

  -- A step that touches none of this.
  abbrev pub IsSame : FrameCaptureRecorder → FrameCaptureRecorder → Type 0
  IsSame r r' =
      (r'.session_id ≡ r.session_id)
      × (r'.config ≡ r.config)
      × (r'.f_frames.content ≡ r.f_frames.content)
      × (r'.chain ≡ r.chain)
      × (kept_refs r'.f_log ≡ kept_refs r.f_log)
      × (r'.frames_kept ≡ r.frames_kept)

  pub same-IsWritten :
      (l : List Kept) (r r' : FrameCaptureRecorder) → IsWritten l r → IsSame r r' → IsWritten l r'
  same-IsWritten l r r' w (s, c, f, x, g, n) = record {
    session_eq = s ∙ w.session_eq;
    config_eq = c ∙ w.config_eq;
    image = f ∙ w.image;
    link_eq = x ∙ w.link_eq;
    refs = g ∙ w.refs;
    count = n ∙ w.count;
    ids = w.ids;
  }

  -- What a part of a call keeps: from a state with the frames `l` and the buffer behind them, to
  -- one with more frames, in which the recorder has stopped short or emptied the buffer.
  pub record IsFlushed (r : FrameCaptureRecorder) (result : Result (Unit {0}))
      (r' : FrameCaptureRecorder) : Type 0 where
    pub frames : List Kept
    pub written_all : IsWritten frames r'
    pub ordered : IsOrdered config.max_frame_bytes 0 (frames ++ r'.buffer) r.next_frame_id
    pub emptied : result ≡ ok tt → r'.buffer ≡ []
    pub same_left : r'.post_left ≡ r.post_left
    pub same_next : r'.next_frame_id ≡ r.next_frame_id

  first_small :
      (lo hi : ℕ) (l : List Kept) (fid : ℕ) (payload : Bytes) (rest : List Kept)
      → IsOrdered config.max_frame_bytes lo (l ++ ((fid, payload) ∷ rest)) hi
      → length payload < 2 ^ 32
  first_small lo hi [] fid payload rest (a, b, h) = omega (arith, small)
  first_small lo hi ((x, p) ∷ l) fid payload rest (a, b, h) =
      first_small (x + 1) hi l fid payload rest h

  pub flush-IsFlushed :
      (buf l : List Kept) (r : FrameCaptureRecorder)
      → IsWritten l r
      → IsOrdered config.max_frame_bytes 0 (l ++ buf) r.next_frame_id
      → r.buffer ≡ buf
      → IsFlushed r (flush t buf r).0 (flush t buf r).1
  flush-IsFlushed [] l r w o e = rw (flush_nil t r) (record {
    frames = l;
    written_all = w;
    ordered = rw e o;
    emptied = λ x. e;
    same_left = refl;
    same_next = refl;
  })
  flush-IsFlushed ((fid, payload) ∷ rest) l r w o e = elim (dec_lt fid (2 ^ 32)) [
    | yes fits ↦
        let w₀ =
          same-IsWritten l r (record r { buffer = rest }) w (refl, refl, refl, refl, refl, refl) in
        let later =
          flush-IsFlushed rest (l ++ ((fid, payload) ∷ []))
            (written t (fid, payload) (record r { buffer = rest }))
            (written-IsWritten l (fid, payload) (record r { buffer = rest }) w₀ fits)
            (rw (append_assoc l ((fid, payload) ∷ []) rest) o) refl in
        rw (flush_ok t fid payload rest r fits (first_small 0 r.next_frame_id l fid payload rest o))
          (record {
            frames = later.frames;
            written_all = later.written_all;
            ordered = later.ordered;
            emptied = later.emptied;
            same_left = later.same_left;
            same_next = later.same_next;
          })
    | no big ↦ rw (flush_id t fid payload rest r (omega arith)) (record {
      frames = l;
      written_all =
          same-IsWritten l r (record r { buffer = rest }) w (refl, refl, refl, refl, refl, refl);
      ordered = IsOrdered-skip config.max_frame_bytes 0 r.next_frame_id l (fid, payload) rest o;
      emptied = λ x. cc;
      same_left = refl;
      same_next = refl;
    })
  ]
