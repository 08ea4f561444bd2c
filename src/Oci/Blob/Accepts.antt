-- ===== src/Oci/Blob/Accepts.antt =====
-- `verifyingReader` (internal/oci/client.go) over a registry that serves the blob.
use mathlib.Core.Option
use tacklebox.Common.{
  ℕ, ◌+◌, ◌≤◌, Bytes, List, [], ◌∷◌, ◌++◌, ◌≡◌, ◌≢◌, ◌⊎◌, inl, inr, refl, sym, ap, subst, ◌∙◌, Bool,
  false, ◌&&◌, Option, some, none, Option-cases, arith, length, length-append, append_assoc,
  append-nil, ltb, bytes_eq_iff,
}
use tacklebox.Oci.Resume.{
  Failure, end_of_file, stalled, closed_reader, OpenAt, Reply, fresh, read, new_resuming_reader,
}
use tacklebox.Oci.Resume.Invariant.{ServesRanges, IsAt, Continues}
use tacklebox.Oci.Resume.Delivery.{read-Continues, fresh-IsAt}
use tacklebox.Oci.Platform.{pos, Descriptor, digest_of}
use tacklebox.Oci.Blob.{
  Verifying, BlobError, size_mismatch, digest_mismatch, from_body, Got, verifying, blob, sized_blob,
  resume_attempts, clipped, noted, read_by, verify_read, close_errors, verify_close, after,
  download,
}
use tacklebox.Oci.Blob.Verified.{download-Noted, blob-Tracks}

module _ (content : Bytes) (open_at : OpenAt) (honest : ServesRanges content open_at) (size : ℕ)
    (fits : (size ≡ 0) ⊎ (size ≡ length content)) where
  -- The body is at `sent` bytes of the content, and no limit has been hit.
  record IsReading (sent : Bytes) (v : Verifying) : Type 0 where
    pub at : IsAt content sent v.body
    pub sized : v.want_size ≡ size
    pub counted : v.seen ≡ length sent
    pub within : v.limited ≡ false

  record Reads (sent : Bytes) (out : Got) : Type 0 where
    pub reading : IsReading (sent ++ out.bytes) out.reader
    pub fine : out.error ≢ some size_mismatch
    pub complete : out.error ≡ some (from_body end_of_file) → sent ++ out.bytes ≡ content

  not_limited :
      (sent : Bytes) (out : Reply) (v : Verifying)
      → IsReading sent v
      → Continues content sent out
      → (ltb 0 v.want_size && ltb v.want_size (v.seen + length out.bytes)) ≡ false
  not_limited sent out v g c =
      let whole = length-append (sent ++ out.bytes) (out.reader.pend ++ c.at.rest) in
      let split = ap (length {A = ℕ}) c.at.splits in
      let part = length-append sent out.bytes in
      elim fits [
        | inl z ↦ ground (arith, g.sized)
        | inr l ↦
            let bound : v.seen + length out.bytes ≤ v.want_size =
              omega (arith, whole, split, part, g.sized, g.counted, l) in
            ground arith
      ]

  reads_next :
      (sent : Bytes) (out : Reply) (v : Verifying) (eof : Bool)
      → IsReading sent v
      → Continues content sent out
      → IsReading (sent ++ out.bytes) (record v {
        body = out.reader;
        hashed = v.hashed ++ out.bytes;
        seen = v.seen + length out.bytes;
        eof = eof;
      })
  reads_next sent out v eof g c = record {
    at = c.at;
    sized = g.sized;
    counted = omega (arith, g.counted, length-append sent out.bytes);
    within = g.within;
  }

  noted-Reads :
      (sent : Bytes) (out : Reply) (error : Option Failure) (v : Verifying)
      → out.error ≡ error
      → IsReading sent v
      → Continues content sent out
      → Reads sent (noted out.bytes error out.reader v)
  unfolding noted
  noted-Reads sent out none v q g c =
      rw (not_limited sent out v g c)
        (record { reading = reads_next sent out v _ g c; fine = λ e. cc e; complete = λ e. cc e })
  noted-Reads sent out (some end_of_file) v q g c = rw (not_limited sent out v g c) (record {
    reading = reads_next sent out v _ g c;
    fine = λ e. cc e;
    complete = λ e. c.complete q;
  })
  noted-Reads sent out (some stalled) v q g c =
      rw (not_limited sent out v g c)
        (record { reading = reads_next sent out v _ g c; fine = λ e. cc e; complete = λ e. cc e })
  noted-Reads sent out (some closed_reader) v q g c =
      rw (not_limited sent out v g c)
        (record { reading = reads_next sent out v _ g c; fine = λ e. cc e; complete = λ e. cc e })

  verify_read-Reads :
      (sent : Bytes) (n : ℕ) (v : Verifying)
      → IsReading sent v
      → Reads sent (verify_read open_at n v)
  unfolding verify_read read_by
  verify_read-Reads sent n v g =
      subst (λ l. Reads sent (read_by l open_at n v)) (sym g.within)
        (noted-Reads sent (read open_at (clipped n v) v.body) _ v refl g
          (read-Continues content open_at honest (clipped n v) sent v.body g.at))

  after-Reads :
      (sent : Bytes) (error : Option BlobError) (out later : Got)
      → out.error ≡ error
      → Reads sent out
      → Reads (sent ++ out.bytes) later
      → Reads sent (after error out later)
  unfolding after
  after-Reads sent (some e) out later q first rest = first
  after-Reads sent none out later q first rest = record {
    reading = rw (← append_assoc) rest.reading;
    fine = rest.fine;
    complete = λ x. rw (← append_assoc) (rest.complete x);
  }

  download-Reads :
      (ns : List ℕ) (sent : Bytes) (v : Verifying)
      → IsReading sent v
      → Reads sent (download open_at ns v)
  unfolding download
  download-Reads [] sent v g = record {
    reading = rw append-nil g;
    fine = λ e. cc e;
    complete = λ e. cc e;
  }
  download-Reads (n ∷ ns) sent v g =
      let first = verify_read-Reads sent n v g in
      after-Reads sent (verify_read open_at n v).error _ _ refl first
        (download-Reads ns (sent ++ (verify_read open_at n v).bytes) _ first.reading)

  blob-IsReading :
      (attempts : ℕ) (d : Descriptor) {v : Verifying}
      → d.size ≡ pos size
      → blob open_at attempts d ≡ some v
      → IsReading [] v
  unfolding blob new_resuming_reader
  blob-IsReading attempts d {v} s b =
      let opened = subst (λ z. sized_blob open_at attempts d.digest z ≡ some v) s b in
      elim (Option-cases (open_at 0 0)) [
        | inl q ↦ absurd (
            cc (
              subst
                (λ o.
                  Option.map (verifying d.digest size)
                    (Option.map (fresh (resume_attempts attempts)) o)
                  ≡ some v)
                q opened))
        | inr (conn, q) ↦
            let e : verifying d.digest size (fresh (resume_attempts attempts) conn) ≡ v = cc (
              subst
                (λ o.
                  Option.map (verifying d.digest size)
                    (Option.map (fresh (resume_attempts attempts)) o)
                  ≡ some v)
                q opened) in
            subst (IsReading []) e (record {
              at = fresh-IsAt content open_at honest (resume_attempts attempts) conn q;
              sized = refl;
              counted = refl;
              within = refl;
            })
      ]

  -- An end of file or not.
  at_end_or :
      {P : Type 0} {error : Option BlobError}
      → (error ≡ some (from_body end_of_file) → P)
      → (error ≢ some (from_body end_of_file)) ⊎ P
  at_end_or {error = none} f = inl (λ e. cc e)
  at_end_or {error = some size_mismatch} f = inl (λ e. cc e)
  at_end_or {error = some digest_mismatch} f = inl (λ e. cc e)
  at_end_or {error = some (from_body end_of_file)} f = inr (f refl)
  at_end_or {error = some (from_body stalled)} f = inl (λ e. cc e)
  at_end_or {error = some (from_body closed_reader)} f = inl (λ e. cc e)

  close_errors_none :
      (sha256 : Bytes → Bytes) (v : Verifying)
      → digest_of sha256 v.hashed ≡ v.want
      → (v.want_size ≡ 0) ⊎ (v.seen ≡ v.want_size)
      → v.limited ≡ false
      → close_errors sha256 v ≡ []
  unfolding close_errors
  close_errors_none sha256 v h z l =
      ground (arith, (bytes_eq_iff (digest_of sha256 v.hashed) v.want).1 h)

  -- When the registry serves a content that hashes to the digest of the descriptor and is as long as
  -- the descriptor says, if it says so, then however the connections break a download is never
  -- refused for its size, and at an end of file it is the whole content and Close reports no error.
  -- Conditions: the registry answers a request at an offset by the content from there on, which may
  -- break off, or by an error; and the first request is answered.
  pub download-accepts :
      (sha256 : Bytes → Bytes) (attempts : ℕ) (d : Descriptor) (ns : List ℕ) {v : Verifying}
      → d.size ≡ pos size
      → digest_of sha256 content ≡ d.digest
      → blob open_at attempts d ≡ some v
      → ((download open_at ns v).error ≢ some size_mismatch)
        × (((download open_at ns v).error ≢ some (from_body end_of_file))
            ⊎ (((download open_at ns v).bytes ≡ content)
                × ((verify_close sha256 (download open_at ns v).reader).0 ≡ [])))
  unfolding verify_close
  download-accepts sha256 attempts d ns {v} s hashes b =
      let all = download-Reads ns [] v (blob-IsReading attempts d s b) in
      let t =
        (download-Noted open_at d.digest size ns [] v
          (blob-Tracks open_at attempts size d s b)).tracks in
      (
        all.fine,
        at_end_or (λ e.
            let whole = all.complete e in
            (
              whole,
              close_errors_none sha256 _
                  (ap (digest_of sha256) (t.hashing ∙ whole) ∙ hashes ∙ sym t.wanted)
                  (elim fits [
                    | inl z ↦ inl (t.sized ∙ z)
                    | inr l ↦ inr (t.counted ∙ ap length whole ∙ sym l ∙ sym t.sized)
                  ])
                  all.reading.within,
            )),
      )
