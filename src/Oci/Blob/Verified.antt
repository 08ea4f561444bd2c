-- ===== src/Oci/Blob/Verified.antt =====
-- `verifyingReader` (internal/oci/client.go): what its hash and its count have seen.
use mathlib.Core.Option
use tacklebox.Common.{
  ℕ, ◌+◌, Bytes, List, [], ◌∷◌, ◌++◌, ◌≡◌, ◌⊎◌, inl, inr, refl, sym, ap, subst, ◌∙◌, Bool, true,
  false, ◌&&◌, Bool-cases, Option, some, none, Option-cases, arith, length, length-append,
  append_assoc, append-nil, ltb, bytes_eq_iff,
}
use tacklebox.Oci.Resume.{
  Failure, end_of_file, stalled, closed_reader, OpenAt, Reader, new_resuming_reader,
}
use tacklebox.Oci.Platform.{pos, Descriptor, digest_of}
use tacklebox.Oci.Blob.{
  Verifying, BlobError, from_body, Got, verifying, blob, sized_blob, resume_attempts, noted,
  read_by, verify_read, close_errors, verify_close, after, download,
}

-- The hash has what was delivered, and the count is its length; the reader still wants the same.
pub record Tracks (want : Bytes) (size : ℕ) (sent : Bytes) (v : Verifying) : Type 0 where
  pub wanted : v.want ≡ want
  pub sized : v.want_size ≡ size
  pub hashing : v.hashed ≡ sent
  pub counted : v.seen ≡ length sent

-- The same of a reply, whose end of file is noted.
pub record Noted (want : Bytes) (size : ℕ) (sent : Bytes) (out : Got) : Type 0 where
  pub tracks : Tracks want size (sent ++ out.bytes) out.reader
  pub ended : out.error ≡ some (from_body end_of_file) → out.reader.eof ≡ true

-- What is tracked goes on with the next bytes, whatever the flags are then.
Tracks-next :
    (want : Bytes) (size : ℕ) (sent bytes : Bytes) (body : Reader) (v : Verifying)
    (limited eof : Bool)
    → Tracks want size sent v
    → Tracks want size (sent ++ bytes) (record v {
      body = body;
      hashed = v.hashed ++ bytes;
      seen = v.seen + length bytes;
      limited = limited;
      eof = eof;
    })
Tracks-next want size sent bytes body v limited eof t = record {
  wanted = t.wanted;
  sized = t.sized;
  hashing = ap (λ h. h ++ bytes) t.hashing;
  counted = omega (arith, t.counted, length-append sent bytes);
}

noted_within :
    (want : Bytes) (size : ℕ) (sent bytes : Bytes) (error : Option Failure) (body : Reader)
    (v : Verifying)
    → (ltb 0 v.want_size && ltb v.want_size (v.seen + length bytes)) ≡ false
    → Tracks want size sent v
    → Noted want size sent (noted bytes error body v)
unfolding noted
noted_within want size sent bytes none body v n t =
    rw n (record { tracks = Tracks-next want size sent bytes body v _ _ t; ended = λ e. cc e })
noted_within want size sent bytes (some end_of_file) body v n t =
    rw n (record { tracks = Tracks-next want size sent bytes body v _ _ t; ended = λ e. refl })
noted_within want size sent bytes (some stalled) body v n t =
    rw n (record { tracks = Tracks-next want size sent bytes body v _ _ t; ended = λ e. cc e })
noted_within want size sent bytes (some closed_reader) body v n t =
    rw n (record { tracks = Tracks-next want size sent bytes body v _ _ t; ended = λ e. cc e })

noted-Noted :
    (want : Bytes) (size : ℕ) (sent bytes : Bytes) (error : Option Failure) (body : Reader)
    (v : Verifying)
    → Tracks want size sent v
    → Noted want size sent (noted bytes error body v)
unfolding noted
noted-Noted want size sent bytes error body v t =
    elim (Bool-cases (ltb 0 v.want_size && ltb v.want_size (v.seen + length bytes))) [
      | inl y ↦
          rw y
            (record { tracks = Tracks-next want size sent bytes body v _ _ t; ended = λ e. cc e })
      | inr n ↦ noted_within want size sent bytes error body v n t
    ]

read_by-Noted :
    (open_at : OpenAt) (want : Bytes) (size : ℕ) (sent : Bytes) (limited : Bool) (n : ℕ)
    (v : Verifying)
    → Tracks want size sent v
    → Noted want size sent (read_by limited open_at n v)
unfolding read_by
read_by-Noted open_at want size sent true n v t = record {
  tracks = rw append-nil t;
  ended = λ e. cc e;
}
read_by-Noted open_at want size sent false n v t = noted-Noted want size sent _ _ _ v t

verify_read-Noted :
    (open_at : OpenAt) (want : Bytes) (size : ℕ) (sent : Bytes) (n : ℕ) (v : Verifying)
    → Tracks want size sent v
    → Noted want size sent (verify_read open_at n v)
unfolding verify_read
verify_read-Noted open_at want size sent n v t =
    read_by-Noted open_at want size sent v.limited n v t

after-Noted :
    (want : Bytes) (size : ℕ) (sent : Bytes) (error : Option BlobError) (out later : Got)
    → out.error ≡ error
    → Noted want size sent out
    → Noted want size (sent ++ out.bytes) later
    → Noted want size sent (after error out later)
unfolding after
after-Noted want size sent (some e) out later q first rest = first
after-Noted want size sent none out later q first rest = record {
  tracks = rw (← append_assoc) (rest.tracks);
  ended = rest.ended;
}

pub download-Noted :
    (open_at : OpenAt) (want : Bytes) (size : ℕ) (ns : List ℕ) (sent : Bytes) (v : Verifying)
    → Tracks want size sent v
    → Noted want size sent (download open_at ns v)
unfolding download
download-Noted open_at want size [] sent v t = record {
  tracks = rw append-nil t;
  ended = λ e. cc e;
}
download-Noted open_at want size (n ∷ ns) sent v t =
    let first = verify_read-Noted open_at want size sent n v t in
    after-Noted want size sent (verify_read open_at n v).error _ _ refl first
      (download-Noted open_at want size ns (sent ++ (verify_read open_at n v).bytes) _ first.tracks)

pub blob-Tracks :
    (open_at : OpenAt) (attempts size : ℕ) (d : Descriptor) {v : Verifying}
    → d.size ≡ pos size
    → blob open_at attempts d ≡ some v
    → Tracks d.digest size [] v
unfolding blob
blob-Tracks open_at attempts size d {v} s b =
    let opened = subst (λ z. sized_blob open_at attempts d.digest z ≡ some v) s b in
    elim (Option-cases (new_resuming_reader open_at (resume_attempts attempts))) [
      | inl q ↦ absurd (cc (subst (λ o. Option.map (verifying d.digest size) o ≡ some v) q opened))
      | inr (r, q) ↦
          let e : verifying d.digest size r ≡ v =
            cc (subst (λ o. Option.map (verifying d.digest size) o ≡ some v) q opened) in
          subst (Tracks d.digest size []) e
            (record { wanted = refl; sized = refl; hashing = refl; counted = refl })
    ]

-- What a Close without errors says of a reader at the end of its file.
close_errors_lem :
    (sha256 : Bytes → Bytes) (v : Verifying)
    → v.eof ≡ true
    → close_errors sha256 v ≡ []
    → (digest_of sha256 v.hashed ≡ v.want) × ((v.want_size ≡ 0) ⊎ (v.seen ≡ v.want_size))
unfolding close_errors
close_errors_lem sha256 v e h = ground (arith, bytes_eq_iff (digest_of sha256 v.hashed) v.want)

-- Whatever the registry sends: when a download of a blob ends in an end of file and Close reports no
-- error, the bytes that were delivered hash to the digest of the descriptor and, if the descriptor
-- has a positive size, are as many as it says. Condition: the first request is answered.
pub download-close :
    (open_at : OpenAt) (sha256 : Bytes → Bytes) (attempts size : ℕ) (d : Descriptor) (ns : List ℕ)
    {v : Verifying}
    → d.size ≡ pos size
    → blob open_at attempts d ≡ some v
    → (download open_at ns v).error ≡ some (from_body end_of_file)
    → (verify_close sha256 (download open_at ns v).reader).0 ≡ []
    → (digest_of sha256 (download open_at ns v).bytes ≡ d.digest)
      × ((size ≡ 0) ⊎ (length (download open_at ns v).bytes ≡ size))
unfolding verify_close
download-close open_at sha256 attempts size d ns {v} s b e c =
    let done =
      download-Noted open_at d.digest size ns [] v (blob-Tracks open_at attempts size d s b) in
    let (hashes, sizes) = close_errors_lem sha256 (download open_at ns v).reader (done.ended e) c in
    (
      ap (digest_of sha256) (sym done.tracks.hashing) ∙ hashes ∙ done.tracks.wanted,
      elim sizes [
        | inl z ↦ inl (sym done.tracks.sized ∙ z)
        | inr q ↦ inr (sym done.tracks.counted ∙ q ∙ done.tracks.sized)
      ],
    )
