-- ===== src/Oci/Blob.antt =====
-- internal/oci/client.go: a blob that is verified while it is read. The blob's requests are those of
-- the resuming reader below it; `sha256` is the hash in hexadecimal, a parameter. The state of the
-- hash is what was written to it.
pub mod Verified
pub mod Accepts
use mathlib.Core.Option
use tacklebox.Common.{
  ℕ, suc, ◌+◌, ◌-◌, Bytes, List, [], ◌∷◌, ◌++◌, Bool, true, false, not, ◌&&◌, ◌||◌, Option, some,
  none, length, ltb, ◌==◌, bytes_eq, if◌then◌else◌,
}
use tacklebox.Oci.Resume.{
  Failure, end_of_file, stalled, closed_reader, OpenAt, Reader, read, close, new_resuming_reader,
  default_resume_attempts,
}
use tacklebox.Oci.Platform.{ℤ, pos, negsuc, Descriptor, digest_of}

-- verifyingReader
pub record Verifying : Type 0 where
  pub body : Reader
  pub want : Bytes
  pub want_size : ℕ
  pub seen : ℕ
  -- limitErr is set
  pub limited : Bool
  pub hashed : Bytes
  pub eof : Bool

pub data BlobError : Type 0 where
  size_mismatch digest_mismatch : BlobError
  from_body : Failure → BlobError

pub record Got : Type 0 where
  pub bytes : Bytes
  pub error : Option BlobError
  pub reader : Verifying

abbrev pub verifying : Bytes → ℕ → Reader → Verifying
verifying want size body = record {
  body = body;
  want = want;
  want_size = size;
  seen = 0;
  limited = false;
  hashed = [];
  eof = false;
}

-- resumeAttempts
abbrev pub resume_attempts : ℕ → ℕ
resume_attempts n = if ltb 0 n then n else default_resume_attempts

-- Blob, by the size of its descriptor; `none` is an error.
abbrev pub sized_blob : OpenAt → ℕ → Bytes → ℤ → Option Verifying
sized_blob open_at attempts want (negsuc n) = none
sized_blob open_at attempts want (pos size) =
    Option.map (verifying want size) (new_resuming_reader open_at (resume_attempts attempts))

unfoldable pub blob : OpenAt → ℕ → Descriptor → Option Verifying
blob open_at attempts d = sized_blob open_at attempts d.digest d.size

-- The length that is asked of the body: at most one byte past the declared size.
unfoldable pub clipped : ℕ → Verifying → ℕ
clipped n v =
    if ltb 0 v.want_size && ltb (v.want_size - v.seen) n then suc (v.want_size - v.seen) else n

abbrev pub is_eof : Option Failure → Bool
is_eof (some end_of_file) = true
is_eof _ = false

-- What follows the body's read: its bytes go into the hash.
unfoldable pub noted : Bytes → Option Failure → Reader → Verifying → Got
noted bytes error body v =
    let v' = record v { body = body; hashed = v.hashed ++ bytes; seen = v.seen + length bytes } in
    if ltb 0 v.want_size && ltb v.want_size (v.seen + length bytes)
    then record { bytes = bytes; error = some size_mismatch; reader = record v' { limited = true } }
    else record {
      bytes = bytes;
      error = Option.map from_body error;
      reader = if is_eof error then record v' { eof = true } else v';
    }

-- Read(p), with n = len(p), by whether limitErr is set.
unfoldable pub read_by : Bool → OpenAt → ℕ → Verifying → Got
unfolding clipped noted
read_by true open_at n v = record { bytes = []; error = some size_mismatch; reader = v }
read_by false open_at n v =
    let out = read open_at (clipped n v) v.body in noted out.bytes out.error out.reader v

unfoldable pub verify_read : OpenAt → ℕ → Verifying → Got
unfolding read_by
verify_read open_at n v = read_by v.limited open_at n v

abbrev pub wrong_size : Verifying → Bool
wrong_size v = ltb 0 v.want_size && not (v.seen == v.want_size)

-- The errors that Close joins. The body's own Close reports none.
unfoldable pub close_errors : (Bytes → Bytes) → Verifying → List BlobError
close_errors sha256 v =
    let size_errors = if v.eof && wrong_size v || v.limited then size_mismatch ∷ [] else [] in
    if v.eof && not (bytes_eq (digest_of sha256 v.hashed) v.want)
    then size_errors ++ digest_mismatch ∷ []
    else size_errors

-- Close
unfoldable pub verify_close : (Bytes → Bytes) → Verifying → List BlobError × Verifying
verify_close sha256 v = (close_errors sha256 v, record v { body = close v.body })

-- A caller that reads with buffers of these sizes until there is an error.
unfoldable pub after : Option BlobError → Got → Got → Got
after (some e) out later = out
after none out later = record {
  bytes = out.bytes ++ later.bytes;
  error = later.error;
  reader = later.reader;
}

unfoldable pub download : OpenAt → List ℕ → Verifying → Got
unfolding after
download open_at [] v = record { bytes = []; error = none; reader = v }
download open_at (n ∷ ns) v =
    let out = verify_read open_at n v in after out.error out (download open_at ns out.reader)
