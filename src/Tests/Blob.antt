-- ===== src/Tests/Blob.antt =====
-- The flaky download of Tests/Resume under a verifying reader, with a hash that is the text itself.
use tacklebox.Common.{ℕ, Bytes, [], ◌≡◌, ◌≢◌, ◌⊎◌, inr, refl, some, none, codes, length, bytes_eq}
use tacklebox.Oci.Resume.{end_of_file, read, read_loop, turn, settled, reopen, new_resuming_reader}
use tacklebox.Oci.Platform.{pos, Descriptor, digest_of}
use tacklebox.Oci.Blob.{
  Verifying, size_mismatch, from_body, verifying, blob, read_by, verify_read, close_errors,
  verify_close, download,
}
use tacklebox.Oci.Blob.Verified.{download-close}
use tacklebox.Oci.Blob.Accepts.{download-accepts}
use tacklebox.Tests.Resume.{content, flaky, flaky-ServesRanges, sizes, start}

abbrev itself : Bytes → Bytes
itself s = s

abbrev layer : Descriptor
layer = record {
  media_type = codes "application/vnd.oci.image.layer.v1.tar";
  digest = digest_of itself content;
  size = pos 5;
  platform = none;
}

abbrev opened : Verifying
opened = verifying (digest_of itself content) 5 start

blob_opened : blob flaky 0 layer ≡ some opened
unfolding blob new_resuming_reader
blob_opened = refl

download_error : (download flaky sizes opened).error ≡ some (from_body end_of_file)
unfolding download verify_read read_by read read_loop turn settled reopen
download_error = refl

download_closed : (verify_close itself (download flaky sizes opened).reader).0 ≡ []
unfolding download verify_read read_by read read_loop turn settled reopen verify_close close_errors
    bytes_eq
download_closed = refl

-- A blob that is longer than its descriptor says is refused after one byte more.
too_long : (download flaky sizes (verifying [] 3 start)).error ≡ some size_mismatch
unfolding download verify_read read_by read read_loop turn settled reopen
too_long = refl

download-close_example :
    (digest_of itself (download flaky sizes opened).bytes ≡ digest_of itself content)
    × ((◌≡◌ {A = ℕ} 5 0) ⊎ (length (download flaky sizes opened).bytes ≡ 5))
download-close_example =
    download-close flaky itself 0 5 layer sizes refl blob_opened download_error download_closed

download-accepts_example :
    ((download flaky sizes opened).error ≢ some size_mismatch)
    × (((download flaky sizes opened).error ≢ some (from_body end_of_file))
        ⊎ (((download flaky sizes opened).bytes ≡ content)
            × ((verify_close itself (download flaky sizes opened).reader).0 ≡ [])))
download-accepts_example =
    download-accepts content flaky flaky-ServesRanges 5 (inr refl) itself 0 layer sizes refl refl
      blob_opened
