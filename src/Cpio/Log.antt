-- ===== src/Cpio/Log.antt =====
-- What the cpio writer of internal/purefs/initrdoverlay.go has written: a log of the members, the last
-- first.
pub mod Installs
pub mod Steps
use tacklebox.Common.{
  ℕ, zero, suc, ◌+◌, ◌-◌, ◌*◌, ◌/◌, ◌%◌, ◌^◌, ◌≤◌, ◌<◌, Bytes, List, [], ◌∷◌, ◌++◌, ◌≡◌, refl, sym,
  ap, subst, ◌∙◌, Bool, true, false, ◌&&◌, Option, some, none, arith, codes, bytes_eq, length,
  length-append, append_assoc, append-nil, leb, ltb, ◌==◌, if◌then◌else◌, Bool-cases, inl, inr,
}
use tacklebox.Iso.{zeros}
use tacklebox.Cpio.{
  FilePath, CpioWriter, path_text, has_path, same_path, parent_of, padding, header, pad4,
  append_bytes,
}
use tacklebox.Cpio.Aligned.{IsAligned, length-padded4}
use tacklebox.Cpio.Reader.{Entry, read_archive, then_entries}
use tacklebox.Cpio.Reader.Digits.{Fit}
use tacklebox.Cpio.Reader.Member.{
  fields, front, padded, encoded, length-encoded, read_entry-encoded,
}

pub record Member : Type 0 where
  pub path : FilePath
  pub mode : ℕ
  pub body : Bytes

abbrev pub is_directory : Member → Bool
is_directory m = m.mode == 0o040755

unfoldable pub encoded_log : List Member → Bytes
encoded_log [] = []
encoded_log (m ∷ ms) = encoded_log ms ++ encoded (suc (length ms)) (path_text m.path) m.mode m.body

abbrev pub directories : List Member → List FilePath
directories [] = []
directories (m ∷ ms) = if is_directory m then m.path ∷ directories ms else directories ms

-- The members that are no directories.
abbrev pub files : List Member → List Member
files [] = []
files (m ∷ ms) = if is_directory m then files ms else m ∷ files ms

-- The root, or a path that is among the directories.
abbrev pub is_made : FilePath → List FilePath → Bool
is_made [] ds = true
is_made (p ∷ up) ds = has_path (p ∷ up) ds

-- Every member's directory was written before it.
unfoldable pub AreFounded : List Member → Type 0
AreFounded [] = Unit
AreFounded (m ∷ ms) = (is_made (parent_of m.path) (directories ms) ≡ true) × AreFounded ms

-- A name that a header holds and that is not the trailer's.
abbrev pub is_name : FilePath → Bool
is_name p =
    if bytes_eq (path_text p) (codes "TRAILER!!!")
    then false
    else ltb (suc (length (path_text p))) (2 ^ 32)

abbrev pub IsValid : Member → Type 0
IsValid m = (is_name m.path ≡ true) × (m.mode < 2 ^ 32) × (length m.body < 2 ^ 32)

unfoldable pub AreValid : List Member → Type 0
AreValid [] = Unit
AreValid (m ∷ ms) = IsValid m × AreValid ms

-- The log of a writer.
pub record Describes (log : List Member) (w : CpioWriter) : Type 0 where
  pub bytes : w.buf ≡ encoded_log log
  pub count : w.ino ≡ length log
  pub dirs : w.dirs ≡ directories log
  pub valid : AreValid log
  pub founded : AreFounded log

length-encoded_log : (log : List Member) → length (encoded_log log) % 4 ≡ 0
unfolding encoded_log
length-encoded_log [] = refl
length-encoded_log (m ∷ ms) =
    let e = encoded (suc (length ms)) (path_text m.path) m.mode m.body in
    omega (
      arith,
      length-append (encoded_log ms) e,
      length-encoded_log ms,
      length-encoded (suc (length ms)) (path_text m.path) m.mode m.body,
    )

pub Describes-IsAligned : {log : List Member} {w : CpioWriter} → Describes log w → IsAligned w
Describes-IsAligned {log} {w} d = ap (λ b. length b % 4) d.bytes ∙ length-encoded_log log

-- Behind whole words, only the piece itself is padded.
padded-append : (a b : Bytes) → length a % 4 ≡ 0 → padded (a ++ b) ≡ a ++ padded b
padded-append a b h =
    ap (λ n. (a ++ b) ++ zeros n) (omega (arith, h, length-append a b))
    ∙ append_assoc a b (zeros (padding 4 (length b)))

pub buf-header :
    (name : Bytes) (mode size : ℕ) (w : CpioWriter)
    → IsAligned w
    → (header name mode size w).buf ≡ w.buf ++ padded (front (suc w.ino) name mode size)
unfolding header pad4 front
buf-header name mode size w h = padded-append w.buf (front (suc w.ino) name mode size) h

buf-body :
    (name : Bytes) (mode : ℕ) (body : Bytes) (w : CpioWriter)
    → IsAligned w
    → (pad4 (append_bytes body (header name mode (length body) w))).buf
      ≡ w.buf ++ encoded (suc w.ino) name mode body
unfolding pad4 encoded
buf-body name mode body w h =
    let f = front (suc w.ino) name mode (length body) in
    ap (λ b. padded (b ++ body)) (buf-header name mode (length body) w h)
    ∙ padded-append (w.buf ++ padded f) body
        (omega (arith, h, length-append w.buf (padded f), length-padded4 f))
    ∙ append_assoc w.buf (padded f) (padded body)

-- Reading a log: its members before what is read behind it.
abbrev pub as_read : Member → Entry
as_read m = record { name = path_text m.path; mode = m.mode; body = m.body }

unfoldable pub reported : List Member → List Entry → List Entry
reported [] es = es
reported (m ∷ ms) es = reported ms (as_read m ∷ es)

name-IsValid :
    (p : FilePath)
    → is_name p ≡ true
    → (bytes_eq (path_text p) (codes "TRAILER!!!") ≡ false) × (suc (length (path_text p)) < 2 ^ 32)
name-IsValid p h = ground (arith, h)

fields-Fit :
    (i : ℕ) (m : Member)
    → i < 2 ^ 32
    → IsValid m
    → Fit (fields i (path_text m.path) m.mode (length m.body))
unfolding Fit
fields-Fit i m hi (hn, hm, hb) = ground (arith, hi, hm, hb, (name-IsValid m.path hn).1)

read_archive-encoded :
    (i k : ℕ) (m : Member) (rest : Bytes) (es : List Entry)
    → i < 2 ^ 32
    → IsValid m
    → read_archive k rest ≡ some es
    → read_archive (suc k) (encoded i (path_text m.path) m.mode m.body ++ rest)
      ≡ some (as_read m ∷ es)
unfolding read_archive
read_archive-encoded i k m rest es hi (hn, hm, hb) h =
    ap (then_entries (read_archive k))
      (read_entry-encoded i (path_text m.path) m.mode m.body rest (fields-Fit i m hi (hn, hm, hb)))
    ∙ rw ((name-IsValid m.path hn).0, h) refl

pub read_archive-encoded_log :
    (log : List Member) (k : ℕ) (rest : Bytes) (es : List Entry)
    → length log < 2 ^ 32
    → AreValid log
    → read_archive k rest ≡ some es
    → read_archive (length log + k) (encoded_log log ++ rest) ≡ some (reported log es)
unfolding encoded_log reported AreValid
read_archive-encoded_log [] k rest es hl hv h = ap (λ n. read_archive n rest) (omega arith) ∙ h
read_archive-encoded_log (m ∷ ms) k rest es hl (hm, hv) h =
    let e = encoded (suc (length ms)) (path_text m.path) m.mode m.body in
    ap (λ n. read_archive n ((encoded_log ms ++ e) ++ rest)) (omega arith)
    ∙ ap (read_archive (length ms + suc k)) (append_assoc (encoded_log ms) e rest)
    ∙ read_archive-encoded_log ms (suc k) (e ++ rest) (as_read m ∷ es) (omega (arith, hl)) hv
        (read_archive-encoded (suc (length ms)) k m rest es hl hm h)
