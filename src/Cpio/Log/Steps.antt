-- ===== src/Cpio/Log/Steps.antt =====
-- The operations of the cpio writer of internal/purefs/initrdoverlay.go, as they extend its log.
use tacklebox.Common.{
  join, ℕ, suc, ◌+◌, ◌^◌, ◌≤◌, ◌<◌, Bytes, List, [], ◌∷◌, ◌++◌, ◌≡◌, refl, sym, ap, ◌∙◌, Bool, true,
  false, ◌&&◌, arith, bytes_eq, bytes_eq_refl, length, append-nil, Bool-cases, inl, inr,
}
use tacklebox.Cpio.{
  FilePath, CpioWriter, path_text, has_path, same_path, parent_of, header, pad4, append_bytes,
  mkdir_all, add_regular, add_symlink,
}
use tacklebox.Iso.{zeros}
use tacklebox.Cpio.Reader.Member.{front, padded, encoded}
use tacklebox.Cpio.Log.{
  Member, encoded_log, is_directory, directories, files, is_made, AreFounded, is_name, IsValid,
  AreValid, Describes, Describes-IsAligned, buf-header, buf-body,
}

same_path_refl : (p : FilePath) → same_path p p ≡ true
same_path_refl [] = refl
same_path_refl (n ∷ p) = rw (bytes_eq_refl n) (same_path_refl p)

has_path-here : (p : FilePath) (ds : List FilePath) → has_path p (p ∷ ds) ≡ true
has_path-here p ds = rw (same_path_refl p) refl

abbrev directory_of : FilePath → Member
directory_of p = record { path = p; mode = 0o040755; body = [] }

-- A log that has grown by files, and by at most so many members, and that has a directory.
pub record Grown (added : List Member) (most : ℕ) (made : FilePath) (old : List Member)
    (w : CpioWriter) : Type 0 where
  pub log : List Member
  pub describes : Describes log w
  pub new_files : files log ≡ added ++ files old
  pub few : length log ≤ length old + most
  pub has_made : is_made made (directories log) ≡ true

logged_directory :
    (name : Bytes) (up : FilePath) (log : List Member) (w : CpioWriter)
    → Describes log w
    → is_name (name ∷ up) ≡ true
    → is_made up (directories log) ≡ true
    → Describes
        (directory_of (name ∷ up) ∷ log)
        (header (path_text (name ∷ up)) 0o040755 0 (record w { dirs = (name ∷ up) ∷ w.dirs }))
unfolding header pad4 encoded_log encoded AreValid AreFounded zeros
logged_directory name up log w d hn hm =
    let text = path_text (name ∷ up) in
    let f = λ (i : ℕ). padded (front (suc i) text 0o040755 0) in
    record {
      bytes =
          buf-header text 0o040755 0 (record w { dirs = (name ∷ up) ∷ w.dirs })
            (Describes-IsAligned d)
          ∙ ap (λ b. b ++ f w.ino) d.bytes
          ∙ ap (λ i. encoded_log log ++ f i) d.count
          ∙ ap (λ b. encoded_log log ++ b) (sym (append-nil (f (length log))));
      count = ap suc d.count;
      dirs = ap (λ ds. (name ∷ up) ∷ ds) d.dirs;
      valid = ((hn, omega arith, omega arith), d.valid);
      founded = (hm, d.founded);
    }

logged_file :
    (m : Member) (log : List Member) (w : CpioWriter)
    → Describes log w
    → IsValid m
    → is_directory m ≡ false
    → is_made (parent_of m.path) (directories log) ≡ true
    → Describes
        (m ∷ log)
        (pad4 (append_bytes m.body (header (path_text m.path) m.mode (length m.body) w)))
unfolding header pad4 encoded_log AreValid AreFounded
logged_file m log w d hv hf hm =
    let e = λ (i : ℕ). encoded (suc i) (path_text m.path) m.mode m.body in
    record {
      bytes =
          buf-body (path_text m.path) m.mode m.body w (Describes-IsAligned d)
          ∙ ap (λ b. b ++ e w.ino) d.bytes
          ∙ ap (λ i. encoded_log log ++ e i) d.count;
      count = ap suc d.count;
      dirs = d.dirs ∙ rw hf refl;
      valid = (hv, d.valid);
      founded = (hm, d.founded);
    }

-- A path whose name and whose directories' names a header holds.
abbrev pub is_clear : FilePath → Bool
is_clear [] = true
is_clear (name ∷ up) = is_name (name ∷ up) && is_clear up

pub unchanged :
    (made : FilePath) (most : ℕ) (log : List Member) (w : CpioWriter)
    → Describes log w
    → is_made made (directories log) ≡ true
    → Grown [] most made log w
unchanged made most log w d h = record {
  log = log;
  describes = d;
  new_files = refl;
  few = omega arith;
  has_made = h;
}

mkdir_all-Grown :
    (dir : FilePath) (log : List Member) (w : CpioWriter)
    → Describes log w
    → is_clear dir ≡ true
    → Grown [] (length dir) dir log (mkdir_all dir w)
unfolding mkdir_all
mkdir_all-Grown [] log w d h = unchanged [] 0 log w d refl
mkdir_all-Grown (name ∷ up) log w d h = elim (Bool-cases (has_path (name ∷ up) w.dirs)) [
  | inl y ↦ rw y (unchanged (name ∷ up) _ log w d (ap (has_path (name ∷ up)) (sym d.dirs) ∙ y))
  | inr e ↦
      let hs : (is_name (name ∷ up) ≡ true) × (is_clear up ≡ true) = ground (arith, h) in
      let g = mkdir_all-Grown up log w d hs.1 in
      rw e (record {
        log = directory_of (name ∷ up) ∷ g.log;
        describes = logged_directory name up g.log (mkdir_all up w) g.describes hs.0 g.has_made;
        new_files = g.new_files;
        few = omega (arith, g.few);
        has_made = has_path-here (name ∷ up) (directories g.log);
      })
]

-- A member that is no directory, and whose header holds what it has to.
abbrev IsWritable : Member → Type 0
IsWritable m =
    (is_clear m.path ≡ true)
    × (m.mode < 2 ^ 32)
    × (length m.body < 2 ^ 32)
    × (is_directory m ≡ false)

parent_is_clear : (p : FilePath) → is_clear p ≡ true → is_clear (parent_of p) ≡ true
parent_is_clear [] h = refl
parent_is_clear (name ∷ up) h = ground (arith, h)

head_is_name : (p : FilePath) → is_clear p ≡ true → is_name p ≡ true
unfolding bytes_eq join
head_is_name [] h = refl
head_is_name (name ∷ up) h = ground (arith, h)

length-parent_of : (p : FilePath) → length (parent_of p) ≤ length p
length-parent_of [] = omega arith
length-parent_of (n ∷ up) = omega arith

-- A file behind the directories above it.
logged_file-Grown :
    (m : Member) (log : List Member) (w : CpioWriter)
    → Describes log w
    → IsWritable m
    → Grown (m ∷ []) (suc (length m.path)) [] log (
        pad4 (
          append_bytes m.body
            (header (path_text m.path) m.mode (length m.body) (mkdir_all (parent_of m.path) w))))
logged_file-Grown m log w d (hc, hm, hb, hf) =
    let g = mkdir_all-Grown (parent_of m.path) log w d (parent_is_clear m.path hc) in
    record {
      log = m ∷ g.log;
      describes =
          logged_file m g.log (mkdir_all (parent_of m.path) w) g.describes
            (head_is_name m.path hc, hm, hb) hf g.has_made;
      new_files = rw hf (ap (λ ms. m ∷ ms) g.new_files);
      few = omega (arith, g.few, length-parent_of m.path);
      has_made = refl;
    }

pub add_regular-Grown :
    (path : FilePath) (perm : ℕ) (body : Bytes) (log : List Member) (w : CpioWriter)
    → Describes log w
    → is_clear path ≡ true
    → perm < 0o10000
    → length body < 2 ^ 32
    → Grown
        (record { path = path; mode = 0o100000 + perm; body = body } ∷ [])
        (suc (length path))
        []
        log
        (add_regular path perm body w)
unfolding add_regular
add_regular-Grown path perm body log w d hc hp hb =
    logged_file-Grown (record { path = path; mode = 0o100000 + perm; body = body }) log w d
      (hc, omega (arith, hp), hb, ground (arith, hp))

pub add_symlink-Grown :
    (path : FilePath) (target : Bytes) (log : List Member) (w : CpioWriter)
    → Describes log w
    → is_clear path ≡ true
    → length target < 2 ^ 32
    → Grown
        (record { path = path; mode = 0o120777; body = target } ∷ [])
        (suc (length path))
        []
        log
        (add_symlink path target w)
unfolding add_symlink
add_symlink-Grown path target log w d hc hb =
    logged_file-Grown (record { path = path; mode = 0o120777; body = target }) log w d
      (hc, omega arith, hb, refl)
