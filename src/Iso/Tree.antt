-- ===== src/Iso/Tree.antt =====
-- layoutIso of internal/purefs/iso9660.go, first half: the directory tree of the inputs and its
-- breadth-first list. A pointer to a directory is its place in that list.
pub mod Complete
use tacklebox.Common.{
  before, ℕ, zero, suc, ◌+◌, Bytes, List, [], ◌∷◌, ◌++◌, Bool, true, false, Option, some, none, map,
  codes, length, ◌==◌, bytes_eq, if◌then◌else◌,
}
use tacklebox.Oci.Rootfs.Paths.{split_clean, drop_last}
use tacklebox.Iso.{IsoInput, IsoEntry}

-- isoDir as a tree: name, files and subdirectories.
mutual
  pub data Dir : Type 0 where
    dir : Bytes → List IsoEntry → Dirs → Dir

  pub data Dirs : Type 0 where
    no_dirs : Dirs
    and_dir : Dir → Dirs → Dirs

abbrev pub dir_name : Dir → Bytes
dir_name (dir name files subdirs) = name

-- dirByPath[acc], below one directory.
unfoldable pub find_dir : Bytes → Dirs → Dir
find_dir part no_dirs = dir part [] no_dirs
find_dir part (and_dir d ds) = if bytes_eq (dir_name d) part then d else find_dir part ds

unfoldable pub put_dir : Bytes → Dir → Dirs → Dirs
put_dir part new no_dirs = and_dir new no_dirs
put_dir part new (and_dir d ds) =
    if bytes_eq (dir_name d) part then and_dir new ds else and_dir d (put_dir part new ds)

-- getDir and the append to its files.
unfoldable pub add_file : List Bytes → IsoEntry → Dir → Dir
unfolding find_dir put_dir
add_file [] e (dir name files subdirs) = dir name (files ++ e ∷ []) subdirs
add_file (part ∷ parts) e (dir name files subdirs) =
    dir name files (put_dir part (add_file parts e (find_dir part subdirs)) subdirs)

-- path.Base of a cleaned path.
abbrev pub base_of : List Bytes → Bytes
base_of [] = codes "/"
base_of (p ∷ []) = p
base_of (p ∷ q ∷ r) = base_of (q ∷ r)

unfoldable pub entry_of : ℕ → IsoInput → IsoEntry
entry_of id f = record {
  id = id;
  name = base_of (split_clean f.path);
  size = f.size;
  source = f.source;
}

-- The loop over the inputs; `id` counts them.
unfoldable pub add_inputs : ℕ → List IsoInput → Dir → Dir
unfolding add_file entry_of
add_inputs id [] root = root
add_inputs id (f ∷ fs) root =
    add_inputs (suc id) fs (add_file (drop_last (split_clean f.path)) (entry_of id f) root)

abbrev same_path : List Bytes → List Bytes → Bool
same_path [] [] = true
same_path (p ∷ ps) (q ∷ qs) = if bytes_eq p q then same_path ps qs else false
same_path _ _ = false

-- ly.bootEntry: the last input at the boot image's path.
unfoldable pub boot_entry : ℕ → List IsoInput → Bytes → Option IsoEntry → Option IsoEntry
unfolding entry_of
boot_entry id [] boot found = found
boot_entry id (f ∷ fs) boot found =
    boot_entry (suc id) fs boot
      (if same_path (split_clean f.path) (split_clean boot) then some (entry_of id f) else found)

-- sort.Slice by name; entries of one name keep their order here.
unfoldable pub insert_entry : IsoEntry → List IsoEntry → List IsoEntry
insert_entry e [] = e ∷ []
insert_entry e (f ∷ r) = if before e.name f.name then e ∷ (f ∷ r) else f ∷ insert_entry e r

unfoldable pub sort_entries : List IsoEntry → List IsoEntry
unfolding insert_entry
sort_entries [] = []
sort_entries (e ∷ r) = insert_entry e (sort_entries r)

unfoldable pub insert_dir : Dir → List Dir → List Dir
insert_dir d [] = d ∷ []
insert_dir d (e ∷ r) = if before (dir_name d) (dir_name e) then d ∷ (e ∷ r) else e ∷ insert_dir d r

unfoldable pub sort_dirs : Dirs → List Dir
unfolding insert_dir
sort_dirs no_dirs = []
sort_dirs (and_dir d ds) = insert_dir d (sort_dirs ds)

-- isoDir in the list: the places of its parent and of its first subdirectory, the names of its
-- subdirectories, which follow one another, and its files.
pub record FlatDir : Type 0 where
  pub name : Bytes
  pub is_root : Bool
  pub parent : ℕ
  pub first_child : ℕ
  pub subdirs : List Bytes
  pub files : List IsoEntry

abbrev pub queued : ℕ → Dir → ℕ × Dir
queued parent d = (parent, d)

-- The loop over the queue, whose entries have their parent's place; `self` is the place of the
-- next. It is on fuel, one unit for each directory.
unfoldable pub breadth_first : ℕ → ℕ → List (ℕ × Dir) → List FlatDir
unfolding sort_dirs sort_entries
breadth_first zero self queue = []
breadth_first (suc n) self [] = []
breadth_first (suc n) self ((parent, dir name files subdirs) ∷ queue) =
    let subs = sort_dirs subdirs in
    record {
      name = name;
      is_root = self == 0;
      parent = parent;
      first_child = suc self + length queue;
      subdirs = map dir_name subs;
      files = sort_entries files;
    }
    ∷ breadth_first n (suc self) (queue ++ map (queued self) subs)

unfoldable mutual
  pub count_dir : Dir → ℕ
  count_dir (dir name files subdirs) = suc (count_dirs subdirs)

  pub count_dirs : Dirs → ℕ
  count_dirs no_dirs = 0
  count_dirs (and_dir d ds) = count_dir d + count_dirs ds

-- ly.dirs
unfoldable pub flat_dirs : Dir → List FlatDir
unfolding breadth_first
flat_dirs root = breadth_first (count_dir root) 0 ((0, root) ∷ [])
