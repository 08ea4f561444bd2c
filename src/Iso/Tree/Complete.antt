-- ===== src/Iso/Tree/Complete.antt =====
-- The directory list of layoutIso in internal/purefs/iso9660.go, against the inputs.
use tacklebox.Common.{
  ℕ, suc, ◌+◌, Bytes, List, [], ◌∷◌, ◌++◌, ◌≡◌, ◌⊎◌, inl, inr, refl, sym, ap, subst, ◌∙◌,
  Bool-cases, arith, map, Among, here, there, Among-swap, Among-left, Among-right, bytes_eq, before,
}
use tacklebox.Oci.Rootfs.Paths.{split_clean, drop_last}
use tacklebox.Iso.{IsoInput, IsoEntry}
use tacklebox.Iso.Tree.{
  Dir, dir, Dirs, no_dirs, and_dir, dir_name, find_dir, put_dir, add_file, entry_of, add_inputs,
  insert_entry, sort_entries, insert_dir, sort_dirs, queued, count_dir, count_dirs,
}

abbrev dir_list : Dirs → List Dir
dir_list no_dirs = []
dir_list (and_dir d ds) = d ∷ dir_list ds

-- The entry is a file of the directory or of one below it.
pub data In (e : IsoEntry) : Dir → Type 0 where
  file :
      {name : Bytes} {files : List IsoEntry} {subdirs : Dirs}
      → Among e files
      → In e (dir name files subdirs)
  below :
      {name : Bytes} {files : List IsoEntry} {subdirs : Dirs} {d : Dir}
      → Among d (dir_list subdirs)
      → In e d
      → In e (dir name files subdirs)

put_dir-new : (part : Bytes) (new : Dir) (ds : Dirs) → Among new (dir_list (put_dir part new ds))
unfolding put_dir
put_dir-new part new no_dirs = here refl
put_dir-new part new (and_dir d ds) = elim (Bool-cases (bytes_eq (dir_name d) part)) [
  | inl y ↦ rw y (here refl)
  | inr n ↦ rw n (there (put_dir-new part new ds))
]

-- A directory that is there stays, or is the one that is replaced.
put_dir-old :
    (part : Bytes) (new : Dir) (ds : Dirs) {d : Dir}
    → Among d (dir_list ds)
    → Among d (dir_list (put_dir part new ds)) ⊎ (find_dir part ds ≡ d)
unfolding put_dir find_dir
put_dir-old part new no_dirs h = elim h [ ]
put_dir-old part new (and_dir e ds) (here q) = elim (Bool-cases (bytes_eq (dir_name e) part)) [
  | inl y ↦ rw y (inr q)
  | inr n ↦ rw n (inl (here q))
]
put_dir-old part new (and_dir e ds) (there h) = elim (Bool-cases (bytes_eq (dir_name e) part)) [
  | inl y ↦ rw y (inl (there h))
  | inr n ↦ rw n (elim (put_dir-old part new ds h) [ inl k ↦ inl (there k) | inr q ↦ inr q ])
]

add_file-In : (parts : List Bytes) (e : IsoEntry) (d : Dir) → In e (add_file parts e d)
unfolding add_file
add_file-In [] e (dir name files subdirs) = file (Among-right files (e ∷ []) (here refl))
add_file-In (part ∷ parts) e (dir name files subdirs) =
    below (put_dir-new part _ subdirs) (add_file-In parts e (find_dir part subdirs))

add_file-keeps :
    (parts : List Bytes) (new : IsoEntry) {e : IsoEntry} (d : Dir)
    → In e d
    → In e (add_file parts new d)
unfolding add_file
add_file-keeps [] new (dir name files subdirs) (file h) = file (Among-left files (new ∷ []) h)
add_file-keeps [] new (dir name files subdirs) (below a h) = below a h
add_file-keeps (part ∷ parts) new (dir name files subdirs) (file h) = file h
add_file-keeps (part ∷ parts) new {e} (dir name files subdirs) (below {d} a h) =
    elim (put_dir-old part (add_file parts new (find_dir part subdirs)) subdirs a) [
      | inl k ↦ below k h
      | inr q ↦
          below (put_dir-new part _ subdirs)
            (add_file-keeps parts new (find_dir part subdirs) (subst (In e) (sym q) h))
    ]

-- The input stands at a place in the list.
pub data Numbered (f : IsoInput) (id : ℕ) : ℕ → List IsoInput → Type 0 where
  first : {g : IsoInput} {fs : List IsoInput} → g ≡ f → Numbered f id id (g ∷ fs)
  later :
      {start : ℕ} {g : IsoInput} {fs : List IsoInput}
      → Numbered f id (suc start) fs
      → Numbered f id start (g ∷ fs)

add_inputs-keeps :
    (start : ℕ) (fs : List IsoInput) {e : IsoEntry} (d : Dir)
    → In e d
    → In e (add_inputs start fs d)
unfolding add_inputs
add_inputs-keeps start [] d h = h
add_inputs-keeps start (f ∷ fs) d h =
    add_inputs-keeps (suc start) fs _
      (add_file-keeps (drop_last (split_clean f.path)) (entry_of start f) d h)

pub add_inputs-In :
    (f : IsoInput) (id start : ℕ) (fs : List IsoInput) (d : Dir)
    → Numbered f id start fs
    → In (entry_of id f) (add_inputs start fs d)
unfolding add_inputs
add_inputs-In f id start [] d h = elim h [ ]
add_inputs-In f id start (g ∷ fs) d (first q) =
    subst (λ t. In (entry_of start t) (add_inputs start (g ∷ fs) d)) q
      (add_inputs-keeps (suc start) fs _
        (add_file-In (drop_last (split_clean g.path)) (entry_of start g) d))
add_inputs-In f id start (g ∷ fs) d (later h) = add_inputs-In f id (suc start) fs _ h

-- Sorting loses nothing.
insert_entry-Among :
    {e : IsoEntry} (f : IsoEntry) (fs : List IsoEntry)
    → Among e (f ∷ fs)
    → Among e (insert_entry f fs)
unfolding insert_entry
insert_entry-Among f [] h = h
insert_entry-Among f (g ∷ fs) h = elim (Bool-cases (before f.name g.name)) [
  | inl y ↦ rw y h
  | inr n ↦
      rw n (elim (Among-swap h) [ here q ↦ here q | there k ↦ there (insert_entry-Among f fs k) ])
]

pub sort_entries-Among :
    {e : IsoEntry} (fs : List IsoEntry) → Among e fs → Among e (sort_entries fs)
unfolding sort_entries
sort_entries-Among [] h = h
sort_entries-Among (f ∷ fs) (here q) = insert_entry-Among f _ (here q)
sort_entries-Among (f ∷ fs) (there h) = insert_entry-Among f _ (there (sort_entries-Among fs h))

insert_dir-Among :
    {d : Dir} (e : Dir) (ds : List Dir) → Among d (e ∷ ds) → Among d (insert_dir e ds)
unfolding insert_dir
insert_dir-Among e [] h = h
insert_dir-Among e (f ∷ ds) h = elim (Bool-cases (before (dir_name e) (dir_name f))) [
  | inl y ↦ rw y h
  | inr n ↦
      rw n (elim (Among-swap h) [ here q ↦ here q | there k ↦ there (insert_dir-Among e ds k) ])
]

pub sort_dirs-Among : {d : Dir} (ds : Dirs) → Among d (dir_list ds) → Among d (sort_dirs ds)
unfolding sort_dirs
sort_dirs-Among no_dirs h = h
sort_dirs-Among (and_dir e ds) (here q) = insert_dir-Among e _ (here q)
sort_dirs-Among (and_dir e ds) (there h) = insert_dir-Among e _ (there (sort_dirs-Among ds h))

-- The directories of a queue, each with all that is below it.
abbrev pub count_queue : List (ℕ × Dir) → ℕ
count_queue [] = 0
count_queue ((p, d) ∷ q) = count_dir d + count_queue q

pub count_queue-append :
    (xs ys : List (ℕ × Dir)) → count_queue (xs ++ ys) ≡ count_queue xs + count_queue ys
count_queue-append [] ys = omega arith
count_queue-append ((p, d) ∷ xs) ys = omega (arith, count_queue-append xs ys)

count_queue-insert_dir :
    (self : ℕ) (d : Dir) (ds : List Dir)
    → count_queue (map (queued self) (insert_dir d ds))
      ≡ count_dir d + count_queue (map (queued self) ds)
unfolding insert_dir
count_queue-insert_dir self d [] = refl
count_queue-insert_dir self d (e ∷ ds) = elim (Bool-cases (before (dir_name d) (dir_name e))) [
  | inl y ↦ rw y refl
  | inr n ↦ rw n (omega (arith, count_queue-insert_dir self d ds))
]

pub count_queue-sort_dirs :
    (self : ℕ) (ds : Dirs) → count_queue (map (queued self) (sort_dirs ds)) ≡ count_dirs ds
unfolding sort_dirs count_dirs
count_queue-sort_dirs self no_dirs = refl
count_queue-sort_dirs self (and_dir d ds) =
    count_queue-insert_dir self d (sort_dirs ds)
    ∙ ap (λ n. count_dir d + n) (count_queue-sort_dirs self ds)
