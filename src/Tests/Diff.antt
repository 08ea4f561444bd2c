-- ===== src/Tests/Diff.antt =====
-- A base and an environment that differ in a file, a new directory and a file that is gone.
use tacklebox.Common.{ℕ, [], ◌∷◌, ◌≡◌, refl, Bool, false, some, codes, bytes_eq, before}
use tacklebox.Install.Diff.{
  Meta, Node, Tree, dir, link, file, empty, entry, TreePath, find, tree_diff, whiteout, same_meta,
  count_tree, sorted_names,
}
use tacklebox.Install.Diff.Names.{distinct_lem}
use tacklebox.Install.Diff.Overlay.{look, see, bare_of, IsPlain, ArePlain}
use tacklebox.Install.Diff.Faithful.{see-tree_diff}

abbrev mode : ℕ → ℕ → Meta
mode perm bits = record { perm = perm; bits = bits; uid = 0; gid = 0 }

abbrev shell : Node
shell = file (mode 0o755 0) (codes "sh")

-- A set-uid program.
abbrev sudo : Node
sudo = file (mode 0o755 0o4000) (codes "sudo 2")

abbrev base : Tree
base =
    entry (codes "bin")
      (dir (mode 0o755 0) (
        entry (codes "sh") shell
          (entry (codes "sudo") (file (mode 0o755 0o4000) (codes "sudo 1")) empty)))
      (entry (codes "old") (file (mode 0o644 0) (codes "x")) empty)

abbrev env : Tree
env =
    entry (codes "bin")
      (dir (mode 0o755 0) (entry (codes "sh") shell (entry (codes "sudo") sudo empty)))
      (entry (codes "lib") (link 0 0 (codes "usr/lib")) empty)

abbrev all_paths : TreePath → Bool
all_paths p = false

-- The changed program is copied, without its set-uid bit, the new link too; what is gone is a whiteout.
delta :
    tree_diff all_paths (mode 0o755 0) base env
    ≡ some (
        dir (mode 0o755 0) (
          entry
            (codes "bin")
            (dir (mode 0o755 0) (entry (codes "sudo") (file (mode 0o755 0) (codes "sudo 2")) empty))
            (entry
              (codes "lib")
              (link 0 0 (codes "usr/lib"))
              (entry (codes "old") whiteout empty))))
unfolding tree_diff sorted_names bytes_eq before find count_tree same_meta
delta = refl

env-ArePlain : ArePlain env
unfolding IsPlain bytes_eq
env-ArePlain = ((distinct_lem refl, tt), ((distinct_lem refl, tt), tt, (tt, tt, tt)), (tt, tt, tt))

see-tree_diff_example :
    bare_of (
      see
        (tree_diff all_paths (mode 0o755 0) base env)
        (some (dir (mode 0o755 0) base))
        (codes "bin" ∷ codes "sudo" ∷ []))
    ≡ bare_of (look (some (dir (mode 0o755 0) env)) (codes "bin" ∷ codes "sudo" ∷ []))
see-tree_diff_example =
    see-tree_diff all_paths (mode 0o755 0) (mode 0o755 0) base env (codes "bin") (codes "sudo" ∷ [])
      env-ArePlain (refl, (refl, tt))
