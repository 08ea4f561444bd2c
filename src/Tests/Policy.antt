-- ===== src/Tests/Policy.antt =====
-- Boot entries of a combined medium.
use tacklebox.Common.{
  before, Bytes, List, [], ◌∷◌, ◌≡◌, ◌≤◌, refl, true, arith, length, codes, fields, fields_from,
  cut_prefix, bytes_eq, replace_byte, if◌then◌else◌,
}
use tacklebox.Cmdline.{live_options, live_combined}
use tacklebox.Verify.Bls.{BlsEntry, bls_option, option_in, bls_squashimg}
use tacklebox.Verify.Policy.{
  Groups, shared, squashimgs, delta_layout, distinguisher, bare_names, add_to, group_all,
  insert_group, sort_groups, shared_results, pivot_results, check_combined_pivots,
}
use tacklebox.Kargs.Distinct.{AreDistinct}
use tacklebox.Verify.Policy.Groups.{none_failed}
use tacklebox.Verify.Policy.Distinct.{trees, treeless, check_combined_pivots-AreDistinct}

abbrev entry : Bytes → Bytes → BlsEntry
entry name env = record {
  name = name;
  linux = codes "/vmlinuz";
  initrd = codes "/initrd";
  options = live_combined env (codes "TBOX");
}

abbrev entries : List BlsEntry
entries = entry (codes "a.conf") (codes "gnome") ∷ entry (codes "b.conf") (codes "kde") ∷ []

abbrev twice : List BlsEntry
twice = entry (codes "a.conf") (codes "kde") ∷ entry (codes "b.conf") (codes "kde") ∷ []

one_image : length (squashimgs entries) ≡ 1
unfolding squashimgs bls_squashimg bls_option option_in live_combined live_options fields
    fields_from cut_prefix bytes_eq replace_byte
one_image = refl

entries_pass : none_failed (check_combined_pivots entries) ≡ true
unfolding check_combined_pivots squashimgs bls_squashimg bls_option option_in live_combined
    live_options fields fields_from cut_prefix bytes_eq replace_byte delta_layout distinguisher
    bare_names add_to group_all sort_groups insert_group before shared_results pivot_results
entries_pass = refl

twice_shared :
    check_combined_pivots twice ≡ shared (codes "kde") (codes "a.conf" ∷ codes "b.conf" ∷ []) ∷ []
unfolding check_combined_pivots squashimgs bls_squashimg bls_option option_in live_combined
    live_options fields fields_from cut_prefix bytes_eq replace_byte delta_layout distinguisher
    bare_names add_to group_all sort_groups insert_group before shared_results pivot_results
twice_shared = refl

check_combined_pivots-AreDistinct_example :
    AreDistinct (trees entries) × (treeless entries ≤ (if delta_layout entries then 1 else 0))
check_combined_pivots-AreDistinct_example =
    check_combined_pivots-AreDistinct entries one_image (omega arith) entries_pass

abbrev hashes : Groups
hashes =
    (codes "b1946ac92492d234", codes "gnome" ∷ codes "kde" ∷ [])
    ∷ (codes "591785b794601e21", codes "xfce" ∷ [])
    ∷ []
