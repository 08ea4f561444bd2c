-- ===== src/Tests/Kargs.antt =====
-- A kargs.d of three files, of which one is for another architecture.
use tacklebox.Common.{
  before, Bytes, List, [], ◌∷◌, ◌≡◌, refl, some, none, map, codes, bytes_eq, cut_prefix,
  trim_prefix, replace_byte, join, if◌then◌else◌,
}
use tacklebox.Kargs.{
  Decoded, bad, config, ok, err, unknown_arch, identity, trim_suffix, cut_at, arch_name, added,
  add_arg, add_args, read_config, matched, split, split_from, is_config_name, path_ext, ext_in,
  insert, config_files, parse_files, parse,
}
use tacklebox.Kargs.Distinct.{AreDistinct, parse-AreDistinct}

abbrev files : List (Bytes × Bytes)
files =
    (codes "20-net.toml", codes "net")
    ∷ (codes "README", codes "text")
    ∷ (codes "10-base.toml", codes "base")
    ∷ (codes "30-arm.toml", codes "arm")
    ∷ []

abbrev decode : Bytes → Decoded
decode body =
    if bytes_eq body (codes "base")
    then config [] (some (codes "quiet" ∷ codes "rd.net-timeout=5" ∷ [])) none
    else if bytes_eq body (codes "net")
    then config [] (some (codes "rd.net_timeout=5 ip=dhcp" ∷ [])) (some (codes "x86_64" ∷ []))
    else if bytes_eq body (codes "arm")
    then config [] (some (codes "console=ttyAMA0" ∷ [])) (some (codes "aarch64" ∷ []))
    else bad

abbrev kernel_args : List Bytes
kernel_args = codes "quiet" ∷ codes "rd.net-timeout=5" ∷ codes "ip=dhcp" ∷ []

-- The second spelling of the timeout is the first argument again.
parsed : parse decode files (codes "amd64") ≡ ok kernel_args
unfolding parse parse_files config_files insert before is_config_name path_ext ext_in read_config
    matched arch_name split split_from join add_args add_arg added identity trim_suffix trim_prefix
    cut_prefix cut_at replace_byte bytes_eq
parsed = refl

unknown : parse decode files [] ≡ err (unknown_arch (codes "20-net.toml"))
unfolding parse parse_files config_files insert before is_config_name path_ext ext_in read_config
    matched arch_name split split_from join add_args add_arg added identity trim_suffix trim_prefix
    cut_prefix cut_at replace_byte bytes_eq
unknown = refl

parse-AreDistinct_example : AreDistinct (map identity kernel_args)
parse-AreDistinct_example = parse-AreDistinct decode files (codes "amd64") parsed
