-- ===== src/Tests/Sysupdate.antt =====
-- A listing of two versions.
use tacklebox.Common.{
  Bytes, List, [], ◌∷◌, ◌++◌, ◌≡◌, ◌⊎◌, refl, sym, subst, codes, false, true, here, there,
  trim_space, has_prefix, fields, trim_prefix, bytes_eq,
}
use tacklebox.Sysupdate.Versions.{version_less}
use tacklebox.Sysupdate.Versions.Tokens.{tokens, lex_less, version_less-tokens}
use tacklebox.Sysupdate.Versions.Order.{version_less-tokens_total}
use tacklebox.Sysupdate.Release.{
  DdiRelease, has_long, raw_lines_from, scanned_lines, listed, resolved, no_sha,
  resolve_ddi_release,
}
use tacklebox.Sysupdate.Release.Loop.{UkiOf, RootOf}
use tacklebox.Sysupdate.Release.Lines.{ListsUnbound}
use tacklebox.Sysupdate.Release.Names.{IsUkiName, IsRootName}
use tacklebox.Sysupdate.Release.Newest.{resolve_ddi_release-newest, resolve_ddi_release-finds}

abbrev sha : Bytes
sha = codes "0123456789abcdef0123456789abcdef0123456789abcdef0123456789abcdef"

abbrev uuid : Bytes
uuid = codes "01234567-89ab-cdef-0123-456789abcdef"

abbrev uki_line : Bytes → Bytes
uki_line v = sha ++ (codes "  snow_" ++ (v ++ codes ".efi"))

abbrev root_line : Bytes → Bytes
root_line v = sha ++ (codes " *snow_" ++ (v ++ (codes "_" ++ (uuid ++ codes ".root.raw"))))

abbrev lines : List Bytes
lines =
    uki_line (codes "1.10")
    ∷ root_line (codes "1.10")
    ∷ uki_line (codes "1.9")
    ∷ root_line (codes "1.9")
    ∷ []

abbrev joined : List Bytes → Bytes
joined [] = []
joined (l ∷ ls) = l ++ (b'\n' ∷ joined ls)

abbrev manifest : Bytes
manifest = joined lines

abbrev as_read : List Bytes → List Bytes
as_read vs = vs

scanned : scanned_lines manifest ≡ lines
unfolding scanned_lines
scanned = refl

abbrev newest : DdiRelease
newest = record {
  version = codes "1.10";
  uki = codes "snow_1.10.efi";
  root = codes "snow_1.10_" ++ (uuid ++ codes ".root.raw");
  uki_sha = sha;
  root_sha = sha;
}

resolves : resolve_ddi_release as_read manifest (codes "snow") ≡ resolved newest
unfolding resolve_ddi_release listed trim_space has_prefix fields trim_prefix bytes_eq version_less
resolves = refl

uki_there : UkiOf (codes "snow") lines (codes "1.9") (sha, codes "snow_1.9.efi")
unfolding listed trim_space has_prefix fields trim_prefix bytes_eq
uki_there = record {
  line = uki_line (codes "1.9");
  artifact = record { stem = codes "snow"; version = codes "1.9" };
  among = there (there (here refl));
  lists = refl;
  wants = refl;
  same_version = refl;
}

root_there :
    RootOf
      (codes "snow")
      lines
      (codes "1.9")
      (sha, codes "snow_1.9_" ++ (uuid ++ codes ".root.raw"))
unfolding listed trim_space has_prefix fields trim_prefix bytes_eq
root_there = record {
  line = root_line (codes "1.9");
  artifact = record { stem = codes "snow"; version = codes "1.9" };
  among = there (there (there (here refl)));
  lists = refl;
  wants = refl;
  same_version = refl;
}

uki_scanned :
    UkiOf (codes "snow") (scanned_lines manifest) (codes "1.9") (sha, codes "snow_1.9.efi")
uki_scanned =
    subst (λ ls. UkiOf (codes "snow") ls (codes "1.9") (sha, codes "snow_1.9.efi")) (sym scanned)
      uki_there

root_scanned :
    RootOf
      (codes "snow")
      (scanned_lines manifest)
      (codes "1.9")
      (sha, codes "snow_1.9_" ++ (uuid ++ codes ".root.raw"))
root_scanned =
    subst
      (λ ls.
        RootOf (codes "snow") ls (codes "1.9")
          (sha, codes "snow_1.9_" ++ (uuid ++ codes ".root.raw")))
      (sym scanned) root_there

short : has_long (raw_lines_from [] manifest) ≡ false
unfolding has_long raw_lines_from
short = refl

-- Numbers compare as numbers, of any width.
later :
    (version_less (codes "1.9") (codes "1.10") ≡ true)
    × (version_less (codes "1.010") (codes "1.10") ≡ false)
unfolding version_less bytes_eq
later = (refl, refl)

version_less-tokens_example :
    version_less (codes "1.9") (codes "1.10")
    ≡ lex_less (tokens (codes "1.9")) (tokens (codes "1.10"))
version_less-tokens_example = version_less-tokens (codes "1.9") (codes "1.10")

version_less-tokens_total_example :
    ((version_less (codes "1.01") (codes "1.1") ≡ true)
      × (version_less (codes "1.1") (codes "1.01") ≡ false))
    ⊎ (((version_less (codes "1.1") (codes "1.01") ≡ true)
          × (version_less (codes "1.01") (codes "1.1") ≡ false))
        ⊎ ((tokens (codes "1.01") ≡ tokens (codes "1.1"))
            × (version_less (codes "1.01") (codes "1.1") ≡ false)
            × (version_less (codes "1.1") (codes "1.01") ≡ false)))
version_less-tokens_total_example = version_less-tokens_total (codes "1.01") (codes "1.1")

resolve_ddi_release-newest_example : version_less newest.version (codes "1.9") ≡ false
resolve_ddi_release-newest_example =
    resolve_ddi_release-newest as_read manifest (codes "snow") (codes "1.9")
      (sha, codes "snow_1.9.efi") (sha, codes "snow_1.9_" ++ (uuid ++ codes ".root.raw"))
      (λ vs v h. h) resolves uki_scanned root_scanned

resolve_ddi_release-finds_example :
    ((r : DdiRelease) × (resolve_ddi_release as_read manifest (codes "snow") ≡ resolved r))
    ⊎ ((v : Bytes) × (resolve_ddi_release as_read manifest (codes "snow") ≡ no_sha v)
        × (ListsUnbound IsUkiName (codes "snow") (scanned_lines manifest) v
            ⊎ ListsUnbound IsRootName (codes "snow") (scanned_lines manifest) v))
resolve_ddi_release-finds_example =
    resolve_ddi_release-finds as_read manifest (codes "snow") (codes "1.9")
      (sha, codes "snow_1.9.efi") (sha, codes "snow_1.9_" ++ (uuid ++ codes ".root.raw"))
      (λ vs v. ((λ h. h), (λ h. h))) refl short uki_scanned root_scanned
