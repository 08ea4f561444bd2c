-- ===== src/Tests/Liveboot.antt =====
-- A loader with a device tree and a hardware table of the board.
use tacklebox.Common.{
  ℕ, zero, suc, Bytes, [], ◌∷◌, ◌++◌, ◌≡◌, ◌↔◌, refl, true, Option, some, codes, join, bytes_eq,
}
use tacklebox.Liveboot.Outcome.{Ensures, IsFine, ok, err, bind, refuse_if, choose}
use tacklebox.Oci.Platform.{pos}
use tacklebox.Oci.Rootfs.Paths.{split_slash}
use tacklebox.Liveboot.Inputs.{Input, Manifest, validate, validate_input}
use tacklebox.Liveboot.Inputs.Accepts.{validate_exact}
use tacklebox.Liveboot.Inputs.Contract.{IsContract}
use tacklebox.Liveboot.Kernel.{validate_kernel_pair}
use tacklebox.Liveboot.Kernel.Matches.{Accepted, validate_kernel_pair-Accepted}
use tacklebox.Liveboot.Dtb.{root_compatible}
use tacklebox.Liveboot.Pe.{PeFile}
use tacklebox.Liveboot.Board.{board, has_board_mapping, has_board_mapping-IsFine}

abbrev nulls : ℕ → Bytes
nulls zero = []
nulls (suc n) = 0 ∷ nulls n

-- A word of less than 256, the high byte first.
abbrev word : ℕ → Bytes
word n = 0 ∷ 0 ∷ 0 ∷ n ∷ []

abbrev structure : Bytes
structure =
    word 1
    ++ (word 0 ++ (word 3 ++ (word 21 ++ (word 0 ++ (board ++ (nulls 4 ++ (word 2 ++ word 9)))))))

abbrev device_tree : Bytes
device_tree =
    (0xd0 ∷ 0x0d ∷ 0xfe ∷ 0xed ∷ [])
    ++ (word 103
        ++ (word 40
            ++ (word 92
                ++ (nulls 16
                    ++ (word 11 ++ (word 52 ++ (structure ++ (codes "compatible" ++ nulls 1))))))))

abbrev hardware_table : Bytes
hardware_table =
    (0x1c ∷ 0 ∷ 0 ∷ 0x10 ∷ [])
    ++ (nulls 20 ++ ((32 ∷ 0 ∷ 0 ∷ 0 ∷ []) ++ (nulls 4 ++ (board ++ nulls 1))))

abbrev loader : Bytes
loader =
    codes "MZ"
    ++ (nulls 58
        ++ ((64 ∷ 0 ∷ 0 ∷ 0 ∷ [])
            ++ (codes "PE"
                ++ (nulls 4
                    ++ ((2 ∷ []) ++ (nulls 17 ++ (nulls 80 ++ (device_tree ++ hardware_table))))))))

abbrev file : PeFile
file = record {
  machine = 0xaa64;
  sections =
      record { name = codes ".dtbauto"; virtual_size = 103; size = 103; offset = 168 }
      ∷ record { name = codes ".hwids"; virtual_size = 53; size = 53; offset = 271 }
      ∷ [];
  is_pe32_plus = true;
}

abbrev new_file : Bytes → Option PeFile
new_file bytes = some file

compatible : root_compatible device_tree ≡ ok (board ∷ [])
unfolding root_compatible bind refuse_if choose bytes_eq
compatible = refl

maps :
    has_board_mapping new_file loader
    ≡ ok (record { dtb_match = true; hwid_match = true; hwid_count = 1 })
unfolding has_board_mapping bind refuse_if choose bytes_eq
maps = refl

has_board_mapping-IsFine_example : IsFine (has_board_mapping new_file loader)
has_board_mapping-IsFine_example = has_board_mapping-IsFine new_file loader

-- A loader that is one kernel and its release.
abbrev kernel : Bytes
kernel = codes "kernel"

abbrev kernel_loader : Bytes
kernel_loader =
    codes "MZ"
    ++ (nulls 58
        ++ ((64 ∷ 0 ∷ 0 ∷ 0 ∷ [])
            ++ (codes "PE"
                ++ (nulls 4 ++ ((2 ∷ []) ++ (nulls 17 ++ (nulls 80 ++ (kernel ++ codes "6.1"))))))))

abbrev kernel_file : Bytes → Option PeFile
kernel_file bytes = some (record {
  machine = 0xaa64;
  sections =
      record { name = codes ".linux"; virtual_size = 6; size = 6; offset = 168 }
      ∷ record { name = codes ".uname"; virtual_size = 3; size = 3; offset = 174 }
      ∷ [];
  is_pe32_plus = true;
})

abbrev digit_bytes : ℕ → Bytes
digit_bytes zero = []
digit_bytes (suc n) = b'a' ∷ digit_bytes n

abbrev sha : Bytes → Bytes
sha bytes = digit_bytes 64

abbrev input_at : Bytes → Input
input_at path = record { path = path; size = pos 12; sha256 = digit_bytes 64 }

abbrev manifest : Manifest
manifest = record {
  mode = codes "fedora-arm64-dtbloader";
  board = board;
  architecture = codes "arm64";
  kernel_release = codes "6.1";
  kernel_sha256 = digit_bytes 64;
  shim = input_at (codes "efi/shim.efi");
  grub = input_at (codes "grub.efi");
  loader = input_at (codes "loader.efi");
  preparation_receipt = input_at (codes "receipt");
}

accepts : validate manifest ≡ ok tt
unfolding validate bind refuse_if bytes_eq split_slash join
accepts = refl

pairs : validate_kernel_pair sha kernel_file kernel_loader kernel (codes "6.1") manifest ≡ ok tt
unfolding validate_kernel_pair bind refuse_if choose bytes_eq split_slash join
pairs = refl

refuses_parent : validate_input (input_at (codes "../loader.efi")) ≡ err
unfolding validate_input refuse_if bytes_eq split_slash join
refuses_parent = refl

validate_exact_example : (validate manifest ≡ ok tt) ↔ IsContract manifest
validate_exact_example = validate_exact manifest

validate_kernel_pair-Accepted_example :
    Ensures
      (λ _. Accepted sha kernel_file kernel_loader kernel (codes "6.1") manifest)
      (validate_kernel_pair sha kernel_file kernel_loader kernel (codes "6.1") manifest)
validate_kernel_pair-Accepted_example =
    validate_kernel_pair-Accepted sha kernel_file kernel_loader kernel (codes "6.1") manifest
