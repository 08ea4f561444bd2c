-- ===== src/Iso/Descriptors.antt =====
-- The volume descriptors and the boot catalog of internal/purefs/iso9660.go.
use tacklebox.Common.{
  ℕ, zero, suc, ◌+◌, ◌-◌, ◌*◌, ◌/◌, ◌%◌, ◌^◌, Bytes, List, [], ◌∷◌, ◌++◌, codes, take, ltb, ◌==◌,
  if◌then◌else◌,
}
use tacklebox.Iso.{IsoEntry, zeros}
use tacklebox.Iso.Numbers.{byte, le32, be32, both16, both32, u32}
use tacklebox.Iso.Records.{Time, root_record}
use tacklebox.Iso.Layout.{IsoLayout, Placed, all_files}

-- padStr
unfoldable pub spaces : ℕ → Bytes
spaces zero = []
spaces (suc n) = b' ' ∷ spaces n

unfoldable pub pad_str : Bytes → ℕ → Bytes
pad_str s n = take n (s ++ spaces n)

-- A sector that holds these bytes and then zeros.
unfoldable pub sector_of : Bytes → Bytes
sector_of b = take 2048 (b ++ zeros 2048)

abbrev two_digits : ℕ → Bytes → Bytes
two_digits n rest = (48 + n / 10 % 10) ∷ (48 + n % 10) ∷ rest

-- decDatetime: year to second, "00", and a zero byte.
unfoldable pub dec_datetime : Time → Bytes
dec_datetime t = two_digits (t.year / 100) (
    two_digits (t.year % 100) (
      two_digits t.month (
        two_digits t.day
          (two_digits t.hour (two_digits t.minute (two_digits t.second (b'0' ∷ b'0' ∷ 0 ∷ [])))))))

abbrev root_place : List Placed → ℕ × ℕ
root_place [] = (0, 0)
root_place (p ∷ ps) = (p.extent, p.size)

-- Fields one behind the other.
abbrev pub joined : List Bytes → Bytes
joined [] = []
joined (f ∷ fs) = f ++ joined fs

-- The primary volume descriptor.
unfoldable pub primary_descriptor : IsoLayout → Bytes
primary_descriptor ly =
    let (extent, size) = root_place ly.dirs in
    sector_of (
      joined (
        (1 ∷ codes "CD001")
        ∷ (1 ∷ 0 ∷ [])
        ∷ pad_str (codes "TACKLEBOX") 32
        ∷ pad_str ly.volume_id 32
        ∷ zeros 8
        ∷ both32 (u32 ly.total_sectors)
        ∷ zeros 32
        ∷ both16 1
        ∷ both16 1
        ∷ both16 2048
        ∷ both32 (u32 ly.path_table_len)
        ∷ le32 (u32 ly.path_table_l)
        ∷ zeros 4
        ∷ be32 (u32 ly.path_table_m)
        ∷ zeros 4
        ∷ root_record ly.now extent size
        ∷ pad_str [] 128
        ∷ pad_str (codes "TACKLEBOX") 128
        ∷ pad_str [] 128
        ∷ pad_str (codes "TACKLEBOX PUREFS") 128
        ∷ zeros 111
        ∷ dec_datetime ly.now
        ∷ dec_datetime ly.now
        ∷ pad_str [] 16
        ∷ zeros 1
        ∷ pad_str [] 16
        ∷ (0 ∷ 1 ∷ [])
        ∷ []))

-- The El Torito boot record.
unfoldable pub boot_record : IsoLayout → Bytes
boot_record ly = sector_of (
    (0 ∷ codes "CD001")
    ++ (1 ∷ pad_str (codes "EL TORITO SPECIFICATION") 32)
    ++ (zeros 32 ++ le32 (u32 ly.boot_catalog)))

unfoldable pub terminator : Bytes
terminator = sector_of ((255 ∷ codes "CD001") ++ (1 ∷ []))

-- The boot catalog: the sum of its first entry's words is 0 modulo 2^16.
unfoldable pub sum16 : Bytes → ℕ
sum16 [] = 0
sum16 (b ∷ []) = b
sum16 (b ∷ c ∷ r) = (b + 256 * c + sum16 r) % 2 ^ 16

unfoldable pub validation_entry : ℕ → Bytes
validation_entry sum =
    (1 ∷ 0xEF ∷ 0 ∷ 0 ∷ pad_str (codes "TACKLEBOX") 24)
    ++ (byte sum ∷ byte (sum / 2 ^ 8) ∷ 0x55 ∷ 0xAA ∷ [])

-- The extent of an entry by its identity.
unfoldable pub extent_of : ℕ → List (ℕ × IsoEntry) → ℕ
extent_of id [] = 0
extent_of id ((extent, f) ∷ fs) = if f.id == id then extent else extent_of id fs

abbrev boot_sectors : ℕ → ℕ
boot_sectors cnt = if ltb 0xFFFF cnt then 0 else cnt

unfoldable pub boot_catalog_of : IsoLayout → Bytes
boot_catalog_of ly =
    let cnt = boot_sectors (ly.boot.size / 512) in
    sector_of (
      validation_entry (0x10000 - sum16 (validation_entry 0))
      ++ ((0x88 ∷ zeros 5)
          ++ (byte cnt
              ∷ byte (cnt / 2 ^ 8)
              ∷ le32 (u32 (extent_of ly.boot.id (all_files ly.dirs))))))
