-- ===== src/Iso/Records.antt =====
-- The records of internal/purefs/iso9660.go: identifiers, directory records with their Rock Ridge
-- entries, and path table records.
pub mod Length
use tacklebox.Common.{
  ℕ, zero, suc, ◌+◌, ◌-◌, ◌/◌, ◌%◌, ◌^◌, Bytes, List, [], ◌∷◌, ◌++◌, Bool, true, false, not, ◌&&◌,
  ◌||◌, map, codes, length, take, drop, ltb, leb, ◌==◌, bytes_eq, if◌then◌else◌,
}
use tacklebox.Iso.{zeros}
use tacklebox.Iso.Numbers.{byte, both32, both16, le32, be32, u32}

-- time.Time, as far as the records have it.
pub record Time : Type 0 where
  pub year : ℕ
  pub month : ℕ
  pub day : ℕ
  pub hour : ℕ
  pub minute : ℕ
  pub second : ℕ

unfoldable pub rec_time : Time → Bytes
rec_time t =
    byte (t.year - 1900)
    ∷ byte t.month
    ∷ byte t.day
    ∷ byte t.hour
    ∷ byte t.minute
    ∷ byte t.second
    ∷ 0
    ∷ []

abbrev upper : ℕ → ℕ
upper c = if leb b'a' c && leb c b'z' then c - 32 else c

abbrev allowed : ℕ → Bool
allowed c = (leb b'A' c && leb c b'Z') || (leb b'0' c && leb c b'9') || c == b'_' || c == b'.'

abbrev pub iso_byte : ℕ → ℕ
iso_byte c = if allowed (upper c) then upper c else b'_'

abbrev has_dot : Bytes → Bool
has_dot [] = false
has_dot (c ∷ s) = c == b'.' || has_dot s

-- The suffixes of a file's identifier.
abbrev pub versioned : Bool → Bytes → Bytes
versioned true s = s
versioned false s = (if has_dot s then s else s ++ codes ".") ++ codes ";1"

abbrev pub last_thirty : Bytes → Bytes
last_thirty s = if ltb 30 (length s) then drop (length s - 30) s else s

-- isoName
unfoldable pub iso_name : Bytes → Bool → Bytes
iso_name name is_dir = last_thirty (versioned is_dir (map iso_byte name))

-- The parameter `dot` of dirRecord: a regular entry, "." or "..".
pub data Dot : Type 0 where
  regular self parent : Dot

abbrev pub identifier : Bytes → Bool → Dot → Bytes
identifier name is_dir regular = iso_name name is_dir
identifier name is_dir self = 0 ∷ []
identifier name is_dir parent = 1 ∷ []

abbrev pub pad_if : Bool → Bytes
pad_if true = 0 ∷ []
pad_if false = []

abbrev pub is_odd : ℕ → Bool
is_odd n = n % 2 == 1

-- SP and ER, in the root's "." only.
abbrev extension : Bytes → Dot → Bytes
extension name self =
    if bytes_eq name (codes "SP")
    then codes "SP"
      ++ (7 ∷ 1 ∷ 0xBE ∷ 0xEF ∷ 0 ∷ codes "ER")
      ++ (18 ∷ 1 ∷ 10 ∷ 0 ∷ 0 ∷ 1 ∷ codes "RRIP_1991A")
    else []
extension name _ = []

abbrev rock_ridge_flags : Dot → ℕ
rock_ridge_flags regular = 0x09
rock_ridge_flags _ = 0x01

abbrev posix : Bool → Bytes
posix is_dir =
    codes "PX"
    ++ (36 ∷ 1 ∷ both32 (if is_dir then 0o040555 else 0o100444))
    ++ (both32 (if is_dir then 2 else 1) ++ (both32 0 ++ both32 0))

abbrev real_name : Bytes → Dot → Bytes
real_name name regular = codes "NM" ++ (byte (5 + length name) ∷ 1 ∷ 0 ∷ name)
real_name name _ = []

-- The system use area, before its own padding.
unfoldable pub system_use : Bytes → Bool → Dot → Bytes
system_use name is_dir dot =
    extension name dot
    ++ ((codes "RR" ++ (5 ∷ 1 ∷ rock_ridge_flags dot ∷ [])) ++ (posix is_dir ++ real_name name dot))

abbrev file_flags : Bool → Bool → ℕ
file_flags true true = 0x82
file_flags true false = 0x02
file_flags false true = 0x80
file_flags false false = 0

-- What depends on the name alone: the identifier, its padding and the padded system use area.
unfoldable pub record_tail : Bytes → Bool → Dot → Bytes
unfolding system_use iso_name
record_tail name is_dir dot =
    let id = identifier name is_dir dot in
    let pad = pad_if (is_odd (33 + length id)) in
    let su = system_use name is_dir dot in
    (id ++ pad) ++ (su ++ pad_if (is_odd (33 + length id + length pad + length su)))

abbrev identifier_length : Bytes → Bool → Dot → ℕ
identifier_length name is_dir dot = length (identifier name is_dir dot)

-- dirRecord: 33 bytes that hold its length, place, size, time and flags, and the tail.
unfoldable pub dir_record : Time → Bytes → ℕ → ℕ → Bool → Dot → Bool → Bytes
unfolding record_tail
dir_record now name extent size is_dir dot multi =
    let tail = record_tail name is_dir dot in
    (byte (33 + length tail) ∷ 0 ∷ both32 (u32 extent))
    ++ (both32 (u32 size)
        ++ (rec_time now
            ++ ((file_flags is_dir multi ∷ 0 ∷ 0 ∷ both16 1)
                ++ (byte (identifier_length name is_dir dot) ∷ tail))))

-- rootRecordForPVD
unfoldable pub root_record : Time → ℕ → ℕ → Bytes
root_record now extent size =
    (34 ∷ 0 ∷ both32 (u32 extent))
    ++ (both32 (u32 size) ++ (rec_time now ++ ((0x02 ∷ 0 ∷ 0 ∷ both16 1) ++ (1 ∷ 0 ∷ []))))

-- pathTableRecordLen
unfoldable pub path_table_identifier : Bytes → Bool → Bytes
path_table_identifier name is_root = if is_root then 0 ∷ [] else iso_name name true

unfoldable pub path_table_record_len : Bytes → Bool → ℕ
unfolding path_table_identifier
path_table_record_len name is_root =
    let l = 8 + length (path_table_identifier name is_root) in if is_odd l then suc l else l

-- One record of writePT: little-endian or big-endian.
unfoldable pub path_table_record : Bool → Bytes → Bool → ℕ → ℕ → Bytes
unfolding path_table_identifier
path_table_record le name is_root extent parent_index =
    let id = path_table_identifier name is_root in
    let rec =
      (byte (length id) ∷ 0 ∷ (if le then le32 (u32 extent) else be32 (u32 extent)))
      ++ ((if le
            then byte parent_index ∷ byte (parent_index / 2 ^ 8) ∷ []
            else byte (parent_index / 2 ^ 8) ∷ byte parent_index ∷ [])
          ++ id) in
    rec ++ pad_if (is_odd (length rec))
