-- ===== src/Iso/Records/Length.antt =====
-- The lengths of the records of internal/purefs/iso9660.go.
use tacklebox.Common.{
  ℕ, zero, suc, ◌+◌, ◌-◌, ◌≤◌, Bytes, [], ◌∷◌, ◌++◌, ◌≡◌, refl, sym, ap, ◌∙◌, Bool, true, false,
  arith, map, length, length-append, take, drop, if◌then◌else◌,
}
use tacklebox.Iso.Numbers.{byte, both32, both16, le32, be32}
use tacklebox.Iso.Records.{
  Time, Dot, regular, rec_time, iso_byte, versioned, last_thirty, iso_name, system_use, record_tail,
  dir_record, path_table_record, path_table_record_len, path_table_identifier, pad_if, is_odd,
}

-- The length of a record is that of its tail and 33; neither place nor size nor flags matter.
pub length-dir_record :
    (now : Time) (name : Bytes) (extent size : ℕ) (is_dir : Bool) (dot : Dot) (multi : Bool)
    → length (dir_record now name extent size is_dir dot multi)
      ≡ 33 + length (record_tail name is_dir dot)
unfolding dir_record both32 le32 be32 rec_time both16
length-dir_record now name extent size is_dir dot multi = omega arith

length-padded :
    (s : Bytes) (b : Bool) → length (s ++ pad_if b) ≡ (if b then suc (length s) else length s)
length-padded s true = omega (arith, length-append s (0 ∷ []))
length-padded s false = omega (arith, length-append s [])

pub length-path_table_record :
    (le : Bool) (name : Bytes) (is_root : Bool) (extent parent_index : ℕ)
    → length (path_table_record le name is_root extent parent_index)
      ≡ path_table_record_len name is_root
unfolding path_table_record path_table_record_len le32 be32
length-path_table_record true name is_root extent parent_index =
    let id = path_table_identifier name is_root in
    ground (arith, length-padded id (is_odd (8 + length id)))
length-path_table_record false name is_root extent parent_index =
    let id = path_table_identifier name is_root in
    ground (arith, length-padded id (is_odd (8 + length id)))

length-drop : (n : ℕ) (s : Bytes) → length (drop n s) ≡ length s - n
length-drop zero s = omega arith
length-drop (suc n) [] = omega arith
length-drop (suc n) (c ∷ s) = omega (arith, length-drop n s)

length-last_thirty : (s : Bytes) → length (last_thirty s) ≤ 30
length-last_thirty s = ground (arith, length-drop (length s - 30) s)

-- An identifier has at most thirty bytes.
length-iso_name : (name : Bytes) (is_dir : Bool) → length (iso_name name is_dir) ≤ 30
unfolding iso_name
length-iso_name name is_dir = length-last_thirty (versioned is_dir (map iso_byte name))

length-pad_if : (b : Bool) → length (pad_if b) ≤ 1
length-pad_if true = omega arith
length-pad_if false = omega arith

length-system_use :
    (name : Bytes) (is_dir : Bool) → length (system_use name is_dir regular) ≡ 46 + length name
unfolding system_use both32 le32 be32
length-system_use name is_dir = omega arith

length-record_tail :
    (name : Bytes) (is_dir : Bool) → length (record_tail name is_dir regular) ≤ 78 + length name
unfolding record_tail
length-record_tail name is_dir =
    let id = iso_name name is_dir in
    let su = system_use name is_dir regular in
    let pad = pad_if (is_odd (33 + length id)) in
    let last = pad_if (is_odd (33 + length id + length pad + length su)) in
    omega (
      arith,
      length-append (id ++ pad) (su ++ last),
      length-append id pad,
      length-append su last,
      length-iso_name name is_dir,
      length-system_use name is_dir,
      length-pad_if (is_odd (33 + length id)),
      length-pad_if (is_odd (33 + length id + length pad + length su)),
    )

take-dir_record :
    (now : Time) (name : Bytes) (extent size : ℕ) (is_dir multi : Bool)
    → take 1 (dir_record now name extent size is_dir regular multi)
      ≡ byte (33 + length (record_tail name is_dir regular)) ∷ []
unfolding dir_record
take-dir_record now name extent size is_dir multi = refl

-- The first byte of a record is its length, when the name of the entry has at most 144 bytes; with up
-- to 111 bytes beside the name, that is what one byte can say.
pub take-dir_record-length :
    (now : Time) (name : Bytes) (extent size : ℕ) (is_dir multi : Bool)
    → length name ≤ 144
    → take 1 (dir_record now name extent size is_dir regular multi)
      ≡ length (dir_record now name extent size is_dir regular multi) ∷ []
take-dir_record-length now name extent size is_dir multi h =
    let n = length (record_tail name is_dir regular) in
    let small : byte (33 + n) ≡ 33 + n = omega (arith, h, length-record_tail name is_dir) in
    take-dir_record now name extent size is_dir multi
    ∙ ap (λ b. b ∷ []) (small ∙ sym (length-dir_record now name extent size is_dir regular multi))
