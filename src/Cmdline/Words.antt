-- ===== src/Cmdline/Words.antt =====
-- The generated command lines, word by word.
use tacklebox.Common.{
  Bytes, List, [], ◌∷◌, ◌++◌, ◌≡◌, ◌≢◌, refl, sym, ap, ◌∙◌, true, codes, is_space, IsWord,
  IsWord-append, fields, fields-word, IsWord-literal, is_word, append_assoc, replace_byte, ◌==◌,
  inl, inr, Bool-cases,
}
use tacklebox.Cmdline.{live_options}

-- A text whose only white space is the space character, as a volume label is.
abbrev pub IsLabel : Bytes → Type 0
IsLabel [] = Unit
IsLabel (c ∷ s) = (is_space c ≡ (c == b' ')) × IsLabel s

abbrev pub escaped_label : Bytes → Bytes
escaped_label label = replace_byte b' ' (codes "\\x20") label

escaped_label-IsWord : (label : Bytes) → IsLabel label → IsWord (escaped_label label)
unfolding replace_byte
escaped_label-IsWord [] h = tt
escaped_label-IsWord (c ∷ s) h = elim (Bool-cases (c == b' ')) [
  | inl space ↦ rw space (refl, (refl, (refl, (refl, escaped_label-IsWord s h.1))))
  | inr other ↦ rw other ((h.0 ∙ other), escaped_label-IsWord s h.1)
]

-- A word in two parts, the first a literal, at the front of a line.
pub fields-two :
    (literal w rest : Bytes) {words : List Bytes}
    → literal ≢ []
    → is_word literal ≡ true
    → IsWord w
    → fields rest ≡ words
    → fields (literal ++ (w ++ (b' ' ∷ rest))) ≡ (literal ++ w) ∷ words
fields-two [] w rest n hv hw hr = absurd (n refl)
fields-two (c ∷ v) w rest n hv hw hr =
    ap fields (sym (append_assoc (c ∷ v) w (b' ' ∷ rest)))
    ∙ fields-word ((c ∷ v) ++ w) rest (λ e. cc e)
        (IsWord-append (c ∷ v) w (IsWord-literal (c ∷ v) hv) hw)
    ∙ ap (λ t. ((c ∷ v) ++ w) ∷ t) hr

-- A literal word at the front of a line.
fields-literal :
    (literal rest : Bytes) {words : List Bytes}
    → literal ≢ []
    → is_word literal ≡ true
    → fields rest ≡ words
    → fields (literal ++ (b' ' ∷ rest)) ≡ literal ∷ words
fields-literal literal rest n hv hr =
    fields-word literal rest n (IsWord-literal literal hv) ∙ ap (λ t. literal ∷ t) hr

abbrev pub live_words : Bytes → Bytes → Bytes → List Bytes → List Bytes
live_words env_id label squashimg more =
    (codes "root=tbox:CDLABEL=" ++ escaped_label label)
    ∷ (codes "tacklebox.live.squashimg=" ++ squashimg)
    ∷ codes "tacklebox.live.overlay.size=8192"
    ∷ codes "enforcing=0"
    ∷ (codes "tacklebox.env=" ++ env_id)
    ∷ more

-- The words of a live entry's options; `tail` is what follows the environment's id.
pub fields-live_options :
    (env_id label squashimg extra tail : Bytes)
    → IsWord env_id
    → IsLabel label
    → IsWord squashimg
    → extra ++ codes " console=ttyS0,115200n8" ≡ b' ' ∷ tail
    → fields (live_options env_id label squashimg extra)
      ≡ live_words env_id label squashimg (fields tail)
unfolding live_options
fields-live_options env_id label squashimg extra tail he hl hs ht =
    fields-two (codes "root=tbox:CDLABEL=") (escaped_label label) _ (λ e. cc e) refl
      (escaped_label-IsWord label hl)
      (fields-two (codes "tacklebox.live.squashimg=") squashimg _ (λ e. cc e) refl hs
        (fields-literal (codes "tacklebox.live.overlay.size=8192") _ (λ e. cc e) refl
          (fields-literal (codes "enforcing=0") _ (λ e. cc e) refl
            (ap (λ t. fields (codes "tacklebox.env=" ++ (env_id ++ t))) ht
              ∙ fields-two (codes "tacklebox.env=") env_id tail (λ e. cc e) refl he refl))))
