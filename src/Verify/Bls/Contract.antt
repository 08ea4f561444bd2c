-- ===== src/Verify/Bls/Contract.antt =====
-- The readers of internal/verify/bls.go on the command lines of internal/kernelcmdline.
use tacklebox.Common.{
  ℕ, Bytes, List, [], ◌∷◌, ◌++◌, ◌≡◌, ◌≢◌, refl, sym, ap, ◌∙◌, Bool, true, false, codes, IsWord,
  IsWord-append, fields, fields-word_end, fields-append, IsWord-literal, is_word, append_assoc,
  append-nil, Option-cases, inl, inr, if◌then◌else◌, cut_prefix, trim_space,
}
use tacklebox.Cmdline.{
  append_kargs, add_karg, live_options, live, live_combined, live_delta, combined_squash_name,
  base_squash_name,
}
use tacklebox.Cmdline.Words.{IsLabel, live_words, fields-two, fields-live_options}
use tacklebox.Verify.Bls.{option_in, bls_option, or_else, bls_squashimg}

or_else-append : (s : Bytes) (c : ℕ) (t d : Bytes) → or_else (s ++ c ∷ t) d ≡ s ++ c ∷ t
or_else-append [] c t d = refl
or_else-append (b ∷ s) c t d = refl

console_word : fields (codes "console=ttyS0,115200n8") ≡ codes "console=ttyS0,115200n8" ∷ []
console_word =
    fields-word_end (codes "console=ttyS0,115200n8") (λ e. cc e)
      (IsWord-literal (codes "console=ttyS0,115200n8") refl)

-- A line of options and the fields that it has.
module _ (options key : Bytes) (words : List Bytes) (split : fields options ≡ words) where
  bls_option-words : bls_option options key ≡ option_in words (key ++ codes "=")
  unfolding bls_option
  bls_option-words = ap (λ t. option_in t (key ++ codes "=")) split

bls_squashimg-words :
    (options : Bytes) (words : List Bytes)
    → fields options ≡ words
    → bls_squashimg options
      ≡ or_else
          (option_in words (codes "tacklebox.live.squashimg="))
          (bls_option options (codes "rd.live.squashimg"))
unfolding bls_squashimg
bls_squashimg-words options words split =
    ap (λ t. or_else t (bls_option options (codes "rd.live.squashimg")))
      (bls_option-words options (codes "tacklebox.live.squashimg") words split)

module _ (env_id label : Bytes) (word : IsWord env_id) (named : IsLabel label) where
  suffixed : (s : Bytes) → is_word s ≡ true → IsWord (env_id ++ s)
  suffixed s h = IsWord-append env_id s word (IsWord-literal s h)

  -- The words of the three forms of live entries.
  fields-live :
      fields (live env_id label)
      ≡ live_words env_id label
          (env_id ++ codes ".rootfs.sfs")
          (codes "console=ttyS0,115200n8" ∷ [])
  unfolding live
  fields-live =
      fields-live_options env_id label _ [] (codes "console=ttyS0,115200n8") word named
        (suffixed (codes ".rootfs.sfs") refl) refl
      ∙ ap (live_words env_id label (env_id ++ codes ".rootfs.sfs")) console_word

  extra_fields :
      (squashimg literal w : Bytes)
      → literal ≢ []
      → is_word literal ≡ true
      → IsWord squashimg
      → IsWord w
      → fields (live_options env_id label squashimg (b' ' ∷ (literal ++ w)))
        ≡ live_words env_id label squashimg ((literal ++ w) ∷ codes "console=ttyS0,115200n8" ∷ [])
  extra_fields squashimg literal w n hl hs hw =
      fields-live_options env_id label squashimg (b' ' ∷ (literal ++ w))
        (literal ++ (w ++ codes " console=ttyS0,115200n8")) word named hs
        (ap (λ t. b' ' ∷ t) (append_assoc literal w (codes " console=ttyS0,115200n8")))
      ∙ ap (live_words env_id label squashimg)
          (fields-two literal w (codes "console=ttyS0,115200n8") n hl hw console_word)

  -- A per-environment entry names the environment's own squashfs, and neither a subtree nor a delta,
  -- as the verifier reads it. Conditions: the environment's id is a word, and the label has no white
  -- space but blanks.
  pub verify-live :
      (bls_squashimg (live env_id label) ≡ env_id ++ codes ".rootfs.sfs")
      × (bls_option (live env_id label) (codes "tacklebox.root") ≡ [])
      × (bls_option (live env_id label) (codes "tacklebox.live.delta") ≡ [])
  unfolding option_in cut_prefix
  verify-live = (
    bls_squashimg-words _ _ fields-live ∙ or_else-append env_id b'.' (codes "rootfs.sfs") _,
    bls_option-words _ (codes "tacklebox.root") _ fields-live,
    bls_option-words _ (codes "tacklebox.live.delta") _ fields-live,
  )

  -- An entry of a combined image names the shared squashfs and the environment's subtree in it, and no
  -- delta, as the verifier reads it. Conditions: the environment's id is a word, and the label has no
  -- white space but blanks.
  pub verify-live_combined :
      (bls_squashimg (live_combined env_id label) ≡ combined_squash_name)
      × (bls_option (live_combined env_id label) (codes "tacklebox.root") ≡ env_id)
      × (bls_option (live_combined env_id label) (codes "tacklebox.live.delta") ≡ [])
  unfolding option_in cut_prefix live_combined
  verify-live_combined =
      let words =
        extra_fields combined_squash_name (codes "tacklebox.root=") env_id (λ e. cc e) refl
          (IsWord-literal combined_squash_name refl) word in
      (
        bls_squashimg-words _ _ words,
        bls_option-words _ (codes "tacklebox.root") _ words,
        bls_option-words _ (codes "tacklebox.live.delta") _ words,
      )

  -- An entry of the delta layout names the base squashfs; every environment but the base names its
  -- own delta, and none a subtree, as the verifier reads it. Conditions: the environment's id is a
  -- word, and the label has no white space but blanks.
  pub verify-live_delta :
      (is_base : Bool)
      → (bls_squashimg (live_delta env_id label is_base) ≡ base_squash_name)
        × (bls_option (live_delta env_id label is_base) (codes "tacklebox.root") ≡ [])
        × (bls_option (live_delta env_id label is_base) (codes "tacklebox.live.delta")
            ≡ (if is_base then [] else env_id ++ codes ".delta.sfs"))
  unfolding option_in cut_prefix live_delta
  verify-live_delta true =
      let words =
        fields-live_options env_id label base_squash_name [] (codes "console=ttyS0,115200n8") word
          named (IsWord-literal base_squash_name refl) refl
        ∙ ap (live_words env_id label base_squash_name) console_word in
      (
        bls_squashimg-words _ _ words,
        bls_option-words _ (codes "tacklebox.root") _ words,
        bls_option-words _ (codes "tacklebox.live.delta") _ words,
      )
  verify-live_delta false =
      let words =
        extra_fields base_squash_name (codes "tacklebox.live.delta=") (env_id ++ codes ".delta.sfs")
          (λ e. cc e) refl (IsWord-literal base_squash_name refl)
          (suffixed (codes ".delta.sfs") refl) in
      (
        bls_squashimg-words _ _ words,
        bls_option-words _ (codes "tacklebox.root") _ words,
        bls_option-words _ (codes "tacklebox.live.delta") _ words,
      )

option_in-append :
    (xs ys : List Bytes) (prefix : Bytes)
    → option_in xs prefix ≢ []
    → option_in (xs ++ ys) prefix ≡ option_in xs prefix
unfolding option_in
option_in-append [] ys prefix n = absurd (n refl)
option_in-append (x ∷ xs) ys prefix n = elim (Option-cases (cut_prefix x prefix)) [
  | inr (v, q) ↦ rw (q, option_in)
  | inl q ↦ rw (q, option_in) (option_in-append xs ys prefix (λ e. n (rw (q, option_in) e)))
]

fields-add_karg :
    (options karg : Bytes)
    → (more : List Bytes) × (fields (add_karg options karg) ≡ fields options ++ more)
fields-add_karg options [] = ([], sym (append-nil (fields options)))
fields-add_karg options (c ∷ karg) = (fields (c ∷ karg), fields-append options (c ∷ karg))

fields-append_kargs :
    (options : Bytes) (kargs : List Bytes)
    → (more : List Bytes) × (fields (append_kargs options kargs) ≡ fields options ++ more)
unfolding append_kargs
fields-append_kargs options [] = ([], sym (append-nil (fields options)))
fields-append_kargs options (k ∷ ks) =
    let (first, p) = fields-add_karg options (trim_space k) in
    let (later, q) = fields-append_kargs (add_karg options (trim_space k)) ks in
    (first ++ later, q ∙ ap (λ t. t ++ later) p ∙ append_assoc (fields options) first later)

-- Arguments of the recipe that are appended to an entry's options never change the value of a key to
-- which the options give a value that is not empty.
pub bls_option-append_kargs :
    (options key : Bytes) (kargs : List Bytes)
    → bls_option options key ≢ []
    → bls_option (append_kargs options kargs) key ≡ bls_option options key
unfolding bls_option
bls_option-append_kargs options key kargs n =
    let (more, p) = fields-append_kargs options kargs in
    ap (λ t. option_in t (key ++ codes "=")) p ∙ option_in-append (fields options) more _ n
