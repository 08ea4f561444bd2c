-- ===== src/Oci/Rootfs/Paths.antt =====
-- `splitClean`: the components of a cleaned path, and what they can be.
use tacklebox.Common.{
  Bytes, List, [], ◌∷◌, ◌++◌, ◌≡◌, ◌≢◌, false, ◌||◌, arith, codes, ◌==◌, bytes_eq, bytes_eq_iff,
  if◌then◌else◌, Bool-cases, inl, inr,
}

-- strings.Split(s, "/"), `cur` being the component so far.
unfoldable pub split_slash : Bytes → Bytes → List Bytes
split_slash cur [] = cur ∷ []
split_slash cur (c ∷ s) =
    if c == b'/' then cur ∷ split_slash [] s else split_slash (cur ++ c ∷ []) s

abbrev pub drop_last : List Bytes → List Bytes
drop_last [] = []
drop_last (p ∷ []) = []
drop_last (p ∷ q ∷ r) = p ∷ drop_last (q ∷ r)

-- path.Clean on a rooted path, component by component: `out` is what is kept so far. An empty
-- component and "." are dropped; ".." drops the component before it, and nothing at the root.
unfoldable clean_onto : List Bytes → List Bytes → List Bytes
clean_onto out [] = out
clean_onto out (p ∷ ps) =
    clean_onto
      (if bytes_eq p [] || bytes_eq p (codes ".")
        then out
        else if bytes_eq p (codes "..")
        then drop_last out
        else out ++ p ∷ [])
      ps

-- splitClean; the empty list is Go's nil, for the root.
unfoldable pub split_clean : Bytes → List Bytes
unfolding split_slash clean_onto
split_clean name = clean_onto [] (split_slash [] name)

-- A component that names an entry of its directory: it is not empty, "." or "..", and holds no slash.
abbrev pub NoSlash : Bytes → Type 0
NoSlash [] = Unit
NoSlash (c ∷ s) = (c ≢ b'/') × NoSlash s

pub record IsComponent (p : Bytes) : Type 0 where
  pub not_empty : p ≢ []
  pub not_dot : p ≢ codes "."
  pub not_parent : p ≢ codes ".."
  no_slash : NoSlash p

abbrev pub AllComponents : List Bytes → Type 0
AllComponents [] = Unit
AllComponents (p ∷ ps) = IsComponent p × AllComponents ps

abbrev pub AllNoSlash : List Bytes → Type 0
AllNoSlash [] = Unit
AllNoSlash (p ∷ ps) = NoSlash p × AllNoSlash ps

NoSlash-append : (s t : Bytes) → NoSlash s → NoSlash t → NoSlash (s ++ t)
NoSlash-append [] t h k = k
NoSlash-append (c ∷ s) t h k = (h.0, NoSlash-append s t h.1 k)

pub split_slash-AllNoSlash : (cur s : Bytes) → NoSlash cur → AllNoSlash (split_slash cur s)
unfolding split_slash
split_slash-AllNoSlash cur [] h = (h, tt)
split_slash-AllNoSlash cur (c ∷ s) h = elim (Bool-cases (c == b'/')) [
  | inl slash ↦ rw slash (h, split_slash-AllNoSlash [] s tt)
  | inr other ↦
      rw other (
        split_slash-AllNoSlash (cur ++ c ∷ []) s (NoSlash-append cur (c ∷ []) h (ground arith, tt)))
]

AllComponents-append :
    (ps : List Bytes) (p : Bytes) → AllComponents ps → IsComponent p → AllComponents (ps ++ p ∷ [])
AllComponents-append [] p h k = (k, tt)
AllComponents-append (q ∷ ps) p h k = (h.0, AllComponents-append ps p h.1 k)

AllComponents-drop_last : (ps : List Bytes) → AllComponents ps → AllComponents (drop_last ps)
AllComponents-drop_last [] h = tt
AllComponents-drop_last (p ∷ []) h = tt
AllComponents-drop_last (p ∷ q ∷ r) h = (h.0, AllComponents-drop_last (q ∷ r) h.1)

pub component :
    (p : Bytes)
    → (bytes_eq p [] || bytes_eq p (codes ".")) ≡ false
    → bytes_eq p (codes "..") ≡ false
    → NoSlash p
    → IsComponent p
component p kept name slash = record {
  not_empty = λ e. ground (arith, bytes_eq_iff p []);
  not_dot = λ e. ground (arith, bytes_eq_iff p (codes "."));
  not_parent = λ e. ground (arith, bytes_eq_iff p (codes ".."));
  no_slash = slash;
}

clean_onto-AllComponents :
    (out ps : List Bytes) → AllComponents out → AllNoSlash ps → AllComponents (clean_onto out ps)
unfolding clean_onto
clean_onto-AllComponents out [] h k = h
clean_onto-AllComponents out (p ∷ ps) h k =
    elim (Bool-cases (bytes_eq p [] || bytes_eq p (codes "."))) [
      | inl dropped ↦ rw dropped (clean_onto-AllComponents out ps h k.1)
      | inr kept ↦ elim (Bool-cases (bytes_eq p (codes ".."))) [
        | inl up ↦
            rw (kept, up)
              (clean_onto-AllComponents (drop_last out) ps (AllComponents-drop_last out h) k.1)
        | inr name ↦
            rw (kept, name)
              (clean_onto-AllComponents (out ++ p ∷ []) ps
                (AllComponents-append out p h (component p kept name k.0)) k.1)
      ]
    ]

-- No path that a layer names leads out of the root: every component of the cleaned path is a proper
-- name (neither empty, "." nor "..", and without a slash), whatever dots and slashes the name holds.
pub split_clean-AllComponents : (name : Bytes) → AllComponents (split_clean name)
unfolding split_clean
split_clean-AllComponents name =
    clean_onto-AllComponents [] (split_slash [] name) tt (split_slash-AllNoSlash [] name tt)
