-- ===== src/Cpio/Log/Installs.antt =====
-- The installs of the overlay of internal/purefs/initrdoverlay.go, as they extend the log.
use tacklebox.Common.{
  ℕ, suc, ◌+◌, ◌^◌, ◌<◌, Bytes, List, [], ◌∷◌, ◌++◌, ◌≡◌, refl, sym, ap, subst, ◌∙◌, Bool, true,
  false, ◌&&◌, Option, some, none, arith, length, append_assoc, reverse, ltb, inl, inr, map,
  Option-cases,
}
use mathlib.Core.List.{reverse-append}
use tacklebox.Cpio.{FilePath, CpioWriter, Install, add_copies, add_installs, add_regular}
use tacklebox.Cpio.Log.{Member, files, Describes}
use tacklebox.Cpio.Log.Steps.{Grown, is_clear, unchanged, add_regular-Grown}

pub then_Grown :
    {a b : List Member} {m n : ℕ} {old : List Member} {v w : CpioWriter}
    → (g : Grown a m [] old v) → Grown b n [] g.log w
    → Grown (b ++ a) (m + n) [] old w
then_Grown {a} {b} {m} {n} {old} g r = record {
  log = r.log;
  describes = r.describes;
  new_files = r.new_files ∙ ap (λ ms. b ++ ms) g.new_files ∙ sym (append_assoc b a (files old));
  few = omega (arith, r.few, g.few);
  has_made = refl;
}

-- The copies of a script, in their order.
abbrev copies_of : List FilePath → ℕ → Bytes → List Member
copies_of ds perm body = map (λ d. record { path = d; mode = 0o100000 + perm; body = body }) ds

-- At most so many members: every copy and the directories above it.
abbrev pub cost_of : List FilePath → ℕ
cost_of [] = 0
cost_of (d ∷ ds) = suc (length d) + cost_of ds

abbrev are_clear : List FilePath → Bool
are_clear [] = true
are_clear (d ∷ ds) = is_clear d && are_clear ds

add_copies-Grown :
    (ds : List FilePath) (perm : ℕ) (body : Bytes) (log : List Member) (w : CpioWriter)
    → Describes log w
    → are_clear ds ≡ true
    → perm < 0o10000
    → length body < 2 ^ 32
    → Grown (reverse (copies_of ds perm body)) (cost_of ds) [] log (add_copies ds perm body w)
unfolding add_copies
add_copies-Grown [] perm body log w d hc hp hb = unchanged [] 0 log w d refl
add_copies-Grown (p ∷ ds) perm body log w d hc hp hb =
    let hs : (is_clear p ≡ true) × (are_clear ds ≡ true) = ground (arith, hc) in
    let g = add_regular-Grown p perm body log w d hs.0 hp hb in
    let r =
      add_copies-Grown ds perm body g.log (add_regular p perm body w) g.describes hs.1 hp hb in
    subst
      (λ ms.
        Grown ms (cost_of (p ∷ ds)) [] log (add_copies ds perm body (add_regular p perm body w)))
      (sym (reverse-append (copies_of (p ∷ []) perm body) (copies_of ds perm body)))
      (then_Grown g r)

abbrev with_script : {A : Type 0} → A → (Bytes → A) → Option Bytes → A
with_script missing f none = missing
with_script missing f (some body) = f body

-- What a list of installs puts there, in its order.
abbrev pub installed : (Bytes → Option Bytes) → List Install → List Member
installed read_file [] = []
installed read_file (i ∷ is) =
    with_script [] (λ body. copies_of i.targets i.perm body ++ installed read_file is)
      (read_file i.script)

-- Every script is there.
abbrev pub has_all : (Bytes → Option Bytes) → List Install → Bool
has_all read_file [] = true
has_all read_file (i ∷ is) = with_script false (λ body. has_all read_file is) (read_file i.script)

abbrev pub most_of : List Install → ℕ
most_of [] = 0
most_of (i ∷ is) = cost_of i.targets + most_of is

abbrev are_sound : List Install → Bool
are_sound [] = true
are_sound (i ∷ is) = are_clear i.targets && ltb i.perm 0o10000 && are_sound is

abbrev pub Installed :
    (Bytes → Option Bytes) → List Install → List Member → Option CpioWriter → Type 0
Installed read_file is old none = has_all read_file is ≡ false
Installed read_file is old (some w) =
    (has_all read_file is ≡ true) × Grown (reverse (installed read_file is)) (most_of is) [] old w

-- What is written behind an install, counted from before it.
carried :
    (read_file : Bytes → Option Bytes) (i : Install) (is : List Install) (body : Bytes)
    (old : List Member) (v : CpioWriter) (o : Option CpioWriter)
    → (e : read_file i.script ≡ some body)
    → (g : Grown (reverse (copies_of i.targets i.perm body)) (cost_of i.targets) [] old v)
    → Installed read_file is g.log o
    → Installed read_file (i ∷ is) old o
carried read_file i is body old v none e g h =
    ap (with_script false (λ b. has_all read_file is)) e ∙ h
carried read_file i is body old v (some w) e g (ha, r) =
    let first = copies_of i.targets i.perm body in
    let whole : installed read_file (i ∷ is) ≡ first ++ installed read_file is =
      ap (with_script [] (λ b. copies_of i.targets i.perm b ++ installed read_file is)) e in
    (
      ap (with_script false (λ b. has_all read_file is)) e ∙ ha,
      subst (λ ms. Grown ms (most_of (i ∷ is)) [] old w)
          (sym (ap reverse whole ∙ reverse-append first (installed read_file is))) (then_Grown g r),
    )

add_installs-found :
    (read_file : Bytes → Option Bytes) (i : Install) (is : List Install) (w : CpioWriter)
    (o : Option Bytes)
    → read_file i.script ≡ o
    → add_installs read_file (i ∷ is) w
      ≡ with_script none (λ body. add_installs read_file is (add_copies i.targets i.perm body w)) o
unfolding add_installs
add_installs-found read_file i is w o e = rw (sym e) refl

-- Names of scripts with bodies that a header holds.
abbrev pub AreSmall : (Bytes → Option Bytes) → Type 0
AreSmall read_file = (name body : Bytes) → read_file name ≡ some body → length body < 2 ^ 32

pub add_installs-Installed :
    (read_file : Bytes → Option Bytes) (is : List Install) (log : List Member) (w : CpioWriter)
    → AreSmall read_file
    → Describes log w
    → are_sound is ≡ true
    → Installed read_file is log (add_installs read_file is w)
unfolding add_installs
add_installs-Installed read_file [] log w hs d h = (refl, unchanged [] 0 log w d refl)
add_installs-Installed read_file (i ∷ is) log w hs d h = elim (Option-cases (read_file i.script)) [
  | inl e ↦
      subst (Installed read_file (i ∷ is) log) (sym (add_installs-found read_file i is w none e))
        (ap (with_script false (λ b. has_all read_file is)) e)
  | inr (body, e) ↦
      let sound : (are_clear i.targets ≡ true) × (i.perm < 0o10000) × (are_sound is ≡ true) =
        ground (arith, h) in
      let g = add_copies-Grown i.targets i.perm body log w d sound.0 sound.1 (hs i.script body e) in
      let v = add_copies i.targets i.perm body w in
      subst (Installed read_file (i ∷ is) log)
        (sym (add_installs-found read_file i is w (some body) e))
        (carried read_file i is body log v (add_installs read_file is v) e g
          (add_installs-Installed read_file is g.log v hs g.describes sound.2))
]
