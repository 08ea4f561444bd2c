-- ===== src/Kargs/Files.antt =====
-- The list of files that `Parse` of internal/kargsd/kargsd.go goes through.
use tacklebox.Common.{
  before, Among, here, there, Among-swap, Bytes, List, [], ◌∷◌, ◌≡◌, inl, inr, ap, ◌∙◌, true,
  Bool-cases,
}
use tacklebox.Kargs.{is_config_name, insert, config_files}

insert-Among :
    (f g : Bytes × Bytes) (gs : List (Bytes × Bytes)) → Among f (g ∷ gs) → Among f (insert g gs)
unfolding insert
insert-Among f g [] h = h
insert-Among f g (g' ∷ gs) h = elim (Bool-cases (before g.0 g'.0)) [
  | inl y ↦ rw y h
  | inr n ↦
      rw n (elim (Among-swap h) [ here e ↦ here e | there h' ↦ there (insert-Among f g gs h') ])
]

pub config_files-Among :
    (f : Bytes × Bytes) (fs : List (Bytes × Bytes))
    → is_config_name f.0 ≡ true
    → Among f fs
    → Among f (config_files fs)
unfolding config_files
config_files-Among f [] c h = h
config_files-Among f (g ∷ fs) c (here e) =
    rw (ap (λ t. is_config_name t.0) e ∙ c) (insert-Among f g _ (here e))
config_files-Among f (g ∷ fs) c (there h) = elim (Bool-cases (is_config_name g.0)) [
  | inl y ↦ rw y (insert-Among f g _ (there (config_files-Among f fs c h)))
  | inr n ↦ rw n (config_files-Among f fs c h)
]
