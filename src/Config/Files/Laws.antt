-- ===== src/Config/Files/Laws.antt =====
-- internal/config/file.go: the file that `loadFile` returns.
use remnawave_subpage_proxy.Prelude.{
  ◌≡◌, ◌≢◌, ◌⊎◌, refl, sym, inl, inr, Bool, true, false, List, [], ◌∷◌, Bool-cases,
}
use remnawave_subpage_proxy.Prelude.Text.{Bytes}
use remnawave_subpage_proxy.Prelude.Text.Case.{Unicode}
use remnawave_subpage_proxy.Config.File.{File, default_file}
use remnawave_subpage_proxy.Config.Validate.{FileProblem}
use remnawave_subpage_proxy.Config.Validate.Laws.{IsSound, validate-IsSound}
use remnawave_subpage_proxy.Config.Files.{
  FileRead, contents, missing, unreadable, Decoded, clean, at_end, other_error, type_error, Outside,
  loaded, not_read, not_parsed, invalid, judged, split_errors, not_fatal, validated, decoded_file,
  read_result,
}

judged_loaded :
    (f g : File) (skipped kept : List Bytes) (ps : List FileProblem)
    → judged f skipped ps ≡ loaded g kept
    → (ps ≡ []) × (f ≡ g)
judged_loaded f g skipped kept [] h = (refl, cc)
judged_loaded f g skipped kept (p ∷ ps) h = absurd (not_invalid h)
  where
    not_invalid : invalid skipped (p ∷ ps) ≢ loaded g kept
    not_invalid = cc

refused_load : {g : File} → {kept skipped : List Bytes} → not_parsed skipped ≢ loaded g kept
refused_load = cc

unread_load : {g : File} → {kept : List Bytes} → not_read ≢ loaded g kept
unread_load = cc

module _ (u : Unicode) (o : Outside) where
  -- What the file of a configuration is.
  abbrev pub IsFile : File → Type 0
  IsFile g = (g ≡ default_file) ⊎ ((f : File) × IsSound u o.compile o.itoa o.load_location f g)

  validated-IsFile :
      (f g : File) (skipped kept : List Bytes) → validated u o f skipped ≡ loaded g kept → IsFile g
  validated-IsFile f g skipped kept h =
      let (none_found, same) = judged_loaded _ g skipped kept _ h in
      inr (f, rw (sym same) (validate-IsSound u o.compile o.itoa o.load_location f none_found))

  decoded-IsFile :
      (out : File × Decoded) (g : File) (kept : List Bytes)
      → decoded_file u o out ≡ loaded g kept
      → IsFile g
  unfolding decoded_file
  decoded-IsFile (f, clean) g kept h = validated-IsFile f g [] kept h
  decoded-IsFile (f, at_end) g kept h = validated-IsFile f g [] kept h
  decoded-IsFile (f, other_error) g kept h = absurd (refused_load h)
  decoded-IsFile (f, type_error es) g kept h =
      elim (Bool-cases (not_fatal (split_errors o.unknown_section es).1)) [
        | inl ok ↦ validated-IsFile f g (split_errors o.unknown_section es).0 kept (rw ok at h)
        | inr bad ↦ absurd (refused_load (rw bad at h))
      ]

  pub read-IsFile :
      (explicit : Bool) (r : FileRead) (g : File) (kept : List Bytes)
      → read_result u o explicit r ≡ loaded g kept
      → IsFile g
  read-IsFile explicit (contents raw) g kept h = decoded-IsFile (o.decode default_file raw) g kept h
  read-IsFile true missing g kept h = absurd (unread_load h)
  read-IsFile false missing g kept h = inl cc
  read-IsFile explicit unreadable g kept h = absurd (unread_load h)
