-- ===== src/Publish/FileStore/Atomic.antt =====
-- The state file is replaced as a whole or not at all, and what was saved is what is loaded.
use Prim.Native.String.{◌++◌ as concat, len}
use text.Mathlib.TextPositions.{len-append}
use mathlib.Core.Path.{subst}
use ai_model_gateway.Base.{
  ◌≡◌, ◌≢◌, refl, ap, ◌∙◌, String, true, false, Option, none, some, ◌⊎◌, inl, inr, arith,
  Option-cases, str_eq, trim_space, ok, err, Result-cases,
}
use ai_model_gateway.Publish.{PublisherState}
use ai_model_gateway.Publish.Ledger.{current_version}
use ai_model_gateway.Publish.FileStore.{
  ReadReply, contents, not_exist, read_failed, Files, temporary, is_current, load_reply, load_file,
  rename_over, write_over, save_encoded, save_file, check_version,
}

-- what a reply of `os.ReadFile` says of the file
abbrev pub Reported : Option String → ReadReply → Type 0
Reported held (contents text) = held ≡ some text
Reported held not_exist = held ≡ none
Reported held (read_failed e) = Unit

-- The documented behaviour of package `os` that the store relies on: `on_disk` is the text that a
-- file has, and a call changes the file it names only.
pub record FileLaws {W : Type 0} (fs : Files W) (on_disk : W → String → Option String)
    : Type 0 where
  pub mkdir_keeps : (d q : String) (w : W) → on_disk (fs.mkdir_all d w).1 q ≡ on_disk w q
  pub write_keeps :
      (p q text : String) (w : W) → q ≢ p → on_disk (fs.write_file p text w).1 q ≡ on_disk w q
  pub write_stores :
      (p text : String) (w : W)
      → (fs.write_file p text w).0 ≡ none
      → on_disk (fs.write_file p text w).1 p ≡ some text
  pub rename_moves :
      (a b : String) (w : W)
      → (fs.rename a b w).0 ≡ none
      → on_disk (fs.rename a b w).1 b ≡ on_disk w a
  pub rename_fails :
      (a b q : String) (w : W)
      → (fs.rename a b w).0 ≢ none
      → on_disk (fs.rename a b w).1 q ≡ on_disk w q
  pub remove_keeps : (p q : String) (w : W) → q ≢ p → on_disk (fs.remove p w).1 q ≡ on_disk w q
  pub read_reports : (p : String) (w : W) → Reported (on_disk w p) (fs.read_file p w).0

temporary-other : (path : String) → path ≢ temporary path
temporary-other path e =
    let four : len ".tmp" ≡ 4 = refl in omega (arith, ap len e, len-append path ".tmp")

module _ {W : Type 0} (fs : Files W) (path : String) (on_disk : W → String → Option String)
    (laws : FileLaws fs on_disk) where
  -- the file has the text and no error is returned, or an error is and the file is as it was
  abbrev Replaced : Option String → W → Option String × W → Type 0
  Replaced text w after =
      ((after.0 ≡ none) × (on_disk after.1 path ≡ text))
      ⊎ ((after.0 ≢ none) × (on_disk after.1 path ≡ on_disk w path))

  rename_over-Replaced : (w : W) → Replaced (on_disk w (temporary path)) w (rename_over fs path w)
  unfolding rename_over
  rename_over-Replaced w = elim (Option-cases (fs.rename (temporary path) path w).0) [
    | inl e ↦ rw (rename_over, e) (inl (refl, laws.rename_moves (temporary path) path w e))
    | inr (_, e) ↦
        rw (rename_over, e)
          (inr (
            λ h. cc,
            laws.remove_keeps (temporary path) path _ (temporary-other path)
                ∙ laws.rename_fails (temporary path) path path w (λ h. cc),
          ))
  ]

  write_over-Replaced : (text : String) (w : W) → Replaced (some text) w (write_over fs path text w)
  unfolding write_over
  write_over-Replaced text w =
      let w1 = (fs.write_file (temporary path) text w).1 in
      let kept : on_disk w1 path ≡ on_disk w path =
        laws.write_keeps (temporary path) path text w (temporary-other path) in
      elim (Option-cases (fs.write_file (temporary path) text w).0) [
        | inr (_, e) ↦ rw (write_over, e) (inr (λ h. cc, kept))
        | inl e ↦
            rw (write_over, e, ← kept, ← laws.write_stores (temporary path) text w e)
              (rename_over-Replaced w1)
      ]

  -- `Save` under a path that is not blank replaces the file by the encoded state and returns no
  -- error, or it returns an error and the file is as it was.
  pub save_file-atomic :
      (state : PublisherState) (w : W)
      → str_eq (trim_space path) "" ≡ false
      → let after = save_file fs path state w in
        ((after.0 ≡ none)
          × (text : String) × (fs.encode state ≡ ok text)
          × (on_disk after.1 path ≡ some text))
        ⊎ ((after.0 ≢ none) × (on_disk after.1 path ≡ on_disk w path))
  unfolding save_file save_encoded
  save_file-atomic state w named =
      let w1 = (fs.mkdir_all (fs.dir path) w).1 in
      let kept : on_disk w1 path ≡ on_disk w path = laws.mkdir_keeps (fs.dir path) path w in
      elim (Option-cases (fs.mkdir_all (fs.dir path) w).0) [
        | inr (_, e) ↦ rw (save_file, named, e) (inr (λ h. cc, kept))
        | inl e ↦ elim (Result-cases (fs.encode state)) [
          | inr (_, bad) ↦ rw (save_file, named, e, bad) (inr (λ h. cc, kept))
          | inl (text, good) ↦ elim (write_over-Replaced text w1) [
            | inl (fine, held) ↦ rw (save_file, named, e, good) (inl (fine, text, refl, held))
            | inr (wrong, same) ↦ rw (save_file, named, e, good) (inr (wrong, same ∙ kept))
          ]
        ]
      ]

  load_reply-saved :
      (state : PublisherState) (text : String)
      → is_current state.version ≡ true
      → fs.decode text ≡ ok state
      → (reply : ReadReply) → Reported (some text) reply
      → (load_reply fs path reply ≡ ok (some (record state { version = current_version })))
        ⊎ ((e : String) × (load_reply fs path reply ≡ err (concat "read publisher state: " e)))
  unfolding load_reply check_version
  load_reply-saved state text current decoded (contents t) h =
      let same : text ≡ t = cc in inl (rw (← same, decoded) (rw (load_reply, current)))
  load_reply-saved state text current decoded not_exist h = cc
  load_reply-saved state text current decoded (read_failed e) h = inr (e, refl)

  -- A state of the current version that `Save` has saved is what `Load` returns afterwards, unless
  -- reading the file fails.
  pub load_file-save_file :
      (state : PublisherState) (w : W)
      → str_eq (trim_space path) "" ≡ false
      → is_current state.version ≡ true
      → ((s : PublisherState) (text : String) → fs.encode s ≡ ok text → fs.decode text ≡ ok s)
      → (save_file fs path state w).0 ≡ none
      → let reply = (load_file fs path (save_file fs path state w).1).0 in
        (reply ≡ ok (some (record state { version = current_version })))
        ⊎ ((e : String) × (reply ≡ err (concat "read publisher state: " e)))
  unfolding load_file
  load_file-save_file state w named current json saved = elim (save_file-atomic state w named) [
    | inr (wrong, _) ↦ absurd (wrong saved)
    | inl (_, text, encoded, held) ↦
        let w1 = (save_file fs path state w).1 in
        rw (load_file, named)
          (load_reply-saved state text current (json state text encoded) (fs.read_file path w1).0
            (subst (λ o. Reported o (fs.read_file path w1).0) held (laws.read_reports path w1)))
  ]
