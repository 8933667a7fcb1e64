-- ===== src/Backup/Restore/Copies.antt =====
-- The two loops of `restore`: what the first has checked, and the files that the second copies.
use ito.Prelude.{
  ℕ, suc, ◌++◌, ◌≡◌, ◌≢◌, refl, sym, ap, ◌∙◌, true, ◌||◌, Option, none, some, List, [], ◌∷◌, Result,
  ok, err, if◌then◌else◌, ◌⊎◌, beq_ne, Bool-cases, and-eq-true, any, inl, inr, All, arith,
}
use ito.Prelude.Int.{ℤ, eqb_ℤ_iff}
use ito.Prelude.Dict.{lookup, insert, erase, lookup-insert, lookup-erase, lookup-insert_ne}
use ito.Prelude.Text.{Text, codes, beq, beq_iff, text_eq}
use ito.Backup.{
  Parts, BackupError, unsafe_path, parts_of, is_absolute, integrity_failure, os_error,
  safe_relative,
}
use ito.Backup.Restore.{
  parts_eq, same_path, same_path_iff, Entry, temporary_of, Files, is_intact, source_at,
  check_entries, replaced, copy_entries, Attempt, completes, stops, left_behind,
}

pub clash {ℓ} :
    {A : Type ℓ} {e : BackupError} {a : A} → ◌≡◌ {A = Result BackupError A} (err e) (ok a) → ⊥
clash same = absurd cc

safe-cases :
    (value : Text)
    → (safe_relative value ≡ err (unsafe_path value)) ⊎ (safe_relative value ≡ ok (parts_of value))
unfolding safe_relative
safe-cases value =
    elim (Bool-cases (is_absolute value || any (beq (codes "..")) (parts_of value))) [
      | inl e ↦ inl (rw e refl)
      | inr e ↦ inr (rw e refl)
    ]

pub attempt-cases :
    {Content : Type 0} (attempt : Attempt Content)
    → (attempt ≡ completes) ⊎ ((content : Option Content) × (attempt ≡ stops content))
attempt-cases completes = inl refl
attempt-cases (stops content) = inr (content, refl)

abbrev pub target : Entry → Parts
target entry = parts_of entry.path

-- No entry is the temporary file of a later one.
abbrev pub AreSeparate : List Entry → Type 0
AreSeparate [] = Unit
AreSeparate (entry ∷ entries) =
    All (λ later. target entry ≢ temporary_of (target later)) entries × AreSeparate entries

-- A path that is neither a target nor a temporary file stays as it was.
abbrev pub IsUntouched : Parts → Entry → Type 0
IsUntouched path entry = (path ≢ target entry) × (path ≢ temporary_of (target entry))

-- The entries whose rounds complete before the first that does not.
unfoldable pub completed : {Content : Type 0} → (ℕ → Attempt Content) → List Entry → List Entry
completed attempts [] = []
completed attempts (entry ∷ entries) = elim (attempts 0) [
  | stops content ↦ []
  | completes ↦ entry ∷ completed (λ i. attempts (suc i)) entries
]

-- How the second loop ends: all entries are completed, or it stops at one that is not.
abbrev pub IsEnded : List Entry → List Entry → Result BackupError (Unit {0}) → Type 0
IsEnded done entries result =
    ((result ≡ ok tt) × (done ≡ entries))
    ⊎ ((stopped : Entry) × (later : List Entry) × (entries ≡ done ++ (stopped ∷ later))
        × (result ≡ err (os_error (target stopped))))

IsEnded-cons :
    (entry : Entry) (done entries : List Entry) (result : Result BackupError (Unit {0}))
    → IsEnded done entries result
    → IsEnded (entry ∷ done) (entry ∷ entries) result
IsEnded-cons entry done entries result (inl (is, all)) = inl (is, ap (◌∷◌ entry) all)
IsEnded-cons entry done entries result (inr (stopped, later, parts, is)) =
    inr (stopped, later, ap (◌∷◌ entry) parts, is)

module _ {Content : Type 0} (size_of : Content → ℤ) (digest : Content → Text) where
  -- What the first loop has seen of an entry.
  abbrev pub IsChecked : Files Content → Entry → Type 0
  IsChecked staging entry =
      (safe_relative entry.path ≡ ok (target entry))
      × ((content : Content) × (source_at staging (target entry) ≡ some content)
          × (size_of content ≡ entry.size)
          × (digest content ≡ entry.sha256))

  is_intact-cases :
      (entry : Entry) (source : Option Content)
      → is_intact size_of digest entry source ≡ true
      → (content : Content) × (source ≡ some content)
        × (size_of content ≡ entry.size)
        × (digest content ≡ entry.sha256)
  is_intact-cases entry none h = absurd cc
  is_intact-cases entry (some content) h =
      let (size, hash) = and-eq-true _ _ h in
      (
        content,
        refl,
        (eqb_ℤ_iff (size_of content) entry.size).0 size,
        (beq_iff (digest content) entry.sha256).0 hash,
      )

  pub check_entries-IsChecked :
      (staging : Files Content) (entries : List Entry)
      → check_entries size_of digest staging entries ≡ ok tt
      → All (IsChecked staging) entries
  unfolding check_entries
  check_entries-IsChecked staging [] h = tt
  check_entries-IsChecked staging (entry ∷ entries) h = elim (safe-cases entry.path) [
    | inl e ↦ let clash : err (unsafe_path entry.path) ≡ ok tt = rw e at h in absurd cc
    | inr e ↦
        elim (Bool-cases (is_intact size_of digest entry (source_at staging (target entry)))) [
          | inl i ↦
              let rest : check_entries size_of digest staging entries ≡ ok tt = rw (e, i) at h in
              ((e, is_intact-cases entry _ i), check_entries-IsChecked staging entries rest)
          | inr i ↦
              let clash : err (integrity_failure (target entry)) ≡ ok tt = rw (e, i) at h in
              absurd cc
        ]
  ]

  pub copy_entries-IsEnded :
      (attempts : ℕ → Attempt Content) (staging : Files Content) (entries : List Entry)
      (destination : Files Content)
      → All (IsChecked staging) entries
      → IsEnded
          (completed attempts entries)
          entries
          (copy_entries attempts staging entries destination).0
  unfolding copy_entries completed
  copy_entries-IsEnded attempts staging [] destination h = inl (refl, refl)
  copy_entries-IsEnded attempts staging (entry ∷ entries) destination ((safe, _), h) =
      elim (attempt-cases (attempts 0)) [
        | inl goes ↦
            rw (safe, goes, copy_entries, completed)
              (IsEnded-cons entry _ entries _
                (copy_entries-IsEnded (λ i. attempts (suc i)) staging entries _ h))
        | inr (content, stopped) ↦
            rw (safe, stopped, copy_entries, completed) (inr (entry, entries, refl, refl))
      ]

  lookup-replaced :
      (path relative : Parts) (content : Content) (destination : Files Content)
      → lookup path (replaced relative (some content) destination) ≡ (
          if same_path path relative
          then some content
          else if same_path path (temporary_of relative)
          then none
          else lookup path destination)
  lookup-replaced path relative content destination = ground (
    arith,
    lookup-insert path relative content
        (erase (temporary_of relative) (insert (temporary_of relative) content destination)),
    lookup-erase path (temporary_of relative) (insert (temporary_of relative) content destination),
    lookup-insert path (temporary_of relative) content destination,
  )

  lookup-left_behind :
      (path relative : Parts) (content : Option Content) (destination : Files Content)
      → path ≢ temporary_of relative
      → lookup path (left_behind relative content destination) ≡ lookup path destination
  lookup-left_behind path relative none destination differ = refl
  lookup-left_behind path relative (some content) destination differ =
      lookup-insert_ne path (temporary_of relative) content destination differ

  pub copy_entries-IsUntouched :
      (attempts : ℕ → Attempt Content) (staging : Files Content) (path : Parts)
      (entries : List Entry) (destination : Files Content)
      → All (IsChecked staging) entries
      → All (IsUntouched path) entries
      → lookup path (copy_entries attempts staging entries destination).1 ≡ lookup path destination
  unfolding copy_entries
  copy_entries-IsUntouched attempts staging path [] destination h u = refl
  copy_entries-IsUntouched attempts staging path (entry ∷ entries) destination
        ((safe, (content, there, _, _)), h) ((differ, differ'), u) =
      elim (attempt-cases (attempts 0)) [
        | inl goes ↦
            rw (safe, goes, copy_entries)
              (copy_entries-IsUntouched (λ i. attempts (suc i)) staging path entries _ h u
                ∙ rw there (
                    lookup-replaced path (target entry) content destination
                    ∙ rw
                        (
                          beq_ne path (target entry) differ,
                          beq_ne path (temporary_of (target entry)) differ',
                        )
                        refl))
        | inr (left, stopped) ↦
            rw (safe, stopped, copy_entries)
              (lookup-left_behind path (target entry) left destination differ')
      ]

  kept-replaced :
      (staging : Files Content) (path relative : Parts) (content other : Content)
      (destination : Files Content)
      → source_at staging path ≡ some content
      → source_at staging relative ≡ some other
      → path ≢ temporary_of relative
      → lookup path destination ≡ some content
      → (if same_path path relative
          then some other
          else if same_path path (temporary_of relative)
          then none
          else lookup path destination)
        ≡ some content
  kept-replaced staging path relative content other destination source is differ there =
      elim (Bool-cases (same_path path relative)) [
        | inl e ↦
            rw e
              (sym is ∙ ap (source_at staging) (sym ((same_path_iff path relative).0 e)) ∙ source)
        | inr e ↦ rw (e, beq_ne path (temporary_of relative) differ) there
      ]

  -- A file that has its contents of the archive keeps them.
  pub copy_entries-keeps :
      (attempts : ℕ → Attempt Content) (staging : Files Content) (path : Parts) (content : Content)
      (entries : List Entry) (destination : Files Content)
      → source_at staging path ≡ some content
      → All (IsChecked staging) entries
      → All (λ later. path ≢ temporary_of (target later)) entries
      → lookup path destination ≡ some content
      → lookup path (copy_entries attempts staging entries destination).1 ≡ some content
  unfolding copy_entries
  copy_entries-keeps attempts staging path content [] destination source h d there = there
  copy_entries-keeps attempts staging path content (entry ∷ entries) destination source
        ((safe, (other, is, _, _)), h) (differ, d) there =
      elim (attempt-cases (attempts 0)) [
        | inl goes ↦
            rw (safe, goes, copy_entries)
              (copy_entries-keeps (λ i. attempts (suc i)) staging path content entries _ source h d
                (rw is (
                  lookup-replaced path (target entry) other destination
                  ∙ kept-replaced staging path (target entry) content other destination source is
                      differ there)))
        | inr (left, stopped) ↦
            rw (safe, stopped, copy_entries)
              (lookup-left_behind path (target entry) left destination differ ∙ there)
      ]
