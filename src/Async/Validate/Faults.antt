-- ===== src/Async/Validate/Faults.antt =====
-- What `validate_layout` reports is there.
use mathlib.Core.List.{Memᴰ}
use krio.Base.{
  ℕ, ◌+◌, ◌≤◌, ◌≡◌, refl, sym, ◌∙◌, ◌≢◌, ◌⊎◌, inl, inr, true, false, List, [], ◌∷◌, ◌++◌, arith,
  length, leb, ◌==◌, Bool-cases, ==_iff, leb→le,
}
use krio.Base.Maps.{contains, sorted_keys, contains-sorted_keys}
use krio.Async.{StateMachineLayout}
use krio.Async.Validate.{
  LayoutError, save_without_load, load_without_save, duplicate_save_slot, duplicate_load_slot,
  entry_count_mismatch, slot_out_of_range, Checked, ok, err, ◌and_then◌, check_entries,
  check_blocks, entry_slots, table_slots, check_matched, validate_layout,
}
use krio.Async.Validate.WellFormed.{contains-head, contains-tail, counts_agree, count_check}

-- The slot is there, and once more behind that.
abbrev pub Twice : ℕ → List ℕ → Type 0
Twice s [] = ⊥
Twice s (x ∷ ss) = ((x ≡ s) × (contains s ss ≡ true)) ⊎ Twice s ss

module _ {ℓ} {B V : Type ℓ} where
  -- The table has a block of this id in which the slot is there twice.
  abbrev pub Repeated : B → ℕ → List (B × List (ℕ × V)) → Type ℓ
  Repeated block slot table =
      (entries : List (ℕ × V)) × Memᴰ (block, entries) table × Twice slot (entry_slots entries)

  -- The table mentions the slot.
  abbrev pub Mentions : ℕ → List (B × List (ℕ × V)) → Type 0
  Mentions slot table = contains slot (table_slots table) ≡ true

-- What each error says of the layout.
pub data IsFault {ℓ} {B V F : Type ℓ} (layout : StateMachineLayout B V F) (n : ℕ)
    : LayoutError B → Type ℓ where
  never_loaded :
      (slot : ℕ)
      → Mentions slot layout.yield_saves
      → contains slot (table_slots layout.resume_loads) ≡ false
      → IsFault layout n (save_without_load slot)
  never_saved :
      (slot : ℕ)
      → Mentions slot layout.resume_loads
      → contains slot (table_slots layout.yield_saves) ≡ false
      → IsFault layout n (load_without_save slot)
  saved_twice :
      (block : B) (slot : ℕ)
      → Repeated block slot layout.yield_saves
      → IsFault layout n (duplicate_save_slot block slot)
  loaded_twice :
      (block : B) (slot : ℕ)
      → Repeated block slot layout.resume_loads
      → IsFault layout n (duplicate_load_slot block slot)
  miscounted :
      (entries yields : ℕ)
      → entries ≡ length layout.resume_entries
      → yields ≡ length layout.yield_blocks
      → entries ≢ yields + 1
      → IsFault layout n (entry_count_mismatch entries yields)
  out_of_range :
      (slot bound : ℕ)
      → bound ≡ n
      → bound ≤ slot
      → Mentions slot layout.yield_saves ⊎ Mentions slot layout.resume_loads
      → IsFault layout n (slot_out_of_range slot bound)

and_then_err {ℓ} :
    {B : Type ℓ} (a b : Checked B) (e : LayoutError B)
    → (a and_then b) ≡ err e
    → (a ≡ err e) ⊎ ((a ≡ ok) × (b ≡ err e))
and_then_err ok b e h = inr (refl, h)
and_then_err (err x) b e h = inl h

module _ {ℓ} {B : Type ℓ} where
  -- What the loop over one block's slots reports.
  abbrev BlockReport : (ℕ → LayoutError B) → ℕ → List ℕ → List ℕ → LayoutError B → Type ℓ
  BlockReport duplicate n seen slots e =
      (s : ℕ) × ((e ≡ duplicate s)
          × ((contains s seen ≡ true) × (contains s slots ≡ true) ⊎ Twice s slots)
        ⊎ (e ≡ slot_out_of_range s n) × (n ≤ s) × (contains s slots ≡ true))

  BlockReport-cons :
      (duplicate : ℕ → LayoutError B) (n x : ℕ) (seen slots : List ℕ) (e : LayoutError B)
      → BlockReport duplicate n (x ∷ seen) slots e
      → BlockReport duplicate n seen (x ∷ slots) e
  unfolding contains
  BlockReport-cons duplicate n x seen slots e (s, inl (is, inl (again, there))) =
      elim (Bool-cases (x == s)) [
        | inl same ↦ (s, inl (is, inr (inl ((==_iff x s).0 same, there))))
        | inr other ↦ (s, inl (is, inl (ground arith, contains-tail s x slots there)))
      ]
  BlockReport-cons duplicate n x seen slots e (s, inl (is, inr twice)) =
      (s, inl (is, inr (inr twice)))
  BlockReport-cons duplicate n x seen slots e (s, inr (is, far, there)) =
      (s, inr (is, far, contains-tail s x slots there))

  check_entries-err :
      {V : Type ℓ} (duplicate : ℕ → LayoutError B) (n : ℕ) (seen : List ℕ) (es : List (ℕ × V))
      (e : LayoutError B)
      → check_entries duplicate n seen es ≡ err e
      → BlockReport duplicate n seen (entry_slots es) e
  unfolding check_entries
  check_entries-err duplicate n seen [] e h = absurd (cc h)
  check_entries-err duplicate n seen ((s, v) ∷ es) e h = elim (Bool-cases (contains s seen)) [
    | inl old ↦ (s, inl (ground arith, inl (old, contains-head s (entry_slots es))))
    | inr fresh ↦ elim (Bool-cases (leb n s)) [
      | inl far ↦ (s, inr (ground arith, leb→le n s far, contains-head s (entry_slots es)))
      | inr near ↦
          BlockReport-cons duplicate n s seen (entry_slots es) e
            (check_entries-err duplicate n (s ∷ seen) es e (ground arith))
    ]
  ]

contains-append_left :
    (s : ℕ) (xs ys : List ℕ) → contains s xs ≡ true → contains s (xs ++ ys) ≡ true
unfolding contains
contains-append_left s [] ys h = absurd (cc h)
contains-append_left s (x ∷ xs) ys h = ground (arith, contains-append_left s xs ys)

contains-append_right :
    (s : ℕ) (xs ys : List ℕ) → contains s ys ≡ true → contains s (xs ++ ys) ≡ true
unfolding contains
contains-append_right s [] ys h = h
contains-append_right s (x ∷ xs) ys h = ground (arith, contains-append_right s xs ys)

check_matched-err {ℓ} :
    {B : Type ℓ} (missing : ℕ → LayoutError B) (slots others : List ℕ) (e : LayoutError B)
    → check_matched missing slots others ≡ err e
    → (s : ℕ) × (e ≡ missing s) × (contains s slots ≡ true) × (contains s others ≡ false)
unfolding check_matched
check_matched-err missing [] others e h = absurd (cc h)
check_matched-err missing (x ∷ slots) others e h = elim (Bool-cases (contains x others)) [
  | inl found ↦
      let (s, is, there, absent) = check_matched-err missing slots others e (ground arith) in
      (s, is, contains-tail s x slots there, absent)
  | inr lost ↦ (x, ground arith, contains-head x slots, lost)
]

module _ {ℓ} {B V : Type ℓ} where
  -- What the loop over a table reports.
  abbrev TableReport :
      (B → ℕ → LayoutError B) → ℕ → List (B × List (ℕ × V)) → LayoutError B → Type ℓ
  TableReport duplicate n table e =
      ((block : B) × (s : ℕ) × (e ≡ duplicate block s) × Repeated block s table)
      ⊎ ((s : ℕ) × (e ≡ slot_out_of_range s n) × (n ≤ s) × Mentions s table)

  TableReport-here :
      (duplicate : B → ℕ → LayoutError B) (n : ℕ) (block : B) (es : List (ℕ × V))
      (table : List (B × List (ℕ × V))) (e : LayoutError B)
      → BlockReport (duplicate block) n [] (entry_slots es) e
      → TableReport duplicate n ((block, es) ∷ table) e
  unfolding table_slots contains
  TableReport-here duplicate n block es table e (s, inl (is, inl (seen, there))) = absurd (cc seen)
  TableReport-here duplicate n block es table e (s, inl (is, inr twice)) =
      inl (block, s, is, (es, Memᴰ.head refl, twice))
  TableReport-here duplicate n block es table e (s, inr (is, far, there)) =
      inr (s, is, far, contains-append_left s (entry_slots es) (table_slots table) there)

  TableReport-there :
      (duplicate : B → ℕ → LayoutError B) (n : ℕ) (block : B) (es : List (ℕ × V))
      (table : List (B × List (ℕ × V))) (e : LayoutError B)
      → TableReport duplicate n table e
      → TableReport duplicate n ((block, es) ∷ table) e
  unfolding table_slots
  TableReport-there duplicate n block es table e (inl (b, s, is, (entries, mem, twice))) =
      inl (b, s, is, (entries, Memᴰ.tail mem, twice))
  TableReport-there duplicate n block es table e (inr (s, is, far, there)) =
      inr (s, is, far, contains-append_right s (entry_slots es) (table_slots table) there)

  check_blocks-err :
      (duplicate : B → ℕ → LayoutError B) (n : ℕ) (table : List (B × List (ℕ × V)))
      (e : LayoutError B)
      → check_blocks duplicate n table ≡ err e
      → TableReport duplicate n table e
  unfolding check_blocks
  check_blocks-err duplicate n [] e h = absurd (cc h)
  check_blocks-err duplicate n ((block, es) ∷ table) e h =
      elim (and_then_err (check_entries (duplicate block) n [] es) (check_blocks duplicate n table)
        e h) [
          | inl first ↦
              TableReport-here duplicate n block es table e
                (check_entries-err (duplicate block) n [] es e first)
          | inr (_, more) ↦
              TableReport-there duplicate n block es table e
                (check_blocks-err duplicate n table e more)
        ]

module _ {ℓ} {B V F : Type ℓ} (layout : StateMachineLayout B V F) (n : ℕ) where
  count_check-IsFault : (e : LayoutError B) → count_check layout n ≡ err e → IsFault layout n e
  count_check-IsFault e h = elim (Bool-cases (counts_agree layout n)) [
    | inl agree ↦ absurd (ground arith)
    | inr differ ↦
        let is : e
            ≡ entry_count_mismatch (length layout.resume_entries) (length layout.yield_blocks) =
          ground arith in
        rw is (miscounted _ _ refl refl (λ q. ground arith))
  ]

  saves-IsFault :
      (e : LayoutError B)
      → TableReport duplicate_save_slot n layout.yield_saves e
      → IsFault layout n e
  saves-IsFault e (inl (b, s, is, twice)) = rw is (saved_twice b s twice)
  saves-IsFault e (inr (s, is, far, there)) = rw is (out_of_range s n refl far (inl there))

  loads-IsFault :
      (e : LayoutError B)
      → TableReport duplicate_load_slot n layout.resume_loads e
      → IsFault layout n e
  loads-IsFault e (inl (b, s, is, twice)) = rw is (loaded_twice b s twice)
  loads-IsFault e (inr (s, is, far, there)) = rw is (out_of_range s n refl far (inr there))

  abbrev keys_of : List (B × List (ℕ × V)) → List ℕ
  keys_of table = sorted_keys (table_slots table)

  unloaded-IsFault :
      (e : LayoutError B)
      → check_matched save_without_load (keys_of layout.yield_saves) (keys_of layout.resume_loads)
        ≡ err e
      → IsFault layout n e
  unloaded-IsFault e h =
      let (s, is, there, absent) = check_matched-err save_without_load _ _ e h in
      rw is (
        never_loaded s (sym (contains-sorted_keys s _) ∙ there)
          (sym (contains-sorted_keys s _) ∙ absent))

  unsaved-IsFault :
      (e : LayoutError B)
      → check_matched load_without_save (keys_of layout.resume_loads) (keys_of layout.yield_saves)
        ≡ err e
      → IsFault layout n e
  unsaved-IsFault e h =
      let (s, is, there, absent) = check_matched-err load_without_save _ _ e h in
      rw is (
        never_saved s (sym (contains-sorted_keys s _) ∙ there)
          (sym (contains-sorted_keys s _) ∙ absent))

  -- Every error that `validate_layout` returns is a fault of the layout, as the error describes it.
  pub validate_layout-IsFault :
      (e : LayoutError B) → validate_layout layout n ≡ err e → IsFault layout n e
  unfolding validate_layout
  validate_layout-IsFault e h = elim (and_then_err (count_check layout n) _ e h) [
    | inl h1 ↦ count_check-IsFault e h1
    | inr (_, r1) ↦
        elim (and_then_err (check_blocks duplicate_save_slot n layout.yield_saves) _ e r1) [
          | inl h2 ↦
              saves-IsFault e (check_blocks-err duplicate_save_slot n layout.yield_saves e h2)
          | inr (_, r2) ↦
              elim (and_then_err (check_blocks duplicate_load_slot n layout.resume_loads) _ e r2) [
                | inl h3 ↦
                    loads-IsFault e
                      (check_blocks-err duplicate_load_slot n layout.resume_loads e h3)
                | inr (_, r3) ↦
                    elim (and_then_err
                      (check_matched save_without_load (keys_of layout.yield_saves)
                        (keys_of layout.resume_loads))
                      _ e r3) [
                        | inl h4 ↦ unloaded-IsFault e h4
                        | inr (_, h5) ↦ unsaved-IsFault e h5
                      ]
              ]
        ]
  ]
