-- ===== src/Async/Validate/WellFormed.antt =====
-- `validate_layout` accepts exactly the well-formed layouts, and what it reports is there.
use krio.Base.{
  ℕ, ◌+◌, ◌<◌, ◌≡◌, refl, sym, ◌∙◌, ◌↔◌, Bool, true, false, List, [], ◌∷◌, arith, length, All, ◌==◌,
  if◌then◌else◌,
}
use krio.Base.Maps.{contains, sorted_keys, contains-sorted_keys}
use krio.Async.{StateMachineLayout}
use krio.Async.Validate.{
  LayoutError, save_without_load, load_without_save, duplicate_save_slot, duplicate_load_slot,
  entry_count_mismatch, Checked, ok, err, ◌and_then◌, check_entries, check_blocks, entry_slots,
  table_slots, check_matched, validate_layout,
}

-- No slot is there twice.
abbrev pub Distinct : List ℕ → Type 0
Distinct [] = Unit
Distinct (s ∷ ss) = (contains s ss ≡ false) × Distinct ss

-- Every slot is below the bound.
abbrev pub Below : ℕ → List ℕ → Type 0
Below n = All (λ s. s < n)

-- No slot has been seen.
abbrev Unseen : List ℕ → List ℕ → Type 0
Unseen seen = All (λ s. contains s seen ≡ false)

module _ {ℓ} {B V F : Type ℓ} where
  pub record IsWellFormed (layout : StateMachineLayout B V F) (n : ℕ) : Type ℓ where
    pub entries : length layout.resume_entries ≡ length layout.yield_blocks + 1
    pub saves : All (λ b. Distinct (entry_slots b.1) × Below n (entry_slots b.1)) layout.yield_saves
    pub loads :
        All (λ b. Distinct (entry_slots b.1) × Below n (entry_slots b.1)) layout.resume_loads
    pub matched :
        (s : ℕ)
        → contains s (table_slots layout.yield_saves) ≡ contains s (table_slots layout.resume_loads)

and_then_ok {ℓ} : {B : Type ℓ} (a b : Checked B) → ((a and_then b) ≡ ok) ↔ ((a ≡ ok) × (b ≡ ok))
and_then_ok ok b = (λ e. (refl, e), λ e. e.1)
and_then_ok (err x) b = (λ e. absurd (cc e), λ e. e.0)

Unseen-cons :
    (s : ℕ) (seen ss : List ℕ) → Unseen (s ∷ seen) ss ↔ (Unseen seen ss × (contains s ss ≡ false))
unfolding contains
Unseen-cons s seen [] = (λ u. (tt, refl), λ u. tt)
Unseen-cons s seen (x ∷ ss) = (
  λ u. ground (arith, (Unseen-cons s seen ss).0 u.1),
  λ u. ground (arith, (Unseen-cons s seen ss).1),
)

module _ {ℓ} {B V : Type ℓ} (duplicate : ℕ → LayoutError B) (n : ℕ) where
  check_entries-ok :
      (seen : List ℕ) (es : List (ℕ × V))
      → (check_entries duplicate n seen es ≡ ok)
        ↔ (Distinct (entry_slots es) × Unseen seen (entry_slots es) × Below n (entry_slots es))
  unfolding check_entries
  check_entries-ok seen [] = (λ e. (tt, tt, tt), λ w. refl)
  check_entries-ok seen ((s, v) ∷ es) = (
    λ e.
        ground (arith, (check_entries-ok (s ∷ seen) es).0, (Unseen-cons s seen (entry_slots es)).0),
    λ w.
        ground (arith, (check_entries-ok (s ∷ seen) es).1, (Unseen-cons s seen (entry_slots es)).1),
  )

abbrev BlockOk {ℓ} : {B V : Type ℓ} → ℕ → B × List (ℕ × V) → Type 0
BlockOk n b = Distinct (entry_slots b.1) × Below n (entry_slots b.1)

Unseen-nil : (ss : List ℕ) → Unseen [] ss
unfolding contains
Unseen-nil [] = tt
Unseen-nil (s ∷ ss) = (refl, Unseen-nil ss)

module _ {ℓ} {B V : Type ℓ} (duplicate : B → ℕ → LayoutError B) (n : ℕ) where
  check_blocks-ok :
      (table : List (B × List (ℕ × V)))
      → (check_blocks duplicate n table ≡ ok) ↔ All (BlockOk n) table
  unfolding check_blocks
  check_blocks-ok [] = (λ e. tt, λ w. refl)
  check_blocks-ok ((b, es) ∷ table) =
      let both =
        and_then_ok (check_entries (duplicate b) n [] es) (check_blocks duplicate n table) in
      let here = check_entries-ok (duplicate b) n [] es in
      let rest = check_blocks-ok table in
      (
        λ e.
            let (first, more) = both.0 e in
            let (distinct, unseen, below) = here.0 first in ((distinct, below), rest.0 more),
        λ w. both.1 (here.1 (w.0.0, Unseen-nil (entry_slots es), w.0.1), rest.1 w.1),
      )

-- Every slot of the one list is in the other.
abbrev Covered : List ℕ → List ℕ → Type 0
Covered slots others = (s : ℕ) → contains s slots ≡ true → contains s others ≡ true

pub contains-head : (x : ℕ) (slots : List ℕ) → contains x (x ∷ slots) ≡ true
unfolding contains
contains-head x slots = ground arith

pub contains-tail :
    (s x : ℕ) (slots : List ℕ) → contains s slots ≡ true → contains s (x ∷ slots) ≡ true
unfolding contains
contains-tail s x slots h = ground arith

module _ {ℓ} {B : Type ℓ} (missing : ℕ → LayoutError B) where
  check_matched-ok :
      (slots others : List ℕ) → (check_matched missing slots others ≡ ok) ↔ Covered slots others
  unfolding check_matched contains
  check_matched-ok [] others = (λ e s h. absurd (cc h), λ c. refl)
  check_matched-ok (x ∷ slots) others = (
    λ e s h. ground (
      arith,
      λ (q : check_matched missing slots others ≡ ok). (check_matched-ok slots others).0 q s,
    ),
    λ c.
        rw (c x (contains-head x slots))
          ((check_matched-ok slots others).1 (λ s h. c s (contains-tail s x slots h))),
  )

Bool-antisym : (a b : Bool) → (a ≡ true → b ≡ true) → (b ≡ true → a ≡ true) → a ≡ b
Bool-antisym a b f g = ground arith

module _ {ℓ} {B V F : Type ℓ} (layout : StateMachineLayout B V F) (n : ℕ) where
  abbrev saved : List ℕ
  saved = table_slots layout.yield_saves

  abbrev loaded : List ℕ
  loaded = table_slots layout.resume_loads

  abbrev pub counts_agree : Bool
  counts_agree = length layout.resume_entries == length layout.yield_blocks + 1

  abbrev pub count_check : Checked B
  count_check =
      if counts_agree
      then ok
      else err (entry_count_mismatch (length layout.resume_entries) (length layout.yield_blocks))

  count_check-ok :
      (count_check ≡ ok) ↔ (length layout.resume_entries ≡ length layout.yield_blocks + 1)
  count_check-ok = (λ e. ground arith, λ e. ground arith)

  Covered-keys : (xs ys : List ℕ) → Covered (sorted_keys xs) (sorted_keys ys) ↔ Covered xs ys
  Covered-keys xs ys = (
    λ c s h. sym (contains-sorted_keys s ys) ∙ c s (contains-sorted_keys s xs ∙ h),
    λ c s h. contains-sorted_keys s ys ∙ c s (sym (contains-sorted_keys s xs) ∙ h),
  )

  -- `validate_layout` accepts a layout exactly if it is well formed: one entry more than there are
  -- yields, in each block distinct slots below the bound, and the same slots saved as loaded.
  pub validate_layout_iff : (validate_layout layout n ≡ ok) ↔ IsWellFormed layout n
  unfolding validate_layout
  validate_layout_iff = (
    λ e.
        let (count, e1) = (and_then_ok count_check _).0 e in
        let (saves, e2) =
          (and_then_ok (check_blocks duplicate_save_slot n layout.yield_saves) _).0 e1 in
        let (loads, e3) =
          (and_then_ok (check_blocks duplicate_load_slot n layout.resume_loads) _).0 e2 in
        let (forth, back) =
          (and_then_ok (check_matched save_without_load (sorted_keys saved) (sorted_keys loaded))
              _).0
            e3 in
        record {
          entries = count_check-ok.0 count;
          saves = (check_blocks-ok duplicate_save_slot n layout.yield_saves).0 saves;
          loads = (check_blocks-ok duplicate_load_slot n layout.resume_loads).0 loads;
          matched = λ s.
              Bool-antisym (contains s saved) (contains s loaded)
                ((Covered-keys saved loaded).0 ((check_matched-ok save_without_load _ _).0 forth) s)
                ((Covered-keys loaded saved).0 ((check_matched-ok load_without_save _ _).0 back) s);
        },
    λ w. rw (
      count_check-ok.1 w.entries,
      (check_blocks-ok duplicate_save_slot n layout.yield_saves).1 w.saves,
      (check_blocks-ok duplicate_load_slot n layout.resume_loads).1 w.loads,
      (check_matched-ok save_without_load (sorted_keys saved) (sorted_keys loaded)).1
          ((Covered-keys saved loaded).1 (λ s h. sym (w.matched s) ∙ h)),
      (check_matched-ok load_without_save (sorted_keys loaded) (sorted_keys saved)).1
          ((Covered-keys loaded saved).1 (λ s h. w.matched s ∙ h)),
    ),
  )
