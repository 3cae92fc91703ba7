-- ===== src/Async/Transform/Splits.antt =====
-- Pass 2: no index overflows, and each site adds one resume entry, one yield block, and its places
-- in the tables of pass 3.
use krio.Base.{
  subst, ℕ, suc, ◌+◌, ◌-◌, ◌<◌, ◌≡◌, refl, ap, sym, ◌∙◌, Bool, true, false, not, ◌||◌, Option, none,
  some, List, [], ◌∷◌, arith, length, length-append, Bool-cases, inl, inr, le→leb,
}
use mathlib.Core.Option.{some-injective}
use krio.Core.{Ord}
use krio.Async.{SuspensionSite, direct_yield, cross_fn_call}
use krio.Async.Transform.{
  Host, Site, key_lt, Split, current_idx, is_none, split_site, enter_block, split_at, split_step,
  split_all,
}
use krio.Async.Transform.Order.{Ascends}

module _ {ℓ κ} {C : Type κ} {B V F : Type ℓ} where
  -- The tables agree on how many sites there have been.
  pub record Counts (st : Split C B V F) (n : ℕ) : Type 0 where
    pub entries : length st.resume_entries ≡ suc n
    pub yields : length st.yield_blocks ≡ n
    pub yield_places : length st.site_yield_blocks ≡ n
    pub resume_places : length st.site_resumes ≡ n

kept : (b c : Bool) → not b || c ≡ false → b ≡ true
kept true c h = refl
kept false c h = sym h

-- An index behind the split before it does not overflow.
current_idx-some :
    (p : Option ℕ) (idx : ℕ)
    → ((q : ℕ) → p ≡ some q → q < idx)
    → (i : ℕ) × (current_idx p idx ≡ some i)
current_idx-some none idx h = (idx, refl)
current_idx-some (some q) idx h =
    (idx - (q + 1), rw (le→leb (q + 1) idx (omega (arith, h q refl))) refl)

module _ {ℓ κ} {C : Type κ} {B V F : Type ℓ} ⦃o : Ord B⦄ (host : Host C B V F) where
  -- The site comes behind the last split, if that was in its block.
  abbrev Follows : Split C B V F → Site B V F → Type 0
  Follows st (bb, idx, site) =
      (prev : ℕ)
      → o.eq.agree bb st.current_orig_block ≡ true
      → st.prev_orig_idx ≡ some prev
      → prev < idx

  -- The last split was at this site.
  abbrev LastAt : Split C B V F → Site B V F → Type ℓ
  LastAt st (bb, idx, site) = (st.current_orig_block ≡ bb) × (st.prev_orig_idx ≡ some idx)

  split_site-Counts :
      (st : Split C B V F) (idx orig_idx n : ℕ) (site : SuspensionSite F V)
      → Counts st n
      → Counts (split_site host st idx orig_idx site) (suc n)
  unfolding split_site
  split_site-Counts st idx orig_idx n (direct_yield value) k = record {
    entries = length-append st.resume_entries _ ∙ omega (arith, k.entries);
    yields = length-append st.yield_blocks _ ∙ omega (arith, k.yields);
    yield_places = length-append st.site_yield_blocks _ ∙ omega (arith, k.yield_places);
    resume_places = length-append st.site_resumes _ ∙ omega (arith, k.resume_places);
  }
  split_site-Counts st idx orig_idx n (cross_fn_call callee receiver args result) k = record {
    entries = length-append st.resume_entries _ ∙ omega (arith, k.entries);
    yields = length-append st.yield_blocks _ ∙ omega (arith, k.yields);
    yield_places = length-append st.site_yield_blocks _ ∙ omega (arith, k.yield_places);
    resume_places = length-append st.site_resumes _ ∙ omega (arith, k.resume_places);
  }

  split_site-LastAt :
      (st : Split C B V F) (bb : B) (idx orig_idx : ℕ) (site : SuspensionSite F V)
      → st.current_orig_block ≡ bb
      → LastAt (split_site host st idx orig_idx site) (bb, orig_idx, site)
  unfolding split_site
  split_site-LastAt st bb idx orig_idx (direct_yield value) e = (e, refl)
  split_site-LastAt st bb idx orig_idx (cross_fn_call callee receiver args result) e = (e, refl)

  -- Behind the head of the loop, the current block stands for the site's, and no index overflows.
  enter_block_lem :
      (st : Split C B V F) (bb : B) (idx n : ℕ) (site : SuspensionSite F V)
      → Follows st (bb, idx, site)
      → Counts st n
      → Counts (enter_block st bb) n
        × ((enter_block st bb).current_orig_block ≡ bb)
        × ((q : ℕ) → (enter_block st bb).prev_orig_idx ≡ some q → q < idx)
  unfolding enter_block
  enter_block_lem st bb idx n site follows k =
      elim (Bool-cases (not (o.eq.agree bb st.current_orig_block) || is_none st.prev_orig_idx)) [
        | inl e ↦ rw e (
          record {
            entries = k.entries;
            yields = k.yields;
            yield_places = k.yield_places;
            resume_places = k.resume_places;
          },
          refl,
          λ q h. cc h,
        )
        | inr e ↦ rw e (
          k,
          sym ((o.eq.agree_iff bb st.current_orig_block).0 (kept _ _ e)),
          λ q h. follows q (kept _ _ e) h,
        )
      ]

  split_step_lem :
      (st : Split C B V F) (site : Site B V F) (n : ℕ)
      → Follows st site
      → Counts st n
      → (st' : Split C B V F) × (split_step host st site ≡ some st')
        × Counts st' (suc n)
        × LastAt st' site
  unfolding split_step
  split_step_lem st (bb, idx, site) n follows k =
      let at = enter_block st bb in
      let (k', here, behind) = enter_block_lem st bb idx n site follows k in
      let (i, e) = current_idx-some at.prev_orig_idx idx behind in
      (
        split_site host at i idx site,
        ap (split_at host at idx site) e,
        split_site-Counts at i idx n site k',
        split_site-LastAt at bb i idx site here,
      )

  key_lt-same :
      (a b : B) (i j : ℕ) (s t : SuspensionSite F V)
      → o.eq.agree b a ≡ true
      → key_lt (a, i, s) (b, j, t) ≡ true
      → i < j
  key_lt-same a b i j s t e less = ground (arith, o.eq.agree_iff b a, o.lt-irrefl b)

  -- A site above the last one follows it.
  Follows-next :
      (st : Split C B V F) (x y : Site B V F) → LastAt st x → key_lt x y ≡ true → Follows st y
  Follows-next st (a, i, s) (b, j, t) (same, last) less prev e h = omega (
    arith,
    key_lt-same a b i j s t (subst (λ x. o.eq.agree b x ≡ true) same e) less,
    some-injective i prev (sym last ∙ h),
  )

  -- The first of the sites follows the last split.
  abbrev pub Starts : Split C B V F → List (Site B V F) → Type 0
  Starts st [] = Unit
  Starts st (x ∷ xs) = Follows st x

  Starts-next :
      (st : Split C B V F) (x : Site B V F) (xs : List (Site B V F))
      → LastAt st x
      → Ascends (x ∷ xs)
      → Starts st xs
  Starts-next st x [] last a = tt
  Starts-next st x (y ∷ ys) last a = Follows-next st x y last a.0

  Ascends-rest : (x : Site B V F) (xs : List (Site B V F)) → Ascends (x ∷ xs) → Ascends xs
  Ascends-rest x [] a = tt
  Ascends-rest x (y ∷ ys) a = a.1

  -- Over ascending sites pass 2 goes through, and counts them.
  pub split_all-Counts :
      (st : Split C B V F) (sites : List (Site B V F)) (n : ℕ)
      → Ascends sites
      → Starts st sites
      → Counts st n
      → (st' : Split C B V F) × (split_all host st sites ≡ some st') × Counts st' (n + length sites)
  unfolding split_all
  split_all-Counts st [] n a s k = (st, refl, subst (Counts st) (omega arith) k)
  split_all-Counts st (x ∷ xs) n a s k =
      let (st', e, k', last) = split_step_lem st x n s k in
      let (end, e', k'') =
        split_all-Counts st' xs (suc n) (Ascends-rest x xs a) (Starts-next st' x xs last a) k' in
      (end, rw (e, split_all) e', subst (Counts end) (omega arith) k'')
