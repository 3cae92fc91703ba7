-- ===== src/Stackless/Points/Body.antt =====
-- The search for a coroutine's blocks ends, and finds exactly those that are reachable from its begin
-- block without passing its end block.
use krio.Base.{
  ℕ, zero, suc, ◌+◌, ◌≤◌, ◌<◌, ◌≡◌, refl, ap, sym, ◌∙◌, subst, ◌⊎◌, inl, inr, ◌↔◌, true, false,
  ◌||◌, some, List, [], ◌∷◌, ◌++◌, arith, length, if◌then◌else◌, Bool-cases,
}
use krio.Core.{Ord}
use krio.Stackless.{Flow}
use krio.Stackless.Points.{member, offer, search}

module _ {ℓ} {B : Type ℓ} ⦃o : Ord B⦄ where
  pub agree_self : (b : B) → o.eq.agree b b ≡ true
  agree_self b = (o.eq.agree_iff b b).1 refl

  pub member-append : (b : B) (xs ys : List B) → member b (xs ++ ys) ≡ (member b xs || member b ys)
  unfolding member
  member-append b [] ys = refl
  member-append b (x ∷ xs) ys = ground (arith, member-append b xs ys)

  -- The blocks of the universe that are not yet in the body.
  unfoldable unseen : List B → List B → ℕ
  unfolding member
  unseen [] body = 0
  unseen (b ∷ all) body = (if member b body then 0 else 1) + unseen all body

  unseen-le : (all body : List B) (s : B) → unseen all (body ++ s ∷ []) ≤ unseen all body
  unfolding unseen member
  unseen-le [] body s = omega arith
  unseen-le (b ∷ all) body s = ground (arith, unseen-le all body s, member-append b body (s ∷ []))

  unseen-lt :
      (all body : List B) (s : B)
      → member s all ≡ true
      → member s body ≡ false
      → unseen all (body ++ s ∷ []) < unseen all body
  unfolding unseen member
  unseen-lt [] body s there new = absurd (cc there)
  unseen-lt (b ∷ all) body s there new = elim (Bool-cases (o.eq.agree b s)) [
    | inl same ↦
        let e : b ≡ s = (o.eq.agree_iff b s).0 same in
        ground (
          arith,
          ap (λ x. member x body) e,
          member-append b body (s ∷ []),
          (o.eq.agree_iff s b).1 (sym e),
          unseen-le all body s,
        )
    | inr other ↦
        ground (arith, unseen-lt all body s, member-append b body (s ∷ []), unseen-le all body s)
  ]

  unseen-length : (all body : List B) → unseen all body ≤ length all
  unfolding unseen
  unseen-length [] body = omega arith
  unseen-length (b ∷ all) body = ground (arith, unseen-length all body)

  member_is : (a b : B) (xs : List B) → o.eq.agree a b ≡ true → member a xs ≡ member b xs
  member_is a b xs e = ap (λ x. member x xs) ((o.eq.agree_iff a b).0 e)

  -- What a round of offers puts in the body and on the stack.
  offer-body :
      (succs body stack : List B) (b : B)
      → member b (offer succs (body, stack)).0 ≡ (member b body || member b succs)
  unfolding offer member
  offer-body [] body stack b = ground arith
  offer-body (s ∷ succs) body stack b = elim (Bool-cases (member s body)) [
    | inl old ↦
        rw (old, offer, member) (ground (arith, offer-body succs body stack b, member_is s b body))
    | inr new ↦
        rw (new, offer, member)
          (ground
            (arith, offer-body succs (body ++ s ∷ []) (s ∷ stack) b, member-append b body (s ∷ [])))
  ]

  offer-keeps :
      (succs body stack : List B) (b : B)
      → member b stack ≡ true
      → member b (offer succs (body, stack)).1 ≡ true
  unfolding offer member
  offer-keeps [] body stack b h = h
  offer-keeps (s ∷ succs) body stack b h = elim (Bool-cases (member s body)) [
    | inl old ↦ rw (old, offer, member) (offer-keeps succs body stack b h)
    | inr new ↦
        rw (new, offer, member) (offer-keeps succs (body ++ s ∷ []) (s ∷ stack) b (ground arith))
  ]

  offer-queues :
      (succs body stack : List B) (b : B)
      → member b body ≡ false
      → member b succs ≡ true
      → member b (offer succs (body, stack)).1 ≡ true
  unfolding offer member
  offer-queues [] body stack b out h = absurd (cc h)
  offer-queues (s ∷ succs) body stack b out h = elim (Bool-cases (member s body)) [
    | inl old ↦
        rw (old, offer, member)
          (offer-queues succs body stack b out (ground (arith, member_is s b body)))
    | inr new ↦
        rw (new, offer, member)
          (elim (Bool-cases (o.eq.agree s b)) [
            | inl same ↦ offer-keeps succs (body ++ s ∷ []) (s ∷ stack) b (ground arith)
            | inr other ↦
                offer-queues succs (body ++ s ∷ []) (s ∷ stack) b
                  (ground (arith, member-append b body (s ∷ []))) (ground arith)
          ])
  ]

  -- What is on the stack is in the body.
  offer-queued :
      (succs body stack : List B)
      → ((b : B) → member b stack ≡ true → member b body ≡ true)
      → (b : B) → member b (offer succs (body, stack)).1 ≡ true
      → member b (offer succs (body, stack)).0 ≡ true
  unfolding offer member
  offer-queued [] body stack queued b h = queued b h
  offer-queued (s ∷ succs) body stack queued b h = elim (Bool-cases (member s body)) [
    | inl old ↦
        rw (old, offer, member)
          (offer-queued succs body stack queued b (rw (old, offer, member) at h))
    | inr new ↦
        rw (new, offer, member)
          (offer-queued succs (body ++ s ∷ []) (s ∷ stack)
            (λ x there. ground (arith, member-append x body (s ∷ []), queued x)) b
            (rw (new, offer, member) at h))
  ]

  offer_work :
      (all succs body stack : List B)
      → ((b : B) → member b succs ≡ true → member b all ≡ true)
      → unseen all (offer succs (body, stack)).0 + length (offer succs (body, stack)).1
        ≤ unseen all body + length stack
  unfolding offer member
  offer_work all [] body stack known = omega arith
  offer_work all (s ∷ succs) body stack known = elim (Bool-cases (member s body)) [
    | inl old ↦
        rw (old, offer, member) (offer_work all succs body stack (λ b h. known b (ground arith)))
    | inr new ↦
        rw (new, offer, member)
          (omega (
            arith,
            offer_work all succs (body ++ s ∷ []) (s ∷ stack) (λ b h. known b (ground arith)),
            unseen-lt all body s (known s (ground (arith, agree_self s))) new,
          ))
  ]

module _ {ℓ κ} {C : Type κ} {B : Type ℓ} ⦃o : Ord B⦄ (flow : Flow C B) (c : C) (begin end : B) where
  -- The walks from the begin block that do not go on from the end block.
  pub data Reach : B → Type ℓ where
    here : Reach begin
    step :
        (b s : B)
        → Reach b
        → o.eq.agree b end ≡ false
        → member s (flow.successors c b) ≡ true
        → Reach s

  record Found (body stack : List B) : Type ℓ where
    start : member begin body ≡ true
    sound : (b : B) → member b body ≡ true → Reach b
    queued : (b : B) → member b stack ≡ true → member b body ≡ true
    closed :
        (b s : B)
        → member b body ≡ true
        → o.eq.agree b end ≡ false
        → member s (flow.successors c b) ≡ true
        → (member b stack ≡ true) ⊎ (member s body ≡ true)

  Found-start : Found (begin ∷ []) (begin ∷ [])
  unfolding member
  Found-start = record {
    start = ground (arith, agree_self begin);
    sound = λ b h. elim (Bool-cases (o.eq.agree begin b)) [
      | inl same ↦ subst Reach ((o.eq.agree_iff begin b).0 same) Reach.here
      | inr other ↦ absurd (cc (h, other))
    ];
    queued = λ b h. h;
    closed = λ b s h past succ. inl h;
  }

  Found-end :
      (body stack : List B) (bb : B)
      → o.eq.agree bb end ≡ true
      → Found body (bb ∷ stack)
      → Found body stack
  unfolding member
  Found-end body stack bb last f = record {
    start = f.start;
    sound = f.sound;
    queued = λ b h. f.queued b (ground arith);
    closed = λ b s h past succ. elim (f.closed b s h past succ) [
      | inl queued ↦ elim (Bool-cases (o.eq.agree bb b)) [
        | inl same ↦ absurd (cc (last, past, (o.eq.agree_iff bb b).0 same))
        | inr other ↦ inl (ground arith)
      ]
      | inr found ↦ inr found
    ];
  }

  Found-offer :
      (body stack : List B) (bb : B)
      → o.eq.agree bb end ≡ false
      → Found body (bb ∷ stack)
      → let (body', stack') = offer (flow.successors c bb) (body, stack) in Found body' stack'
  unfolding member
  Found-offer body stack bb more f = record {
    start = ground (arith, offer-body (flow.successors c bb) body stack begin, f.start);
    sound = λ b h. elim (Bool-cases (member b body)) [
      | inl old ↦ f.sound b old
      | inr new ↦
          Reach.step bb b (f.sound bb (f.queued bb (ground (arith, agree_self bb)))) more
            (ground (arith, offer-body (flow.successors c bb) body stack b))
    ];
    queued = offer-queued (flow.successors c bb) body stack (λ b h. f.queued b (ground arith));
    closed = λ b s h past succ. elim (Bool-cases (member b body)) [
      | inl old ↦ elim (f.closed b s old past succ) [
        | inl queued ↦ elim (Bool-cases (o.eq.agree bb b)) [
          | inl same ↦ inr (
              ground (
                arith,
                offer-body (flow.successors c bb) body stack s,
                ap (λ x. member s (flow.successors c x)) ((o.eq.agree_iff bb b).0 same),
              ))
          | inr other ↦ inl (offer-keeps (flow.successors c bb) body stack b (ground arith))
        ]
        | inr found ↦ inr (ground (arith, offer-body (flow.successors c bb) body stack s))
      ]
      | inr new ↦ inl (
          offer-queues (flow.successors c bb) body stack b new
            (ground (arith, offer-body (flow.successors c bb) body stack b)))
    ];
  }

  search_last :
      (fuel : ℕ) (body stack : List B) (bb : B)
      → o.eq.agree bb end ≡ true
      → search flow c (suc fuel) end body (bb ∷ stack) ≡ search flow c fuel end body stack
  unfolding search
  search_last fuel body stack bb last =
      ap
        (λ t.
          let (body', stack') =
            if t then (body, stack) else offer (flow.successors c bb) (body, stack) in
          search flow c fuel end body' stack')
        last

  search_more :
      (fuel : ℕ) (body stack : List B) (bb : B)
      → o.eq.agree bb end ≡ false
      → search flow c (suc fuel) end body (bb ∷ stack)
        ≡ search flow c fuel end
            (offer (flow.successors c bb) (body, stack)).0
            (offer (flow.successors c bb) (body, stack)).1
  unfolding search
  search_more fuel body stack bb more =
      ap
        (λ t.
          let (body', stack') =
            if t then (body, stack) else offer (flow.successors c bb) (body, stack) in
          search flow c fuel end body' stack')
        more

  -- Every block that the search sees is in `all`.
  search_done :
      (all : List B)
      → ((b s : B) → member s (flow.successors c b) ≡ true → member s all ≡ true)
      → (fuel : ℕ) (body stack : List B) → Found body stack
      → unseen all body + length stack ≤ fuel
      → (found : List B) × (search flow c fuel end body stack ≡ some found) × Found found []
  unfolding search
  search_done all known fuel body [] f enough = (body, refl, f)
  search_done all known zero body (bb ∷ stack) f enough = absurd (omega (arith, enough))
  search_done all known (suc fuel) body (bb ∷ stack) f enough =
      elim (Bool-cases (o.eq.agree bb end)) [
        | inl last ↦
            let (found, e, done) =
              search_done all known fuel body stack (Found-end body stack bb last f)
                (omega (arith, enough)) in
            (found, search_last fuel body stack bb last ∙ e, done)
        | inr more ↦
            let (found, e, done) =
              search_done all known fuel (offer (flow.successors c bb) (body, stack)).0
                (offer (flow.successors c bb) (body, stack)).1 (Found-offer body stack bb more f)
                (omega
                  (arith, enough, offer_work all (flow.successors c bb) body stack (known bb))) in
            (found, search_more fuel body stack bb more ∙ e, done)
      ]

  found-Reach : (found : List B) → Found found [] → (b : B) → Reach b → member b found ≡ true
  unfolding member
  found-Reach found f _ Reach.here = f.start
  found-Reach found f _ (Reach.step b s from past succ) =
      elim (f.closed b s (found-Reach found f b from) past succ) [
        | inl none_left ↦ absurd (cc none_left)
        | inr there ↦ there
      ]

  -- The search returns, and its blocks are the reachable ones.
  pub search_lem :
      (all : List B)
      → ((b s : B) → member s (flow.successors c b) ≡ true → member s all ≡ true)
      → (fuel : ℕ) → length all < fuel
      → (found : List B) × (search flow c fuel end (begin ∷ []) (begin ∷ []) ≡ some found)
        × ((b : B) → (member b found ≡ true) ↔ Reach b)
  search_lem all known fuel enough =
      let (found, e, f) =
        search_done all known fuel (begin ∷ []) (begin ∷ []) Found-start
          (omega (arith, enough, unseen-length all (begin ∷ []))) in
      (found, e, λ b. (f.sound b, found-Reach found f b))
