-- ===== src/Community/Threads.antt =====
-- The loop of fetch_thread_rows_for_roots (app/services/comments.py): it ends, and it collects the
-- threads of the roots.
use movie_api.Shared.{
  ℕ, zero, suc, ◌<◌, ◌≡◌, ◌↔◌, refl, sym, subst, true, false, not, ◌&&◌, some, List, [], ◌∷◌, ◌++◌,
  map, select, count, In, In-select, is_some, Bool-cases, Option-cases, ◌⊎◌, inl, inr, arith,
}
use movie_api.Community.{Comment, CommentDb}
use movie_api.Community.Listing.{
  fetch_thread_rows_for_roots, author_of, mem, comment_id_of, is_visible, replies_to, next_frontier,
  expand, fuel_for,
}
use movie_api.Community.Ids.{
  List-cases, mem_here, mem-++, mem-select, mem-ids, ids-In, count_lt, count-length,
}

module _ (rows : List Comment) (hidden roots : List ℕ) where
  -- The ids of the roots, and of the visible replies to what is shown already.
  pub data Shown : ℕ → Type 0 where
    root : {a : ℕ} → mem a roots ≡ true → Shown a
    reply :
        {a parent_id : ℕ} (c : Comment)
        → In c rows
        → c.id ≡ a
        → c.parent_id ≡ some parent_id
        → is_visible hidden c ≡ true
        → Shown parent_id
        → Shown a

  replies_to_iff :
      (xs : List ℕ) (c : Comment)
      → replies_to hidden xs c ≡ true
      → (p : ℕ) × (c.parent_id ≡ some p) × (mem p xs ≡ true) × (is_visible hidden c ≡ true)
  replies_to_iff xs c e = elim (Option-cases c.parent_id) [
    | inl above ↦ absurd (ground arith)
    | inr (p, above) ↦ (p, above, ground arith, ground arith)
  ]

  replies_to_of :
      (xs : List ℕ) (c : Comment) (p : ℕ)
      → c.parent_id ≡ some p
      → mem p xs ≡ true
      → is_visible hidden c ≡ true
      → replies_to hidden xs c ≡ true
  replies_to_of xs c p above m v = ground arith

  -- What holds at each turn of the loop: the frontier is collected, every reply to what is collected
  -- is collected or replies to the frontier, and only what is shown is collected.
  record Turn (frontier all_ids : List ℕ) : Type 0 where
    pub rooted : (a : ℕ) → mem a roots ≡ true → mem a all_ids ≡ true
    pub inside : (a : ℕ) → mem a frontier ≡ true → mem a all_ids ≡ true
    pub closed :
        (c : Comment)
        → In c rows
        → replies_to hidden all_ids c ≡ true
        → (mem c.id all_ids ≡ true) ⊎ (replies_to hidden frontier c ≡ true)
    pub shown : (a : ℕ) → mem a all_ids ≡ true → Shown a

  new_or_old :
      (frontier all_ids : List ℕ) (c : Comment)
      → In c rows
      → replies_to hidden frontier c ≡ true
      → mem c.id (next_frontier rows hidden frontier all_ids ++ all_ids) ≡ true
  new_or_old frontier all_ids c i e = ground (
    arith,
    mem-++ c.id (next_frontier rows hidden frontier all_ids) all_ids,
    mem-select (λ id. not (mem id all_ids)) c.id
        (map comment_id_of (select (replies_to hidden frontier) rows)),
    mem-ids (replies_to hidden frontier) c rows i e,
  )

  next-Turn :
      (frontier all_ids : List ℕ)
      → Turn frontier all_ids
      → let new_ids = next_frontier rows hidden frontier all_ids in
        Turn new_ids (new_ids ++ all_ids)
  next-Turn frontier all_ids h = record {
    rooted = λ a m.
        ground (arith, mem-++ a (next_frontier rows hidden frontier all_ids) all_ids, h.rooted a m);
    inside = λ a m. ground (arith, mem-++ a (next_frontier rows hidden frontier all_ids) all_ids);
    closed = λ c i e.
        let (p, above, m, v) = replies_to_iff _ c e in
        let joined = mem-++ p (next_frontier rows hidden frontier all_ids) all_ids in
        elim (Bool-cases (mem p all_ids)) [
          | inl old ↦ elim (h.closed c i (replies_to_of all_ids c p above old v)) [
            | inl kept ↦
                inl
                  (ground (arith, mem-++ c.id (next_frontier rows hidden frontier all_ids) all_ids))
            | inr behind ↦ inl (new_or_old frontier all_ids c i behind)
          ]
          | inr fresh ↦ inr (
              replies_to_of (next_frontier rows hidden frontier all_ids) c p above (ground arith) v)
        ];
    shown = λ a m. elim (Bool-cases (mem a all_ids)) [
      | inl old ↦ h.shown a old
      | inr fresh ↦
          let ids = map comment_id_of (select (replies_to hidden frontier) rows) in
          let (c, i, rc, same) = ids-In (replies_to hidden frontier) a rows (
            ground (
              arith,
              mem-++ a (next_frontier rows hidden frontier all_ids) all_ids,
              mem-select (λ id. not (mem id all_ids)) a ids,
            )) in
          let (p, above, inside, v) = replies_to_iff frontier c rc in
          reply c i same above v (h.shown p (h.inside p inside))
    ];
  }

  abbrev left : List ℕ → ℕ
  left all_ids = count (λ (c : Comment). not (mem c.id all_ids)) rows

  -- A turn that finds something new leaves fewer comments to find.
  fewer_left :
      (frontier all_ids : List ℕ) (x : ℕ) (xs : List ℕ)
      → next_frontier rows hidden frontier all_ids ≡ x ∷ xs
      → left ((x ∷ xs) ++ all_ids) < left all_ids
  fewer_left frontier all_ids x xs e =
      let ids = map comment_id_of (select (replies_to hidden frontier) rows) in
      let found : mem x (next_frontier rows hidden frontier all_ids) ≡ true =
        subst (λ ys. mem x ys ≡ true) (sym e) (mem_here x xs) in
      let chosen = mem-select (λ id. not (mem id all_ids)) x ids in
      let (c, i, rc, same) =
        ids-In (replies_to hidden frontier) x rows (ground (arith, found, chosen)) in
      count_lt (λ y. not (mem y.id ((x ∷ xs) ++ all_ids))) (λ y. not (mem y.id all_ids)) c rows
        (λ y other. ground (arith, mem-++ y.id (x ∷ xs) all_ids)) i
        (subst (λ k. not (mem k ((x ∷ xs) ++ all_ids)) ≡ false) (sym same)
          (ground (arith, mem-++ x (x ∷ xs) all_ids, mem_here x xs)))
        (subst (λ k. not (mem k all_ids) ≡ true) (sym same) (ground (arith, found, chosen)))

  ended : (fuel : ℕ) (ids : List ℕ) → 0 < fuel → expand fuel rows hidden [] ids ≡ some ids
  unfolding expand
  ended zero ids enough = absurd (omega arith)
  ended (suc fuel) ids enough = refl

  -- Where the frontier is empty, everything that is shown is collected.
  collected : (ids : List ℕ) → Turn [] ids → (a : ℕ) → Shown a → mem a ids ≡ true
  collected ids h a (root m) = h.rooted a m
  collected ids h a (reply {parent_id = p} c i same above v behind) =
      elim (h.closed c i (replies_to_of ids c p above (collected ids h p behind) v)) [
        | inl kept ↦ subst (λ k. mem k ids ≡ true) same kept
        | inr again ↦ let (q, above', m, v') = replies_to_iff [] c again in absurd (ground arith)
      ]

  -- With more fuel than comments to find, the loop ends where the frontier is empty.
  expand_ends :
      (fuel : ℕ) (frontier all_ids : List ℕ)
      → suc (left all_ids) < fuel
      → Turn frontier all_ids
      → (ids : List ℕ) × (expand fuel rows hidden frontier all_ids ≡ some ids) × Turn [] ids
  unfolding expand
  expand_ends zero frontier all_ids enough h = absurd (omega arith)
  expand_ends (suc fuel) [] all_ids enough h = (all_ids, refl, h)
  expand_ends (suc fuel) (f ∷ fs) all_ids enough h =
      let new_ids = next_frontier rows hidden (f ∷ fs) all_ids in
      let h' = next-Turn (f ∷ fs) all_ids h in
      elim (List-cases new_ids) [
        | inl none_new ↦
            let kept = subst (λ ys. Turn ys (ys ++ all_ids)) none_new h' in
            subst
              (λ ys.
                (ids : List ℕ) × (expand fuel rows hidden ys (ys ++ all_ids) ≡ some ids)
                × Turn [] ids)
              (sym none_new) (all_ids, ended fuel all_ids (omega arith), kept)
        | inr (x, xs, some_new) ↦
            let fewer = fewer_left (f ∷ fs) all_ids x xs some_new in
            let less = subst (λ ys. left (ys ++ all_ids) < left all_ids) (sym some_new) fewer in
            expand_ends fuel new_ids (new_ids ++ all_ids) (omega arith) h'
      ]

-- The loop ends with fuel for every comment, however the comments refer to each other, and collects
-- exactly the roots and the visible comments that are replies to collected ones.
expand_collects :
    (rows : List Comment) (hidden roots : List ℕ)
    → (ids : List ℕ) × (expand (fuel_for rows) rows hidden roots roots ≡ some ids)
      × ((a : ℕ) → (mem a ids ≡ true) ↔ Shown rows hidden roots a)
expand_collects rows hidden roots =
    let (ids, ends, turn) =
      expand_ends rows hidden roots (fuel_for rows) roots roots
        (ground (arith, count-length (λ (c : Comment). not (mem c.id roots)) rows))
        (record {
          rooted = λ a m. m;
          inside = λ a m. m;
          closed = λ c i e. inr e;
          shown = λ a m. root m;
        }) in
    (ids, ends, λ a. (turn.shown a, collected rows hidden roots ids turn a))

-- Collecting the threads of the roots ends, however the comments refer to each other, and answers
-- exactly the stored, visible comments by stored users that are roots or are reached from a root by
-- visible replies.
pub fetch_thread_rows_for_roots_lem :
    (t : CommentDb) (roots hidden : List ℕ)
    → (rows : List Comment) × (fetch_thread_rows_for_roots t roots hidden ≡ some rows)
      × ((c : Comment)
          → In c rows ↔ (
              In c t.comments
              × (is_visible hidden c ≡ true)
              × (is_some (author_of t c) ≡ true)
              × Shown t.comments hidden roots c.id))
unfolding fetch_thread_rows_for_roots
fetch_thread_rows_for_roots_lem t roots hidden =
    let (ids, ends, exact) = expand_collects t.comments hidden roots in
    let taken = λ (c : Comment). mem c.id ids && is_visible hidden c && is_some (author_of t c) in
    (
      select taken t.comments,
      ground (arith, ends),
      λ c. (
        λ i.
            let (stored, test) = (In-select taken c t.comments).0 i in
            (stored, ground arith, ground arith, (exact c.id).0 (ground arith)),
        λ (stored, seen, written, shown).
            let m = (exact c.id).1 shown in (In-select taken c t.comments).1 (stored, ground arith),
      ),
    )
