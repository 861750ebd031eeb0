-- ===== src/Community/Depth.antt =====
-- How deep the replies of app/services/comments.py may nest.
use movie_api.Shared.{
  ℕ, zero, suc, ◌≤◌, ◌≡◌, refl, sym, subst, ap, ◌∙◌, Bool, none, some, List, ◌∷◌, ◌==◌,
  if◌then◌else◌, first, update, ok, Result-cases, Option-cases, Bool-cases, inl, inr, ◌⊎◌, arith,
  All, first-update, ==_iff,
}
use movie_api.Community.{Comment, CommentDb, max_reply_depth, by_comment_id, climb}

-- The comment stands this many replies below the head of its thread.
pub data HasDepth (rows : List Comment) : ℕ → Comment → Type 0 where
  head : {c : Comment} → c.parent_id ≡ none → HasDepth rows 0 c
  reply :
      {c parent : Comment} {d parent_id : ℕ}
      → c.parent_id ≡ some parent_id
      → first (by_comment_id parent_id) rows ≡ some parent
      → HasDepth rows d parent
      → HasDepth rows (suc d) c

-- The comment stands at most as deep as `MAX_REPLY_DEPTH` allows.
pub record Shallow (rows : List Comment) (c : Comment) : Type 0 where
  pub depth : ℕ
  pub bound : depth ≤ max_reply_depth
  pub has : HasDepth rows depth c

-- Every stored comment is.
abbrev pub IsShallow : CommentDb → Type 0
IsShallow t = All (Shallow t.comments) t.comments

-- A depth depends on the parent only.
pub same_parent :
    {rows : List Comment} {d : ℕ} {c : Comment} (c' : Comment)
    → c'.parent_id ≡ c.parent_id
    → HasDepth rows d c
    → HasDepth rows d c'
same_parent c' e (head none_above) = head (e ∙ none_above)
same_parent c' e (reply above found has) = reply (e ∙ above) found has

taken : {A : Type 0} {a : A} → none ≡ some a → ⊥
taken e = cc

-- One turn of the loop.
climb-suc :
    (room : ℕ) (t : CommentDb) (c : Comment) {d : ℕ}
    → climb (suc room) t c ≡ ok d
    → ((c.parent_id ≡ none) × (d ≡ 0))
      ⊎ ((k : ℕ) × (parent : Comment) × (below : ℕ) × (c.parent_id ≡ some k)
          × (first (by_comment_id k) t.comments ≡ some parent)
          × (climb room t parent ≡ ok below)
          × (d ≡ suc below))
unfolding climb
climb-suc room t c {d} e = elim (Option-cases c.parent_id) [
  | inl above ↦ inl (above, ground arith)
  | inr (k, above) ↦ elim (Option-cases (first (by_comment_id k) t.comments)) [
    | inl missing ↦ absurd (ground arith)
    | inr (parent, found) ↦ elim (Result-cases (climb room t parent)) [
      | inl (x, failed) ↦ absurd (ground arith)
      | inr (below, went) ↦ inr (k, parent, below, above, found, went, ground arith)
    ]
  ]
]

-- What the loop answers within its room is the depth.
pub climb-HasDepth :
    (room : ℕ) (t : CommentDb) (c : Comment) {d : ℕ}
    → climb room t c ≡ ok d
    → d ≤ room
    → HasDepth t.comments d c
unfolding climb
climb-HasDepth zero t c {d} e le =
    subst (λ n. HasDepth t.comments n c) (ground arith) (head (ground arith))
climb-HasDepth (suc room) t c {d} e le = elim (climb-suc room t c e) [
  | inl (above, none_below) ↦ subst (λ n. HasDepth t.comments n c) (sym none_below) (head above)
  | inr (k, parent, below, above, found, went, one_more) ↦
      subst (λ n. HasDepth t.comments n c) (sym one_more)
        (reply above found (climb-HasDepth room t parent went (omega arith)))
]

pub other_key :
    (new : Comment) (rows : List Comment) (k : ℕ) (parent : Comment)
    → first (by_comment_id new.id) rows ≡ none
    → first (by_comment_id k) rows ≡ some parent
    → first (by_comment_id k) (new ∷ rows) ≡ some parent
other_key new rows k parent fresh found = elim (Bool-cases (new.id == k)) [
  | inl same ↦
      absurd
        (taken (sym fresh ∙ (ap (λ n. first (by_comment_id n) rows) ((==_iff _ _).0 same) ∙ found)))
  | inr other ↦ rw other found
]

-- A comment more, under a new key, leaves the others where they stand.
pub more-HasDepth :
    (new : Comment) (rows : List Comment) {d : ℕ} {c : Comment}
    → first (by_comment_id new.id) rows ≡ none
    → HasDepth rows d c
    → HasDepth (new ∷ rows) d c
more-HasDepth new rows fresh (head above) = head above
more-HasDepth new rows fresh (reply {parent = parent} {parent_id = k} above found has) =
    reply above (other_key new rows k parent fresh found) (more-HasDepth new rows fresh has)

-- So does a change of comments that keeps their keys and their parents.
pub changed-HasDepth :
    (q : Comment → Bool) (f : Comment → Comment) (rows : List Comment) {d : ℕ} {c : Comment}
    → ((x : Comment) → (f x).id ≡ x.id)
    → ((x : Comment) → (f x).parent_id ≡ x.parent_id)
    → HasDepth rows d c
    → HasDepth (update q f rows) d c
changed-HasDepth q f rows same above_same (head above) = head above
changed-HasDepth q f rows same above_same
      (reply {parent = parent} {parent_id = k} above found has) =
    reply above (first-update (λ (x : Comment). x.id) q f k rows same found) (
      same_parent (if q parent then f parent else parent)
        (elim (Bool-cases (q parent)) [
          | inl chosen ↦ rw chosen (above_same parent)
          | inr other ↦ rw other refl
        ])
        (changed-HasDepth q f rows same above_same has))
