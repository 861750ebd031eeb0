-- ===== src/Community/Shallow.antt =====
-- Comments that are posted, edited and deleted keep their threads shallow.
use movie_api.Shared.{
  ℕ, suc, ◌≤◌, ◌≡◌, refl, sym, subst, String, Bool, true, false, Option, none, some, ◌∷◌, first,
  update, run, ok, Result-cases, Option-cases, inl, inr, ◌⊎◌, arith, All-map, All-update, Conn,
  strip,
}
use movie_api.Models.{User}
use movie_api.Community.{
  Comment, CommentDb, max_reply_depth, by_comment_id, live, climb, comment_depth,
  get_comment_or_404, validate_parent_comment, create_comment, ensure_commentable_movie,
  get_movie_content_or_404, set_deleted, set_body, soft_delete_comment, update_comment_body,
  delete_admin_comment, update_admin_comment,
}
use movie_api.Community.Depth.{
  HasDepth, head, reply, Shallow, IsShallow, same_parent, climb-HasDepth, other_key, more-HasDepth,
  changed-HasDepth,
}

module _ (t : CommentDb) where
  abbrev start : Conn CommentDb
  start = record { current = t; saved = t }

  -- What the check of a parent lets through.
  parent_fits :
      (content_id k : ℕ)
      → (validate_parent_comment content_id (some k) start).0 ≡ ok tt
      → (parent : Comment) × (d : ℕ) × (first (by_comment_id k) t.comments ≡ some parent)
        × HasDepth t.comments d parent
        × (suc d ≤ max_reply_depth)
  unfolding validate_parent_comment get_comment_or_404 comment_depth
  parent_fits content_id k e = elim (Option-cases (first (by_comment_id k) t.comments)) [
    | inl missing ↦ absurd (ground arith)
    | inr (parent, found) ↦ elim (Result-cases (climb max_reply_depth t parent)) [
      | inl (x, failed) ↦ absurd (ground arith)
      | inr (d, went) ↦
          let fits : suc d ≤ 8 = ground arith in
          (parent, d, found, climb-HasDepth max_reply_depth t parent went (omega arith), fits)
    ]
  ]

  new_comment-Shallow :
      (new : Comment)
      → first (by_comment_id new.id) t.comments ≡ none
      → (validate_parent_comment new.content_id new.parent_id start).0 ≡ ok tt
      → Shallow (new ∷ t.comments) new
  new_comment-Shallow new fresh valid = elim (Option-cases new.parent_id) [
    | inl above ↦ record { depth = 0; bound = omega arith; has = head above }
    | inr (k, above) ↦
        let (parent, d, found, has, fits) =
          parent_fits new.content_id k
            (subst (λ o. (validate_parent_comment new.content_id o start).0 ≡ ok tt) above valid) in
        record {
          depth = suc d;
          bound = fits;
          has =
              reply above (other_key new t.comments k parent fresh found)
                (more-HasDepth new t.comments fresh has);
        }
  ]

  ensure-still :
      (allow : Bool) (content_id : ℕ) → (ensure_commentable_movie allow content_id start).1 ≡ start
  unfolding ensure_commentable_movie get_movie_content_or_404
  ensure-still allow content_id = ground arith

  validate-still :
      (content_id : ℕ) (parent_id : Option ℕ)
      → (validate_parent_comment content_id parent_id start).1 ≡ start
  unfolding validate_parent_comment get_comment_or_404 comment_depth
  validate-still content_id none = refl
  validate-still content_id (some k) =
      elim (Option-cases (live (first (by_comment_id k) t.comments))) [
        | inl missing ↦ ground arith
        | inr (parent, found) ↦ elim (Result-cases (climb max_reply_depth t parent)) [
          | inl (x, failed) ↦ ground arith
          | inr (d, went) ↦ ground arith
        ]
      ]

  -- What posting a comment stores.
  posted :
      (now id : ℕ) (user : User) (content_id : ℕ) (parent_id : Option ℕ) (body : String)
      → let stored = (run (create_comment now id user content_id parent_id body) t).1 in
        (stored ≡ t)
        ⊎ ((new : Comment) × (stored ≡ record t { comments = new ∷ t.comments })
            × (new.id ≡ id)
            × ((validate_parent_comment new.content_id new.parent_id start).0 ≡ ok tt))
  unfolding create_comment
  posted now id user content_id parent_id body =
      let ensured = ensure-still false content_id in
      let validated = validate-still content_id parent_id in
      elim (Result-cases (ensure_commentable_movie false content_id start).0) [
        | inl (e, no_movie) ↦ inl (ground arith)
        | inr (film, there) ↦
            elim (Result-cases (validate_parent_comment content_id parent_id start).0) [
              | inl (e, refused) ↦ inl (ground arith)
              | inr (u, fits) ↦ inr (
                record {
                  id = id;
                  content_id = content_id;
                  user_id = user.id;
                  parent_id = parent_id;
                  body = strip body;
                  created_at = now;
                  updated_at = now;
                  deleted_at = none;
                },
                ground arith,
                refl,
                fits,
              )
            ]
      ]

  deleted :
      (now comment_id : ℕ)
      → let stored = (run (delete_admin_comment now comment_id) t).1 in
        (stored ≡ t)
        ⊎ ((k : ℕ) × (stored
              ≡ record t { comments = update (by_comment_id k) (set_deleted now) t.comments }))
  unfolding delete_admin_comment get_comment_or_404 soft_delete_comment
  deleted now comment_id =
      elim (Option-cases (live (first (by_comment_id comment_id) t.comments))) [
        | inl missing ↦ inl (ground arith)
        | inr (c, found) ↦ inr (c.id, ground arith)
      ]

  edited :
      (now comment_id : ℕ) (body : String)
      → let stored = (run (update_admin_comment now comment_id body) t).1 in
        (stored ≡ t)
        ⊎ ((k : ℕ) × (stored
              ≡ record t { comments = update (by_comment_id k) (set_body now body) t.comments }))
  unfolding update_admin_comment get_comment_or_404 update_comment_body
  edited now comment_id body =
      elim (Option-cases (live (first (by_comment_id comment_id) t.comments))) [
        | inl missing ↦ inl (ground arith)
        | inr (c, found) ↦
            let ensured = ensure-still true c.content_id in
            elim (Result-cases (ensure_commentable_movie true c.content_id start).0) [
              | inl (e, no_movie) ↦ inl (ground arith)
              | inr (film, there) ↦ inr (c.id, ground arith)
            ]
      ]

  changed-IsShallow :
      (q : Comment → Bool) (f : Comment → Comment) {u : CommentDb}
      → ((x : Comment) → (f x).id ≡ x.id)
      → ((x : Comment) → (f x).parent_id ≡ x.parent_id)
      → IsShallow t
      → u ≡ record t { comments = update q f t.comments }
      → IsShallow u
  changed-IsShallow q f same above_same h e = subst IsShallow (sym e) (
      All-update (Shallow (update q f t.comments)) q f t.comments
        (λ c has. record {
          depth = has.depth;
          bound = has.bound;
          has = same_parent (f c) (above_same c) has.has;
        })
        (All-map (Shallow t.comments) (Shallow (update q f t.comments)) t.comments
          (λ c has. record {
            depth = has.depth;
            bound = has.bound;
            has = changed-HasDepth q f t.comments same above_same has.has;
          })
          h))

-- A request that writes to the comments; a new comment has a new key.
pub data CommentStep (t : CommentDb) : CommentDb → Type 0 where
  posts :
      (now id : ℕ) (user : User) (content_id : ℕ) (parent_id : Option ℕ) (body : String)
      → first (by_comment_id id) t.comments ≡ none
      → CommentStep t (run (create_comment now id user content_id parent_id body) t).1
  deletes : (now comment_id : ℕ) → CommentStep t (run (delete_admin_comment now comment_id) t).1
  edits :
      (now comment_id : ℕ) (body : String)
      → CommentStep t (run (update_admin_comment now comment_id body) t).1

-- Posting, deleting and editing keep every comment within eight replies below the head of its
-- thread, whatever comments are deleted in between.
pub CommentStep-IsShallow : {t u : CommentDb} → IsShallow t → CommentStep t u → IsShallow u
CommentStep-IsShallow {t} h (posts now id user content_id parent_id body fresh) =
    elim (posted t now id user content_id parent_id body) [
      | inl same ↦ subst IsShallow (sym same) h
      | inr (new, stored, key, fits) ↦
          let unknown = subst (λ n. first (by_comment_id n) t.comments ≡ none) (sym key) fresh in
          subst IsShallow (sym stored) (
            new_comment-Shallow t new unknown fits,
            All-map (Shallow t.comments) (Shallow (new ∷ t.comments)) t.comments
                (λ c has. record {
                  depth = has.depth;
                  bound = has.bound;
                  has = more-HasDepth new t.comments unknown has.has;
                })
                h,
          )
    ]
CommentStep-IsShallow {t} h (deletes now comment_id) = elim (deleted t now comment_id) [
  | inl same ↦ subst IsShallow (sym same) h
  | inr (k, stored) ↦
      changed-IsShallow t (by_comment_id k) (set_deleted now) (λ x. refl) (λ x. refl) h stored
]
CommentStep-IsShallow {t} h (edits now comment_id body) = elim (edited t now comment_id body) [
  | inl same ↦ subst IsShallow (sym same) h
  | inr (k, stored) ↦
      changed-IsShallow t (by_comment_id k) (set_body now body) (λ x. refl) (λ x. refl) h stored
]
