-- ===== src/Community.antt =====
-- app/services/comments.py, with create_comment of app/routers/comments.py: comments on movies, the
-- replies to them, votes, reports and blocked users.
pub mod Threads
pub mod Depth
pub mod Shallow
pub mod Listing
pub mod Ids
pub mod Votes
use movie_api.Shared.{
  ℕ, zero, suc, String, Bool, true, false, not, ◌&&◌, Option, none, some, List, [], ◌∷◌, leb, ◌==◌,
  if◌then◌else◌, first, exists, select, update, str_eq, is_some, strip, Tx, Result, ok, err, gets,
  modify, commit, or_raise, raise_if, pure, ◌>>=◌, ◌>>◌, HttpError, not_found, conflict, forbidden,
  bad_request, fixed,
}
use movie_api.Models.{User}
use movie_api.Shop.{ContentType, single}

-- The columns of a title that are read here.
pub record Commented : Type 0 where
  pub id : ℕ
  pub type : ContentType
  pub status : String

pub record Comment : Type 0 where
  pub id : ℕ
  pub content_id : ℕ
  pub user_id : ℕ
  pub parent_id : Option ℕ
  pub body : String
  pub created_at : ℕ
  pub updated_at : ℕ
  pub deleted_at : Option ℕ

-- `ck_comment_votes_value`: 1 or -1
pub data Vote : Type 0 where
  up down : Vote

pub record CommentVote : Type 0 where
  pub user_id : ℕ
  pub comment_id : ℕ
  pub value : Vote

pub record CommentReport : Type 0 where
  pub user_id : ℕ
  pub comment_id : ℕ

pub record UserBlock : Type 0 where
  pub blocker_id : ℕ
  pub blocked_id : ℕ

pub record CommentDb : Type 0 where
  pub users : List User
  pub contents : List Commented
  pub comments : List Comment
  pub votes : List CommentVote
  pub reports : List CommentReport
  pub blocks : List UserBlock

abbrev pub max_reply_depth : ℕ
max_reply_depth = 8

abbrev pub is_single : ContentType → Bool
is_single single = true
is_single _ = false

abbrev pub by_comment_id : ℕ → Comment → Bool
by_comment_id id c = c.id == id

abbrev pub is_live : Comment → Bool
is_live c = not (is_some c.deleted_at)

-- A row that is there and not deleted.
abbrev pub live : Option Comment → Option Comment
live none = none
live (some c) = if is_live c then some c else none

-- `get_comment_or_404`
unfoldable pub get_comment_or_404 : ℕ → Tx CommentDb Comment
get_comment_or_404 comment_id = do
  found ← gets (λ t. first (by_comment_id comment_id) t.comments)
  or_raise (live found) (not_found (fixed "Comment not found"))

abbrev pub movie_error : HttpError
movie_error = not_found (fixed "Movie not found")

-- `get_movie_content_or_404`
unfoldable pub get_movie_content_or_404 : ℕ → Tx CommentDb Commented
get_movie_content_or_404 content_id = do
  found ← gets (λ t. first (λ (c : Commented). c.id == content_id) t.contents)
  content ← or_raise found movie_error
  raise_if (not (is_single content.type)) movie_error
  pure content

-- `ensure_commentable_movie`
unfoldable pub ensure_commentable_movie : Bool → ℕ → Tx CommentDb Commented
unfolding get_movie_content_or_404
ensure_commentable_movie allow_unpublished content_id = do
  content ← get_movie_content_or_404 content_id
  raise_if (not allow_unpublished && not (str_eq content.status "published")) movie_error
  pure content

abbrev pub parent_error : HttpError
parent_error = not_found (fixed "Parent comment not found")

-- The loop of `_comment_depth`, with the number of steps that are left before it breaks off.
unfoldable pub climb : ℕ → CommentDb → Comment → Result ℕ
climb zero t c = elim c.parent_id [ none ↦ ok 0 | some _ ↦ ok 1 ]
climb (suc room) t c = elim c.parent_id [
  | none ↦ ok 0
  | some parent_id ↦ elim (live (first (by_comment_id parent_id) t.comments)) [
    | none ↦ err parent_error
    | some parent ↦ elim (climb room t parent) [ err e ↦ err e | ok depth ↦ ok (suc depth) ]
  ]
]

-- `_comment_depth`
unfoldable pub comment_depth : Comment → Tx CommentDb ℕ
unfolding climb
comment_depth comment c = (climb max_reply_depth c.current comment, c)

-- `validate_parent_comment`
unfoldable pub validate_parent_comment : ℕ → Option ℕ → Tx CommentDb Unit
unfolding get_comment_or_404 comment_depth
validate_parent_comment content_id none = pure tt
validate_parent_comment content_id (some parent_id) = do
  parent ← get_comment_or_404 parent_id
  raise_if (not (parent.content_id == content_id))
      (bad_request (fixed "Parent comment belongs to a different movie"))
  depth ← comment_depth parent
  raise_if (leb max_reply_depth depth) (bad_request (fixed "Maximum reply depth reached"))

-- `create_comment` of the router; `id` is the key of the new row
unfoldable pub create_comment : ℕ → ℕ → User → ℕ → Option ℕ → String → Tx CommentDb Comment
unfolding ensure_commentable_movie validate_parent_comment
create_comment now id user content_id parent_id body = do
  ensure_commentable_movie false content_id
  validate_parent_comment content_id parent_id
  let comment : Comment = record {
    id = id;
    content_id = content_id;
    user_id = user.id;
    parent_id = parent_id;
    body = strip body;
    created_at = now;
    updated_at = now;
    deleted_at = none;
  }
  modify (λ t. record t { comments = comment ∷ t.comments })
  commit
  pure comment

abbrev pub set_deleted : ℕ → Comment → Comment
set_deleted now c = record c { deleted_at = some now }

-- `soft_delete_comment`
unfoldable pub soft_delete_comment : ℕ → Comment → Tx CommentDb Unit
soft_delete_comment now comment = do
  modify
      (λ t. record t { comments = update (by_comment_id comment.id) (set_deleted now) t.comments })
  commit

abbrev pub set_body : ℕ → String → Comment → Comment
set_body now body c = record c { body = strip body; updated_at = now }

-- `update_comment_body`
unfoldable pub update_comment_body : ℕ → Comment → String → Tx CommentDb Unit
update_comment_body now comment body = do
  modify (λ t. record t {
    comments = update (by_comment_id comment.id) (set_body now body) t.comments;
  })
  commit

-- `delete_admin_comment` and `update_admin_comment` of app/routers/admin/comments.py
unfoldable pub delete_admin_comment : ℕ → ℕ → Tx CommentDb Unit
unfolding get_comment_or_404 soft_delete_comment
delete_admin_comment now comment_id = do
  comment ← get_comment_or_404 comment_id
  soft_delete_comment now comment

unfoldable pub update_admin_comment : ℕ → ℕ → String → Tx CommentDb Unit
unfolding get_comment_or_404 ensure_commentable_movie update_comment_body
update_admin_comment now comment_id body = do
  comment ← get_comment_or_404 comment_id
  ensure_commentable_movie true comment.content_id
  update_comment_body now comment body

-- `report_comment`
unfoldable pub report_comment : Comment → ℕ → Tx CommentDb Unit
report_comment comment user_id = do
  existing ← gets (λ t.
      exists (λ (r : CommentReport). r.user_id == user_id && r.comment_id == comment.id) t.reports)
  raise_if existing (conflict (fixed "Comment already reported"))
  modify (λ t. record t {
    reports = record { user_id = user_id; comment_id = comment.id } ∷ t.reports;
  })
  commit

-- `block_user`; the pair is the key of the table
unfoldable pub block_user : ℕ → ℕ → Tx CommentDb Unit
block_user blocker_id blocked_id = do
  raise_if (blocker_id == blocked_id) (forbidden (fixed "You cannot block yourself"))
  modify (λ t.
      let known =
        exists (λ (b : UserBlock). b.blocker_id == blocker_id && b.blocked_id == blocked_id)
          t.blocks in
      if known then t else record t {
        blocks = record { blocker_id = blocker_id; blocked_id = blocked_id } ∷ t.blocks;
      })
  commit
