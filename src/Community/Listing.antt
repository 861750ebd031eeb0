-- ===== src/Community/Listing.antt =====
-- The listing of app/services/comments.py: which comments a page shows, and how they are nested.
use movie_api.Shared.{
  ℕ, zero, suc, ◌-◌, ◌*◌, String, Bool, false, not, ◌&&◌, Option, none, some, List, [], ◌∷◌, ◌++◌,
  map, length, ltb, ◌==◌, if◌then◌else◌, first, exists, select, sort_by, take, str_eq, opt_eq,
  is_some, strip, before_at,
}
use movie_api.Models.{User}
use movie_api.Community.{
  Comment, Vote, up, down, CommentVote, CommentReport, UserBlock, CommentDb, is_live,
}

-- Scores are integers.
pub data ℤ : Type 0 where
  pos negsuc : ℕ → ℤ

abbrev pub suc_ℤ : ℤ → ℤ
suc_ℤ (pos n) = pos (suc n)
suc_ℤ (negsuc zero) = pos 0
suc_ℤ (negsuc (suc n)) = negsuc n

abbrev pub pred_ℤ : ℤ → ℤ
pred_ℤ (pos zero) = negsuc 0
pred_ℤ (pos (suc n)) = pos n
pred_ℤ (negsuc n) = negsuc (suc n)

-- `x in xs`
abbrev pub mem : ℕ → List ℕ → Bool
mem a xs = exists (λ x. x == a) xs

abbrev pub comment_id_of : Comment → ℕ
comment_id_of c = c.id

-- `func.coalesce(func.sum(CommentVote.value), 0)`
abbrev pub add_vote : Vote → ℤ → ℤ
add_vote up z = suc_ℤ z
add_vote down z = pred_ℤ z

abbrev pub sum_votes : List CommentVote → ℤ
sum_votes [] = pos 0
sum_votes (v ∷ vs) = add_vote v.value (sum_votes vs)

-- The maps of `load_vote_and_report_maps`, at a comment: its score, the vote and the report of a user.
unfoldable pub score_of : CommentDb → ℕ → ℤ
score_of t comment_id = sum_votes (select (λ (v : CommentVote). v.comment_id == comment_id) t.votes)

abbrev pub vote_by : ℕ → ℕ → CommentVote → Bool
vote_by user_id comment_id v = v.user_id == user_id && v.comment_id == comment_id

unfoldable pub user_vote_of : CommentDb → Option ℕ → ℕ → Option Vote
user_vote_of t none comment_id = none
user_vote_of t (some user_id) comment_id = elim (first (vote_by user_id comment_id) t.votes) [
  | none ↦ none
  | some v ↦ some v.value
]

unfoldable pub user_reported : CommentDb → Option ℕ → ℕ → Bool
user_reported t none comment_id = false
user_reported t (some user_id) comment_id =
    exists (λ (r : CommentReport). r.user_id == user_id && r.comment_id == comment_id) t.reports

-- `blocked_author_ids`
unfoldable pub blocked_author_ids : CommentDb → ℕ → List ℕ
blocked_author_ids t blocker_id =
    map (λ (b : UserBlock). b.blocked_id)
      (select (λ (b : UserBlock). b.blocker_id == blocker_id) t.blocks)

-- The conditions `visible`.
abbrev pub is_visible : List ℕ → Comment → Bool
is_visible hidden c = is_live c && not (mem c.user_id hidden)

abbrev pub replies_to : List ℕ → List ℕ → Comment → Bool
replies_to hidden frontier c =
    elim c.parent_id [ none ↦ false | some parent_id ↦ mem parent_id frontier ]
    && is_visible hidden c

-- What a turn of the loop adds.
abbrev pub next_frontier : List Comment → List ℕ → List ℕ → List ℕ → List ℕ
next_frontier rows hidden frontier all_ids =
    select (λ id. not (mem id all_ids))
      (map comment_id_of (select (replies_to hidden frontier) rows))

-- The loop of `fetch_thread_rows_for_roots`; none where the fuel runs out.
unfoldable pub expand : ℕ → List Comment → List ℕ → List ℕ → List ℕ → Option (List ℕ)
expand zero rows hidden frontier all_ids = none
expand (suc fuel) rows hidden [] all_ids = some all_ids
expand (suc fuel) rows hidden (f ∷ fs) all_ids =
    let new_ids = next_frontier rows hidden (f ∷ fs) all_ids in
    expand fuel rows hidden new_ids (new_ids ++ all_ids)

-- Enough for every table.
abbrev pub fuel_for : List Comment → ℕ
fuel_for rows = suc (suc (length rows))

abbrev pub author_of : CommentDb → Comment → Option User
author_of t c = first (λ (u : User). u.id == c.user_id) t.users

-- `fetch_thread_rows_for_roots`: the rows, joined with their authors
unfoldable pub fetch_thread_rows_for_roots : CommentDb → List ℕ → List ℕ → Option (List Comment)
unfolding expand
fetch_thread_rows_for_roots t root_ids hidden =
    elim (expand (fuel_for t.comments) t.comments hidden root_ids root_ids) [
      | none ↦ none
      | some all_ids ↦ some (
          select (λ c. mem c.id all_ids && is_visible hidden c && is_some (author_of t c))
            t.comments)
    ]

-- `author_display_name`
unfoldable pub author_display_name : Option User → String
author_display_name none = "Deleted User"
author_display_name (some u) =
    let local : String = if str_eq (before_at u.email) "" then "User" else before_at u.email in
    elim u.full_name [
      | none ↦ local
      | some name ↦ if str_eq (strip name) "" then local else strip name
    ]

-- `CommentThreadRead`: a node, with its replies as references to nodes
pub record ThreadNode : Type 0 where
  pub comment : Comment
  pub display_name : String
  pub score : ℤ
  pub user_vote : Option Vote
  pub user_reported : Bool
  pub replies : List ℕ

-- `sorted(child_ids, key=created_at)`, of the children of a comment
abbrev pub sorted_children : List Comment → ℕ → List ℕ
sorted_children rows parent_id = map comment_id_of (
    sort_by (λ a b. ltb a.created_at b.created_at)
      (select (λ c. opt_eq c.parent_id parent_id) rows))

-- `to_comment_read`
unfoldable pub to_comment_read : CommentDb → Option ℕ → Comment → List ℕ → ThreadNode
to_comment_read t user_id c replies = record {
  comment = c;
  display_name = author_display_name (author_of t c);
  score = score_of t c.id;
  user_vote = user_vote_of t user_id c.id;
  user_reported = user_reported t user_id c.id;
  replies = replies;
}

-- `build_comment_threads`: the nodes, and the roots among them
unfoldable pub build_comment_threads :
    CommentDb → Option ℕ → List Comment → List ℕ → List ThreadNode × List ℕ
build_comment_threads t user_id rows root_ids = (
  map (λ c. to_comment_read t user_id c (sorted_children rows c.id)) rows,
  select (λ id. exists (λ (c : Comment). c.id == id) rows) root_ids,
)

-- `offset(n)`
abbrev pub drop : {A : Type 0} → ℕ → List A → List A
drop zero xs = xs
drop (suc n) [] = []
drop (suc n) (x ∷ xs) = drop n xs

-- The query for the roots.
unfoldable pub root_rows : CommentDb → List ℕ → ℕ → List Comment
root_rows t hidden content_id =
    sort_by (λ a b. ltb b.created_at a.created_at)
      (select
        (λ (c : Comment).
          c.content_id == content_id && not (is_some c.parent_id) && is_visible hidden c)
        t.comments)

-- `list_comment_threads`, from page 1 on: the page, and the number of all roots
unfoldable pub list_comment_threads :
    CommentDb → ℕ → Option ℕ → ℕ → ℕ → Option ((List ThreadNode × List ℕ) × ℕ)
unfolding root_rows fetch_thread_rows_for_roots build_comment_threads blocked_author_ids
list_comment_threads t content_id user_id page page_size =
    let hidden : List ℕ = elim user_id [ none ↦ [] | some id ↦ blocked_author_ids t id ] in
    let roots : List Comment = root_rows t hidden content_id in
    let root_ids : List ℕ =
      map comment_id_of (take page_size (drop ((page - 1) * page_size) roots)) in
    elim (fetch_thread_rows_for_roots t root_ids hidden) [
      | none ↦ none
      | some rows ↦ some (build_comment_threads t user_id rows root_ids, length roots)
    ]
