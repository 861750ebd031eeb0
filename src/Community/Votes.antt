-- ===== src/Community/Votes.antt =====
-- set_comment_vote of app/services/comments.py: a vote of a user counts once, and shows as it was given.
use movie_api.Shared.{
  ℕ, zero, suc, ◌≤◌, ◌≡◌, refl, sym, subst, ◌∙◌, Bool, not, ◌&&◌, Option, none, some, List, [], ◌∷◌,
  ◌==◌, ==_refl, if◌then◌else◌, first, exists, select, count, update, run, Tx, ok, gets, modify,
  commit, or_raise, pure, ◌>>=◌, ◌>>◌, unprocessable, fixed, Option-cases, Bool-cases, inl, inr,
  arith, update_of_none, first-update_self,
}
use movie_api.Community.{Comment, Vote, up, down, CommentVote, CommentDb}
use movie_api.Community.Listing.{
  ℤ, pos, negsuc, suc_ℤ, pred_ℤ, add_vote, sum_votes, score_of, vote_by, user_vote_of,
}

-- `value in (-1, 0, 1)`, and `value if value != 0 else None`
abbrev pub read_vote : ℤ → Option (Option Vote)
read_vote (pos zero) = some none
read_vote (pos (suc zero)) = some (some up)
read_vote (negsuc zero) = some (some down)
read_vote _ = none

abbrev pub set_value : Vote → CommentVote → CommentVote
set_value v r = record r { value = v }

-- The three branches of the write.
unfoldable pub store_vote : ℕ → ℕ → Option Vote → List CommentVote → List CommentVote
store_vote user_id comment_id none votes =
    if exists (vote_by user_id comment_id) votes
    then select (λ v. not (vote_by user_id comment_id v)) votes
    else votes
store_vote user_id comment_id (some v) votes =
    if exists (vote_by user_id comment_id) votes
    then update (vote_by user_id comment_id) (set_value v) votes
    else record { user_id = user_id; comment_id = comment_id; value = v } ∷ votes

-- `set_comment_vote`
unfoldable pub set_comment_vote : Comment → ℕ → ℤ → Tx CommentDb (ℤ × Option Vote)
unfolding store_vote
set_comment_vote comment user_id value = do
  wanted ← or_raise (read_vote value) (unprocessable (fixed "Invalid vote"))
  modify (λ t. record t { votes = store_vote user_id comment.id wanted t.votes })
  commit
  score ← gets (λ t. score_of t comment.id)
  pure (score, wanted)

suc-pred : (z : ℤ) → suc_ℤ (pred_ℤ z) ≡ z
suc-pred (pos zero) = refl
suc-pred (pos (suc n)) = refl
suc-pred (negsuc n) = refl

pred-suc : (z : ℤ) → pred_ℤ (suc_ℤ z) ≡ z
pred-suc (pos n) = refl
pred-suc (negsuc zero) = refl
pred-suc (negsuc (suc n)) = refl

-- The order of votes makes no difference.
add_vote_comm : (v w : Vote) (z : ℤ) → add_vote v (add_vote w z) ≡ add_vote w (add_vote v z)
add_vote_comm up up z = refl
add_vote_comm up down z = suc-pred z ∙ sym (pred-suc z)
add_vote_comm down up z = pred-suc z ∙ sym (suc-pred z)
add_vote_comm down down z = refl

module _ (user_id comment_id : ℕ) where
  abbrev on_comment : CommentVote → Bool
  on_comment v = v.comment_id == comment_id

  -- The score that the others give.
  abbrev pub others : List CommentVote → ℤ
  others votes =
      sum_votes (select (λ v. v.comment_id == comment_id && not (v.user_id == user_id)) votes)

  removed_sum :
      (votes : List CommentVote)
      → sum_votes (select on_comment (select (λ v. not (vote_by user_id comment_id v)) votes))
        ≡ others votes
  removed_sum [] = refl
  removed_sum (x ∷ votes) = ground (arith, removed_sum votes)

  removed_none :
      (votes : List CommentVote)
      → first (vote_by user_id comment_id) (select (λ v. not (vote_by user_id comment_id v)) votes)
        ≡ none
  removed_none [] = refl
  removed_none (x ∷ votes) = ground (arith, removed_none votes)

  no_vote_sum :
      (votes : List CommentVote)
      → first (vote_by user_id comment_id) votes ≡ none
      → sum_votes (select on_comment votes) ≡ others votes
  no_vote_sum [] e = refl
  no_vote_sum (x ∷ votes) e = ground (arith, no_vote_sum votes)

  none_of_count :
      (votes : List CommentVote)
      → count (vote_by user_id comment_id) votes ≤ 0
      → first (vote_by user_id comment_id) votes ≡ none
  none_of_count [] e = refl
  none_of_count (x ∷ votes) e = ground (arith, none_of_count votes)

  updated_sum :
      (v : Vote) (votes : List CommentVote) {r : CommentVote}
      → count (vote_by user_id comment_id) votes ≤ 1
      → first (vote_by user_id comment_id) votes ≡ some r
      → sum_votes (select on_comment (update (vote_by user_id comment_id) (set_value v) votes))
        ≡ add_vote v (others votes)
  updated_sum v [] once e = cc
  updated_sum v (x ∷ votes) {r} once e = elim (Bool-cases (vote_by user_id comment_id x)) [
    | inl mine ↦
        let gone = none_of_count votes (ground arith) in
        ground (
          arith,
          no_vote_sum votes gone,
          update_of_none (vote_by user_id comment_id) (set_value v) votes gone,
        )
    | inr other ↦
        ground (arith, updated_sum v votes {r = r}, add_vote_comm x.value v (others votes))
  ]

  -- What is stored of the vote, with what it adds to the others' score.
  abbrev pub with_vote : Option Vote → ℤ → ℤ
  with_vote none z = z
  with_vote (some v) z = add_vote v z

  stored_sum :
      (wanted : Option Vote) (votes : List CommentVote)
      → count (vote_by user_id comment_id) votes ≤ 1
      → sum_votes (select on_comment (store_vote user_id comment_id wanted votes))
        ≡ with_vote wanted (others votes)
  unfolding store_vote
  stored_sum none votes once = elim (Option-cases (first (vote_by user_id comment_id) votes)) [
    | inl missing ↦ ground (arith, no_vote_sum votes)
    | inr (r, found) ↦ ground (arith, removed_sum votes)
  ]
  stored_sum (some v) votes once = elim (Option-cases (first (vote_by user_id comment_id) votes)) [
    | inl missing ↦ ground (arith, no_vote_sum votes, ==_refl comment_id)
    | inr (r, found) ↦ ground (arith, updated_sum v votes {r = r})
  ]

  stored_vote :
      (wanted : Option Vote) (votes : List CommentVote)
      → elim (first (vote_by user_id comment_id) (store_vote user_id comment_id wanted votes)) [
        | none ↦ none
        | some r ↦ some r.value
      ]
        ≡ wanted
  unfolding store_vote
  stored_vote none votes = elim (Option-cases (first (vote_by user_id comment_id) votes)) [
    | inl missing ↦ ground arith
    | inr (r, found) ↦ ground (arith, removed_none votes)
  ]
  stored_vote (some v) votes = elim (Option-cases (first (vote_by user_id comment_id) votes)) [
    | inl missing ↦ ground (arith, ==_refl comment_id, ==_refl user_id)
    | inr (r, found) ↦ ground (
      arith,
      first-update_self (vote_by user_id comment_id) (set_value v) votes (λ x. refl) found,
    )
  ]

-- A vote of 1, -1 or 0 by a user with at most one vote on the comment so far is answered by the
-- score and the vote that the listing shows from then on: the vote is the one given, none for 0, and
-- the score is what the other users give plus this vote, whatever the user voted before.
pub vote_shows :
    (comment : Comment) (user_id : ℕ) (value : ℤ) (wanted : Option Vote) (t : CommentDb)
    → read_vote value ≡ some wanted
    → count (vote_by user_id comment.id) t.votes ≤ 1
    → let (answer, t') = run (set_comment_vote comment user_id value) t in
      (answer ≡ ok (score_of t' comment.id, wanted))
      × (user_vote_of t' (some user_id) comment.id ≡ wanted)
      × (score_of t' comment.id
          ≡ with_vote user_id comment.id wanted (others user_id comment.id t.votes))
unfolding set_comment_vote score_of user_vote_of
vote_shows comment user_id value wanted t valid once =
    let t' = record t { votes = store_vote user_id comment.id wanted t.votes } in
    let done : run (set_comment_vote comment user_id value) t
        ≡ (ok (score_of t' comment.id, wanted), t') =
      ground arith in
    subst
      (λ r.
        (r.0 ≡ ok (score_of r.1 comment.id, wanted))
        × (user_vote_of r.1 (some user_id) comment.id ≡ wanted)
        × (score_of r.1 comment.id
            ≡ with_vote user_id comment.id wanted (others user_id comment.id t.votes)))
      (sym done)
      (
        refl,
        stored_vote user_id comment.id wanted t.votes,
        stored_sum user_id comment.id wanted t.votes once,
      )
