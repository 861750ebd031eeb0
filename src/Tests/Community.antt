-- ===== src/Tests/Community.antt =====
-- Comments, threads and votes at concrete inputs.
use movie_api.Shared.{◌≡◌, ◌↔◌, refl, true, none, some, List, [], ◌∷◌, In, is_some, run, ok, arith}
use movie_api.Shop.{single}
use movie_api.Community.{Comment, Commented, CommentDb, up, down, create_comment}
use movie_api.Community.Depth.{IsShallow, head, reply}
use movie_api.Community.Shallow.{posts, CommentStep-IsShallow}
use movie_api.Community.Listing.{
  negsuc, score_of, user_vote_of, fetch_thread_rows_for_roots, is_visible, author_of,
}
use movie_api.Community.Threads.{Shown, fetch_thread_rows_for_roots_lem}
use movie_api.Community.Votes.{set_comment_vote, others, with_vote, vote_shows}
use movie_api.Tests.Session.{alice}

abbrev first_comment : Comment
first_comment = record {
  id = 1;
  content_id = 100;
  user_id = 7;
  parent_id = none;
  body = "Good";
  created_at = 10;
  updated_at = 10;
  deleted_at = none;
}

abbrev answer : Comment
answer = record first_comment { id = 2; parent_id = some 1; created_at = 20 }

abbrev premiere : Commented
premiere = record { id = 100; type = single; status = "published" }

abbrev board : CommentDb
board = record {
  users = alice ∷ [];
  contents = premiere ∷ [];
  comments = answer ∷ first_comment ∷ [];
  votes =
      record { user_id = 7; comment_id = 1; value = up }
      ∷ record { user_id = 8; comment_id = 1; value = down }
      ∷ [];
  reports = [];
  blocks = [];
}

board-IsShallow : IsShallow board
board-IsShallow = (
  record { depth = 1; bound = omega arith; has = reply refl refl (head refl) },
  (record { depth = 0; bound = omega arith; has = head refl }, tt),
)

CommentStep-IsShallow_example :
    IsShallow (run (create_comment 30 3 alice 100 (some 2) " Yes ") board).1
CommentStep-IsShallow_example =
    CommentStep-IsShallow board-IsShallow (posts 30 3 alice 100 (some 2) " Yes " refl)

fetch_thread_rows_for_roots_lem_example :
    (rows : List Comment) × (fetch_thread_rows_for_roots board (1 ∷ []) [] ≡ some rows)
    × ((c : Comment)
        → In c rows ↔ (
            In c board.comments
            × (is_visible [] c ≡ true)
            × (is_some (author_of board c) ≡ true)
            × Shown board.comments [] (1 ∷ []) c.id))
fetch_thread_rows_for_roots_lem_example = fetch_thread_rows_for_roots_lem board (1 ∷ []) []

-- The user takes the vote back and votes against the comment.
vote_shows_example :
    let (shown, board') = run (set_comment_vote first_comment 7 (negsuc 0)) board in
    (shown ≡ ok (score_of board' 1, some down))
    × (user_vote_of board' (some 7) 1 ≡ some down)
    × (score_of board' 1 ≡ with_vote 7 1 (some down) (others 7 1 board.votes))
vote_shows_example = vote_shows first_comment 7 (negsuc 0) (some down) board refl (omega arith)
