-- ===== src/Publishing/Movies.antt =====
-- What the handlers and the sweeper keep of the movies, and what one field of a request changes.
use movie_api.Shared.{
  ℕ, ◌≡◌, ◌⊎◌, refl, sym, subst, String, Bool, true, false, not, ◌||◌, Option, none, some, arith,
  if◌then◌else◌, Result, ok, run, first, update, All, All-In, All-update, In-first, Option-cases,
  Result-cases, inl, inr,
}
use movie_api.Publishing.{
  PublishState, Content, CatalogDb, is_single, is_live, apply_movie_publish_state,
  ensure_movie_publishable, movie_is_publishable, promote,
}
use movie_api.Publishing.ContentAdmin.{
  ContentUpdate, flag, joined, by_content_id, movie_state, changed_content, change_movie,
  movie_of_slug, movie_of_id, update_movie, update_admin_movie,
}
use movie_api.Publishing.Sweep.{live_movie, due_movies, sweep_due_scheduled_movies}
use movie_api.Publishing.Due.{promote-All, sweep_movies-promote}
use movie_api.Publishing.Shelf.{is_settled, apply-is_settled}

-- Published means public, and scheduled means a time to go live, of a movie.
abbrev pub IsSettled : Content → Type 0
IsSettled m = (not (is_single m.type) || is_settled m.state) ≡ true

movie_state-IsSettled :
    (d : ContentUpdate) (m : Content) (state : PublishState)
    → d.is_published ≡ none
    → IsSettled m
    → movie_state d m.type m.state ≡ ok state
    → IsSettled (changed_content d m state)
unfolding movie_state apply_movie_publish_state
movie_state-IsSettled d m state unset h e =
    let set : PublishState = record m.state {
      is_published = flag d.is_published m.state.is_published;
    } in
    elim (Option-cases (joined d.status)) [
      | inr (text, asked) ↦ ground (arith, apply-is_settled (some text) d.publish_at set state)
      | inl unasked ↦ elim (Option-cases d.publish_at) [
        | inr (at, timed) ↦ ground (arith, apply-is_settled none (some at) set state)
        | inl untimed ↦ ground arith
      ]
    ]

-- A change stores nothing, or the row that passed its checks.
change_stores :
    (d : ContentUpdate) (found : Option Content) (t : CatalogDb)
    → ((run (change_movie d found) t).1.contents ≡ t.contents)
      ⊎ ((old : Content) × (state : PublishState) × (found ≡ some old)
          × (movie_state d old.type old.state ≡ ok state)
          × ((run (change_movie d found) t).1.contents
              ≡ update (by_content_id old.id) (λ _. changed_content d old state) t.contents))
unfolding change_movie
change_stores d none t = inl refl
change_stores d (some old) t = elim (Result-cases (movie_state d old.type old.state)) [
  | inl (error, refused) ↦ inl (ground arith)
  | inr (state, applied) ↦
      let movie = changed_content d old state in
      elim (Result-cases
        (if is_live state.status then ensure_movie_publishable t.transcode_jobs movie else ok tt)) [
          | inl (error, unready) ↦ inl (ground arith)
          | inr (_, ready) ↦ inr (old, state, refl, applied, ground arith)
        ]
]

change_movie-IsSettled :
    (d : ContentUpdate) (p : Content → Bool) (t : CatalogDb)
    → d.is_published ≡ none
    → All IsSettled t.contents
    → All IsSettled (run (change_movie d (first p t.contents)) t).1.contents
change_movie-IsSettled d p t unset h = elim (change_stores d (first p t.contents) t) [
  | inl same ↦ subst (All IsSettled) (sym same) h
  | inr (old, state, found, applied, changed) ↦
      let row =
        movie_state-IsSettled d old state unset
          (All-In IsSettled t.contents h (In-first p t.contents found)) applied in
      subst (All IsSettled) (sym changed) (
        All-update IsSettled (by_content_id old.id) (λ _. changed_content d old state) t.contents
          (λ _ _. row) h)
]

sweep-IsSettled :
    (now limit : ℕ) (t : CatalogDb)
    → All IsSettled t.contents
    → All IsSettled (run (sweep_due_scheduled_movies now limit) t).1.contents
unfolding promote
sweep-IsSettled now limit t h =
    subst (λ (r : Result ℕ × CatalogDb). All IsSettled r.1.contents)
      (sym (sweep_movies-promote now limit t))
      (promote-All (λ m. m.id) live_movie IsSettled (movie_is_publishable t.transcode_jobs)
        (due_movies now limit t.contents) t.contents (λ m ready. ground arith) h)

-- An admin's change of a movie that leaves `is_published` unset, or a sweep.
pub data MovieStep (t : CatalogDb) : CatalogDb → Type 0 where
  updates :
      (slug : String) (d : ContentUpdate)
      → d.is_published ≡ none
      → MovieStep t (run (update_movie slug d) t).1
  updates_by_id :
      (movie_id : ℕ) (d : ContentUpdate)
      → d.is_published ≡ none
      → MovieStep t (run (update_admin_movie movie_id d) t).1
  sweeps : (now limit : ℕ) → MovieStep t (run (sweep_due_scheduled_movies now limit) t).1

-- Where every stored movie is settled, every movie is settled after a change that leaves
-- `is_published` unset, or a sweep: published is the same as public, and a movie has a time to go live
-- just where it is scheduled.
pub MovieStep-IsSettled :
    {t u : CatalogDb} → All IsSettled t.contents → MovieStep t u → All IsSettled u.contents
unfolding update_movie update_admin_movie
MovieStep-IsSettled {t} h (updates slug d unset) =
    change_movie-IsSettled d (movie_of_slug slug) t unset h
MovieStep-IsSettled {t} h (updates_by_id movie_id d unset) =
    change_movie-IsSettled d (movie_of_id movie_id) t unset h
MovieStep-IsSettled {t} h (sweeps now limit) = sweep-IsSettled now limit t h

-- A request that sets `is_published` to True and neither a status nor a time makes any movie public
-- that is not marked as published, whether it has a poster or a video or not, and its status stays.
pub unchecked_publish :
    (slug : String) (d : ContentUpdate) (m : Content) (t : CatalogDb)
    → first (movie_of_slug slug) t.contents ≡ some m
    → is_live m.state.status ≡ false
    → d.is_published ≡ some true
    → joined d.status ≡ none
    → d.publish_at ≡ none
    → let public = changed_content d m (record m.state { is_published = true }) in
      run (update_movie slug d) t
      ≡ (ok public, record t { contents = update (by_content_id m.id) (λ _. public) t.contents })
unfolding update_movie change_movie movie_state
unchecked_publish slug d m t found not_live on unasked untimed = ground arith
