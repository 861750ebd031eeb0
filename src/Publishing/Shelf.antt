-- ===== src/Publishing/Shelf.antt =====
-- What every stored series keeps over the requests of admins and the sweeper.
use movie_api.Shared.{
  ℕ, ◌≡◌, refl, String, Bool, true, false, not, ◌&&◌, ◌||◌, Option, none, some, arith,
  if◌then◌else◌, is_some, ◌==◌, Result, ok, err, run, In, In-first, All-In, subst, sym, Conn,
  not_found, fixed, ◌⊎◌, first, exists, update, All, All-update, Bool-cases, Option-cases,
  Result-cases, inl, inr, ℕ,
}
use movie_api.Publishing.{
  draft, review, scheduled, published, PublishState, Series, CatalogDb, is_set, read_status, settle,
  apply_series_publish_state, apply_legacy_is_published, ensure_series_publishable,
  series_is_publishable, promote, is_live,
}
use movie_api.Publishing.SeriesAdmin.{
  CreateSeriesBody, SeriesUpdate, created_state, create_series, updated_state, update_series,
  get_series_or_404, is_shown, with_slug, with_update,
}
use movie_api.Publishing.Sweep.{live_series, due_series, sweep_due_scheduled_series}
use movie_api.Publishing.Due.{promote-All, sweep_series-promote}

-- Published means public, scheduled means a time to go live, and no other row has either.
abbrev pub is_settled : PublishState → Bool
is_settled s = elim s.status [
  | published ↦ s.is_published && not (is_some s.publish_at)
  | scheduled ↦ not s.is_published && is_some s.publish_at
  | draft ↦ not s.is_published && not (is_some s.publish_at)
  | review ↦ not s.is_published && not (is_some s.publish_at)
]

-- The state is settled, and a published series has a poster.
abbrev pub IsShelved : Series → Type 0
IsShelved s =
    (is_settled s.state ≡ true) × ((not (is_live s.state.status) || is_set s.poster_key) ≡ true)

pub settle-is_settled : (s s' : PublishState) → settle s ≡ ok s' → is_settled s' ≡ true
unfolding settle
settle-is_settled s s' e = ground arith

pub apply-is_settled :
    (status : Option String) (publish_at : Option (Option ℕ)) (s s' : PublishState)
    → apply_series_publish_state status publish_at s ≡ ok s'
    → is_settled s' ≡ true
unfolding apply_series_publish_state
apply-is_settled none none s s' e = settle-is_settled s s' e
apply-is_settled none (some at) s s' e = settle-is_settled (record s { publish_at = at }) s' e
apply-is_settled (some text) publish_at s s' e =
    let timed : PublishState = elim publish_at [
      | none ↦ s
      | some at ↦ record s { publish_at = at }
    ] in
    elim (Option-cases (read_status text)) [
      | inl unknown ↦ ground arith
      | inr (new, read) ↦ ground (arith, settle-is_settled (record timed { status = new }) s')
    ]

legacy-is_settled :
    (on : Bool) (s s' : PublishState)
    → apply_legacy_is_published on s ≡ ok s'
    → is_settled s' ≡ true
unfolding apply_legacy_is_published
legacy-is_settled true s s' e = apply-is_settled (some "published") none s s' e
legacy-is_settled false s s' e = apply-is_settled (some "draft") none s s' e

updated-is_settled :
    (d : SeriesUpdate) (s s' : PublishState)
    → is_settled s ≡ true
    → updated_state d s ≡ ok s'
    → is_settled s' ≡ true
unfolding updated_state
updated-is_settled d s s' h e = elim (Option-cases d.status) [
  | inr (text, asked) ↦ ground (arith, apply-is_settled (some text) d.publish_at s s')
  | inl unasked ↦ elim (Option-cases d.publish_at) [
    | inr (at, timed) ↦ ground (arith, apply-is_settled none (some at) s s')
    | inl untimed ↦ elim (Option-cases d.is_published) [
      | inr (on, legacy) ↦ ground (arith, legacy-is_settled on s s')
      | inl unset ↦ ground arith
    ]
  ]
]

drafted :
    (s s' : PublishState)
    → apply_series_publish_state (some "draft") none s ≡ ok s'
    → is_live s'.status ≡ false
unfolding apply_series_publish_state settle read_status
drafted s s' e = ground arith

created-is_settled :
    (d : CreateSeriesBody) (s : PublishState)
    → created_state d ≡ ok s
    → (is_settled s ≡ true) × (is_live s.status ≡ false)
unfolding created_state
created-is_settled d s e = elim (Option-cases (read_status d.status)) [
  | inl unknown ↦ ground arith
  | inr (status, read) ↦
      let fresh : PublishState = record {
        status = status;
        is_published = false;
        publish_at = d.publish_at;
      } in
      elim (Result-cases (apply_series_publish_state (some d.status) (some d.publish_at) fresh)) [
        | inl (error, refused) ↦ ground arith
        | inr (s', applied) ↦ ground (
          arith,
          apply-is_settled (some d.status) (some d.publish_at) fresh s',
          apply-is_settled (some "draft") none s' s,
          drafted s' s,
        )
      ]
]

create_series-IsShelved :
    (now id : ℕ) (slug : String) (d : CreateSeriesBody) (t : CatalogDb)
    → All IsShelved t.series
    → All IsShelved (run (create_series now id slug d) t).1.series
unfolding create_series
create_series-IsShelved now id slug d t h = elim (Result-cases (created_state d)) [
  | inl (error, refused) ↦ rw refused h
  | inr (s, made) ↦ elim (Bool-cases (exists (with_slug slug) t.series)) [
    | inl taken ↦ rw (made, taken) h
    | inr free ↦
        let (settled, not_live) = created-is_settled d s made in
        rw (made, free) ((settled, ground (arith, not_live)), h)
  ]
]

pub get_series-cases :
    (slug : String) (published_only : Bool) (c : Conn CatalogDb)
    → (get_series_or_404 slug published_only c ≡ (err (not_found (fixed "Series not found")), c))
      ⊎ ((s : Series) × (get_series_or_404 slug published_only c ≡ (ok s, c)))
unfolding get_series_or_404
get_series-cases slug published_only c =
    elim (Option-cases (first (is_shown slug published_only) c.current.series)) [
      | inl missing ↦ inl (ground arith)
      | inr (s, found) ↦ inr (s, ground arith)
    ]

publishable : (s : Series) → series_is_publishable s ≡ true → is_set s.poster_key ≡ true
unfolding series_is_publishable ensure_series_publishable
publishable s e = ground arith

-- A request to update stores nothing, or the row that passed its checks.
updated_stores :
    (optimize : String → String) (slug : String) (d : SeriesUpdate) (t : CatalogDb)
    → ((run (update_series optimize slug d) t).1.series ≡ t.series)
      ⊎ ((old : Series) × (state : PublishState) × (updated_state d old.state ≡ ok state)
          × ((if is_live state.status
                then ensure_series_publishable (with_update optimize d old state)
                else ok tt)
              ≡ ok tt)
          × (In old t.series)
          × ((run (update_series optimize slug d) t).1.series
              ≡ update
                  (λ (s : Series). s.id == old.id)
                  (λ _. with_update optimize d old state)
                  t.series))
unfolding update_series get_series_or_404
updated_stores optimize slug d t = elim (Option-cases (first (is_shown slug false) t.series)) [
  | inl missing ↦ inl (ground arith)
  | inr (old, found) ↦ elim (Result-cases (updated_state d old.state)) [
    | inl (error, refused) ↦ inl (ground arith)
    | inr (state, applied) ↦
        let new = with_update optimize d old state in
        elim (Result-cases
          (if is_live state.status then ensure_series_publishable new else ok tt)) [
            | inl (error, unready) ↦ inl (ground arith)
            | inr (_, ready) ↦ inr (
              old,
              state,
              applied,
              ready,
              In-first (is_shown slug false) t.series found,
              ground arith,
            )
          ]
  ]
]

updated_row :
    (optimize : String → String) (d : SeriesUpdate) (old : Series) (state : PublishState)
    → IsShelved old
    → updated_state d old.state ≡ ok state
    → (if is_live state.status
        then ensure_series_publishable (with_update optimize d old state)
        else ok tt)
      ≡ ok tt
    → IsShelved (with_update optimize d old state)
unfolding with_update ensure_series_publishable
updated_row optimize d old state h applied ready =
    (updated-is_settled d old.state state h.0 applied, ground arith)

update_series-IsShelved :
    (optimize : String → String) (slug : String) (d : SeriesUpdate) (t : CatalogDb)
    → All IsShelved t.series
    → All IsShelved (run (update_series optimize slug d) t).1.series
update_series-IsShelved optimize slug d t h = elim (updated_stores optimize slug d t) [
  | inl same ↦ subst (All IsShelved) (sym same) h
  | inr (old, state, applied, ready, stored, changed) ↦
      let row =
        updated_row optimize d old state (All-In IsShelved t.series h stored) applied ready in
      subst (All IsShelved) (sym changed) (
        All-update IsShelved (λ s. s.id == old.id) (λ _. with_update optimize d old state) t.series
          (λ _ _. row) h)
]

sweep-IsShelved :
    (now limit : ℕ) (t : CatalogDb)
    → All IsShelved t.series
    → All IsShelved (run (sweep_due_scheduled_series now limit) t).1.series
unfolding promote
sweep-IsShelved now limit t h =
    subst (λ (r : Result ℕ × CatalogDb). All IsShelved r.1.series)
      (sym (sweep_series-promote now limit t))
      (promote-All (λ s. s.id) live_series IsShelved series_is_publishable
        (due_series now limit t.series) t.series (λ s ready. (refl, publishable s ready)) h)

-- A request of an admin that creates or changes a series, or a sweep.
pub data SeriesStep (t : CatalogDb) : CatalogDb → Type 0 where
  creates :
      (now id : ℕ) (slug : String) (d : CreateSeriesBody)
      → SeriesStep t (run (create_series now id slug d) t).1
  updates :
      (optimize : String → String) (slug : String) (d : SeriesUpdate)
      → SeriesStep t (run (update_series optimize slug d) t).1
  sweeps : (now limit : ℕ) → SeriesStep t (run (sweep_due_scheduled_series now limit) t).1

-- A step of a database whose series are all shelved leaves series that are all shelved: a published
-- series is public, has no time to go live and has a poster, a scheduled one is not public and has a
-- time, and another is not public and has none.
pub SeriesStep-IsShelved :
    {t u : CatalogDb} → All IsShelved t.series → SeriesStep t u → All IsShelved u.series
SeriesStep-IsShelved {t} h (creates now id slug d) = create_series-IsShelved now id slug d t h
SeriesStep-IsShelved {t} h (updates optimize slug d) = update_series-IsShelved optimize slug d t h
SeriesStep-IsShelved {t} h (sweeps now limit) = sweep-IsShelved now limit t h
