-- ===== src/Tests/Caches.antt =====
-- The response cache at concrete calls.
use movie_api.Shared.{
  ℕ, ◌≤◌, ◌≡◌, inl, refl, true, false, none, some, List, [], ◌∷◌, arith, length, seconds, strip,
  lstrip, rstrip,
}
use movie_api.Shared.Dict.{lookup, put, remove}
use movie_api.SharedCache.{Redis, client, cache_get_bytes}
use movie_api.ResponseCache.{
  CacheCall, get, set, delete, delete_prefix, run_calls, Layers, Json, cache_get_async,
  cache_get_or_set, cache_delete, catalog_cache_max_entries, cache_get, cache_set, delete_local,
  delete_local_prefix,
}
use movie_api.ResponseCache.Capacity.{run_small}
use movie_api.ResponseCache.Refinement.{replay, IsAnswered, run_refines}
use movie_api.ResponseCache.Exact.{run_exact}
use movie_api.ResponseCache.Layered.{served_again, deleted_misses}

-- A rail is written, read, read after its end, and deleted; another key is deleted by its prefix.
abbrev rails : List (CacheCall ℕ)
rails =
    set 0 "home:rails" (some 7) (seconds 30)
    ∷ get (seconds 29) "home:rails"
    ∷ get (seconds 30) "home:rails"
    ∷ set (seconds 31) "movies:p1" (some 8) (seconds 30)
    ∷ get (seconds 32) "movies:p1"
    ∷ delete_prefix "movies:"
    ∷ get (seconds 33) "movies:p1"
    ∷ delete "home:rails"
    ∷ []

rails_answers : (run_calls rails []).0 ≡ some 7 ∷ none ∷ some 8 ∷ none ∷ []
unfolding run_calls cache_get cache_set delete_local delete_local_prefix lookup put remove
rails_answers = refl

run_small_example : length (run_calls rails []).1 ≤ catalog_cache_max_entries
run_small_example = run_small rails [] (omega arith)

run_refines_example : IsAnswered (run_calls rails []).0 (replay rails (λ _. none))
unfolding lookup
run_refines_example = run_refines rails [] (λ _. none) (λ k. inl refl)

run_exact_example : (run_calls rails []).0 ≡ replay rails (λ _. none)
unfolding lookup
run_exact_example =
    run_exact rails 0 [] (λ _. none)
      (omega arith, (omega arith, (omega arith, (omega arith, (omega arith, (omega arith, tt))))))
      (λ k. refl) (omega arith)

-- A Redis with one client that remembers nothing.
abbrev forgetful : Redis Unit
forgetful = record {
  from_url = λ _. true;
  get = λ _ s. (some none, s);
  set = λ _ _ _ s. (true, s);
  delete = λ _ s. (true, s);
  scan_iter = λ _ s. (some [], s);
}

abbrev number_json : Json ℕ
number_json = record { loads = λ _. none; dumps = λ _. some "7" }

abbrev cold : Layers ℕ Unit
cold = record { local = []; shared = record { redis = false; redis_failed = false; server = tt } }

made :
    (cache_get_or_set forgetful
      (some "redis://r")
      number_json
      0
      1
      2
      "home:rails"
      (some 7)
      (seconds 30)
      cold).0
    ≡ (some 7, true)
unfolding cache_get_or_set cache_get_async cache_get cache_get_bytes client lookup strip lstrip
    rstrip
made = refl

served_again_example :
    (cache_get_or_set forgetful
      (some "redis://r")
      number_json
      (seconds 9)
      0
      0
      "home:rails"
      none
      (seconds 30)
      (cache_get_or_set forgetful
        (some "redis://r")
        number_json
        0
        1
        2
        "home:rails"
        (some 7)
        (seconds 30)
        cold).1).0
    ≡ (some 7, false)
served_again_example =
    served_again forgetful (some "redis://r") number_json 0 1 2 (seconds 9) 0 0 "home:rails" 7 none
      (seconds 30) cold made (omega arith)

-- A worker that holds a value, and is connected.
abbrev warm : Layers ℕ Unit
warm = record {
  local = ("home:rails", (seconds 30, some 7)) ∷ [];
  shared = record { redis = true; redis_failed = false; server = tt };
}

deleted_misses_example :
    (cache_get_async forgetful
      (some "redis://r")
      number_json
      5
      6
      "home:rails"
      (cache_delete forgetful (some "redis://r") "home:rails" warm)).0
    ≡ none
deleted_misses_example =
    deleted_misses forgetful (some "redis://r") number_json 5 6 "home:rails" warm (λ s. refl)
