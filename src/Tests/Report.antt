-- ===== src/Tests/Report.antt =====
-- The views and the API on a small registry.
use training_platform.Shared.{
  Bytes, codes, ◌≡◌, ◌≢◌, ◌⊎◌, Bool, true, Option, none, some, [], ◌∷◌, arith,
}
use training_platform.Shared.Int.{ℤ, pos}
use training_platform.Shared.Table.{lookup}
use training_platform.Shared.Sort.{IsSorted}
use training_platform.Shared.Decimal.{format_d, sscanf_d, sscanf_d-format_d}
use training_platform.Scoring.Challenge.{Challenge}
use training_platform.Scoring.Journal.{synced}
use training_platform.Scoring.Store.{Store}
use training_platform.Scoring.Report.{by_user, standings, results, solve_less}
use training_platform.Scoring.Report.Tally.{standing_of, score}
use training_platform.Scoring.Report.Places.{AreRanked, entries, listed}
use training_platform.Scoring.Report.Rankings.{standings_ranking, rows_score, results-agree}
use training_platform.Tests.Scoring.{registry, at}
use training_platform.Tests.Samples.{sample_codec}
use training_platform.Scoring.Http.{
  Request, Decoder, verify_correct, Fetched, page, handle_verify, handle_list, handle_hash,
  handle_scoreboard, handle_standings,
}
use training_platform.Scoring.Http.Verify.{Recorded, handle_verify_lem}
use training_platform.Scoring.Http.Disclosure.{reflag_store, answers-reflag_store}

-- The registry with two users' solves.
abbrev scored : Store
scored = record registry {
  solves =
      (codes "ab12", (codes "ann", true) ∷ (codes "bob", true) ∷ [])
      ∷ (codes "cd34", (codes "ann", true) ∷ [])
      ∷ [];
}

standings_ranking_example :
    (entries (codes "bob") (standings scored).ranking
      ≡ listed (standing_of (codes "bob") (score scored (codes "bob") scored.solves)))
    × AreRanked (standings scored).ranking
standings_ranking_example = standings_ranking scored (codes "bob")

results-agree_example :
    (lookup (codes "ann") (by_user scored)
      ≡ standing_of (codes "ann") (rows_score (codes "ann") (results scored)))
    × IsSorted solve_less (results scored)
results-agree_example = results-agree scored (codes "ann")

-- The body of a request is read as the hash, for any Pod.
abbrev decoder : Decoder
decoder = record {
  attempt = λ body. some (record { challenge_hash = body; submission = codes "right" });
  verify = λ body. some (record { challenge_hash = body; pod = codes "pod" });
}

-- A challenge whose page is to say "hello", on port 80.
abbrev pub page_challenge : Challenge
page_challenge = record {
  hash = codes "ef56";
  name = codes "page";
  value = pos 20;
  flags = [];
  verify =
      some (record { port = pos 80; path = codes "/"; expect = codes "hello"; expect_regex = [] });
}

abbrev pub page_store : Store
page_store = record registry { by_hash = (codes "ef56", page_challenge) ∷ [] }

abbrev pub verify_request : Request
verify_request = record {
  method = codes "POST";
  path = codes "/api/v1/challenges/verify";
  body = codes "ef56";
  user = codes "ann";
}

abbrev pub no_patterns : Bytes → Option (Bytes → Bool)
no_patterns p = none

abbrev greeting : Option (Bytes → ℤ → Bytes → Fetched)
greeting = some (λ pod port path. page (pos 200) (codes "hello"))

handle_verify_lem_example :
    let answer =
      handle_verify sample_codec synced at decoder no_patterns greeting page_store verify_request in
    ((answer.1.body ≢ verify_correct) × (answer.0 ≡ page_store))
    ⊎ Recorded sample_codec synced at decoder no_patterns greeting page_store verify_request answer
handle_verify_lem_example =
    handle_verify_lem sample_codec synced at decoder no_patterns greeting page_store verify_request

answers-reflag_store_example :
    (handle_list (reflag_store (λ c. []) scored) ≡ handle_list scored)
    × (handle_hash (reflag_store (λ c. []) scored) verify_request
        ≡ handle_hash scored verify_request)
    × (handle_scoreboard (reflag_store (λ c. []) scored) ≡ handle_scoreboard scored)
    × (handle_standings (reflag_store (λ c. []) scored) ≡ handle_standings scored)
answers-reflag_store_example = answers-reflag_store (λ c. []) scored verify_request

sscanf_d-format_d_example : sscanf_d (format_d (pos 1730000000)) ≡ pos 1730000000
sscanf_d-format_d_example = sscanf_d-format_d 1730000000 (omega arith)
