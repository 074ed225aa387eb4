-- ===== src/Tests/Content.antt =====
-- The exercise client on one page.
use training_platform.Shared.{
  is_empty, codes, ◌≡◌, ◌≤◌, refl, true, false, some, List, [], ◌∷◌, ◌++◌, All, any, length, str_eq,
}
use training_platform.Content.ExerciseVerify.{
  Page, Client, client_of, or_else, clean, lessons_origin, ctfd_origin, Answer, script_loaded,
  captured, answered, chip_of, Event, timeout, click, settle, State, initial, run, visit,
  attempt_post, step, apply_move, start, submit, advance, move, is_correct,
}
use training_platform.Content.ExerciseVerify.Proofs.{
  is_acceptance, tells_accepted, visit_acceptance, IsProof, visit_posts,
}
use training_platform.Content.ExerciseVerify.Once.{visit_once, smooth, visit_delivers}
use training_platform.Content.ExerciseVerify.Origins.{no_end_slash, slashes}

abbrev exercise_page : Page
exercise_page = record {
  hash_code = some (codes "ab12");
  ctfd_domain = some (codes "https://ctfd" ++ slashes 2);
  lessons_domain = some ([] ++ slashes 1);
  origin = codes "https://page";
  has_button = false;
  has_library = false;
  is_complete = true;
}

abbrev client : Client
client = record { hash = codes "ab12"; lessons = codes "https://page"; ctfd = codes "https://ctfd" }

client_found : client_of exercise_page ≡ some client
unfolding client_of lessons_origin ctfd_origin or_else clean slashes
client_found = refl

abbrev correct : Answer
correct = record { success = true; status = some (codes "correct") }

abbrev events : List Event
events =
    timeout
    ∷ settle 0 script_loaded
    ∷ settle 0 (captured (codes "data:image"))
    ∷ click
    ∷ settle 0 (answered correct)
    ∷ []

abbrev final : State
final = run exercise_page client events (initial exercise_page)

visited_page : visit exercise_page events ≡ some final
unfolding visit client_of lessons_origin ctfd_origin or_else clean slashes
visited_page = refl

final_chip : tells_accepted final.chip ≡ true
unfolding tells_accepted run step apply_move initial start submit advance move chip_of is_correct
    str_eq
final_chip = refl

visit_acceptance_example : any is_acceptance events ≡ true
visit_acceptance_example = visit_acceptance exercise_page events final visited_page final_chip

visit_posts_example :
    (found : Client) × (some (codes "ab12") ≡ some found.hash)
    × (is_empty found.hash ≡ false)
    × (found.ctfd ≡ ctfd_origin exercise_page)
    × All (IsProof found events) final.posts
visit_posts_example = visit_posts exercise_page events final visited_page

visit_once_example : length final.posts ≤ 1
visit_once_example = visit_once exercise_page events final visited_page refl

visit_delivers_example :
    (s : State) × (visit exercise_page (smooth exercise_page (codes "data:image") correct) ≡ some s)
    × (s.posts ≡ attempt_post client (codes "data:image") ∷ [])
    × (s.chip ≡ some (chip_of correct))
    × (s.scripts ≡ (codes "https://page" ++ codes "/assets/html2canvas.min.js") ∷ [])
visit_delivers_example =
    visit_delivers exercise_page client (codes "data:image") correct client_found refl

bare_origin : no_end_slash (codes "https://ctfd") ≡ true
unfolding no_end_slash
bare_origin = refl

no_origin : no_end_slash [] ≡ true
unfolding no_end_slash
no_origin = refl
