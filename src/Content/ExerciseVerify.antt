-- ===== src/Content/ExerciseVerify.antt =====
-- internal/content/exercise-verify.js: the client that captures an exercise's page and submits the
-- capture. The browser is a sequence of events; html2canvas gives the image of an event, or fails.
pub mod Proofs
pub mod Origins
pub mod Once
use training_platform.Shared.{
  is_empty, Bytes, codes, ℕ, zero, suc, Bool, true, false, not, ◌||◌, Option, none, some, List, [],
  ◌∷◌, ◌++◌, if◌then◌else◌, str_eq, ◌==◌,
}

-- What the script reads of its window: the URL parameters, the origin, whether the page has the
-- element #sendResult, and whether html2canvas is there and the document complete at the start.
pub record Page : Type 0 where
  pub hash_code : Option Bytes
  pub ctfd_domain : Option Bytes
  pub lessons_domain : Option Bytes
  pub origin : Bytes
  pub has_button : Bool
  pub has_library : Bool
  pub is_complete : Bool

-- s.replace(/\/+$/, "")
unfoldable pub drop_slashes : Bytes → Bytes
drop_slashes [] = []
drop_slashes (c ∷ s) = elim (drop_slashes s) [
  | [] ↦ if c == b'/' then [] else c ∷ []
  | d ∷ t ↦ c ∷ d ∷ t
]

-- clean
unfoldable pub clean : Option Bytes → Bytes
unfolding drop_slashes
clean none = []
clean (some u) = drop_slashes u

-- a || b, on strings.
unfoldable pub or_else : Bytes → Bytes → Bytes
unfolding is_empty
or_else a b = if is_empty a then b else a

-- The variables hash, lessons and ctfd.
pub record Client : Type 0 where
  pub hash : Bytes
  pub lessons : Bytes
  pub ctfd : Bytes

unfoldable pub lessons_origin : Page → Bytes
lessons_origin p = or_else (clean p.lessons_domain) p.origin

unfoldable pub ctfd_origin : Page → Bytes
ctfd_origin p = or_else (clean p.ctfd_domain) (lessons_origin p)

-- The variables, unless the script returns at once for want of a hash.
unfoldable pub client_of : Page → Option Client
unfolding is_empty
client_of p = elim p.hash_code [
  | none ↦ none
  | some hash ↦
      if is_empty hash
      then none
      else some (record { hash = hash; lessons = lessons_origin p; ctfd = ctfd_origin p })
]

-- The texts of the chip, in the order of the source, and "ready" of a page with a button.
pub data Chip : Type 0 where
  no_library capturing_result submitting_proof proof_accepted proof_submitted rejected failed : Chip
  ready : Chip

-- Where a call of submit is: waiting for its script, for html2canvas, or for the answer.
pub data Flow : Type 0 where
  loading capturing posting over : Flow

-- The decoded answer: is `j && j.success` truthy, and j.data.status if there is one.
pub record Answer : Type 0 where
  pub success : Bool
  pub status : Option Bytes

-- What a flow waits for; `captured` has the data URL, and `call_failed` is an error of the request
-- or of r.json().
pub data Outcome : Type 0 where
  script_loaded script_failed capture_failed call_failed : Outcome
  captured : Bytes → Outcome
  answered : Answer → Outcome

-- status === "correct"
unfoldable pub is_correct : Answer → Bool
is_correct a = elim a.status [ none ↦ false | some t ↦ str_eq t (codes "correct") ]

-- The last `then` of submit.
unfoldable pub chip_of : Answer → Chip
chip_of a =
    if a.success then (if is_correct a then proof_accepted else proof_submitted) else rejected

-- What a step of a flow does: its next stage, the chip it sets, the image it posts, and whether it
-- brings html2canvas.
pub record Moved : Type 0 where
  pub flow : Flow
  pub chip : Option Chip
  pub image : Option Bytes
  pub library : Bool

abbrev pub stays : Flow → Moved
stays f = record { flow = f; chip = none; image = none; library = false }

abbrev pub ends : Chip → Moved
ends chip = record { flow = over; chip = some chip; image = none; library = false }

-- The callbacks of loadHtml2canvas and submit; a flow that does not wait for the outcome stays.
unfoldable pub move : Flow → Outcome → Moved
unfolding chip_of
move loading script_loaded = record { flow = capturing; chip = none; image = none; library = true }
move loading script_failed = ends no_library
move capturing (captured image) = record {
  flow = posting;
  chip = some submitting_proof;
  image = some image;
  library = false;
}
move capturing capture_failed = ends failed
move posting (answered a) = ends (chip_of a)
move posting call_failed = ends failed
move f _ = stays f

-- The request of submit, with credentials included.
pub record Post : Type 0 where
  pub url : Bytes
  pub challenge_hash : Bytes
  pub submission : Bytes

-- Who calls submit: nobody yet, the button, or the timer of 400 ms, which fires once.
pub data Trigger : Type 0 where
  before_load button timer_set timer_fired : Trigger

pub record State : Type 0 where
  pub trigger : Trigger
  pub flows : List Flow
  pub library : Bool
  pub chip : Option Chip
  pub scripts : List Bytes
  pub posts : List Post

pub data Event : Type 0 where
  load click timeout : Event
  settle : ℕ → Outcome → Event

-- start
unfoldable pub start : Page → State → State
start p s =
    if p.has_button
    then record s { trigger = button; chip = some ready }
    else record s { trigger = timer_set }

-- The state when the script has run.
unfoldable pub initial : Page → State
unfolding start
initial p =
    let s : State = record {
      trigger = before_load;
      flows = [];
      library = p.has_library;
      chip = none;
      scripts = [];
      posts = [];
    } in
    if p.is_complete then start p s else s

-- submit and loadHtml2canvas, up to the first thing they wait for.
unfoldable pub submit : Client → State → State
submit client s =
    if s.library
    then record s { chip = some capturing_result; flows = s.flows ++ capturing ∷ [] }
    else record s {
      chip = some capturing_result;
      flows = s.flows ++ loading ∷ [];
      scripts = s.scripts ++ (client.lessons ++ codes "/assets/html2canvas.min.js") ∷ [];
    }

-- The flow at an index makes its step.
unfoldable pub advance : ℕ → Outcome → List Flow → List Flow × Moved
advance n o [] = ([], stays over)
advance zero o (f ∷ fs) = let m = move f o in (m.flow ∷ fs, m)
advance (suc n) o (f ∷ fs) = let (fs', m) = advance n o fs in (f ∷ fs', m)

unfoldable pub attempt_post : Client → Bytes → Post
attempt_post client image = record {
  url = client.ctfd ++ codes "/api/v1/challenges/attempt";
  challenge_hash = client.hash;
  submission = image;
}

unfoldable pub apply_move : Client → List Flow × Moved → State → State
apply_move client (fs, m) s = record s {
  flows = fs;
  library = s.library || m.library;
  chip = elim m.chip [ none ↦ s.chip | some chip ↦ some chip ];
  posts = elim m.image [ none ↦ s.posts | some image ↦ s.posts ++ attempt_post client image ∷ [] ];
}

-- One event; one that nothing listens for changes nothing.
unfoldable pub step : Page → Client → Event → State → State
step p client load s = elim s.trigger [ before_load ↦ start p s | _ ↦ s ]
step p client click s = elim s.trigger [ button ↦ submit client s | _ ↦ s ]
step p client timeout s = elim s.trigger [
  | timer_set ↦ submit client (record s { trigger = timer_fired })
  | _ ↦ s
]
step p client (settle n o) s = apply_move client (advance n o s.flows) s

unfoldable pub run : Page → Client → List Event → State → State
run p client [] s = s
run p client (e ∷ es) s = run p client es (step p client e s)

-- The script on a page, and the events that follow; `none` when it does nothing at all.
unfoldable pub visit : Page → List Event → Option State
visit p es = elim (client_of p) [ none ↦ none | some client ↦ some (run p client es (initial p)) ]
