-- ===== src/Content/ExerciseVerify/Once.antt =====
-- How often the client posts, and a run of it from the start to the end.
use training_platform.Shared.{
  Bytes, codes, ℕ, zero, suc, ◌+◌, ◌≤◌, ◌≡◌, refl, sym, ap, subst, Bool, true, false, Option, none,
  some, List, [], ◌∷◌, ◌++◌, arith, length, length-append, Option-cases, inl, inr, if◌then◌else◌,
}
use training_platform.Content.ExerciseVerify.{
  Page, Client, client_of, Flow, loading, capturing, posting, over, Answer, Outcome, script_loaded,
  captured, answered, chip_of, move, Trigger, before_load, button, timer_set, timer_fired, State,
  Event, load, click, timeout, settle, start, initial, submit, advance, attempt_post, apply_move,
  step, run, visit,
}
use training_platform.Content.ExerciseVerify.Proofs.{visit-run}

-- A call of submit that has not posted yet.
unfoldable pub is_open : Flow → Bool
is_open loading = true
is_open capturing = true
is_open posting = false
is_open over = false

unfoldable pub open_flows : List Flow → ℕ
open_flows [] = 0
open_flows (f ∷ fs) = let rest = open_flows fs in if is_open f then suc rest else rest

-- Can the timer still fire?
unfoldable pub armed : Trigger → ℕ
armed before_load = 1
armed timer_set = 1
armed _ = 0

-- The posts there are and those still to come, on a page without a button.
unfoldable pub budget : State → ℕ
unfolding armed open_flows
budget s = length s.posts + open_flows s.flows + armed s.trigger

image_count : Option Bytes → ℕ
image_count none = 0
image_count (some image) = 1

advance_budget :
    (n : ℕ) (o : Outcome) (fs : List Flow)
    → open_flows (advance n o fs).0 + image_count (advance n o fs).1.image ≤ open_flows fs
unfolding advance move open_flows is_open image_count
advance_budget n o [] = ground arith
advance_budget zero o (f ∷ fs) = ground arith
advance_budget (suc n) o (f ∷ fs) = ground (arith, advance_budget n o fs)

open_flows-append : (fs : List Flow) (f : Flow) → open_flows (fs ++ f ∷ []) ≤ suc (open_flows fs)
unfolding open_flows
open_flows-append [] f = ground arith
open_flows-append (g ∷ fs) f = ground (arith, open_flows-append fs f)

submit_budget :
    (client : Client) (s : State)
    → ((submit client s).posts ≡ s.posts)
      × ((submit client s).trigger ≡ s.trigger)
      × (open_flows (submit client s).flows ≤ suc (open_flows s.flows))
unfolding submit
submit_budget client s =
    ground (arith, open_flows-append s.flows loading, open_flows-append s.flows capturing)

posts-le_budget : (s : State) → length s.posts ≤ budget s
unfolding budget
posts-le_budget s = omega arith

unfoldable is_button : Trigger → Bool
is_button button = true
is_button _ = false

move_budget :
    (client : Client) (n : ℕ) (o : Outcome) (s : State)
    → budget (apply_move client (advance n o s.flows) s) ≤ budget s
unfolding budget apply_move image_count
move_budget client n o s = elim (Option-cases (advance n o s.flows).1.image) [
  | inl e ↦ ground (arith, e, advance_budget n o s.flows)
  | inr (image, e) ↦
      ground (
        arith,
        e,
        advance_budget n o s.flows,
        length-append s.posts (attempt_post client image ∷ []),
      )
]

module _ (p : Page) (client : Client) where
  budget-start :
      (s : State)
      → p.has_button ≡ false
      → s.trigger ≡ before_load
      → (budget (start p s) ≤ budget s) × (is_button (start p s).trigger ≡ false)
  unfolding start budget is_button
  budget-start s plain e = ground arith

  timeout_budget :
      (s : State)
      → s.trigger ≡ timer_set
      → budget (submit client (record s { trigger = timer_fired })) ≤ budget s
  unfolding budget
  timeout_budget s e = ground (arith, submit_budget client (record s { trigger = timer_fired }))

  budget-step :
      (e : Event) (s : State)
      → p.has_button ≡ false
      → is_button s.trigger ≡ false
      → (budget (step p client e s) ≤ budget s) × (is_button (step p client e s).trigger ≡ false)
  unfolding step is_button
  budget-step load s plain h = ground (arith, budget-start s plain)
  budget-step click s plain h = ground arith
  budget-step timeout s plain h =
      ground (arith, timeout_budget s, submit_budget client (record s { trigger = timer_fired }))
  budget-step (settle n o) s plain h = (move_budget client n o s, unfold apply_move in ground arith)

  budget-run :
      (es : List Event) (s : State)
      → p.has_button ≡ false
      → is_button s.trigger ≡ false
      → budget (run p client es s) ≤ budget s
  unfolding run
  budget-run [] s plain h = ground arith
  budget-run (e ∷ es) s plain h =
      let (less, still) = budget-step e s plain h in
      ground (arith, less, budget-run es (step p client e s) plain still)

budget-initial :
    (p : Page)
    → p.has_button ≡ false
    → (budget (initial p) ≡ 1) × (is_button (initial p).trigger ≡ false)
unfolding initial start budget is_button
budget-initial p plain = ground arith

-- A page that has no button of its own posts at most one proof, whatever happens on it: one opening
-- of an exercise's page is one attempt.
pub visit_once :
    (p : Page) (es : List Event) (s : State)
    → visit p es ≡ some s
    → p.has_button ≡ false
    → length s.posts ≤ 1
visit_once p es s h plain =
    let (client, _, e) = visit-run p es s h in
    let (one, still) = budget-initial p plain in
    ground (
      arith,
      one,
      budget-run p client es (initial p) plain still,
      ap (λ t. length t.posts) e,
      posts-le_budget s,
      posts-le_budget (run p client es (initial p)),
    )

-- The events of a page that loads, lets its timer fire, gets html2canvas if it lacks it, and whose
-- capture the API answers.
unfoldable pub smooth : Page → Bytes → Answer → List Event
smooth p image a =
    (if p.is_complete then [] else load ∷ [])
    ++ timeout
      ∷ ((if p.has_library then [] else settle 0 script_loaded ∷ [])
          ++ settle 0 (captured image) ∷ settle 0 (answered a) ∷ [])

-- What the client has done at their end.
unfoldable Delivered : Page → Client → Bytes → Answer → State → Type 0
Delivered p client image a s =
    (s.posts ≡ attempt_post client image ∷ [])
    × (s.chip ≡ some (chip_of a))
    × (s.scripts ≡ (
        if p.has_library then [] else (client.lessons ++ codes "/assets/html2canvas.min.js") ∷ []))

plain_delivers :
    (p : Page) (client : Client) (image : Bytes) (a : Answer) (has_library is_complete : Bool)
    → let q : Page = record p {
      has_button = false;
      has_library = has_library;
      is_complete = is_complete;
    } in
      Delivered q client image a (run q client (smooth q image a) (initial q))
unfolding Delivered smooth run step start initial submit apply_move advance move
plain_delivers p client image a true true = (refl, refl, refl)
plain_delivers p client image a true false = (refl, refl, refl)
plain_delivers p client image a false true = (refl, refl, refl)
plain_delivers p client image a false false = (refl, refl, refl)

run_delivers :
    (p : Page) (client : Client) (image : Bytes) (a : Answer)
    → p.has_button ≡ false
    → Delivered p client image a (run p client (smooth p image a) (initial p))
run_delivers p client image a plain =
    subst
      (λ b.
        let q : Page = record p { has_button = b } in
        Delivered q client image a (run q client (smooth q image a) (initial q)))
      (sym plain) (plain_delivers p client image a p.has_library p.is_complete)

visit_found :
    (p : Page) (client : Client) (es : List Event)
    → client_of p ≡ some client
    → visit p es ≡ some (run p client es (initial p))
unfolding visit
visit_found p client es found = ground arith

-- On a page with a hash and no button, where loading, capture and request succeed, the client
-- posts its one proof and the chip tells the answer; it loads html2canvas only if it is not there.
pub visit_delivers :
    (p : Page) (client : Client) (image : Bytes) (a : Answer)
    → client_of p ≡ some client
    → p.has_button ≡ false
    → (s : State) × (visit p (smooth p image a) ≡ some s)
      × (s.posts ≡ attempt_post client image ∷ [])
      × (s.chip ≡ some (chip_of a))
      × (s.scripts ≡ (
          if p.has_library
          then []
          else (client.lessons ++ codes "/assets/html2canvas.min.js") ∷ []))
unfolding Delivered
visit_delivers p client image a found plain =
    let (posted, told, loaded) = run_delivers p client image a plain in
    (_, visit_found p client (smooth p image a) found, posted, told, loaded)
