-- ===== src/Content/ExerciseVerify/Proofs.antt =====
-- What the client posts, and when it says that a proof was accepted.
use training_platform.Shared.{
  is_empty, Bytes, codes, ℕ, zero, suc, ◌≡◌, refl, ap, Bool, true, false, ◌&&◌, ◌||◌, Option, some,
  List, [], ◌∷◌, ◌++◌, All, All-append, arith, any, Option-cases, inl, inr, str_eq, str_eq_iff,
}
use training_platform.Content.ExerciseVerify.{
  Page, Client, client_of, Chip, proof_accepted, Flow, Outcome, captured, answered, is_correct,
  chip_of, move, Post, timer_fired, State, Event, load, click, timeout, settle, start, initial,
  submit, advance, attempt_post, apply_move, step, run, visit, ctfd_origin,
}

-- The event that says that the API graded a proof as correct.
unfoldable pub is_acceptance : Event → Bool
unfolding is_correct
is_acceptance (settle n (answered a)) = a.success && is_correct a
is_acceptance _ = false

-- The chip tells of an acceptance.
unfoldable pub tells_accepted : Option Chip → Bool
tells_accepted (some proof_accepted) = true
tells_accepted _ = false

advance_acceptance :
    (n : ℕ) (o : Outcome) (fs : List Flow)
    → tells_accepted (advance n o fs).1.chip ≡ true
    → is_acceptance (settle n o) ≡ true
unfolding advance move chip_of is_acceptance tells_accepted
advance_acceptance n o [] h = ground arith
advance_acceptance zero o (f ∷ fs) h = ground arith
advance_acceptance (suc n) o (f ∷ fs) h = ground (arith, advance_acceptance n o fs)

module _ (p : Page) (client : Client) where
  start_chip : (s : State) → tells_accepted (start p s).chip ≡ true → tells_accepted s.chip ≡ true
  unfolding start tells_accepted
  start_chip s h = ground arith

  submit_chip : (s : State) → tells_accepted (submit client s).chip ≡ false
  unfolding submit tells_accepted
  submit_chip s = ground arith

  step_acceptance :
      (e : Event) (s : State)
      → tells_accepted (step p client e s).chip ≡ true
      → (tells_accepted s.chip || is_acceptance e) ≡ true
  unfolding step apply_move
  step_acceptance load s h = ground (arith, start_chip s)
  step_acceptance click s h = ground (arith, submit_chip s)
  step_acceptance timeout s h = ground (arith, submit_chip (record s { trigger = timer_fired }))
  step_acceptance (settle n o) s h = ground (arith, advance_acceptance n o s.flows)

  run_acceptance :
      (es : List Event) (s : State)
      → tells_accepted (run p client es s).chip ≡ true
      → (tells_accepted s.chip || any is_acceptance es) ≡ true
  unfolding run any
  run_acceptance [] s h = ground arith
  run_acceptance (e ∷ es) s h =
      ground (arith, run_acceptance es (step p client e s) h, step_acceptance e s)

initial_chip : (p : Page) → tells_accepted (initial p).chip ≡ false
unfolding initial start tells_accepted
initial_chip p = ground arith

pub visit-run :
    (p : Page) (es : List Event) (s : State)
    → visit p es ≡ some s
    → (client : Client) × (client_of p ≡ some client) × (s ≡ run p client es (initial p))
unfolding visit
visit-run p es s h = elim (Option-cases (client_of p)) [
  | inl e ↦ absurd (ground arith)
  | inr (client, e) ↦ (client, e, ground arith)
]

-- The chip reads "proof accepted" only if, among the events, an answer of the API had success and
-- the status "correct".
pub visit_acceptance :
    (p : Page) (es : List Event) (s : State)
    → visit p es ≡ some s
    → tells_accepted s.chip ≡ true
    → any is_acceptance es ≡ true
visit_acceptance p es s h told =
    let (client, _, e) = visit-run p es s h in
    ground (arith, run_acceptance p client es (initial p), initial_chip p, ap (λ t. t.chip) e)

-- The event is html2canvas giving this image.
unfoldable pub is_capture : Bytes → Event → Bool
is_capture image (settle n (captured taken)) = str_eq taken image
is_capture image _ = false

-- A post to the attempt endpoint of the client's API, for the client's hash, of an image captured
-- among the events.
abbrev pub IsProof : Client → List Event → Post → Type 0
IsProof client es post =
    (post.url ≡ client.ctfd ++ codes "/api/v1/challenges/attempt")
    × (post.challenge_hash ≡ client.hash)
    × (any (is_capture post.submission) es ≡ true)

advance_image :
    (n : ℕ) (o : Outcome) (fs : List Flow) (image : Bytes)
    → (advance n o fs).1.image ≡ some image
    → is_capture image (settle n o) ≡ true
unfolding advance move is_capture
advance_image n o [] image h = cc
advance_image zero o (f ∷ fs) image h = ground (arith, str_eq_iff image image)
advance_image (suc n) o (f ∷ fs) image h = ground (arith, advance_image n o fs image)

module _ (p : Page) (client : Client) (Q : Post → Type 0) where
  step_posts :
      (e : Event) (s : State)
      → All Q s.posts
      → ((image : Bytes) → is_capture image e ≡ true → Q (attempt_post client image))
      → All Q (step p client e s).posts
  unfolding step apply_move start submit
  step_posts load s all_q q = ground arith
  step_posts click s all_q q = ground arith
  step_posts timeout s all_q q = ground arith
  step_posts (settle n o) s all_q q = elim (Option-cases (advance n o s.flows).1.image) [
    | inl e ↦ rw e all_q
    | inr (image, e) ↦ rw e (
        All-append Q s.posts (attempt_post client image ∷ []) all_q
          (q image (advance_image n o s.flows image e), tt))
  ]

  run_posts :
      (es : List Event) (s : State)
      → All Q s.posts
      → ((image : Bytes) → any (is_capture image) es ≡ true → Q (attempt_post client image))
      → All Q (run p client es s).posts
  unfolding run any
  run_posts [] s all_q q = all_q
  run_posts (e ∷ es) s all_q q =
      run_posts es (step p client e s)
        (step_posts e s all_q (λ image h. q image (ground (arith, h))))
        (λ image h. q image (ground (arith, h)))

pub initial_posts : (p : Page) → (initial p).posts ≡ []
unfolding initial start
initial_posts p = ground arith

client_hash :
    (p : Page) (client : Client)
    → client_of p ≡ some client
    → (p.hash_code ≡ some client.hash)
      × (is_empty client.hash ≡ false)
      × (client.ctfd ≡ ctfd_origin p)
unfolding client_of
client_hash p client h = elim (Option-cases p.hash_code) [
  | inl e ↦ absurd (ground arith)
  | inr (hash, e) ↦ (ground arith, ground arith, ground arith)
]

-- The script does anything at all only on a page whose URL has a hash that is not empty. Everything
-- that it then ever posts goes to the attempt endpoint of the page's scoring origin, carries the
-- page's hash, and is an image that html2canvas gave.
pub visit_posts :
    (p : Page) (es : List Event) (s : State)
    → visit p es ≡ some s
    → (client : Client) × (p.hash_code ≡ some client.hash)
      × (is_empty client.hash ≡ false)
      × (client.ctfd ≡ ctfd_origin p)
      × All (IsProof client es) s.posts
visit_posts p es s h =
    let (client, found, e) = visit-run p es s h in
    let (hash, filled, origin) = client_hash p client found in
    (
      client,
      hash,
      filled,
      origin,
      rw (ap (λ t. t.posts) e) (
          run_posts p client (IsProof client es) es (initial p) (rw (initial_posts p) tt)
            (λ image k. unfold attempt_post in (refl, refl, k))),
    )
