-- ===== src/Lib.antt =====
-- A model of the training platform: the server that renders lessons, boots a sandbox Pod for
-- each learner, and scores their work. Text is a list of bytes, and times and durations are
-- nanoseconds.
--
-- The parts, and the code they model:
-- - Scoring.Challenge, Scoring.Store, Scoring.Report (internal/scoring/store.go, load.go):
--   the registry of challenges, Store.Grade (`grade`), the set of solves, Store.Results and
--   Store.Standings. A method that changes the store returns the new store; the locks of the
--   code make a method one step. A Go map is an association list whose order stands for the
--   order of iteration, which Go leaves open.
-- - Scoring.Journal (internal/scoring/journal.go): the append-only log that the store writes
--   new solves to, and replays at start (Store.UseJournal, `use_journal`). The file is its
--   bytes.
-- - Scoring.Http (internal/scoring/http.go): the API that the lesson pages and the exercise
--   client call; its handlers use the store, and the verify handler fetches a page from a
--   Pod.
-- - Scoring.Hash, Scoring.Phash (internal/scoring/hash.go, phash.go): the ids of challenges,
--   the salted answers, the hash of a picture (DHash, `dhash`), the flag that holds it, and
--   the grader of screenshots (PhashGrader, `phash_grader`), which the store calls for such a
--   flag.
-- - Content.Render (internal/content/content.go; Render is `render`): a lesson's bytes,
--   rendered into its page and its challenges. FrontMatter splits off the front matter,
--   Blocks reads the quiz and exercise blocks (renderQuiz, `render_quiz`; renderExercise,
--   `render_exercise`), Found finds them and puts their HTML (Html) in place, Markdown and
--   Inline (markdown.go; renderMarkdown, `render_markdown`) render the text around them,
--   DemoLinks pairs links with exercises (pairDemoLinks, `pair_demo_links`), and Terminals
--   has the checks of terminals.
-- - Content.Build (internal/content/build.go): the build of a directory, which lists the
--   challenges that the store loads.
-- - Content.Reference (internal/content/phash.go): the reference flag of an exercise
--   (Resolve, `resolve`).
-- - Content.Links (internal/content/layout.go): the host that the page's script writes into
--   the link of an exposed port, which the router decodes.
-- - Content.ExerciseVerify (internal/content/exercise-verify.js): the script of an exercise's
--   page, which posts a capture to the attempt endpoint. It is a step function on browser
--   events.
-- - Session (internal/session/session.go; Pods has the Pods, Engine the operations):
--   namespaces and Pods, with their two deadlines in labels as decimal text. Keepalives slide
--   one (Engine.Extend, `extend`), the collector reads both.
-- - Auth (internal/auth/auth.go, anon.go): signed login cookies, the OAuth handlers, the
--   names of anonymous learners, and the user that the API attributes a solve to (UserIDFunc,
--   `user_id`).
-- - Server (internal/server/podfetch.go, server.go): the page fetch behind the verify
--   handler, the endpoint that boots an instance (`handle_create`), the API of one session
--   (`handle_session`), the tick of the collector's loop, and the choice between the proxy
--   and the routes (Hosts, `serve_host`).
-- - Router (internal/router/router.go, proxy.go): DecodeHost (`decode_host`), with hostRe as
--   a parser, and the reverse proxy (ServeHTTP, `proxy_serve`).
-- - Lessons (internal/lessons/lessons.go): the handler of the lesson site (Handler,
--   `serve_lesson`).
-- - Dockershim (internal/dockershim/k8s.go, server.go, exec.go, types.go): the Docker Engine
--   API over Pods. Shim has the maps of the shim and its calls of the cluster, Wire requests
--   and answers, Server the handlers and routes, Names the names of Pods, Frames the raw
--   stream (dockerFrameWriter, `frame_write`). A request that lets go of the shim's lock on
--   its way (shim.startContainer, shim.handleContainerRemove and others) takes, in
--   `Surroundings`, the locked sections of other requests that run meanwhile (`Section`).
-- - Terminal.Stream (internal/terminal/wsstream.go): a WebSocket as the input, the output and
--   the queue of sizes of a terminal (wsStream, `WsStream`).
-- - Shared: bytes, tables, integers, Go's base64.RawURLEncoding, hexadecimal text, %d,
--   strconv.Atoi and sort.Slice.
-- - Tests: the results below at concrete inputs.
--
-- Parameters, for what is not in the repository: the JSON codec of a log line (`Codec`, with
-- what the log relies on: one line, not empty, text read back), the body decoder (`Decoder`),
-- the regular expressions of assertions, the API server of Kubernetes (`PodApi`, and
-- `PodLaws` for what a list, a delete and a patch do), the HMAC (`Hmac`), the OAuth exchange
-- (`OauthService`), the GET of a page (`dial`), html2canvas, which is an event, SHA-256 and
-- SHA-1 (`Sha256`, `Sha1`: 32 and 20 bytes), the decoders of package image (`decode_image`),
-- the files and the browser behind a reference picture (`Host`), strings.ToLower, and the
-- calls that the shim makes (`ShimApi`, `Surroundings`), yaml.Unmarshal (`yaml`), and the
-- decoder of a terminal's control messages (`decode`), the network of the proxy (`Network`),
-- and the files of the lesson site (`kind`). How a write to the log ends (`Written`) and what
-- a wait's polls return are arguments, so that a theorem over them is one over every failure.
--
-- Bounds: printing a number n has n + 1 divisions as its fuel, which is more than its digits;
-- a log line must be shorter than the scanner's buffer of 2^20 bytes; a deadline must fit an
-- int64, which Sscanf checks and the theorems assume. Points, the sum of a time and a
-- duration, and the sum of the pixels of a cell are unbounded. A frame's text must be shorter
-- than 2^32 bytes; the log loop reads at most 4096. The loop over the lines of a lesson has a
-- turn for each line as its fuel, which is proved to be enough. An expression of package
-- regexp is a function that reads one match at the start of a text, and a search that goes on
-- behind it.
--
-- Not modelled: the page template around a lesson, the index page and the scoreboard page,
-- the connection of a terminal to its Pod, the bytes behind an upgrade in the proxy and in
-- the Docker API, and of the server the table of routes and its configuration: mostly
-- templates, files, and calls of libraries; Journal.Close; a log that exists but cannot be
-- read; blanks of Sscanf and TrimSpace beyond ASCII; pictures whose bounds start below zero,
-- which no decoder gives; styles of the page.
pub mod Shared
pub mod Scoring
pub mod Session
pub mod Auth
pub mod Content
pub mod Dockershim
pub mod Lessons
pub mod Terminal
pub mod Server
pub mod Router
pub mod Tests
