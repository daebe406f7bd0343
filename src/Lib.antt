-- ===== src/Lib.antt =====
-- AI-Routing: the core of a budget-aware router of inference requests, app/*.py.
--
-- THE PROGRAM'S PARTS. A request reaches POST /inference (app/main.py), is given a tier by
-- app/complexity_classifier.py, and is routed by `DecisionAgent.route` (app/decision_agent.py). The
-- agent reads the queue of local slots (app/queue_monitor.py) and the latency estimates
-- (app/latency_tracker.py), and reserves money and latency in the budget manager
-- (app/budget_manager.py). The request then runs locally, in a slot, or remotely; its observed latency
-- is recorded, and its reservation is committed or rolled back. app/observability.py keeps a trace of
-- the critical sections of the budget manager's lock. load_generator.py resets the server, sends it a
-- batch of requests at once, and judges the metrics that it then reports.
--
-- THE FILES.
--  * Prelude, Prelude/*: native numbers and their tests, lists, the last entries of a list, dicts with
--    text keys, and signed fixed-point amounts.
--  * LockTrace: `lock_event`, `clear_lock_trace` of app/observability.py.
--  * Budget: app/budget_manager.py. Budget/Types has the reservations, the manager's fields and the
--    exceptions; Budget the methods (`try_reserve`, `commit` for `_commit`, `rollback` for
--    `_rollback`, `expire_stale_reservations`, the snapshot). `State` is the manager with the
--    reservation objects' `_state` (callers share these objects with the manager) and the lock trace.
--    Budget/Table, Cases and Invariant carry the ledger invariant; Methods, History, Bounds, Caps,
--    Overruns and Overspend bring it and the limits through every history of calls, Sections the lock
--    trace, Priced what is reserved under an id, and Called says that one state comes from another by
--    such a history; Admission, Settle, Once and Reaper say what each method does, and Age has the
--    reaper's task and how old a reservation gets.
--  * QueueMonitor: app/queue_monitor.py. Slots has the accounting, Holders the interleavings.
--  * Latency: app/latency_tracker.py. Record has one observation, History whole histories against a
--    description by one backend's observations, Estimate and Reset the consequences.
--  * Models: the data contracts of app/models.py and `ComplexityTier`.
--  * Text, Regex, Classifier: app/complexity_classifier.py. Regex has the expressions that its patterns
--    use and a matcher; Reading and Matching describe what they match. Classifier has the patterns and
--    `classify`.
--  * Decision: app/decision_agent.py. Attempt has the step of trying a reservation, Paths the paths
--    of each tier, Route the whole of `route`, Ledger its effect on the budget's table, Called the calls
--    of the budget manager that it makes.
--  * EventBus: app/event_bus.py. Queues has one queue, Events whole histories, Missed and Delivery what a
--    client gets, what waits for it and what it has missed, Slow a client that does not read.
--  * Observability: the published events of app/observability.py, and `get_lock_trace`.
--  * App, Settlement, Inference: the handler of POST /inference in app/main.py. App has the state, the
--    requests and the answers; Settlement the settling of a reservation, the handlers of exceptions and
--    the end of an executed request; Inference the steps of the handler between the calls of a backend.
--    Settlement/Accounts keeps books of who holds a slot and a reservation, Arrival and Resumption
--    show that each step keeps them, and Flights runs any number of requests and the reaper at once:
--    Balance and Released for the books, History for the calls of the budget manager, Priced and Cheap for
--    what is reserved for a remote call and what it costs, Rank and Drain for the answers. Cancelled, Expired and
--    Fallback are about a cancellation, about a result that comes too late, and about a remote failure.
--  * Mocks, Backends: app/backends.py. Backends/Outcomes has what a call can end with, Cost the cost of a
--    mock call against what is reserved for it, Retries the attempts of a remote call.
--  * Endpoints: the other endpoints of app/main.py. Endpoints has `lifespan`, `run_start`, `status`,
--    `metrics` and the trace; Dashboard `summary` and `run_complete`; Stream the generator of `sse_events`, and
--    Stream/Copies what becomes of its queue.
--    Fresh has a new application, Limits what it can spend, Reports what is reported of a running one.
--  * Defaults: the constants of app/config.py.
--  * LoadGenerator: load_generator.py. LoadGenerator has `send_request` and `evaluate_verdict`, Prompts
--    the batch, Counters the breakdown, Timeline `format_lock_trace`, Demo `run_demo` and `main`. Batch,
--    Names, Tallies, Reasons, Counts, Texts, Exit and Sends are about these alone, Verdict and Served about
--    a run against app/main.py.
--
-- HOW THE PROGRAM IS READ.
--  * Atomicity: no `await` suspends between taking and releasing a lock, so a locked section is one
--    step on the state; an interleaving of coroutines is a list of such steps.
--  * Numbers: a float amount is an integer count of ticks of 1e-12 (of a dollar, a millisecond or a
--    second), without a bound; the tolerances 1e-12 and 1e-9 are 1 and 1000 ticks. Rounding of floats
--    is not modelled. The tracker's latencies are natural numbers of ticks, and a product by the
--    smoothing factor, a fraction that is meant to be at most 1, is rounded down.
--  * Clocks and `uuid4` are parameters (`Env`); that a new uuid is no older reservation's is a
--    hypothesis where it matters. Request and reservation ids are numbers: they are only stored and
--    compared.
--  * The handler of a request is cut at the awaits of a backend. How such a call ends is an argument:
--    a result, an exception of each kind that the handler tells apart, or a cancellation. A request
--    keeps the managers that it began with; a reset between its steps gives the application new ones,
--    and is not among the events of Flights.
--  * Texts are lists of code points and ASCII.
--  * One scan of the reaper reads the clock once.
--  * The HTTP client, the random generator and the library that repeats a call are arguments. What the
--    program formats into one text is kept as its parts.
--  * Exceptions are values of `Result`; a `KeyError` that cannot be handled is `none`.
--  * Fuel: only the digits of a printed number are made on fuel, one more than the number, which is
--    enough since each step divides by ten; the reading back of a name in LoadGenerator/Names shows it.
--    The other loops are over lists.
--  * FastAPI and the encoding of JSON are not in the repository: the load generator gets a status and the
--    keys of a body, of which `detail` is text or a list; and a run against the application takes as a
--    hypothesis that the three replies that decide report its state, and that every detail is text.
--  * Python's `re` is the standard library: Regex stands for what the patterns use of it.
--
-- NOT MODELLED. Reading the environment and the constants of app/config.py that only name addresses,
-- models and timeouts; the HTTP layer and the checks of pydantic; `health`, which always says the same, and
-- the health check of Ollama, which only writes a line to the log; the lines of the log, that is the
-- functions of app/observability.py that publish nothing; what load_generator.py prints beside the
-- breakdown, the timeline and the notes; the dashboard's page, the tests and the start script.
pub mod Prelude
pub mod LockTrace
pub mod Budget
pub mod QueueMonitor
pub mod Latency
pub mod Models
pub mod Text
pub mod Regex
pub mod Classifier
pub mod Decision
pub mod EventBus
pub mod Observability
pub mod App
pub mod Settlement
pub mod Inference
pub mod Endpoints
pub mod Mocks
pub mod Backends
pub mod Defaults
pub mod LoadGenerator
