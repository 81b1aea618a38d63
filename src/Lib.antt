-- ===== src/Lib.antt =====
-- perceptor: the service that scans the images of a cluster with Black Duck. What is modelled here
-- is its own logic, in Go under pkg/.
--
-- The parts and how they work together. The core model (pkg/core/model) keeps the pods and images of
-- the cluster and the status of each image; the images that wait for a scan are also in a priority
-- queue (pkg/util/priorityqueue.go). Its loop takes one action at a time: pods and images come from
-- the API, results come from the hubs, and the scan clients start and finish jobs. For each hub, a
-- Black Duck server, pkg/hub keeps the stages of its scans (model.go), judges what the server says
-- of them (datatypes.go), and issues its requests through a circuit breaker (circuitbreaker.go). A hub
-- (hub.go) fetches scans through its client (client.go), and its timers (pkg/util/timer.go) run its
-- regular jobs while it is logged in. The hub manager and the scan scheduler (pkg/core) keep one hub
-- for each host and choose a hub for the next image. Perceptor (pkg/core/perceptor.go) serves the
-- requests: it takes the best image that waits from the core model, has the scheduler choose a hub,
-- and starts the scan in both; the updates of the hubs go back to the core model.
--
-- The files and the code that they model:
--   Util/PriorityQueue: pkg/util/priorityqueue.go. The slots, the size and the map from keys to
--     positions; Add, Peek, Pop, Set, Remove and the two sift loops are the functions of the same
--     names, Set as `set_priority`. Children: Slots (slots and map), Order (the heap order), SiftUp,
--     SiftDown and Mend (the loops), Valid, Insert, SetPriority, Shrink, Remove and Pop; Debug has
--     Values, Dump and the first check of CheckValidity.
--   Core/Model: pkg/core/model. ScanStatus is scanstatus.go; Image has the records of image.go,
--     imageinfo.go, pod.go and container.go; State and Handlers are model.go, each method in snake
--     case; Results is modelextensions.go. Invariant, Transition, Preserve, Creation, Growth, PodImages,
--     Kept, Actions, Known, Shas, NextImage, Completion and Report hold the proofs.
--   Core/Model/Metrics: the counts of `metrics` in pkg/core/model/modelextensions.go; Totals has the
--     proofs.
--   Core/ApiMapper: pkg/core/apimapper.go and the conversions of modelextensions.go.
--   Hub/DataTypes: pkg/hub/datatypes.go and constants.go.
--   Hub/Mapper: pkg/hub/hubmapper.go.
--   Hub/CircuitBreaker: pkg/hub/circuitbreaker.go and util.go. Invariant and Backoff hold the proofs.
--   Hub/Client: pkg/hub/client.go. fetchScan and its requests; the raw client and the clock are
--     parameters. Calls has the lemmas of the requests, Fetch those of fetchScan.
--   Hub/Hub: pkg/hub/hub.go and timings.go. `did_login` is the action that login sends, `call_timers`
--     its four calls of the timers. Polls has the jobs of the timers. Errors, Timers, Login,
--     Working, Beside and Runs hold the proofs.
--   Util/Timer: pkg/util/timer.go. `handle` is the select of the loop; Step and Reach are its turns.
--     Invariant, Pausing and Delays hold the proofs.
--   Core/HubManager: pkg/core/hubmanager.go, with the host of config.go. Lookup, Keyed, Calls
--     and Created hold the proofs.
--   Core/ScanScheduler: pkg/core/scanscheduler.go; Capacity has the proofs.
--   Core/Perceptor: pkg/core/perceptor.go, one function for each request. Unknown is the routine of
--     NewPerceptor for images of status Unknown, and Requests has the requests one after another. Sound, Starting, NextImage, Serving and Lifecycle hold the proofs.
--   Core/RoutineTaskManager: pkg/core/routinetaskmanager.go and the timings of config.go; Delays has
--     the proofs.
--   Hub/Model: pkg/hub/model.go. View has apiModel and getStateMetrics; Ledger, Ending and
--     Polling hold the proofs.
--   Prelude: calls that may panic, Boolean tests, lists, integers, maps and counts.
--
-- How it is modelled. A Go method is a function from a state to a `Run`, which is a value, a panic or
-- the end of the fuel; an `error` is a value of an error type. Actions that goroutines send through a
-- channel are a list in the order in which they are received. Times are numbers that the caller
-- gives. A Go map is an association list, so a `range` has one order where Go's has any. A Go `int`
-- is an integer that does not wrap where the code only adds, counts or compares; the durations of
-- the circuit breaker are int64 and wrap.
--
-- Goroutines are steps that do not overlap: each call, each turn of the goroutine of SetHubs, each
-- action and each job of a timer is one. What two goroutines do at the same time to a map, to the errors
-- of a hub or to its circuit breaker, none of which has a lock, is outside the model. A pointer that the
-- source dereferences and that its input may leave nil is an Option here, and nil panics.
--
-- getNextImage is one step in `get_next_image`; in the runs of Perceptor/Requests its end may also come
-- later, after other requests, as `starts_late`.
--
-- Fuel. Only the two sift loops have fuel: the index plus one for the way up and the size plus one
-- for the way down. Every step of a loop changes the index, so that is enough, as the theorems that
-- the calls return show.
--
-- Not modelled: the HTTP server and its mock, metrics, logging, configuration and the main function,
-- which are input and output; the raw client of the Black Duck server, which is a parameter, and its
-- mock; the methods of the client that nothing calls.
pub mod Prelude
pub mod Util
pub mod Hub
pub mod Core
