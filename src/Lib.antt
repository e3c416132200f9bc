-- ===== src/Lib.antt =====
-- ruleraven watches a Kubernetes cluster, turns what it sees into snapshots, and decides for each
-- incident what to record, whom to notify and when to page. The parts and how they interact:
--
-- * internal/domain holds the values that the others exchange (Domain).
-- * internal/rules decides by fixed rules: `Engine.Evaluate` runs six rules on a snapshot and
--   concludes terminal, semantic, suppressed or no match (Rules; the rules in Rules/Detect).
-- * internal/provider is the contract with a model provider: questions and answers
--   (Provider/Question), requests and responses (Provider/Contract), their validation
--   (Provider/Validate) and the retry of a call (Provider/Retry).
-- * internal/decision composes the rules' result and a provider's answers into one decision
--   (Decision/Questions is the rubric, Decision/Compose the composer). A semantic result asks the
--   provider; what the rules decided is a floor.
-- * internal/notify delivers what the store's outbox holds: the envelope and the notifier
--   (Notify/Envelope), the registry (Notify/Registry), the dispatcher's construction and values
--   (Notify/Dispatcher), the signature (Notify/Signing), the webhook (Notify/Webhook; `New` in
--   Notify/Webhook/Factory), and the dispatcher's step `DispatchOne` (Notify/Dispatcher/Step). The
--   requests to the outbox are those of internal/store/store.go. What `NewDispatcher` builds is in
--   Notify/Dispatcher/Table and Notify/Dispatcher/Construction.
-- * internal/kube gives the keys of resources (Kube), the canonical form of a snapshot, its hash
--   and the key of an incident (Kube/Fingerprint), and the event handler that puts keys into the
--   queue (Kube/Handler).
-- * internal/controller takes a key from the queue and reconciles it: `Reconcile` and
--   `resolveDeletion` (Controller/Reconcile) end in `persist` (Controller/Persist), which asks
--   `decide` (Controller/Decide) and commits; the interfaces that they use are in
--   Controller/Types, and `NewReconciler` in Controller/Construction. The status of an incident,
--   the requeue of quiet Events and the sweeper's `SweepOnce` are in Controller,
--   its rounds in Controller/Sweeper.
--   Controller/Monitor is the protocol of the calls, an automaton.
-- * internal/store/mongo keeps incidents, snapshots, evaluations and the outbox: the documents
--   (Store/Documents), the conversions (Store/Mapping), incidents, snapshots and the transactional
--   `Commit` (Store/Incidents), and the claims, completions and reschedulings of deliveries
--   (Store/Outbox). Store/Collection says what the driver's collections promise, and
--   Store/Incidents/Laws what its transactions do; Tests/Memory is an instance. Store/Incidents
--   fills the reconciler's interface to the store, and Store/Outbox the dispatcher's. What the answers
--   of the outbox mean is written out field by field in Store/Outbox/Answers, and that of an update of
--   an incident in Store/Incidents/Revised, apart from the code. Store/Incidents/Open takes the
--   controller's sweep over the store's listing.
-- * internal/config holds the configuration and its defaults (Config) and its validation
--   (Config/Validate; what its checks leave, in Config/Parts and Config/Safe); URLs and the syntax of labels are parsed by functions that the caller
--   gives.
--
-- A function of the source has its name here in snake case; a record has the fields of its struct, a
-- data type the constants of its string type, with one more constructor for the empty string where
-- the code tests for it. A piece of a long function that has a name here says in its comment which
-- piece it is.
--
-- How Go is read. A time is a number of nanoseconds from Go's zero time, and a duration a number of
-- nanoseconds; both, and int, int32 and int64, are the integers of Common/Int, without overflow,
-- except that the difference of two times saturates as `Time.Sub` does. Division of a duration by
-- two rounds to zero. A map is an association list (Common/Maps), and the order of the list stands
-- for the order of a range loop. A float64 is a type with operations that the caller gives
-- (Provider/Float); the laws of its order are hypotheses where a theorem needs them, and Tests/Fixed
-- meets them with decimals of nine places. A string is a text of code points; the tests of case
-- compare with ASCII and know the letters beyond it that fold into it; blanks are those of Unicode
-- (Common/Text). An error is a value that says which of the code's errors it is, without its text. A
-- Go slice that is nil and one that is empty are the same list.
--
-- What acts on the world (an operation to retry, a context, a sleeper, a store, a clock, notifiers,
-- metrics, a log) is a function on a state that the caller chooses, so that a theorem holds for
-- every such world. The clock of the rules is the `now` of an evaluation: the source reads it once
-- or twice in one evaluation, and here all reads agree.
--
-- Fuel: the retry loop runs on the attempts that the policy allows, and a policy that validates
-- never runs out (Provider/Retry/Guarantees). The loops of the two backoffs are bounded by the
-- number of the attempt, as in the source. `itoa` runs on one more than the number. The rounds of the
-- sweeper's `Run` are as many as the fuel, and enough where the context ends
-- (Controller/Sweeper).
--
-- Concurrency: calls of the store by several workers are sequences of calls in any order
-- (Store/Outbox/Reach). One call on a collection is atomic; an upsert of an incident and its reading
-- back are taken without another writer between them.
--
-- Not modelled: the concurrent workers of the dispatcher's `Run` and the lock of the registry, since
-- a step is taken whole; the texts of errors and log lines, and the durations in logs and metrics;
-- the normalizer, the redactor and the informers of
-- internal/kube; the connection of the database and its indexes, those that let documents expire
-- (TTL) included, though no caller in the process sets an expiry; BSON tags; the decoding of the
-- configuration, the health server and the start of the process; the provider adapters, which are
-- wire formats over net/http and encoding/json. A failure class is one of the two constants: the
-- refusal of any other text by `RescheduleDelivery` is left out.
--
-- BSON, as the driver writes and reads it, is not modelled: a document is kept as it was written. The
-- driver stores a time as a date in milliseconds, so that what is read back has lost the rest of each
-- time; Store/RoundTrip takes what a date keeps as a parameter. The answers of an evaluation, which the
-- code holds as values of any type, are of a type that the caller gives; once read they would be
-- generic BSON values, and `evaluationFromDocument`, which only a test calls, is left out.
--
-- Common holds what the others share; Tests holds runs at concrete inputs.
pub mod Common
pub mod Domain
pub mod Rules
pub mod Provider
pub mod Decision
pub mod Notify
pub mod Config
pub mod Kube
pub mod Store
pub mod Controller
pub mod Tests
