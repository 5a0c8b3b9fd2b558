-- ===== src/Lib.antt =====
-- The werf operator: a Kubernetes controller that polls an OCI registry for the tags of a bundle and
-- runs `werf converge` in a Job for the latest tag.
--
-- The program and its model. A WerfBundle (api/v1alpha1/werfbundle_types.go) names a repository and
-- how to deploy it. `Reconcile` (controllers/werfbundle_controller.go) is called for a bundle on
-- each event or requeue: it keeps a finalizer, checks the namespaces and the ServiceAccount
-- (internal/rbac), polls the registry (internal/registry), and for a new tag creates a Job
-- (internal/converge) whose arguments carry configuration values (internal/values). What it knows
-- between two calls is the status of the bundle, stored by the API server.
--
--   Base         Go's strings (lists of bytes), maps (association lists in the order in which
--                `range` visits them), errors, int32 and int64, sort.Strings, decimal numbers.
--   Api          api/v1alpha1/werfbundle_types.go: the resource and its validation;
--                `GetTargetNamespace` of internal/values/helpers.go. Registration is
--                api/v1alpha1/groupversion_info.go with the init function of the types.
--   Values       internal/values: Merge (merge.go), Escape (cli.go), SetFlags (helpers.go), Yaml
--                (yaml.go; Yaml/Paths describes a flat map by the paths of its document), Fetch
--                (fetch.go), Resolver (implementation.go, resolver.go).
--   Registry     internal/registry: Backoff (backoff.go), Etag (etag_transport.go), Client
--                (client.go).
--   Rbac         internal/rbac/validator.go.
--   Converge     internal/converge: JobName, Limits and Builder (job.go), Logs (logs.go).
--                JobName/Labels has what Kubernetes asks of a name.
--   Controller   controllers/werfbundle_controller.go: Cluster (the interface to everything
--                outside), Status (`updateStatus...`), JobLogs (`storeJobLogs`), Monitor
--                (`monitorJobCompletion`), Ensure (`ensureJobExists`), Polling
--                (`handleRegistryError` and `Reconcile` from the poll on), Reconcile (`Reconcile` up
--                to the poll and `validateServiceAccount`). The other modules are proofs: Runs has
--                the step relation of a bundle's life, Retries that of a failing registry, SingleJob
--                how many Jobs are created and for which tags, Launches how an attempt to deploy a
--                tag may end, Caching what becomes of an ETag, Guards what is checked before,
--                Isolation what the calls may be about, Panics what can panic, Invariants the
--                interface through which a property of the API server is carried through a
--                reconciliation. Setup is `SetupWithManager`.
--   Command      cmd/main.go: the flags and the options that they make; Init is `init`, which makes
--                the scheme, and Start is `main`.
--   DeepCopy     api/v1alpha1/zz_generated.deepcopy.go: the resource as it lies in memory, Heap
--                (cells, pointers, slices), Copies (the functions). Copier says what a deep copy is
--                and how deep copies are put together; Structs and Bundles do so for each struct,
--                and Independence for what `DeepCopy` returns.
--   Testing      internal/testing/values.go: SetFlags is `ExtractSetFlags`, which reads back from a
--                Job the values that it is started with; Reading and Deployed are proofs.
--   Examples     an API server in memory and small inputs, at which the theorems are applied.
--
-- State and calls. An operation takes an environment `Env S`: the state, of any type `S`, of all
-- that is outside the operator, and the list of the recorded calls, the last one first: the updates
-- and creations, the reads of Jobs and ServiceAccounts, and the listings of tags. The reads of
-- bundles, ConfigMaps, Secrets, pods and logs, the clock and the random numbers are not recorded.
-- `Cluster S` has a function for each call of the API server, the registry, the clock and the random
-- numbers; each may answer anything and change the state. `Library` has the pure functions of
-- libraries (finalizers, quantities, YAML, durations). `Outcome` is ctrl.Result with the error, or a
-- panic. A Go function that mutates the bundle it is given returns the new bundle. A part of a Go
-- function that is modelled by a definition of its own is named by the comment above that
-- definition.
--
-- The command is a sequence of steps each of which may end the process, over a `Platform` with the
-- libraries' functions. A deep copy runs on a heap of cells and may fault, at an address with
-- nothing at it; a struct within a struct is part of the cell of the outer one, and the element of a
-- slice is a cell.
--
-- Assumptions about what is outside are named hypotheses: KeepsStatus, KeepsSpec and KeepsIdentity
-- (what an update and the status subresource answer), Stores (what a read of the bundle answers
-- with), KeepsErrorsApart (errors of the API and of the YAML parser are not this program's), what
-- rand.Intn promises, HandlesFinalizers (what controllerutil documents of its functions on
-- finalizers), that the deep copies of apimachinery are deep (IsCopier), and that a scheme knows the
-- types that were added to it (Registers). The server, the client, the finalizers, the scheme and
-- the copies of Examples meet them.
--
-- Numbers. A duration is a number of nanoseconds in an int64; the shift and the product of the
-- backoff, the counter of failures (int32) and the retention in seconds (int32) wrap around. The
-- loops are recursion on lists, and on the length of a slice that is copied. Two functions have
-- fuel: `hex_digits` prints a uint32, for which 8 digits are enough, and `digits` prints n with fuel
-- n + 1, where each round divides n by ten.
--
-- Not modelled: the flags of the logger, logging, contexts and cancellation, concurrent
-- reconciliations (the manager runs one at a time for each bundle), the server's side of the Job,
-- and the other helpers of tests (internal/testing, internal/values/testdata, test/utils).
pub mod Base
pub mod Api
pub mod Values
pub mod Registry
pub mod Rbac
pub mod Converge
pub mod Controller
pub mod Command
pub mod DeepCopy
pub mod Testing
pub mod Examples
