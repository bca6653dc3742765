-- ===== src/Lib.antt =====
-- The operator core: traffic policies, the translation of routes into ngrok endpoints, the driver that
-- applies them, the bindings of remote endpoints, the drain, and the generic reconcile.
--
-- How the parts interact. Ingress and Gateway API resources become virtual hosts of an intermediate
-- representation (internal/ir). The translator (pkg/managerdriver/translator.go) sorts their routes,
-- chooses a service to collapse each virtual host into, and makes cloud endpoints, agent endpoints and
-- the traffic policy that routes between them. The driver (pkg/managerdriver) lets one synchronisation
-- run at a time, lists the endpoints with its labels, and creates, updates and deletes until the
-- cluster holds what the translator wants; it reserves the domains of ingresses and gateways on the
-- way. Independently, the poller of internal/controller/bindings reconciles the bound endpoints of the
-- cluster with those of the ngrok API, with a port for each from the port allocator. Every controller
-- runs through the generic Reconcile of internal/controller/base_controller.go, which adds and removes
-- finalizers; internal/drain removes them when the operator is uninstalled, and its flag stops the
-- other parts.
--
-- Files:
--   Common            Boolean tests, lists over native numbers, maps as association lists, texts, three-way
--                     comparisons and the stable sort of Go's sort.SliceStable.
--   Policy            internal/trafficpolicy/policy.go: TrafficPolicy, Rule, Action, Merge, IsEmpty,
--                     ContainsAction. A config of Go type any is a Value.
--   Ir                internal/ir/ir.go: the records; Ir/Service: Key, UniqueServiceCount,
--                     AddOwningResource; Ir/Order: SortRoutes, whose comparator is route_less.
--   Names             pkg/managerdriver/utils.go: sanitizeStringForK8sName and the names and URLs built
--                     with it. SHA-256 is a parameter.
--   Translator        pkg/managerdriver/translator.go. Mapping: validateMappingStrategies;
--                     Expressions: irMatchCriteriaToTPExpressions;
--                     Expressions/Meaning: the language of expressions, which
--                     ngrok evaluates, as a parameter; Weights: the intervals of
--                     weighted destinations; Endpoints: buildPublicURL,
--                     buildCloudEndpoint, buildAgentEndpoint; Rules: the single
--                     rules; Routing: buildRoutingPolicy; Assemble:
--                     buildDefaultDestinationPolicy and IRToEndpoints. The cache
--                     of agent endpoints is passed along as an association list by
--                     service key; pointers to policies are values.
--                     Ingresses: pkg/managerdriver/translate_ingresses.go, ingressesToIR and all it
--                     calls (Backends: ingressBackendToIR; ServicePorts: utils.go; Merge: MergeMetadata of
--                     internal/ir/ir.go; Hosts, Refresh: the caches of virtual hosts and upstreams).
--   Ports             internal/controller/bindings/port_allocator.go over the bitmap of docker/libnetwork,
--                     which is a parameter with its documented behaviour as laws. The arithmetic of
--                     uint16 is written out. Ports/Traces: sequences of operations.
--   Bindings          internal/controller/bindings/boundendpoint_poller.go: filterBoundEndpointActions and
--                     boundEndpointNeedsUpdate; Bindings/Poller: createBinding, updateBinding,
--                     deleteBinding, updateBindingStatus and the refresh of ports over any client;
--                     Bindings/Aggregate: internal/ngrokapi/bindingendpoint_aggregator.go, with url.Parse
--                     and strconv.Atoi as parameters.
--   Drain             internal/drain/drain.go, state.go and boundedDrainErrors of orchestrator.go, with the
--                     finalizers of internal/util/k8s.go, over any cluster. The time limit of
--                     waitForDeletion is a number of polls, for which the theorems hold whatever it is.
--   Reconcile         internal/controller/base_controller.go: Reconcile, handleErr, CtrlResultForErr. The
--                     answers of its collaborators are a record, its calls a list.
--   Labels            internal/controller/labels: ControllerLabels, HasControllerLabels,
--                     EnsureControllerLabels, the selectors and the validation. A label map is an
--                     association list, and a nil map is none.
--   Mux               internal/mux/header.go: WriteProxyMessage, ReadProxyMessage and
--                     UpgradeToBindingConnection. The connection and the protobuf encoding are parameters.
--   Endpoints         internal/util/endpoints.go: IsInternalDomain and ParseAndSanitizeEndpointURL, with
--                     url.Parse and strconv.Atoi as parameters.
--   Driver            pkg/managerdriver: Debounce is syncStart, syncDone and the wait between them in
--                     driver.go, with channels as numbered states; Debounce/Traces: any number of callers;
--                     Apply: applyAgentEndpoints and applyCloudEndpoints of endpoints.go and the lists of
--                     controller_label_list.go, over an API client that fills in the defaults of a schema
--                     and keeps an object that is being deleted until its finalizers are gone; Domains:
--                     domains.go; Sync: the steps of Sync and SyncEndpoints.
--   Examples          Tests, and the theorems at concrete inputs.
--
-- Bounds. A weight, a count and an int32 port are natural numbers: Kubernetes validates them to be small
-- and not negative. The only fuel is the number of polls of a drain.
--
-- Not modelled: logs, events and I/O; the parsing of annotations, the translation of Gateway API
-- resources into virtual hosts, the statuses that the driver writes, the concurrency of applyDomains
-- (its calls are for different objects, and stand in the order in which they end), the retry loops of
-- the poller, HandleDrain's conditions, the single controllers, and generated code.
pub mod Common
pub mod Policy
pub mod Ir
pub mod Names
pub mod Translator
pub mod Ports
pub mod Bindings
pub mod Drain
pub mod Reconcile
pub mod Labels
pub mod Mux
pub mod Endpoints
pub mod Driver
pub mod Examples
