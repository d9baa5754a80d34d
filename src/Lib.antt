-- ===== src/Lib.antt =====
-- The Sunbeam proxy (a Pingora-based reverse proxy that serves the Kubernetes Gateway API): a model
-- of its routing core and theorems about it.
--
-- Every configuration source (TOML, Caddyfile, Gateway API) is translated to one route table, the IR
-- of ir/mod.rs. ir/compile.rs compiles the table to the structures that a request is looked up in.
-- An HTTP request goes from its host name and port to a host node, and there through the exact paths,
-- or the path trie and the patterns, to a plan. A TLS connection is routed before the handshake: the
-- L4 router peeks the ClientHello, sni.rs reads the server name, and the most specific listener that
-- accepts it decides. The reconcilers of the Gateway API build a view of gateways, listeners and routes,
-- which gateway/translate turns into the route table: which host names a route serves is the
-- intersection of its own and those of the listeners that admit it.
--
-- Files (paths of the source are from the repository's root):
--   Ir.antt                  src/ir/mod.rs: the types of the route table
--   Compile/Types.antt       src/ir/compile.rs: the compiled types
--   Ir/PathRoutes.antt       src/ir/from_config.rs: the match, filters and action of a path route
--   Ir/FromConfig            src/ir/from_config.rs: the routes of the configuration as a route table;
--                            Rules and Lookup follow a route to the plans that answer requests
--   Config.antt              src/config.rs: the types of the configured routes
--   Compile/Plan.antt        compile_plan and compute_precedence; Plan/Fields, what an action keeps,
--                            and Plan/Precedence, how the packed numbers compare
--   Compile/Request.antt     plan_matches, extract_query_param, ir_hostname_matches and the scores
--   Compile/Discriminator    build_discriminator and resolve_node_plans; Placement, Resolve and Node
--                            relate the buckets to the plans of the node
--   Compile/Trie             the path trie: insert_plan_into_trie, build_discriminators, the walk
--   Compile/Host             compile_host and HostNode::lookup; Plans, Candidates, Lookup and Choice
--                            relate the answer to the rules of the host
--   Compile/Table            CompiledRouteTable: compile, find_host_node and lookup; Stored, HostNodes
--                            and Routing relate them to the hosts of the route table
--   Compile/L4               CompiledL4Config::compile: the merged listeners and the L4 routes;
--                            Merged, Addresses and Ids follow a listener to its new identifier,
--                            Renamed the routes
--   Compile/Examples         a route table run through the compiler
--   Gateway/Hostnames        src/gateway/translate/hostnames.rs and listener_hostname_intersects of
--                            src/gateway/reconcile/parent.rs
--   Gateway/Model            src/gateway/model/routing.rs and view.rs: the reconciled view
--   Gateway/FromModel        src/gateway/translate/from_model.rs: matches and backends
--   Gateway/Http, Grpc       src/gateway/translate/http.rs and grpc.rs: the rules of a route
--   Gateway/Effective        src/gateway/translate/hostnames.rs: compute_effective_hostnames; Sound and
--                            Complete relate a route's host names to its parents' listeners
--   Gateway/Layer4           src/gateway/translate/l4.rs: listeners and connection routes; Origin
--                            and Config describe what they should be, Loops and Made follow
--                            them there
--   Gateway/ToIr             src/gateway/translate/ir.rs: translate_view_to_ir; Groups are the merged
--                            rules, Translation, Rules and Origin where they come from, Answers and
--                            Lookup what answers a request, Reached which requests find a host,
--                            Unattached a route that no listener takes
--   Gateway/Grants           src/gateway/reconcile/refgrant.rs: GrantIndex::is_permitted
--   Gateway/Namespaces       src/gateway/reconcile/parent.rs: namespace_allowed, listener_allows_kind
--   Gateway/Election         src/gateway/election.rs: the state of the lease task and the tokens
--   Gateway/Watchdog         src/gateway/watchdog.rs: spawn, tick and abort_all; Supervision and
--                            Deadlines are about a tick
--   Gateway/Notify           src/gateway/gossip/resource_notify.rs; History is the specification
--   Cluster/Bandwidth        src/cluster/bandwidth.rs; Peers and Window are about its totals and rates
--   Proxy/Path               src/proxy/filters.rs: normalize_path
--   Proxy/Upstream           src/proxy/filters.rs: upstream_request_filter_inner and the mutations
--   Proxy/Body               src/proxy/filters.rs: response_body_filter_inner
--   Proxy/Weighted           src/proxy/match_.rs: pick_weighted_backend_ir_index
--   Proxy/Cors               src/proxy/match_.rs: cors_allow_origin
--   L4/Router                src/l4/router.rs: find_route, find_tls_route, pick_backend
--   Sni                      src/sni.rs; Encode is an independent description of a ClientHello
--   Common                   tests, bits, lists, texts, hash and B-tree maps, orders, sorting
--
-- How the model is made. A Rust str is the list of its bytes, a HashMap an association list with
-- one entry for each key, a BTreeMap one in the order of its keys, and a Vec a list. An Arc is a
-- plan with the number of its allocation, which is what Arc::as_ptr is compared for; the numbers of
-- a host's plans are consecutive. u64 arithmetic in compute_precedence keeps its wrap-around. The
-- routing code loops over lists and trees, so its loops are structural recursion. The two loops of
-- sni.rs that skip a length read from the bytes run on fuel, one more than the bytes that are left;
-- each round consumes at least three of them, so that is enough. Using up the fuel is an outcome of
-- its own, apart from finding no name.
--
-- What the code takes from elsewhere is a parameter: the regex crate is `re`, a matcher for each
-- pattern or none where the pattern does not compile; the request's header map is a function from
-- names to values that are valid text; the order in which a HashMap of counts is iterated, which
-- decides between equally frequent headers, is `iter`; the orders of the maps of listener groups
-- are `iter_groups` and `iter_merged`; weighted sampling, from the rand crate, is `sample`; the
-- server name that the L4 router peeks is `peeked`; the runtime that starts the watchdog's tasks is
-- `start`; f64 arithmetic in the bandwidth rates is `Floats`; URIs and header maps of the http and
-- pingora crates are `Http`; `String::from_utf8_lossy` and `str::replace`, on whose results no
-- theorem depends, are `from_utf8_lossy` and `replace`. Times are numbers of nanoseconds, passed to
-- the operation that reads the clock.
--
-- Not modelled: input and output (sockets, TLS, Kubernetes clients, files), the floating-point
-- classifiers and their training, logging and metrics, CompiledL4Config::listener_hostname_for, the
-- response mutations and the redirect locations of the HTTP proxy, translate_view (only tests call
-- it), the reconcilers and the status of the Gateway API, the Caddyfile.
pub mod Cluster
pub mod Common
pub mod Compile
pub mod Config
pub mod Gateway
pub mod Ir
pub mod L4
pub mod Proxy
pub mod Sni
