-- ===== src/Lib.antt =====
-- grpcbridge: a bridge from HTTP, WebSocket and gRPC-Web requests to gRPC services, whose routers
-- learn at run time which targets serve what. This library models its routing, its forwarding of calls
-- and the web bridges, and proves them correct. A bridge takes a request, asks a router for the
-- connection and the method, and gives the forwarder a stream, which carries the messages between the
-- client and the target. Paths are those of the repository.
--
-- Base holds the shared names: tests on numbers, lists, byte strings with the functions of Go's
-- package strings that the code calls (Base/Strings), and maps (Base/Maps). A Go string is the list of
-- its bytes. A map whose iteration order is never read is a function to an optional value; a map that
-- is iterated is an association list, whose order stands for the order that Go happens to take, and
-- the theorems hold for every such list.
--
-- Desc and Desc/Parse: bridgedesc/types.go and bridgedesc/parse.go, the descriptions of targets.
-- SyncSet: internal/syncset/syncset.go. The methods hold the mutex throughout, so each is one step.
-- Routing: routing/routing.go, the types that both routers share, with the status codes of errors;
-- the texts of errors and all logging are left out.
-- Routing/Services: routing/service_router.go. `update_routes` and `remove_target` are `updateRoutes`
-- and `removeTarget`, with one function for each loop; `route_grpc` and `route_http` are `RouteGRPC`
-- and `RouteHTTP`. Services/Owners describes the table by owners of services, Services/Requests the
-- answers to requests, and Services/Lifecycle the router behind its watchers.
-- Routing/Patterns: routing/pattern_router.go. Patterns/Builder is `buildPatternRoutes`,
-- Patterns/Matching is `RouteHTTP` with `iterate`, and Patterns/Table the mutable table. An element of
-- a container/list list is a number, a link holds such a number, and a write through a link reaches
-- that element in whatever list it stands. A nil dereference is `none`. Table/Refinement relates the
-- table to its abstract view.
-- Routing/Watchers: `Watch`, `UpdateDesc` and `Close` of both routers, over a table that each router
-- fills; Watchers/Races splits `UpdateDesc` where another goroutine can come between.
-- HttpRule: internal/httprule. HttpRule/Tokenize is tokenize.go, HttpRule/Chars the checks of
-- identifiers and literals in parse.go, and HttpRule/Parse its parser: `accept`, `field_path`,
-- `parse_variable`, `parse_segment`, `parse_segments`, `parse_template` and `parse` are the methods of
-- the same names and `Parse`. Parse/Grammar states httprule.bnf as relations of segments and texts,
-- Parse/Steps how the parser's steps compose, Parse/Paths, Parse/Sound and Parse/Verbs what each method
-- accepts, Parse/Total the whole, and Parse/Nul the texts with a byte 0.
-- Adapter/Metadata: grpcadapter/metadata.go. `filter_request_md`, `filter_response_md` and
-- `filter_trailer_md` are the methods of `ProxyMDFilter`; Metadata/Named says under which name and
-- with which values a field is forwarded, Metadata/Allowed what the request's filter gives, and
-- Metadata/Origins and Metadata/Responses where its fields come from and what the others give.
-- Adapter/Pool: grpcadapter/pool.go. A controller is a number into a memory; `reserve` and `finish_new`
-- are the two steps of `New`, before and after the connection is made, and `new_client` is both.
-- Pool/Owners has the steps of overlapping calls of `New`, with each `Close` as one step, and the
-- pool's invariant.
-- HttpRule/Trie: internal/httprule/trie.go. `add` and `find` are `Add` and `Find`, `dfs`, `dfs_leaf` and
-- the functions that add nodes are those of the same names; what the code does to a node that it returns
-- is a function that they take. Trie/Single is a trie of one template, Trie/Verbs its handling of colons.
-- Adapter/Timeout and Adapter/Forwarder: grpcadapter/forwarder.go. `decode_timeout` is `decodeTimeout`
-- over 64-bit patterns; `forward`, `forward_incoming_to_outgoing`, `forward_responses`,
-- `forward_unary_response` and `forward_unary_request` are the methods, over lists of what the streams'
-- calls give, and result in the calls that they make. `select_loop` is the loop of `Forward` over what
-- arrives in its channels, in any order. Timeout/Exact, Forwarder/Directions and Forwarder/Calls hold
-- their properties. Rpc: internal/rpcutil/rpcutil.go and the errors of streams.
-- Web/Framing and Web/Socket: webbridge/grpcweb.go, the length-prefixed messages over a request's body
-- and over a WebSocket; `on_message` is `OnMessage`, and what it does to the socket and the channels is a
-- list of effects. Web/Query and Web/Response: webbridge/webbridge.go, `parseMetadataQuery` and the
-- writing of errors. Web/Http: webbridge/http.go, the handler `serve_http` and the stream's `send` and
-- `recv`. Web/Bridges: bridge.go and the handlers of gRPC-Web requests. Web/WebSocket: webbridge/websocket.go,
-- `on_message` for `OnMessage` of a transcoded stream, with `Recv`, `send` and `websocketError`.
-- Framing/RoundTrip, Socket/Events, WebSocket/Messages, Query/Metadata, Response/Errors and Http/Stream hold their properties.
-- Reflection: reflection/. Client is client.go over what its stream's calls give, Files the names and
-- files of a poll in resolver.go and util.go, with `retrieve_dependencies` for `retrieveDependencies`
-- on the rounds that are left, and Resolver a poll: `resolve_with_method` and `resolve` are the
-- methods of those names. Files/Sets, Files/Closed and Files/Kept, Resolver/Methods,
-- Resolver/Positions and Resolver/Hashes hold their properties.
-- Transcoding: transcoding/http.go. Paths is `traverseFieldPath`, over descriptors as a parameter, Bind is
-- `Bind` with the choice of the marshalers, and Requests the transcoding of requests and responses, with
-- one function for each step of `transcodeFunc`. Paths/Chains, Bind/Chosen, Requests/Filter and
-- Requests/Priority hold their properties.
-- Tests holds runs at concrete inputs and the theorems applied to them.
--
-- The loops of the routers run over lists and are structural. In HttpRule four functions run on fuel:
-- the tokenizer on the length of the text and one more, since each round takes a byte; the check of a
-- literal on its length; the parser on the number of tokens and one more, since each round takes a
-- token; and the trie's loop over colons on the length of the component and one more, since each round
-- takes a colon. In the first three, fuel that runs out has a result of its own, which does not occur.
-- `itoa` runs on the number and one more, since each round divides it. HttpRule/Trie/Fuel and
-- Web/Socket/Fuel compare the last two with runs on other fuel.
--
-- Parameters are the pool's `Get` for the routers and what NewClientFunc returns for the pool;
-- grpc-gateway's patterns (parsing, compiling, matching) and its `HTTPStatusFromCode`, since
-- internal/httprule/gwbased is a copy of grpc-gateway and its runtime is a dependency; the metadata maps of
-- google.golang.org/grpc/metadata, with the laws of `Get` and `Set` in `MdLibrary`; base64; the case folding
-- of internal/ascii, a copy of Go's; the encoding of messages by google.golang.org/protobuf, with its round
-- trip in `Codec`; net/textproto, url.PathEscape and http.CanonicalHeaderKey. The bridges take the
-- transcoders, the route and the forwarding as arguments, since each of them is an interface in the code.
-- For reflection they are protobuf's decoding and registry of files, the validity of a name, and sha256;
-- for transcoding the marshalers, mime.ParseMediaType, and the population of fields by internal/gwquery
-- and grpc-gateway, whose laws are in Requests/Population.
-- Not modelled are the client's connection and streams in grpcadapter, transcoding/json.go, the
-- options and the command; the goroutines of the WebSocket handlers and of the resolver; and the flags
-- by which a stream panics on concurrent calls.
mod Base
pub mod Desc
pub mod SyncSet
pub mod Routing
pub mod Adapter
pub mod Rpc
pub mod Reflection
pub mod Transcoding
pub mod Web
pub mod HttpRule
mod Tests
