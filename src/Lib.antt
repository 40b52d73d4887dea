-- ===== src/Lib.antt =====
-- Byoda: a personal data store. Pods keep their owners' data; directory, service and app servers
-- issue certificates and forward queries. The Python package byoda/ holds the parts they share.
--
-- Names and certificates. An identity (an account, a member of a service, an app, a service, a
-- certificate authority) is named by the common name `<id>.<type>[-<service id>].<network>` of its
-- certificate.
--   DataTypes   the types of identities: byoda/datatypes.py.
--   CommonName  `Secret.review_commonname_by_parameters` of byoda/secrets/secret.py is `review`, with a
--               function for each of its steps; CommonName/RoundTrip and CommonName/Safety are
--               about it.
--   CaSecret    byoda/secrets/ca_secret.py and its six subclasses: a `CaKind` for each subclass, `Ca`
--               for the attributes that are read; CaSecret/Requests has the review and the signature of
--               certificate signing requests; CaSecret/Policy and CaSecret/Signing are about them.
--               CaSecret/Store has `CertStore.sign` of byoda/datastore/certstore.py, with its theorem.
--   Names       the names that the classes of byoda/secrets/*_secret.py write; Names/Accepted is about
--               them and the certificate authorities.
--
-- Requests and rights. A client shows a certificate, as the headers of the reverse proxy give it, or a
-- JSON web token; a pod answers a data request by the access rights in the schema of the service.
--   Jwt         byoda/requestauth/jwt.py: `create` makes the payload of a token and `read_claims` reads
--               one; Jwt/Scope and Jwt/RoundTrip are about the two.
--   RequestAuth byoda/requestauth/requestauth.py: distinguished names and the checks of certificates;
--               RequestAuth/Tokens has tokens and their signers (byoda/servers/pod_server.py), and
--               RequestAuth/Requests `authenticate` and its overrides, up to `review_data_request` of
--               podserver/dependencies/pod_api_request_auth.py. The others are about these:
--               Handlers, Certs, Callers, Evidence and Known lead to DataRequests; Issuers is about the
--               issuers of certificates. RequestAuth/Api has the APIs of a pod's account and
--               memberships (`PodApiRequestAuth.authenticate`), which ApiChecks and ApiCallers are about.
--               RequestAuth/Servers has the authentication by directory and service servers
--               (dirserver/dependencies/, svcserver/dependencies/), which ServerCallers is about;
--               RequestAuth/Registration has the registration of members (svcserver/routers/member.py),
--               RequestAuth/Directory that of accounts and services (dirserver/routers/account.py and
--               service.py), with the theorem about accounts.
--   Access      byoda/datamodel/dataaccessright.py and the access controls of
--               byoda/datamodel/dataclass.py: Access itself parses them, and Access/Authorize has
--               `authorize` of the five classes of rights, `authorize_access` of the classes of a schema
--               and `authorize_data_request`; Access/Authorize/Rights, Requests and Stated are
--               about them.
-- An accepted certificate leads from RequestAuth through CaSecret to CommonName, and the identity that
-- it gives is the `Auth` of Access/Authorize.
--
-- Data.
--   DataFilter  byoda/datamodel/datafilter.py: `DataFilter` and its four subclasses; DataFilter/Sql has
--               their SQL, and DataFilter/Sets `DataFilterSet`. DataFilter/Select, DataFilter/Exclude,
--               DataFilter/Where and DataFilter/Divergence are about the sets, with
--               DataFilter/Conditions about one filter.
--   ContentKeys byoda/datamodel/content_key.py: keys for restricted content; ContentKeys/Active, with
--               ContentKeys/Sorting, and ContentKeys/Identifiers are about them; ContentKeys/Tokens
--               has the text that a token is the hash of.
--   Merkle      the tree of byoda/util/merkletree.py: a `Tree` with the parents on its right edge for
--               the nodes that point at each other. Merkle/Counting and Merkle/Shape lead to
--               Merkle/Root and Merkle/Injective.
--
-- Data contracts. A service signs the schema of its data and submits it to the directory server, which
-- adds the network's signature.
--   Contract    byoda/util/message_signature.py, and the signatures of byoda/datamodel/schema.py, which
--               Contract/Messages, Signing and RoundTrip are about; Contract/Registry has `patch_service`
--               of dirserver/routers/service.py with the services in a worker's memory, which
--               Contract/Registered (by Accepts and Outcomes), Held (by Later) and Forged are about.
--
-- Pods and caches. A pod answers a query and sends it on to the pods that it has links to; caches keep
-- the ids of the queries that a pod has seen, and the counters of its tables.
--   Cache       byoda/datacache/: Cache itself has the interfaces of `orjson` and of a table of SQLite;
--               Cache/Sqlite is byoda/datacache/kv_sqlite.py, and Cache/Spec the map that it promises, to
--               which Cache/Refines with Rows, Steps and Incr relates it: the map carries out no
--               decrement, since the statement of decr is always refused. Cache/Query is
--               byoda/datacache/querycache.py, which Cache/Once and Cache/Forgets are about;
--               Cache/Counter is byoda/datacache/counter_cache.py, which Cache/Counting is about; Cache/Fields
--               has the keys of the counters of byoda/datamodel/memberdata.py, and Cache/Names and
--               Cache/Updated are about them. Cache/Redis has the counters of
--               byoda/datacache/kv_redis.py, which Cache/Persist is about.
--   Proxy       byoda/datamodel/data_proxy.py: the targets of a query and the query that is sent on, and
--               Proxy/Targets about them. Proxy/Get has `MemberData.get` of byoda/datamodel/memberdata.py up
--               to the queries it sends, with the text that is signed, and Proxy/Signed is about it.
--               Proxy/Append has `MemberData.append`. Proxy/Network has a network of pods: a `Run` of steps
--               that deliver or lose a query; Proxy/Ends and Proxy/Answers are about the runs, and
--               Proxy/Cached makes the SQLite cache the set of ids that a pod has seen.
--
-- Base has the notation: Boolean tests, lists over the native numbers, and `Result`, which is a value
-- or one of the exceptions that the code raises. Text has the operations on `str` that the code
-- uses, on lists of code points; Text/Number reads and prints numbers as `int` and `str` do, and
-- Text/Uuid UUIDs. Tests runs the theorems at concrete inputs.
--
-- Code that is not in the repository is a parameter: `Platform` of DataFilter has Python's numbers,
-- dates and patterns; `PyJwt` of Jwt decodes a token with a key or without, and a payload that was
-- verified is the one that the token carries; `Pymerkle` of Merkle has the hash of two digests and
-- the powers of two of a size, of which the lowest comes first; `SqlTable` and `RedisDriver` of Cache
-- are what the statements and commands of the caches leave behind, `Orjson` reads what it has
-- written, and `Crypto` of Contract signs and verifies with a key, and reads the base64 and
-- timestamps that it has written; `Storage` of Contract/Registry is what files and the DNS say of a
-- service; `Signatures` of Proxy/Get verifies what a member has signed; a certificate signing request
-- is a record of what the code reads of one, and the DNS a test of names. The memberships of a pod
-- and the classes of a schema are functions. There is no fuel: every loop is over a list or a tree,
-- and runs of pods are a relation. Times are seconds. A service id fits 32 bits and a UUID 128, as in
-- the source.
--
-- Not modelled: input and output (files, databases, HTTP, cloud storage, messaging), cryptography, the
-- servers' start-up and their other routes, the request authentication by app servers, the values of
-- a schema's classes, the lists and documents of the caches, the imports from other platforms, and
-- logging.
pub mod Base
pub mod Text
pub mod DataTypes
pub mod CommonName
pub mod CaSecret
pub mod Names
pub mod Jwt
pub mod RequestAuth
pub mod Access
pub mod DataFilter
pub mod Merkle
pub mod ContentKeys
pub mod Cache
pub mod Contract
pub mod Proxy
pub mod Tests
