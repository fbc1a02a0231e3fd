-- ===== src/Lib.antt =====
-- dbus-c++: the C++ binding of D-Bus, and what it promises to a service that uses threads.
--
-- A service is an ObjectAdaptor with interfaces; libdbus gives it calls, and it answers each by a
-- message, by an error, or later under a tag. A RequestPiper is an ObjectAdaptor whose methods run
-- on a worker thread: calls go to the worker by a queue, and answers and signals come back by
-- queues and a pipe to the dispatcher thread, the only one that talks to libdbus. The pipe carries
-- messages with a size prefix.
--
--   Common     lists, dictionaries keyed by numbers (Dict) and by texts (Names), permutations
--   Pipe       src/pipe.cpp: write, read and signal, with partial transfers and errors.
--              Pipe/Session is the pipe in use: its writers, and the reader in BusDispatcher::enter
--              of src/eventloop-integration.cpp, with its buffer of 1024 bytes
--   Message    src/message.cpp: calls, replies, errors and signals, as data
--   Interface  src/interface.cpp: dispatch_method, get_property and set_property;
--              Interface/Properties is src/property.cpp
--   Object     src/object.cpp: handle_message, the continuations, return_now, signals
--   Paths      src/object.cpp: the table of local objects by path, and the nodes below a path
--   Piper      src/request-piper.cpp: each operation on the queues; Piper/System is the threads, as
--              a step relation in which each step is what a thread does under one mutex
--   Dispatcher src/dispatcher.cpp: the queue of connections, dispatch_pending, and what
--              src/connection.cpp adds to it
--   EventLoop  src/eventloop.cpp: one round of the default event loop: the array of poll, how long it
--              may wait, the timeouts that expire and the watches that are told
--   BusLoop    src/eventloop-integration.cpp: the watches and the timeouts of libdbus in the event loop,
--              and one iteration of the dispatcher
--   Marshal    include/dbus-c++/types.h, src/types.cpp and the iterator of src/message.cpp: values
--              written to a message and read from it, variants, and the signatures of types
--   Connection src/connection.cpp: names, match rules, timeout and destructor, over libdbus and the
--              bus as a record of operations and their laws (Bus)
--   Proxy      src/object.cpp and src/interface.cpp: the proxies of remote objects, which use the
--              Connection to watch signals and to send calls
--   Introspection  src/introspection.cpp: the document that Introspect writes, on the child nodes of
--              Paths
--   RefPtr     include/dbus-c++/util.h: RefCnt and RefPtr over a store of counters, and the programs
--              that use them
--   Xml        tools/xml.cpp: the document that the code generators read, from the events of expat to
--              the tree, and from the tree to a text
--   Generator  tools/generate_adaptor.cpp and tools/generate_proxy.cpp: the text of the classes, from
--              the document (Xml) and the types (Signature). Generator/Programs has the statements of
--              C++ that stand in the bodies of functions, what they are written as and what they do
--              to variables and messages (Marshal), and in which functions no two names clash, so
--              that C++ takes them (Scope); Generator/Remote and Generator/Delivery are a proxy and an
--              adaptor that talk to each other
--   Signature  tools/generator_utils.cpp: the C++ type for a signature, and the names of stubs
--
-- A std::map is an association list with one entry for a key; a tag is an address and 0 the null
-- pointer; an exception is a value. What the kernel does (how many bytes a read moves, EINTR,
-- EAGAIN) is a list of outcomes that the loops use up in turn, so that it bounds their recursion;
-- the theorems say how much progress is enough. How the host lays out an integer is a parameter
-- (ByteOrder). What a service's methods do is a parameter as well. Messages carry their arguments
-- as a list that is not looked into; Marshal looks into it, over the items of libdbus as a record
-- of operations and their laws (Libdbus), which hold for values that libdbus accepts. Its fuel is for
-- the depth of the containers in a variant, and the theorems ask for as much as they nest, within the
-- limits of the protocol on the nesting of types; memory and the sizes of messages are not bounded.
-- Which names are identifiers of C++ is a parameter of the generated functions (is_identifier).
--
-- libdbus is a parameter of the dispatcher too, with a finite amount of work: dispatch_pending needs
-- more fuel than that. The parser of signatures has one step for each character, and one more. The
-- loop over the namespaces of an interface has as much fuel as its name has characters, of which
-- each round reads one at least.
--
-- Not modelled: what only calls libdbus (servers, pending calls, parts of connections), the glib
-- and ecore event loops, which are glue to other libraries, expat, and the programs that call the
-- generators. What a generated function does is modelled where no argument has an annotation for an
-- object, whose conversions are not code of the repository.
pub mod Common
pub mod Pipe
pub mod Message
pub mod Interface
pub mod Object
pub mod Piper
pub mod Dispatcher
pub mod EventLoop
pub mod BusLoop
pub mod Signature
pub mod Paths
pub mod Marshal
pub mod Xml
pub mod RefPtr
pub mod Connection
pub mod Proxy
pub mod Introspection
pub mod Generator
