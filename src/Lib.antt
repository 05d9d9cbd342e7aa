-- ===== src/Lib.antt =====
-- hetao is a web server for Linux and Windows: it reads requests, finds the virtual host and the file
-- or the server to forward to, and sends the response. This library models its HTTP core and its
-- tables.
--
-- Parts, by file of this library and of the repository:
-- Base: tests on numbers, lists, and signed integers, shared by all.
-- Http: the HTTP library, src/fasterhttp.h and src/fasterhttp.c. Http.Types has its structures; a
--   pointer into a buffer is an offset, and a buffer's memory is a function from offsets to bytes.
-- Http.Scan, Http.StartLine, Http.HeaderLine, Http.HeaderValue and Http.Body: the steps of
--   ParseHttpBuffer, one function for each `case` of its switch. A step jumps to another, stops with
--   a code, or meets undefined behaviour (a signed overflow). Http.Parse runs them; Http.Parse.Resume
--   is about a call that goes on where another stopped, Http.Parse.Recorded about the slices that the
--   steps write down.
-- Http.KeepAlive: keep-alive and the tokens of a header's value.
-- Http.Query: QueryHttpHeader, TravelHttpHeaderPtr and the functions beside them.
-- Http.SplitUri: SplitHttpUri, with `stat` as a parameter.
-- Http.Buffer: the functions on buffers. What `malloc` and `realloc` find is a parameter.
-- Http.Environment: the whole of `struct HttpEnv`, CreateHttpEnv and ResetHttpEnv.
-- Http.Transport: SendHttpBuffer, ReceiveHttpBuffer and AjustTimeval over a record of what they ask of
--   the system (select, send, recv, gettimeofday); Http.Transport.Send and Http.Transport.Receive: the
--   blocking and non-blocking functions over them, which compose them with the parser. The laws that
--   the theorems ask of the system (`SendLaws`, `RecvLaws`, `TakesSome`) are what its manuals say.
--   An appended buffer is a value of its own; the callbacks and CompressHttpBody and
--   UncompressHttpBody are functions passed in.
-- Http.Status and Http.Response: the status lines and FormatHttpResponseStartLine. Http.Exchange: RequestHttp and
--   ResponseAllHttp, the composition of all these.
-- Server.RewriteUri: src/RewriteUri.c, with `pcre_exec` as a parameter.
-- Server.IpLimits: src/IpLimitsHash.c. Server.Tree: src/HttpSessionTimeoutTree.c and
--   src/HttpSessionElapseTree.c, over trees whose rebalancing and erasure (src/rbtree.c, a copy of the
--   Linux kernel's) are parameters. Server.Sessions: src/HttpSession.c, which uses all three.
-- Server.HashTable: src/VirtualHostHash.c, src/RedirectDomain.c, src/MimeTypeHash.c and CalcHash of
--   src/Util.c.
-- Server.Forward: the choice of a server to forward to, in src/OnConnectingForward.c.
--
-- Bounds and fuel: the loop over the parser's steps has two rounds for each byte received and two
-- more, which always suffice. The loops that enlarge a buffer have 64 rounds: from any size above 0
-- these bring it beyond the range of `int`, where the model stops with undefined behaviour. So it
--   does where data ends behind the memory that `realloc` moves.
--
-- The loop of SendHttpResponse ends within as many rounds as there are bytes to be sent, if the socket
-- takes a byte each time. The receiving loops have any number of rounds: they need not end.
--
-- Not modelled: epoll and completion ports, the inside of TLS, compression, regular expressions,
-- logging, the configuration file's parser, processes and signals. They are calls into the system or
-- into other projects' libraries, or lists of such calls.
pub mod Base
pub mod Http
pub mod Server
