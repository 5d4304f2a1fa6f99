-- ===== src/Lib.antt =====
-- TV-Now, a UPnP media server (C): a model of its text, media type, parser, socket,
-- HTTP body and UPnP stack code.
--
-- The program keeps media objects and serves them as DIDL-Lite over SOAP (MicroMediaServer.c on
-- UpnpMicroStack.c, itself on libIWeb). Requests and URIs pass through the texts of MyString.c and
-- the parsers of libIWeb/ILibParsers.c; MimeTypes.c and CdsMediaClass.c say what kind of object a
-- file is.
--
-- - MyString: MyString.c. `MyString.Affix` is `EndsWith` and `StartsWith`, `MyString.Search` is
--   `IndexOf` and `LastIndexOf`, `MyString.Decode` is `Utf8ToAnsi` and `Utf8ToWide`,
--   `MyString.Encode` is `strUtf8Len` and `_strToUtf8`; `MyString.Libc` is what they use of the C
--   library.
-- - Parsers: libIWeb/ILibParsers.c. `Parsers.XmlEscape` is `ILibXmlEscape`, its length and its
--   inverse, `Parsers.Split` is `ILibParseString` and `ILibParseStringAdv`, `Parsers.LifeTime` is the
--   list of timers of `ILibLifeTime_Add`, `Check`, `Remove` and `Flush`, `Parsers.HashTree` is the
--   table of `ILibAddEntry`, `ILibGetEntry`, `ILibHasEntry` and `ILibDeleteEntry`, `Parsers.Queue` is
--   the `ILibQueue` operations on a store of nodes, and `Parsers.Base64` is `ILibBase64Encode` and
--   `ILibBase64Decode`. The other linked lists are lists of their nodes, and a timer's callback is a
--   function on the list of timers.
-- - Didl: CdsObjectToDidl.c, with the objects of CdsMediaObject.h (`Didl.Object`). `Didl.Escape` is the
--   double escape and its length, `Didl.Filter` is `CdsToDidl_GetFilterBitString`, `Didl.Count` and
--   `Didl.Print` are the two halves of `CdsToDidl_GetMediaObjectDidlEscaped`, which adds up the size of
--   a buffer and then writes into it; each `if` of either half is an entry of a list. `Didl.Plain` is the
--   objects of files, and of broadcasts without the fields whose bits are those of others.
--   `localtime` with `strftime` is a parameter, and so is what `timeString` holds before it is written.
-- - Server: MicroMediaServer.c. `Server.Paths` is `GetFileExtension`, `GetParentPath` and
--   `GetFileName`, `Server.Hex` is `GetCharFromHex`, `Server.Directive` is the unescaping of the
--   directive and the local path in `HandleWebRequest`.
-- - Parsers.Packets: `ILibParsePacketHeader` and `ILibGetRawPacket` of libIWeb/ILibParsers.c, on
--   `Parsers.Split`.
-- - Parsers.Xml: the XML parser of libIWeb/ILibParsers.c. `Parsers.Xml.Tags` is `ILibParseXML`, and
--   `Parsers.Xml.Nodes` is `ILibProcessXMLNodeList` with the stack functions, and `ILibReadInnerXML`. A
--   pointer to a node is its index in the list, a pointer into the text the bytes from there on.
-- - Sockets: libIWeb/ILibAsyncSocket.c. `Sockets.Output` is `ILibAsyncSocket_Send`, `Disconnect`,
--   `ClearPendingSend` and the write handling of `ILibAsyncSocket_PostSelect`; the results of `send`
--   are inputs, and the bytes that it took are kept as the wire.
-- - Web: `Web.Chunks` is `ILibWebClient_ProcessChunk` of libIWeb/ILibWebClient.c with the read loop
--   that calls it, `Web.Server` is `ILibWebServer_Send_Raw`, `StreamBody` and `RequestAnswered` of
--   libIWeb/ILibWebServer.c on `Sockets.Output`, and `Web.Delivery` puts the two together.
--   `Web.Directories` is the registration of virtual directories, on `Parsers.HashTree`.
-- - Web.Headers: `ILibWebServer_StreamHeader_Raw`, and Parsers.Numbers: `ILibGetLong` and
--   `ILibGetULong`, whose `strtol` and `strtoul` are written out for a `long` of 64 bits.
-- - Upnp: UpnpMicroStack.c. `Upnp.Subscribers` is the doubly linked list of a service's subscribers,
--   `UpnpRemoveSubscriberInfo` and `UpnpDestructSubscriberInfo`, on a store in which a pointer is an
--   address and a freed node is gone; a call on a freed node or through NULL is a result of its own.
--   `Upnp.Expiry` is `UpnpExpireSubscriberInfo`, `Upnp.Eventing` is `UpnpSendEvent`, its sink and the
--   calls `UpnpSetState_...`, `Upnp.Callback` and `Upnp.Subscribe` are the SUBSCRIBE and UNSUBSCRIBE
--   requests. They meet in that store: a subscription sends its first event, an event holds the
--   subscriber until its sink releases it, and a request may take it out in between.
--   `Upnp.Actions` is `UpnpProcessPOST` and the reading of a SOAP action's arguments, on `Parsers.Split`,
--   `Parsers.Numbers` and `Parsers.XmlEscape`; the application's functions are its results.
--   `Upnp.Responses` is the calls `UpnpResponse_...`, on `Web.Headers` and `Web.Server`, and `Upnp.Ssdp`
--   the announcements and searches; a packet handed to the web client or to `sendto` is an entry in a list.
-- - Media: MimeTypes.c (`Media.MimeTypes`), and CdsMediaClass.c with the class checks and the class
--   text of CdsObjectToDidl.c (`Media.Class`).
--
-- A C string is the list of its bytes; an array is a list, and a read behind its end is a result of
-- its own. Numbers are unbounded: texts are far shorter than an `int` can count. Loops that may not
-- end (the decoders) take their rounds as fuel; every other fuel is a length that bounds the loop.
--
-- The read loop of a body has fuel as well: each round takes a byte at least. The write loop of a
-- socket goes on as long as there are results of `send`. Walks over the subscribers take their
-- rounds as fuel, of which one for each entry and one more is enough on a well-formed list; `malloc`
-- gives an address that is not in use, and `gettimeofday` the same time throughout a call.
--
-- Not modelled: how sockets are opened and read, threads and the file system, the walk over
-- directories that Browse makes, the dispatch of HTTP requests by method, the request queue of the
-- web client, and the C++ bridge to the tuner library.
pub mod Common
pub mod Didl
pub mod Media
pub mod MyString
pub mod Parsers
pub mod Server
pub mod Sockets
pub mod Upnp
pub mod Web
