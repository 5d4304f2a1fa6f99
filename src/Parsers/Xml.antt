-- ===== src/Parsers/Xml.antt =====
-- libIWeb/ILibParsers.c: the XML parser. `Xml.Nodes` is `ILibProcessXMLNodeList` with the stack that
-- it keeps, and `ILibReadInnerXML`; `Xml.Tags` is `ILibParseXML`.
pub mod Nodes
pub mod Tags
