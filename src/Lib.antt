-- ===== src/Lib.antt =====
-- stapler-mcp: a daemon that serves web-reading and browser tools over the Model Context
-- Protocol, with thin clients that start it and forward calls. This library models the tools that
-- read web pages, the parts that protect them, the capture of network traffic, the accessibility
-- tree, the credential store, the daemon's dispatch, and the client's start of the daemon.
--
-- The parts and their files. `Daemon` (Daemon) serves one request for each connection and
-- dispatches it to the registered tools; it is crates/core/src/daemon.rs. Where it keeps its
-- files (Locations) is crates/core/src/paths.rs, and the token of its HTTP transport (Tokens) is
-- crates/core/src/http_auth.rs with crates/native/src/http_token.rs. The tools: `read_website`
-- (ReadWebsite) runs a crawl over the frontier `Crawler` (Crawler), which asks the SSRF guard
-- `blocked_host_reason` (Policy) before it admits a URL, and the login-wall detection
-- `detect_auth_wall` (Auth) before it takes a page for content. Large pages are saved to files
-- that `read_saved_page` (SavedPage) reads back; `download_website` (Download) saves the pages of
-- a crawl below a directory. These are crates/core/src/tools/webcrawl.rs and
-- crates/core/src/auth.rs. The log of network requests of a browser session (Network) is
-- crates/native/src/network.rs. The client that pings the daemon, starts it and waits for it
-- (Client) is crates/core/src/client.rs with crates/core/src/protocol.rs. The credential store
-- over the 1Password command line (Vault) is crates/native/src/vault.rs: `resolve` shares one
-- running `op` call between callers (Vault/Flight) and runs `resolve_uncached`. The accessibility
-- tree of a page, with its references and the redaction of secrets (Ax), is
-- crates/native/src/ax.rs. The index of documentation (Docs), which runs the same crawl, cuts
-- pages into chunks and keeps a manifest of its sources, is crates/core/src/tools/docs.rs; the
-- web searches (Search) are crates/core/src/tools/search.rs. Of the browser tools,
-- `browser_type_secret` (Browser) is crates/core/src/tools/credential.rs. The errors and the values
-- that cross the port traits (Ports) are from crates/core/src/ports.rs and crates/core/src/schema.rs.
--
-- How the code is modelled. Each function has the name that it has in the source; `Crawler::new`
-- is `new_crawler`, `Crawler::allowed` is `robot_allows`. A struct is a record, an enum a data
-- type. A method on `&mut self` returns the new value. A port is a function on the state of the
-- world `W`, which returns its answer and the next state. A text is its list of Unicode scalar
-- values; byte lengths, byte slices and char boundaries are computed from the UTF-8 length of
-- each value. A slice that panics is `none`, or `crashed` in `read_website`. A set or a map is a
-- list. `usize` sums that an input can overflow wrap at 2 ^ 64, as in a release build.
--
-- Parameters. Web lists the third-party code of the crawl: the url crate, the link selector,
-- texting_robots and lossy UTF-8 decoding; ReadWebsite adds Readability, htmd, the SHA-256 digest
-- and serde_json; Vault has serde_json::Value and the `op` process, Ax the protocol of the
-- browser, Docs floats, the Unicode tables of letters, the Markdown splitter and the embedder.
-- The clock of the network log, which is a float, is a type with an order. Samples gives concrete
-- parameters for the tests.
--
-- Fuel. The loop of `read_website` takes a round of fuel for each URL; the weight of the first
-- queue, which counts the URLs that a page with a bounded number of links can bring over five
-- levels, is enough. The loop of `ensure_daemon` takes one for each 50 milliseconds of the
-- startup timeout. The accept loops of the daemon, which need not end, take one for each
-- connection, and the loops of `download_website` and `index_source` one for each URL. The walk
-- over the accessibility tree takes fuel for its depth; a rank of the nodes that grows from
-- parent to child bounds it, and every tree has one. All other loops are structural.
--
-- Conditions. In the model only requests set the shutdown flag of a daemon; the handler of SIGTERM in
-- crates/cli/src/main.rs sets it too and is not modelled. The laws of the ports of the client
-- (Client/Start) exclude that the system clock is set back during a call. Those of the browser that a
-- search uses (Search/Sessions) are what the driver of crates/native/src/browser.rs does where no
-- other call comes between.
--
-- Not modelled. Calls on the documentation index that overlap, the browser sessions and their
-- other tools, the HTTP server, the thin client's router, and the adapters behind the ports. Lines
-- printed to stderr are left out.
pub mod Common
pub mod Ports
pub mod Network
pub mod Web
pub mod Policy
pub mod Auth
pub mod Crawler
pub mod ReadWebsite
pub mod SavedPage
pub mod Client
pub mod Daemon
pub mod Locations
pub mod Download
pub mod Tokens
pub mod Vault
pub mod Ax
pub mod Docs
pub mod Search
pub mod Browser
pub mod Samples
