-- ===== src/Lib.antt =====
-- The core of Mobile Coder: the session, the agent's turn, the stream, the tools, the jobs, the worker
-- thread, the files of the guest and git, with the theorems that say what a chat can rely on.
--
-- The program is a coding agent on a phone. A worker thread (crates/mc-agent/src/worker.rs) takes
-- what the user does in the order in which it was done. For a prompt it runs a turn
-- (crates/mc-agent/src/lib.rs): rounds of one streamed request each, rebuilt into a message by the
-- accumulator (crates/mc-agent/src/wire.rs), whose tool calls are run in a sandbox
-- (crates/mc-agent/src/tools.rs, crates/mc-sandbox/src/jobs.rs and backend.rs) and answered in one
-- turn of results. The session (crates/mc-core/src/session.rs) keeps what is sent, is compacted
-- when it is too long, and is saved by the worker (crates/mc-core/src/library.rs, store.rs). All
-- that happens is told in events (crates/mc-core/src/event.rs), from which the screen is reduced
-- (crates/mc-core/src/chat.rs). A stop reaches a turn through crates/mc-core/src/cancel.rs. Beside the
-- chat, the user browses the files of the guest (crates/mc-core/src/files.rs,
-- crates/mc-sandbox/src/fs.rs), and commits, clones, pushes and pulls with git in the sandbox, which
-- reaches GitHub through a proxy that adds the token (crates/mc-github).
--
-- The files, with what they model:
--   Prelude, with Prelude.Tests, Prelude.Lists and Prelude.Text: Boolean tests, lists and the
--     operations of `str` that the source calls.
--   Json: the values of `serde_json`, a parameter with the laws that are relied on.
--   Session, Session.Cut, Session.Title: session.rs; `Session` and `Turn` are its structs, `clip_title`,
--     `display_title`, `compaction_cut` and `compact` its functions.
--   Transcript, Transcript.Keep: how the turns of a conversation belong together, stated
--     without the code, and what keeps it.
--   Event, Event.Protocol: event.rs, and what a sequence of events promises.
--   Chat, Chat.Deltas, Chat.Tools: chat.rs; `apply` is `ChatLog::apply`, `from_session` its
--     namesake.
--   Jobs, Jobs.Output, Jobs.Decoded: jobs.rs; the three statics are the record `Registry`, and
--     each of its functions is a call that runs through by itself.
--   Sandbox: backend.rs as the agent calls it; a shell, its files and the clock are parameters.
--   Tools, Tools.Shell, Tools.Commands, Tools.Definitions with its three children, Tools.Quote,
--     Tools.Edit, Tools.Kept, Tools.Offered: tools.rs.
--   Wire, Wire.Data, Wire.Calls, Wire.Chunks: wire.rs; `push` and `finish` are the accumulator's.
--   Agent, Agent.Config, Agent.Summary, Agent.Stream, Agent.Turn: lib.rs; `summarize`, `stream_once`,
--     `stream_with_retry` and `run_turn_cancellable` are the methods of the same names. Their
--     loops are cut into one function for each way on, which is given the rest of the loop.
--   Library, Library.Stored, Library.Refined: library.rs and store.rs. Worker, Worker.Idle,
--     Worker.Saved: worker.rs.
--   Cancel, Cancel.Woken: cancel.rs; the steps of `cancelled` and the two halves of `cancel` are
--     interleaved one by one.
--   Files, Files.Normal: files.rs. GuestFs, GuestFs.Inside, GuestFs.Ends, GuestFs.Listing,
--     GuestFs.Sorted: fs.rs; `resolve` is the loop of its namesake, and a host path is the list of
--     its names.
--   Launch, Launch.Guest, Launch.Run, Launch.Confined: exec.rs and backend.rs; Agent.Turn.Confined and
--     Worker.Confined put the agent and its worker on the sandbox of the device. Dns, Dns.Servers: dns.rs. Rootfs,
--     Rootfs.Checked: rootfs.rs. All of crates/mc-sandbox.
--   Markdown, Markdown.Inlines, Markdown.Runs, Markdown.Kept: markdown.rs of crates/mc-ui. GitPane,
--     GitPane.Shown, GitPane.Commands, GitPane.Signed: the worker of git.rs there. Prompt, Prompt.Delivered: prompt.rs there.
--   Maps: android.rs of crates/mc-sandbox. Bootstrap, Bootstrap.Announced: bootstrap.rs and network.rs
--     of apps/android. Device, Device.Awake: agent_task.rs there. Screen, Screen.Synced, Screen.Ordered: chat.rs of crates/mc-ui;
--     each of the two tasks that write the log takes its own steps. Terminal, Terminal.Delivered:
--     terminal.rs there. Clipboard: clipboard.rs there. Credentials: credentials.rs of apps/android.
--   Github: lib.rs and token.rs of crates/mc-github. Github.Command, Github.Status, Github.Git with
--     the modules below them: git.rs. Github.Proxy, Github.Proxy.Guarded: proxy.rs.
--   Tests: a concrete JSON, a server and a sandbox, and the theorems applied there.
--
-- State is passed explicitly: a function that reaches outside takes the world and returns it, and
-- returns the events in the order in which they are emitted. A stop may come at any moment: it is
-- read from the world wherever the source reads `Cancel`, and a stream may be interrupted at each
-- frame.
--
-- Fuel. The rounds of a turn and the retries of a request are counted down from the source's own
-- constants, MAX_TOOL_ROUNDS and MAX_STREAM_RETRIES, so no bound is added. The loop over the links of
-- a guest path runs on fuel, which is enough where a link holds 4095 bytes at most: a round takes a
-- name away, or is one of the MAX_LINK_HOPS that put in 4096 at most. All other recursion is on the
-- structure of a list or a text, or on its length.
--
-- Parameters, since they are no code of the repository: serde_json, reqwest and the event source,
-- tokio, hyper, pulldown_cmark, tar,
-- SHA-256, base64, the check of UTF-8, the processes of the sandbox, the clock, UUIDs and the file
-- system of the host. The text that an
-- error of theirs prints is theirs too. Numbers of tokens keep their 32 bits. A character is a
-- code point; `to_ascii_lowercase` maps ASCII only.
--
-- Not modelled: the drawing of the screens (crates/mc-ui, apps), the terminal (crates/mc-pty), the set-up
-- of a child process for the operating system, a poisoned lock, the sizes that files.rs prints, the
-- vendored crates in patches, what other threads do between two locks of jobs.rs, the bytes in the
-- file of a chat, which is kept as the session that it stands for, and log lines but those of Device.
pub mod Prelude
pub mod Json
pub mod Session
pub mod Jobs
pub mod Sandbox
pub mod Tools
pub mod Wire
pub mod Transcript
pub mod Event
pub mod Chat
pub mod Agent
pub mod Library
pub mod Files
pub mod Cancel
pub mod Device
pub mod Dns
pub mod GuestFs
pub mod Launch
pub mod Prompt
pub mod Rootfs
pub mod Markdown
pub mod GitPane
pub mod Github
pub mod Worker
pub mod Maps
pub mod Bootstrap
pub mod Credentials
pub mod Clipboard
pub mod Terminal
pub mod Screen
pub mod Tests
