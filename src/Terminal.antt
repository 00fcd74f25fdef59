-- ===== src/Terminal.antt =====
-- The input of the terminal (crates/mc-ui/src/terminal.rs): bytes are queued from any thread, and a
-- task delivers them to the shell that is running. What a shell was written is kept with it.
pub mod Delivered
use mobile_coder.Prelude.{
  ℕ, String, Bool, true, false, Option, none, some, List, [], ◌∷◌, ◌++◌, length, ltb, eqb,
  if◌then◌else◌,
}

pub record Handle : Type 0 where
  pub id : ℕ
  pub written : List (List ℕ)

-- A shell, or the reason why there is none; none before the first start.
pub data ShellSession : Type 0 where
  not_started : ShellSession
  started : Handle → ShellSession
  ended : (reason : String) → ShellSession

pub record Terminal : Type 0 where
  -- `INPUT`
  pub queue : List (List ℕ)
  pub session : ShellSession

abbrev pub max_queued : ℕ
max_queued = 256

unfoldable pub send_input : List ℕ → Terminal → Terminal
send_input bytes t =
    if ltb (length t.queue) max_queued then record t { queue = t.queue ++ bytes ∷ [] } else t

-- `drain_input`
abbrev pub drain_input : Terminal → List (List ℕ) × Terminal
drain_input t = (t.queue, record t { queue = [] })

-- Each chunk is written in turn; an error of a write is passed over.
abbrev pub write_all : List (List ℕ) → ShellSession → ShellSession
write_all chunks (started h) = started (record h { written = h.written ++ chunks })
write_all chunks s = s

-- One round of the task that delivers.
unfoldable pub deliver_input : Terminal → Terminal
deliver_input t =
    let (chunks, drained) = drain_input t in
    record drained { session = write_all chunks drained.session }

-- The shell of a handle was closed; another one may have taken its place.
abbrev pub exit_of : ℕ → ShellSession → ShellSession
exit_of id (started h) = if eqb h.id id then ended "The shell exited." else started h
exit_of id s = s

unfoldable pub watch_exit : ℕ → Terminal → Terminal
watch_exit id t = record t { session = exit_of id t.session }
